-- ===== src/Ledger/Layer/Empty.antt =====
-- unwrapReponseAPDU on a response of length zero.
use libaergo.Base.{ℕ, ◌≤◌, ◌≡◌, refl, arith, List, ◌∷◌, ◌++◌, length, ltb, le→ltb, false}
use libaergo.Ledger.Layer.{more, unwrap_loop, check_header, unwrap_response_apdu, packet_header}

-- Bytes that start with the first packet of a response that says the length zero.
abbrev pub empty_response : ℕ → List ℕ → List ℕ
empty_response channel rest = packet_header channel 0 ++ (0 ∷ 0 ∷ rest)

pub empty_response-more :
    (rest : List ℕ) (out_length : ℕ)
    → 5 ≤ length rest
    → unwrap_response_apdu 0x101 (empty_response 0x101 rest) 64 out_length ≡ more
unfolding unwrap_response_apdu unwrap_loop check_header
empty_response-more rest out_length h =
    let long : ltb (length (empty_response 0x101 rest)) 12 ≡ false =
      le→ltb (length (empty_response 0x101 rest)) 12 (omega (arith, h)) in
    let whole : ltb (length (empty_response 0x101 rest)) 7 ≡ false =
      le→ltb (length (empty_response 0x101 rest)) 7 (omega arith) in
    let fits : ltb out_length 0 ≡ false = le→ltb out_length 0 (omega arith) in
    rw (long, whole, fits) refl
