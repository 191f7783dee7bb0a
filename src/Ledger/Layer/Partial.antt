-- ===== src/Ledger/Layer/Partial.antt =====
-- unwrapReponseAPDU on the first packets of a response.
use libaergo.Base.{
  ℕ, ◌+◌, ◌*◌, ◌≤◌, ◌<◌, ◌≡◌, refl, arith, true, false, List, ◌∷◌, ◌++◌, length, ltb, le→ltb,
  lt→ltb,
}
use libaergo.Ledger.Layer.{packet_header, more, unwrap_response_apdu}
use libaergo.Ledger.Layer.Unwrap.{check_header-append}

-- A response that is not there as a whole asks for more.
pub unwrap_response_apdu-more :
    (channel hi lo : ℕ) (payload : List ℕ) (out_length : ℕ)
    → hi * 256 + lo ≤ out_length
    → length payload < hi * 256 + lo
    → 5 ≤ length payload
    → unwrap_response_apdu channel (packet_header channel 0 ++ (hi ∷ lo ∷ payload)) 64 out_length
      ≡ more
unfolding unwrap_response_apdu
unwrap_response_apdu-more channel hi lo payload out_length fits short long =
    let bytes : List ℕ = packet_header channel 0 ++ (hi ∷ lo ∷ payload) in
    let size : length bytes ≡ 7 + length payload = omega arith in
    let n = hi * 256 + lo in
    let t1 : ltb (length bytes) 12 ≡ false = le→ltb (length bytes) 12 (omega (arith, long)) in
    let t2 : ltb out_length n ≡ false = le→ltb out_length n fits in
    let t3 : ltb (length bytes) (7 + n) ≡ true =
      lt→ltb (length bytes) (7 + n) (omega (arith, short)) in
    rw (t1, check_header-append (packet_header channel 0) (hi ∷ lo ∷ payload), t2, t3) refl
