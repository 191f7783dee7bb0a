-- ===== src/Ledger/Hid/Endless.antt =====
-- The loop of sendApduHidapi that reads, after a response of length zero.
use libaergo.Base.{
  ℕ, zero, suc, ◌+◌, ◌-◌, ◌≤◌, ◌≡◌, refl, ap, ◌∙◌, arith, some, List, [], ◌++◌, take, drop, length,
  length-take, take-append-drop, false,
}
use libaergo.Ledger.Layer.{more, unwrap_response_apdu}
use libaergo.Ledger.Layer.Empty.{empty_response, empty_response-more}
use libaergo.Ledger.Hid.{channel, Hid, answer_no_fuel, read_loop, reads_behind}

take-empty_response :
    (offset : ℕ) (rest : List ℕ)
    → 7 ≤ offset
    → take offset (empty_response channel rest) ≡ empty_response channel (take (offset - 7) rest)
take-empty_response offset rest h =
    ap (λ (n : ℕ). take n (empty_response channel rest)) {x = offset}
      {y = suc (suc (suc (suc (suc (suc (suc (offset - 7)))))))} (omega arith)

take-drop_all : (n : ℕ) (xs : List ℕ) → take n xs ++ drop (n + 0) xs ≡ xs
take-drop_all n xs =
    ap (λ (k : ℕ). take n xs ++ drop k xs) {x = n + 0} {y = n} (omega arith) ∙ take-append-drop n xs

quiet_read :
    (offset : ℕ) (rest : List ℕ) → reads_behind (empty_response channel rest) offset ≡ false
quiet_read offset rest = ground arith

module _ {D : Type 0} (hid : Hid D) (d : D)
    (silent : hid.hid_read_timeout d 64 ≡ (d, some [])) where
  asks_more :
      (offset out_length : ℕ) (rest : List ℕ)
      → 12 ≤ offset
      → 5 ≤ length rest
      → unwrap_response_apdu channel (take offset (empty_response channel rest)) 64 out_length
        ≡ more
  asks_more offset out_length rest h k =
      ap (λ t. unwrap_response_apdu channel t 64 out_length)
        (take-empty_response offset rest (omega arith))
      ∙ empty_response-more (take (offset - 7) rest) out_length
          (omega (arith, length-take (offset - 7) rest))

  -- If the buffer of sendApduHidapi starts with the first packet of a response that says the length
  -- zero, with at least 5 bytes more, and hid_read_timeout, on a device whose state stays the same,
  -- gives no bytes each time, then the loop that reads does not end, whatever the fuel, once a
  -- report was counted.
  pub read_loop-endless :
      (fuel offset : ℕ) (rest out : List ℕ)
      → 12 ≤ offset
      → 5 ≤ length rest
      → read_loop hid fuel d (empty_response channel rest) offset out ≡ (d, answer_no_fuel)
  unfolding read_loop
  read_loop-endless zero offset rest out h k = refl
  read_loop-endless (suc fuel) offset rest out h k =
      rw (asks_more offset (length out) rest h k, read_loop, quiet_read offset rest)
        (rw silent (
          ap (λ t. read_loop hid fuel d t (offset + 64) out)
            (take-drop_all offset (empty_response channel rest))
          ∙ read_loop-endless fuel (offset + 64) rest out (omega arith) k))
