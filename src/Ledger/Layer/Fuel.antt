-- ===== src/Ledger/Layer/Fuel.antt =====
-- The fuel of the loops of ledgerLayer.c is enough.
use libaergo.Base.{
  ℕ, zero, suc, ◌+◌, ◌-◌, ◌/◌, ◌%◌, ◌<◌, ◌≢◌, arith, inl, inr, Bool-cases, Bool, true, false, List,
  [], ◌∷◌, ◌++◌, take, drop, length, length-drop, ltb, ◌==◌, if◌then◌else◌,
}
use libaergo.Ledger.Layer.{
  packet_header, minus, block_size, wrapped, failed, no_fuel, pad, wrap_loop, wrap_command_apdu,
  Unwrapped, unwrapped, rejected, more, out_of_range, unwrap_no_fuel, HeaderCheck, matches, differs,
  too_short, check_header, after_check, unwrap_loop, empty_is_more, unwrap_length,
  unwrap_response_apdu,
}

if-ne : {A : Type 0} {x : A} (b : Bool) (s t : A) → s ≢ x → t ≢ x → (if b then s else t) ≢ x
if-ne true s t h k = h
if-ne false s t h k = k

after_check-ne :
    (c : HeaderCheck) (r : Unwrapped) → r ≢ unwrap_no_fuel → after_check c r ≢ unwrap_no_fuel
after_check-ne matches r h = h
after_check-ne differs r h = λ e. cc
after_check-ne too_short r h = λ e. cc

pad-ne-no_fuel : (packet_size room : ℕ) (out : List ℕ) → pad packet_size room out ≢ no_fuel
unfolding pad
pad-ne-no_fuel packet_size zero out =
    if-ne (length out % packet_size == 0) (wrapped out) failed (λ e. cc) (λ e. cc)
pad-ne-no_fuel packet_size (suc room) out =
    if-ne (length out % packet_size == 0) (wrapped out) (pad packet_size room (out ++ (0 ∷ [])))
      (λ e. cc) (pad-ne-no_fuel packet_size room (out ++ (0 ∷ [])))

wrap_loop-ne-no_fuel :
    (fuel channel packet_size sequence : ℕ) (left : List ℕ) (room : ℕ) (out : List ℕ)
    → room < fuel
    → wrap_loop fuel channel packet_size sequence left room out ≢ no_fuel
unfolding wrap_loop
wrap_loop-ne-no_fuel zero channel packet_size sequence left room out f = absurd (omega arith)
wrap_loop-ne-no_fuel (suc fuel) channel packet_size sequence [] room out f =
    pad-ne-no_fuel packet_size room out
wrap_loop-ne-no_fuel (suc fuel) channel packet_size sequence (x ∷ xs) room out f =
    let left : List ℕ = x ∷ xs in
    let block = block_size (length left) (minus packet_size 5) in
    let next : List ℕ = out ++ (packet_header channel sequence ++ take block left) in
    elim (Bool-cases (ltb room 5)) [
      | inl low ↦ rw low (λ e. cc)
      | inr high ↦ rw high (
          if-ne (ltb (room - 5) block) failed
            (wrap_loop fuel channel packet_size (sequence + 1) (drop block left) (room - 5 - block)
              next)
            (λ e. cc)
            (wrap_loop-ne-no_fuel fuel channel packet_size (sequence + 1) (drop block left)
              (room - 5 - block) next (ground (arith, high, f))))
    ]

pub wrap_command_apdu-ne-no_fuel :
    (channel : ℕ) (command : List ℕ) (packet_size out_length : ℕ)
    → wrap_command_apdu channel command packet_size out_length ≢ no_fuel
unfolding wrap_command_apdu
wrap_command_apdu-ne-no_fuel channel command packet_size out_length =
    let n = length command in
    let block = block_size n (minus packet_size 7) in
    let first : List ℕ =
      packet_header channel 0 ++ (n / 256 % 256 ∷ n % 256 ∷ take block command) in
    if-ne (ltb packet_size 3) failed _ (λ e. cc)
      (if-ne (ltb out_length 7) failed _ (λ e. cc)
        (if-ne (ltb (out_length - 7) _) failed _ (λ e. cc)
          (wrap_loop-ne-no_fuel (suc out_length) channel packet_size 1 (drop block command)
            (out_length - 7 - block) first (omega arith))))

unwrap_loop-ne-no_fuel :
    (fuel channel packet_size sequence left : ℕ) (bytes out : List ℕ)
    → length bytes < fuel
    → unwrap_loop fuel channel packet_size sequence left bytes out ≢ unwrap_no_fuel
unfolding unwrap_loop
unwrap_loop-ne-no_fuel zero channel packet_size sequence left bytes out f = absurd (omega arith)
unwrap_loop-ne-no_fuel (suc fuel) channel packet_size sequence zero bytes out f = λ e. cc
unwrap_loop-ne-no_fuel (suc fuel) channel packet_size sequence (suc n) [] out f = λ e. cc
unwrap_loop-ne-no_fuel (suc fuel) channel packet_size sequence (suc n) (b ∷ bytes) out f =
    let payload : List ℕ = drop 4 bytes in
    let block = block_size (suc n) (minus packet_size 5) in
    if-ne (suc (length bytes) == 0) more _ (λ e. cc)
      (after_check-ne (check_header (packet_header channel sequence) (b ∷ bytes)) _ (
        if-ne (ltb (length payload) block) more _ (λ e. cc)
          (unwrap_loop-ne-no_fuel fuel channel packet_size (sequence + 1) (suc n - block)
            (drop block payload) (out ++ take block payload)
            (omega (arith, f, length-drop block payload, length-drop 4 bytes)))))

empty_is_more-ne : (r : Unwrapped) → r ≢ unwrap_no_fuel → empty_is_more r ≢ unwrap_no_fuel
empty_is_more-ne (unwrapped []) h = λ e. cc
empty_is_more-ne (unwrapped (x ∷ xs)) h = h
empty_is_more-ne rejected h = h
empty_is_more-ne more h = h
empty_is_more-ne out_of_range h = h
empty_is_more-ne unwrap_no_fuel h = h

pub unwrap_response_apdu-ne-no_fuel :
    (channel : ℕ) (bytes : List ℕ) (packet_size out_length : ℕ)
    → unwrap_response_apdu channel bytes packet_size out_length ≢ unwrap_no_fuel
unfolding unwrap_response_apdu
unwrap_response_apdu-ne-no_fuel channel bytes packet_size out_length =
    let payload : List ℕ = drop 7 bytes in
    let n = unwrap_length (drop 5 bytes) in
    let block = block_size n (minus packet_size 7) in
    if-ne (ltb (length bytes) 12) more _ (λ e. cc)
      (after_check-ne (check_header (packet_header channel 0) bytes) _ (
        if-ne (ltb out_length _) rejected _ (λ e. cc)
          (if-ne (ltb (length bytes) _) more _ (λ e. cc)
            (empty_is_more-ne _ (
              unwrap_loop-ne-no_fuel (suc (length bytes)) channel packet_size 1 (n - block)
                (drop block payload) (take block payload)
                (omega (arith, length-drop 7 bytes, length-drop block payload)))))))
