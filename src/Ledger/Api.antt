-- ===== src/Ledger/Api.antt =====
-- ledger/ledger-api.c: the data of a command go to the device in APDUs of at most 250 bytes of data.
pub mod Chunks
mod Tests
use libaergo.Base.{
  ℕ, zero, suc, ◌+◌, ◌-◌, Bool, true, false, Option, none, some, List, [], ◌∷◌, ◌++◌,
}
use libaergo.Base.{ltb, ◌==◌, if◌then◌else◌, length, take, drop}
use libaergo.Ledger.Hid.{Answer, answer, io_error, out_of_bounds, answer_no_fuel}

-- The functions of dongleComm.c, on the state of the device and of the library; `error` is the text
-- at the caller's pointer.
pub record Dongle (D : Type 0) : Type 0 where
  pub init_dongle : D → Option (List ℕ) → D × Option (List ℕ) × Bool
  pub get_first_dongle : D → D × Bool
  pub send_apdu_dongle : D → List ℕ → List ℕ → D × Answer
  pub close_dongle : D → D
  pub exit_dongle : D → D

-- The values of `result` and of *psw: a number, or -1.
pub data Code : Type 0 where
  code : ℕ → Code
  minus_one : Code

-- What ledger_send_apdu gives, with what the output buffer holds. `faulted` is an access outside of a
-- buffer, `waiting` that it has not come to an end with the fuel.
pub data Sent : Type 0 where
  sent : Code → Code → List ℕ → Sent
  faulted waiting : Sent

-- The second byte of the command's flags: the first and the last APDU of a command.
unfoldable pub flags : ℕ → ℕ → ℕ → ℕ → ℕ
flags apdu_p1 offset len datalen =
    if apdu_p1 == 0
    then (if offset == 0 then 1 else 0) + (if offset + len == datalen then 2 else 0)
    else apdu_p1

abbrev pub chunk : ℕ → ℕ
chunk left = if ltb 250 left then 250 else left

-- The APDU for the data from `offset` on, `left`.
unfoldable pub build_apdu : ℕ → ℕ → ℕ → ℕ → ℕ → List ℕ → List ℕ
unfolding flags
build_apdu cla ins apdu_p1 datalen offset left =
    let len = chunk (length left) in
    cla ∷ ins ∷ flags apdu_p1 offset len datalen ∷ 0 ∷ len ∷ take len left

-- What one pass over the data ends with: the loop is left for loc_exit, or it starts again, or the
-- result is that of the pass.
pub data Pass (D : Type 0) : Type 0 where
  exits : D → Code → Code → List ℕ → Pass D
  passes : D → ℕ → ℕ → List ℕ → Pass D
  pass_fault pass_waiting : D → Pass D

abbrev pub after_send : {D : Type 0} → ℕ → List ℕ → D × Answer → (D → ℕ → List ℕ → Pass D) → Pass D
after_send sw out (d, io_error) next = exits d minus_one (code sw) out
after_send sw out (d, out_of_bounds) next = pass_fault d
after_send sw out (d, answer_no_fuel) next = pass_waiting d
after_send sw out (d, answer message sw' out') next =
    if sw' == 0x9001
    then passes d 0 sw' out'
    else if sw' == 0x9000
    then (if length message == 0 then next d sw' out' else passes d (length message) sw' out')
    else exits d (code (length message)) (code sw') out'

abbrev pub after_pass : {D : Type 0} → Pass D → (D → ℕ → List ℕ → D × Sent) → D × Sent
after_pass (exits d result sw out) again = (d, sent result sw out)
after_pass (passes d zero sw out) again = again d sw out
after_pass (passes d (suc n) sw out) again = (d, sent (code (suc n)) (code sw) out)
after_pass (pass_fault d) again = (d, faulted)
after_pass (pass_waiting d) again = (d, waiting)

module _ {D : Type 0} (dongle : Dongle D) where
  -- The inner loop; `left` are the data from `offset` on.
  unfoldable pub pass : ℕ → ℕ → ℕ → ℕ → ℕ → D → ℕ → List ℕ → ℕ → List ℕ → Pass D
  unfolding build_apdu
  pass zero cla ins apdu_p1 datalen d offset left sw out = pass_waiting d
  pass (suc fuel) cla ins apdu_p1 datalen d offset [] sw out = passes d 0 sw out
  pass (suc fuel) cla ins apdu_p1 datalen d offset (x ∷ xs) sw out =
      let left : List ℕ = x ∷ xs in
      let len = chunk (length left) in
      let apdu = build_apdu cla ins apdu_p1 datalen offset left in
      after_send sw out (dongle.send_apdu_dongle d apdu out) (λ d' sw' out'.
        pass fuel cla ins apdu_p1 datalen d' (offset + len) (drop len left) sw' out')

  -- The outer loop: one pass after the other until there is a result.
  unfoldable pub send_loop : ℕ → ℕ → ℕ → ℕ → List ℕ → D → ℕ → List ℕ → D × Sent
  unfolding pass
  send_loop zero cla ins apdu_p1 bytes d sw out = (d, waiting)
  send_loop (suc fuel) cla ins apdu_p1 bytes d sw out =
      after_pass (pass (suc (length bytes)) cla ins apdu_p1 (length bytes) d 0 bytes sw out)
        (λ d' sw' out'. send_loop fuel cla ins apdu_p1 bytes d' sw' out')

  -- The number of passes is the fuel: a device may ask for the first APDU again without end.
  unfoldable pub ledger_send_apdu :
      ℕ → D → ℕ → ℕ → ℕ → List ℕ → List ℕ → Option (List ℕ) → D × Option (List ℕ) × Sent
  unfolding send_loop
  ledger_send_apdu fuel d cla ins apdu_p1 bytes out error =
      let cleared : Option (List ℕ) = elim error [ none ↦ none | some text ↦ some [] ] in
      let (d1, error', ready) = dongle.init_dongle d cleared in
      let (d2, found) = dongle.get_first_dongle d1 in
      let (d3, result) = send_loop fuel cla ins apdu_p1 bytes d2 0 out in
      if ready
      then if found
        then (dongle.exit_dongle (dongle.close_dongle d3), error', result)
        else (dongle.exit_dongle d2, error', sent minus_one minus_one out)
      else (dongle.exit_dongle d1, error', sent minus_one (code 0) out)
