-- ===== src/Ledger/Hid/Whole.antt =====
-- sendApduHidapi as a whole: a command goes out in packets, the response comes back in packets.
use libaergo.Base.{
  ℕ, zero, suc, ◌+◌, ◌-◌, ◌*◌, ◌≤◌, ◌<◌, ◌≡◌, refl, ap, sym, ◌∙◌, arith, true, false,
}
use libaergo.Base.{
  List, [], ◌∷◌, ◌++◌, take, drop, flatten, length, ltb, le→ltb, length-append, take-length_append,
  drop-length_append, get_or,
}
use libaergo.Ledger.Layer.{wrapped, wrap_command_apdu}
use libaergo.Ledger.Layer.RoundTrip.{unwrap_response_apdu-wrap_command_apdu}
use libaergo.Ledger.Layer.Sizes.{padded-frame_short}
use libaergo.Ledger.Hid.{
  channel, Hid, write_at, answer, split_status, written, write_loop, send_apdu_hidapi,
}
use libaergo.Ledger.Hid.Exchange.{Reads, packets_of, read_response-reports, length-write_at}

-- The device takes these reports of 64 bytes one after the other.
pub data Writes {D : Type 0} (hid : Hid D) : D → List (List ℕ) → D → Type 0 where
  all_written : {d : D} → Writes hid d [] d
  write :
      {d d1 d2 : D} {report : List ℕ} {reports : List (List ℕ)}
      → hid.hid_write d report ≡ (d1, true)
      → length report ≡ 64
      → Writes hid d1 reports d2
      → Writes hid d (report ∷ reports) d2

length-flatten :
    {D : Type 0} {hid : Hid D} {d d' : D} {reports : List (List ℕ)}
    → Writes hid d reports d'
    → length (flatten reports) ≡ 64 * length reports
length-flatten all_written = refl
length-flatten (write {report = report} {reports = reports} step size w) =
    omega (arith, length-append report (flatten reports), size, length-flatten w)

get_or-length :
    (xs : List ℕ) (a b : ℕ)
    → (get_or (xs ++ (a ∷ b ∷ [])) (length xs) 0 ≡ a)
      × (get_or (xs ++ (a ∷ b ∷ [])) (suc (length xs)) 0 ≡ b)
get_or-length [] a b = (refl, refl)
get_or-length (x ∷ xs) a b = get_or-length xs a b

-- The status word is what the last two bytes say, the data what is before them.
split_status-append :
    (message out : List ℕ) (hi lo : ℕ)
    → split_status (message ++ (hi ∷ lo ∷ [])) out
      ≡ answer message (hi * 256 + lo) (write_at 0 (message ++ (hi ∷ lo ∷ [])) out)
unfolding split_status
split_status-append message out hi lo =
    let whole : List ℕ = message ++ (hi ∷ lo ∷ []) in
    let size : length whole ≡ length message + 2 = length-append message (hi ∷ lo ∷ []) in
    let test : ltb (length whole) 2 ≡ false = le→ltb (length whole) 2 (omega (arith, size)) in
    let first : length whole - 2 ≡ length message = omega (arith, size) in
    let second : length whole - 1 ≡ suc (length message) = omega (arith, size) in
    let (e1, e2) = get_or-length message hi lo in
    rw (test, first, second) (rw (take-length_append message (hi ∷ lo ∷ []), e1, e2) refl)

module _ {D : Type 0} (hid : Hid D) where
  write_loop-reports :
      (fuel : ℕ) {d d' : D} (reports : List (List ℕ))
      → Writes hid d reports d'
      → length (flatten reports) < fuel
      → write_loop hid fuel d (flatten reports) ≡ written d'
  unfolding write_loop
  write_loop-reports zero reports w f = absurd (omega arith)
  write_loop-reports (suc fuel) [] all_written f = refl
  write_loop-reports (suc fuel) ([] ∷ reports) (write step size w) f = absurd (omega (arith, size))
  write_loop-reports (suc fuel) ((x ∷ xs) ∷ reports) (write step size w) f =
      let report : List ℕ = x ∷ xs in
      let others = flatten reports in
      let front : take 64 (report ++ others) ≡ report =
        ap (λ (n : ℕ). take n (report ++ others)) (sym size) ∙ take-length_append report others in
      let back : drop 64 (report ++ others) ≡ others =
        ap (λ (n : ℕ). drop n (report ++ others)) (sym size) ∙ drop-length_append report others in
      rw (front, step, back)
        (write_loop-reports fuel reports w (omega (arith, f, length-append report others, size)))

  -- A command of 1 to 255 bytes and a response of at most 253 bytes and the two of the status word,
  -- which the output buffer holds: if the device takes the packets of the command and then gives
  -- those of the response, none more than needed, then sendApduHidapi gives the data and the status
  -- word of the response, whatever its buffer of 400 bytes held.
  pub send_apdu_hidapi-answers :
      {d d1 d2 : D} (apdu message : List ℕ) (hi lo : ℕ) (stack out : List ℕ)
      (requests replies : List (List ℕ))
      → length stack ≡ 400
      → 0 < length apdu
      → length apdu ≤ 255
      → length message ≤ 253
      → length message + 2 ≤ length out
      → Writes hid d requests d1
      → flatten requests ≡ packets_of apdu 400
      → Reads hid d1 replies d2
      → flatten replies ≡ packets_of (message ++ (hi ∷ lo ∷ [])) 400
      → 64 * length replies < 73 + length message
      → send_apdu_hidapi hid d apdu stack out
        ≡ (d2, answer message (hi * 256 + lo) (write_at 0 (message ++ (hi ∷ lo ∷ [])) out))
  unfolding send_apdu_hidapi
  send_apdu_hidapi-answers {d2 = d2} apdu message hi lo stack out requests replies e pos short fits
        room w ew r er few =
      let whole : List ℕ = message ++ (hi ∷ lo ∷ []) in
      let size : length whole ≡ length message + 2 = length-append message (hi ∷ lo ∷ []) in
      let small = padded-frame_short channel 401 apdu short in
      let wraps : wrap_command_apdu channel apdu 64 400 ≡ wrapped (flatten requests) =
        (unwrap_response_apdu-wrap_command_apdu channel 64 (omega arith) (omega arith) apdu 400
          (length apdu) (omega arith) pos (omega (arith, short)) small (omega arith)).0
        ∙ ap wrapped (sym ew) in
      let sends = write_loop-reports (suc (length (flatten requests))) requests w (omega arith) in
      let buffer : List ℕ = write_at 0 (flatten requests) stack in
      let held : length buffer ≡ 400 =
        length-write_at 0 (flatten requests) stack (omega (arith, ap length ew, small, e)) ∙ e in
      let few' : 64 * length replies < 384 = omega (arith, few, fits) in
      rw (e, send_apdu_hidapi, wraps)
        (rw sends (
          read_response-reports hid whole 400 out (omega (arith, size)) (omega (arith, size, fits))
            (omega (arith, size, room))
            (padded-frame_short channel 401 whole (omega (arith, size, fits))) buffer replies r er
            (omega (arith, few', few, fits)) (omega (arith, held, few')) (omega (arith, few, size))
          ∙ ap (λ a. (d2, a)) (split_status-append message out hi lo)))
