-- ===== src/Ledger/Hid/Exchange.antt =====
-- What sendApduHidapi reads from a device whose reports are the packets of a response.
use libaergo.Base.{
  ℕ, zero, suc, ◌+◌, ◌*◌, ◌/◌, ◌%◌, ◌^◌, ◌≤◌, ◌<◌, ◌≡◌, refl, ap, sym, ◌∙◌, arith, false, some,
}
use libaergo.Base.{
  List, [], ◌∷◌, ◌++◌, take, drop, flatten, length, append-nil, append_assoc, ltb, le→ltb,
  length-append, length-take, length-drop, split_prefix, take-length_append,
}
use libaergo.Ledger.Layer.{packet_header, unwrapped, more, unwrap_response_apdu}
use libaergo.Ledger.Layer.Packets.{padded}
use libaergo.Ledger.Layer.RoundTrip.{frame, unwrap_response_apdu-wrap_command_apdu}
use libaergo.Ledger.Layer.Partial.{unwrap_response_apdu-more}
use libaergo.Ledger.Hid.{
  channel, Hid, write_at, split_status, writes_behind, read_loop, read_response,
}

-- The device gives these reports of 64 bytes one after the other.
pub data Reads {D : Type 0} (hid : Hid D) : D → List (List ℕ) → D → Type 0 where
  no_more : {d : D} → Reads hid d [] d
  next :
      {d d1 d2 : D} {report : List ℕ} {reports : List (List ℕ)}
      → hid.hid_read_timeout d 64 ≡ (d1, some report)
      → length report ≡ 64
      → Reads hid d1 reports d2
      → Reads hid d (report ∷ reports) d2

pub length-write_at :
    (offset : ℕ) (bytes buffer : List ℕ)
    → offset + length bytes ≤ length buffer
    → length (write_at offset bytes buffer) ≡ length buffer
length-write_at offset bytes buffer h = omega (
  arith,
  length-append (take offset buffer) (bytes ++ drop (offset + length bytes) buffer),
  length-append bytes (drop (offset + length bytes) buffer),
  length-take offset buffer,
  length-drop (offset + length bytes) buffer,
)

-- What lies before a place that was written, with what was written.
pub take-write_at :
    (offset : ℕ) (bytes buffer : List ℕ)
    → offset + length bytes ≤ length buffer
    → take (offset + length bytes) (write_at offset bytes buffer) ≡ take offset buffer ++ bytes
take-write_at offset bytes buffer h =
    let front : List ℕ = take offset buffer ++ bytes in
    let size : offset + length bytes ≡ length front =
      omega (arith, length-append (take offset buffer) bytes, length-take offset buffer) in
    let back : List ℕ = drop (offset + length bytes) buffer in
    ap (λ (n : ℕ). take n (write_at offset bytes buffer)) size
    ∙ ap (take (length front)) (sym (append_assoc (take offset buffer) bytes back))
    ∙ take-length_append front back

-- The packets of a response.
abbrev pub packets_of : List ℕ → ℕ → List ℕ
packets_of response room = padded 64 (frame channel 64 (suc room) response)

packets_of-header :
    (response : List ℕ) (room : ℕ)
    → (rest : List ℕ) × (packets_of response room
        ≡ packet_header channel 0 ++ (length response / 256 % 256 ∷ length response % 256 ∷ rest))
unfolding frame
packets_of-header response room = (_, refl)

length-packets_of : (response : List ℕ) (room : ℕ) → 0 < length (packets_of response room)
length-packets_of response room =
    let (rest, e) = packets_of-header response room in rw e (omega arith)

module _ (response : List ℕ) (room out_length : ℕ) (pos : 0 < length response)
    (short : length response < 2 ^ 16) (fits : length response ≤ out_length) where
  -- Fewer bytes of the packets than the response has ask for more.
  packets_of-more :
      (got rest : List ℕ)
      → got ++ rest ≡ packets_of response room
      → 12 ≤ length got
      → length got < 7 + length response
      → unwrap_response_apdu channel got 64 out_length ≡ more
  packets_of-more got rest e long less =
      let n = length response in
      let (tail, cut) = packets_of-header response room in
      let header : List ℕ = packet_header channel 0 ++ (n / 256 % 256 ∷ n % 256 ∷ []) in
      let (payload, e1, e2) =
        split_prefix header tail got rest (sym cut ∙ sym e) (omega (arith, long)) in
      let size : length got ≡ 7 + length payload = omega (arith, ap length e1) in
      let value : n / 256 % 256 * 256 + n % 256 ≡ n = omega (arith, short) in
      ap (λ bytes. unwrap_response_apdu channel bytes 64 out_length) e1
      ∙ unwrap_response_apdu-more channel (n / 256 % 256) (n % 256) payload out_length
          (omega (arith, value, fits)) (omega (arith, value, size, less))
          (omega (arith, size, long))

  -- The whole packets give the response.
  packets_of-whole :
      length (packets_of response room) ≤ room
      → unwrap_response_apdu channel (packets_of response room) 64 out_length ≡ unwrapped response
  packets_of-whole small =
      (unwrap_response_apdu-wrap_command_apdu channel 64 (omega arith) (omega arith) response room
        out_length (omega arith) pos short small fits).1

quiet :
    (report buffer : List ℕ) (offset : ℕ)
    → offset + length report ≤ length buffer
    → writes_behind buffer offset report ≡ false
quiet report buffer offset h = ground arith

module _ {D : Type 0} (hid : Hid D) (response : List ℕ) (room : ℕ) (out : List ℕ)
    (pos : 0 < length response) (short : length response < 2 ^ 16)
    (fits : length response ≤ length out) (small : length (packets_of response room) ≤ room) where
  read_loop-reports :
      (fuel : ℕ) {d d' : D} (got buffer : List ℕ) (offset : ℕ) (reports : List (List ℕ))
      → Reads hid d reports d'
      → take offset buffer ≡ got
      → offset ≡ length got
      → got ++ flatten reports ≡ packets_of response room
      → length reports < fuel
      → 64 ≤ offset
      → offset + 64 * length reports ≤ length buffer
      → offset + 64 * length reports < 71 + length response
      → read_loop hid fuel d buffer offset out ≡ (d', split_status response out)
  unfolding read_loop
  read_loop-reports zero got buffer offset reports r e1 e2 e3 f lo hi less = absurd (omega arith)
  read_loop-reports (suc fuel) got buffer offset [] no_more e1 e2 e3 f lo hi less =
      let whole : unwrap_response_apdu channel got 64 (length out) ≡ unwrapped response =
        ap (λ bytes. unwrap_response_apdu channel bytes 64 (length out)) (sym (append-nil got) ∙ e3)
        ∙ packets_of-whole response room (length out) pos short fits small in
      rw (e1, read_loop, whole) refl
  read_loop-reports (suc fuel) got buffer offset (report ∷ reports) (next {d1 = d1} step size r) e1
        e2 e3 f lo hi less =
      let part : unwrap_response_apdu channel got 64 (length out) ≡ more =
        packets_of-more response room (length out) pos short fits got (report ++ flatten reports) e3
          (omega (arith, e2, lo)) (omega (arith, e2, less)) in
      let fit : ltb (length buffer) offset ≡ false =
        le→ltb (length buffer) offset (omega (arith, hi)) in
      let within : offset + length report ≤ length buffer = omega (arith, size, hi) in
      let there : take (offset + 64) (write_at offset report buffer) ≡ got ++ report =
        ap (λ (n : ℕ). take (offset + n) (write_at offset report buffer)) (sym size)
        ∙ take-write_at offset report buffer within
        ∙ ap (λ t. t ++ report) e1 in
      let found = ap (λ bytes. unwrap_response_apdu channel bytes 64 (length out)) e1 ∙ part in
      rw (found, read_loop, fit)
        (rw step (
          rw (quiet report buffer offset within) (
            read_loop-reports fuel (got ++ report) (write_at offset report buffer) (offset + 64)
              reports r there (omega (arith, length-append got report, e2, size))
              (append_assoc got report (flatten reports) ∙ e3) (omega (arith, f))
              (omega (arith, lo)) (omega (arith, length-write_at offset report buffer within, hi))
              (omega (arith, less)))))

  -- sendApduHidapi, after the command is written: if the device gives the packets of a response as
  -- reports, in a number that the buffer holds and that is not greater than needed, then the
  -- response is put together from them.
  pub read_response-reports :
      {d d' : D} (buffer : List ℕ) (reports : List (List ℕ))
      → Reads hid d reports d'
      → flatten reports ≡ packets_of response room
      → length reports ≤ 6
      → 64 * length reports ≤ length buffer
      → 64 * length reports < 71 + length response
      → read_response hid d buffer out ≡ (d', split_status response out)
  unfolding read_response
  read_response-reports buffer [] r e few hi less =
      absurd (omega (arith, ap length e, length-packets_of response room))
  read_response-reports buffer (report ∷ reports) (next step size r) e few hi less =
      let within : 0 + length report ≤ length buffer = omega (arith, size, hi) in
      rw (step, read_response)
        (read_loop-reports 7 report (write_at 0 report buffer) 64 reports r
          (ap (λ (n : ℕ). take n (write_at 0 report buffer)) {x = 64} {y = 0 + length report}
              (omega (arith, size))
            ∙ take-write_at 0 report buffer within)
          (omega (arith, size)) e (omega (arith, few)) (omega arith)
          (omega (arith, length-write_at 0 report buffer within, hi)) (omega (arith, less)))
