-- ===== src/Ledger/Layer/RoundTrip.antt =====
-- wrapCommandAPDU and unwrapReponseAPDU, one after the other.
use libaergo.Base.{
  ℕ, suc, ◌+◌, ◌-◌, ◌*◌, ◌/◌, ◌%◌, ◌^◌, ◌≤◌, ◌<◌, ◌≡◌, refl, ap, sym, ◌∙◌, arith, inl, inr,
}
use libaergo.Base.{List, ◌∷◌, ◌++◌, take, drop, replicate, length, append_assoc, ltb, false}
use libaergo.Base.{
  length-append, length-take, length-drop, length-replicate, min, le→ltb, le-cases,
  take-append-drop, take-length_append, drop-length_append,
}
use native.Mathlib.Nat.{mod-eq_of_lt}
use libaergo.Ledger.Layer.{packet_header, minus, block_size, wrapped, wrap_command_apdu}
use libaergo.Ledger.Layer.{unwrapped, unwrap_loop, unwrap_response_apdu, empty_is_more}
use libaergo.Ledger.Layer.Packets.{packets, zeros, padded, wrap_loop-packets, packets-long}
use libaergo.Ledger.Layer.Unwrap.{check_header-append, not_empty, unwrap_loop-packets}

-- What wrapCommandAPDU writes before the zeros.
unfoldable pub frame : ℕ → ℕ → ℕ → List ℕ → List ℕ
unfolding packets
frame channel packet_size fuel command =
    let n = length command in
    let block = block_size n (minus packet_size 7) in
    (packet_header channel 0 ++ (n / 256 % 256 ∷ n % 256 ∷ take block command))
    ++ packets fuel channel packet_size 1 (drop block command)

module _ (channel packet_size : ℕ) (h : 5 < packet_size) (small : packet_size < 2 ^ 32) where
  frame-long :
      (fuel : ℕ) (command : List ℕ)
      → min fuel (length command) ≤ length (frame channel packet_size fuel command)
  unfolding frame
  frame-long fuel command =
      let n = length command in
      let block = block_size n (minus packet_size 7) in
      let first : List ℕ =
        packet_header channel 0 ++ (n / 256 % 256 ∷ n % 256 ∷ take block command) in
      let others : List ℕ = packets fuel channel packet_size 1 (drop block command) in
      omega (
        arith,
        length-append first others,
        length-take block command,
        length-drop block command,
        packets-long channel packet_size h small fuel 1 (drop block command),
      )

  -- For packets of at least 7 and fewer than 2 ^ 32 bytes: if the packets of a command, filled up
  -- with zeros to whole packets, fit into the output, then wrapCommandAPDU succeeds and writes
  -- them: a packet with the length of the command and its first bytes, and packets numbered from 1
  -- with the rest.
  pub wrap_command_apdu-frame :
      (command : List ℕ) (out_length : ℕ)
      → 7 ≤ packet_size
      → let whole : List ℕ = frame channel packet_size (suc out_length) command in
        length whole + zeros packet_size (length whole) ≤ out_length
        → wrap_command_apdu channel command packet_size out_length
          ≡ wrapped (padded packet_size whole)
  unfolding wrap_command_apdu frame
  wrap_command_apdu-frame command out_length big k =
      let n = length command in
      let block = block_size n (minus packet_size 7) in
      let first : List ℕ =
        packet_header channel 0 ++ (n / 256 % 256 ∷ n % 256 ∷ take block command) in
      let others : List ℕ = packets (suc out_length) channel packet_size 1 (drop block command) in
      let below : block ≤ n = ground arith in
      let size : length first ≡ 7 + block = omega (arith, length-take block command, below) in
      let sum : length (first ++ others) ≡ length first + length others =
        length-append first others in
      let t1 : ltb packet_size 3 ≡ false = le→ltb packet_size 3 (omega (arith, big)) in
      let t2 : ltb out_length 7 ≡ false = le→ltb out_length 7 (omega (arith, k, size, sum)) in
      let t3 : ltb (out_length - 7) block ≡ false =
        le→ltb (out_length - 7) block (omega (arith, k, size, sum)) in
      rw (t1, t2, t3)
        (wrap_loop-packets channel packet_size h small (suc out_length) 1 (drop block command)
          (out_length - 7 - block) first
          (omega (
            arith,
            packets-long channel packet_size h small (suc out_length) 1 (drop block command),
            k,
            sum,
          ))
          (omega (arith, k, size, sum)))

  -- The first packet of a response of `n` bytes.
  unwrap_response_apdu-first :
      (hi lo n block : ℕ) (payload : List ℕ) (out_length : ℕ)
      → hi * 256 + lo ≡ n
      → block_size n (minus packet_size 7) ≡ block
      → n ≤ out_length
      → n ≤ length payload
      → 5 ≤ length payload
      → unwrap_response_apdu channel
          (packet_header channel 0 ++ (hi ∷ lo ∷ payload))
          packet_size
          out_length
        ≡ empty_is_more (
            unwrap_loop
              (8 + length payload)
              channel
              packet_size
              1
              (n - block)
              (drop block payload)
              (take block payload))
  unfolding unwrap_response_apdu
  unwrap_response_apdu-first hi lo n block payload out_length e eb fits whole long =
      let bytes : List ℕ = packet_header channel 0 ++ (hi ∷ lo ∷ payload) in
      let size : length bytes ≡ 7 + length payload = omega arith in
      let t1 : ltb (length bytes) 12 ≡ false = le→ltb (length bytes) 12 (omega (arith, long)) in
      let t2 : ltb out_length n ≡ false = le→ltb out_length n fits in
      let t3 : ltb (length bytes) (7 + n) ≡ false =
        le→ltb (length bytes) (7 + n) (omega (arith, whole)) in
      rw (t1, check_header-append (packet_header channel 0) (hi ∷ lo ∷ payload), e, t2, t3, eb)
        (ap
          (λ (k : ℕ). empty_is_more (
            unwrap_loop k channel packet_size 1 (n - block) (drop block payload)
              (take block payload)))
          {x = suc (length bytes)} {y = 8 + length payload} (omega arith))

  -- unwrapReponseAPDU finds the command in a frame, whatever follows it.
  pub unwrap_response_apdu-frame :
      (fuel : ℕ) (command junk : List ℕ) (out_length : ℕ)
      → length command < fuel
      → 0 < length command
      → length command < 2 ^ 16
      → length command ≤ out_length
      → 12 ≤ length (frame channel packet_size fuel command ++ junk)
      → unwrap_response_apdu channel
          (frame channel packet_size fuel command ++ junk)
          packet_size
          out_length
        ≡ unwrapped command
  unfolding frame
  unwrap_response_apdu-frame fuel command junk out_length f pos short fits long =
      let n = length command in
      let block = block_size n (minus packet_size 7) in
      let below : block ≤ n = ground arith in
      let others : List ℕ = packets fuel channel packet_size 1 (drop block command) in
      let payload : List ℕ = take block command ++ (others ++ junk) in
      let size : length (take block command) ≡ block =
        omega (arith, length-take block command, below) in
      let front : take block payload ≡ take block command =
        ap (λ (i : ℕ). take i payload) (sym size)
        ∙ take-length_append (take block command) (others ++ junk) in
      let back : drop block payload ≡ others ++ junk =
        ap (λ (i : ℕ). drop i payload) (sym size)
        ∙ drop-length_append (take block command) (others ++ junk) in
      let less : n - block ≡ length (drop block command) = sym (length-drop block command) in
      let total : length payload ≡ block + length (others ++ junk) =
        omega (arith, length-append (take block command) (others ++ junk), size) in
      let enough : n ≤ length payload = omega (
        arith,
        total,
        length-append others junk,
        packets-long channel packet_size h small fuel 1 (drop block command),
        less,
        f,
      ) in
      let hi = n / 256 % 256 in
      let lo = n % 256 in
      let cut : frame channel packet_size fuel command ++ junk
          ≡ packet_header channel 0 ++ (hi ∷ lo ∷ payload) =
        ap (λ t. packet_header channel 0 ++ (hi ∷ lo ∷ t))
          (append_assoc (take block command) others junk) in
      ap (λ t. unwrap_response_apdu channel t packet_size out_length) cut
      ∙ unwrap_response_apdu-first hi lo n block payload out_length (omega (arith, short)) refl fits
          enough (omega (arith, ap length cut, long))
      ∙ rw (front, back, less)
          (ap empty_is_more (
              unwrap_loop-packets channel packet_size h small fuel (8 + length payload) 1
                (drop block command) junk (take block command) (omega (arith, less, f))
                (omega (arith, less, enough))
              ∙ ap unwrapped (take-append-drop block command))
            ∙ not_empty command pos)

  padded-long : (out : List ℕ) → 0 < length out → packet_size ≤ length (padded packet_size out)
  padded-long out pos =
      let n = length out in
      let sum : length (padded packet_size out) ≡ n + zeros packet_size n =
        length-append out (replicate (zeros packet_size n) 0)
        ∙ ap (λ (i : ℕ). n + i) (length-replicate (zeros packet_size n) 0) in
      elim (le-cases packet_size n) [
        | inl le ↦ omega (arith, sum, le)
        | inr lt ↦
            let r : n % packet_size ≡ n = mod-eq_of_lt lt in
            let z : zeros packet_size n ≡ packet_size - n =
              ap (λ (t : ℕ). (packet_size - t) % packet_size) r
              ∙ mod-eq_of_lt (omega (arith, pos, lt)) in
            omega (arith, sum, z, lt)
      ]

  -- For packets of at least 12 and fewer than 2 ^ 32 bytes and a command of 1 to 65535 bytes: if
  -- the packets of the command, filled up with zeros, fit into the output, then wrapCommandAPDU
  -- writes them and succeeds, and unwrapReponseAPDU on what it wrote, for a buffer that the command
  -- fits into, gives the command.
  pub unwrap_response_apdu-wrap_command_apdu :
      (command : List ℕ) (out_length out_length' : ℕ)
      → 12 ≤ packet_size
      → 0 < length command
      → length command < 2 ^ 16
      → length (padded packet_size (frame channel packet_size (suc out_length) command))
        ≤ out_length
      → length command ≤ out_length'
      → let bytes : List ℕ =
          padded packet_size (frame channel packet_size (suc out_length) command) in
        (wrap_command_apdu channel command packet_size out_length ≡ wrapped bytes)
        × (unwrap_response_apdu channel bytes packet_size out_length' ≡ unwrapped command)
  unwrap_response_apdu-wrap_command_apdu command out_length out_length' big pos short room fits =
      let whole : List ℕ = frame channel packet_size (suc out_length) command in
      let n = length whole in
      let sum : length (padded packet_size whole) ≡ n + zeros packet_size n =
        length-append whole (replicate (zeros packet_size n) 0)
        ∙ ap (λ (i : ℕ). n + i) (length-replicate (zeros packet_size n) 0) in
      let enough : min (suc out_length) (length command) ≤ n =
        frame-long (suc out_length) command in
      (
        wrap_command_apdu-frame command out_length (omega (arith, big)) (omega (arith, sum, room)),
        unwrap_response_apdu-frame (suc out_length) command (replicate (zeros packet_size n) 0)
            out_length' (omega (arith, enough, sum, room)) pos short fits
            (omega (arith, padded-long whole (omega (arith, enough, pos)), big)),
      )
