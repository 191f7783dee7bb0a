-- ===== src/Ledger/Layer/Unwrap.antt =====
-- The loop of unwrapReponseAPDU over packets that wrapCommandAPDU wrote.
use libaergo.Base.{ℕ, zero, suc, ◌+◌, ◌-◌, ◌^◌, ◌≤◌, ◌<◌, ◌≡◌, refl, ap, sym, ◌∙◌, arith}
use libaergo.Base.{
  List, [], ◌∷◌, ◌++◌, take, drop, length, append-nil, append_assoc, ltb, ◌==◌, false,
}
use libaergo.Base.{
  length-append, length-take, length-drop, le→ltb, take-append-drop, take-length_append,
  drop-length_append,
}
use libaergo.Ledger.Layer.{packet_header, minus, block_size}
use libaergo.Ledger.Layer.{unwrapped, unwrap_loop, check_header, matches, empty_is_more}
use libaergo.Ledger.Layer.Packets.{packets, packet, next_block, next_block_bounds}

pub check_header-append : (hs rest : List ℕ) → check_header hs (hs ++ rest) ≡ matches
unfolding check_header
check_header-append [] rest = refl
check_header-append (x ∷ hs) rest = ground (arith, check_header-append hs rest)

pub not_empty :
    (command : List ℕ) → 0 < length command → empty_is_more (unwrapped command) ≡ unwrapped command
not_empty [] h = absurd (omega arith)
not_empty (x ∷ xs) h = refl

module _ (channel packet_size : ℕ) (h : 5 < packet_size) (small : packet_size < 2 ^ 32) where
  unwrap_loop-step :
      (fuel sequence n block : ℕ) (payload out : List ℕ)
      → block_size (suc n) (minus packet_size 5) ≡ block
      → block ≤ length payload
      → unwrap_loop
          (suc fuel)
          channel
          packet_size
          sequence
          (suc n)
          (packet_header channel sequence ++ payload)
          out
        ≡ unwrap_loop fuel channel packet_size
            (sequence + 1)
            (suc n - block)
            (drop block payload)
            (out ++ take block payload)
  unfolding unwrap_loop
  unwrap_loop-step fuel sequence n block payload out e k =
      let fits : ltb (length payload) block ≡ false = le→ltb (length payload) block k in
      let some_left : (suc (suc (suc (suc (suc (length payload))))) == 0) ≡ false = ground arith in
      rw (e, check_header-append (packet_header channel sequence) payload, fits) (rw some_left refl)

  pub unwrap_loop-packets :
      (fuel fuel' sequence : ℕ) (left junk out : List ℕ)
      → length left < fuel
      → length left < fuel'
      → unwrap_loop fuel' channel packet_size sequence
          (length left)
          (packets fuel channel packet_size sequence left ++ junk)
          out
        ≡ unwrapped (out ++ left)
  unfolding packets
  unwrap_loop-packets zero fuel' sequence left junk out f f' = absurd (omega arith)
  unwrap_loop-packets (suc fuel) zero sequence left junk out f f' = absurd (omega arith)
  unwrap_loop-packets (suc fuel) (suc fuel') sequence [] junk out f f' =
      unfold unwrap_loop in sym (ap unwrapped (append-nil out))
  unwrap_loop-packets (suc fuel) (suc fuel') sequence (x ∷ xs) junk out f f' =
      let left : List ℕ = x ∷ xs in
      let block = next_block packet_size left in
      let (lo, hi) = next_block_bounds packet_size x xs h small in
      let others : List ℕ = packets fuel channel packet_size (sequence + 1) (drop block left) in
      let payload : List ℕ = take block left ++ (others ++ junk) in
      let header : List ℕ = packet_header channel sequence in
      let size : length (take block left) ≡ block = omega (arith, length-take block left, hi) in
      let cut : (packet channel packet_size sequence left ++ others) ++ junk ≡ header ++ payload =
        append_assoc (packet channel packet_size sequence left) others junk
        ∙ append_assoc header (take block left) (others ++ junk) in
      let front : take block payload ≡ take block left =
        ap (λ (i : ℕ). take i payload) (sym size)
        ∙ take-length_append (take block left) (others ++ junk) in
      let back : drop block payload ≡ others ++ junk =
        ap (λ (i : ℕ). drop i payload) (sym size)
        ∙ drop-length_append (take block left) (others ++ junk) in
      let less : length left - block ≡ length (drop block left) = sym (length-drop block left) in
      ap (λ t. unwrap_loop (suc fuel') channel packet_size sequence (length left) t out) cut
      ∙ unwrap_loop-step fuel' sequence (length xs) block payload out refl
          (omega (arith, size, length-append (take block left) (others ++ junk)))
      ∙ rw (front, back, less)
          (unwrap_loop-packets fuel fuel' (sequence + 1) (drop block left) junk
              (out ++ take block left) (omega (arith, length-drop block left, lo, f))
              (omega (arith, length-drop block left, lo, f'))
            ∙ ap unwrapped (
                append_assoc out (take block left) (drop block left)
                ∙ ap (λ t. out ++ t) (take-append-drop block left)))
