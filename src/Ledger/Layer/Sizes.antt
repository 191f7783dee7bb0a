-- ===== src/Ledger/Layer/Sizes.antt =====
-- How long the packets of a command are.
use libaergo.Base.{
  ℕ, zero, suc, ◌+◌, ◌-◌, ◌*◌, ◌/◌, ◌%◌, ◌≤◌, ◌≡◌, refl, arith, inl, inr, le-cases, List, [], ◌∷◌,
  ◌++◌, take, drop, replicate, length, length-append, length-take, length-drop, length-replicate,
  drop_all,
}
use libaergo.Ledger.Layer.{packet_header, minus, block_size}
use libaergo.Ledger.Layer.Packets.{
  packet, packets, next_block, next_block_bounds, length-packet, zeros, padded,
}
use libaergo.Ledger.Layer.RoundTrip.{frame}

packets_nil :
    (fuel channel sequence : ℕ) (left : List ℕ) (block : ℕ)
    → block ≡ length left
    → length (packets fuel channel 64 sequence (drop block left)) ≡ 0
unfolding packets
packets_nil fuel channel sequence left block e =
    elim fuel as (λ f. length (packets f channel 64 sequence (drop block left)) ≡ 0) [
      | zero ↦ refl
      | suc f ↦ rw (drop_all block left (omega (arith, e))) refl
    ]

-- A packet of 64 bytes carries 59, so 59 bytes of the packets stand for at most 64 of the command, but
-- for the last packet.
packets-length :
    (fuel channel sequence : ℕ) (left : List ℕ)
    → 59 * length (packets fuel channel 64 sequence left) ≤ 64 * length left + 290
unfolding packets
packets-length zero channel sequence left = omega arith
packets-length (suc fuel) channel sequence [] = omega arith
packets-length (suc fuel) channel sequence (x ∷ xs) =
    let left : List ℕ = x ∷ xs in
    let block = next_block 64 left in
    let others : List ℕ = packets fuel channel 64 (sequence + 1) (drop block left) in
    let sum = length-append (packet channel 64 sequence left) others in
    let ih = packets-length fuel channel (sequence + 1) (drop block left) in
    let size = length-packet channel 64 (omega arith) (omega arith) sequence x xs in
    let (lo, hi) = next_block_bounds 64 x xs (omega arith) (omega arith) in
    let rest : length (drop block left) ≡ length left - block = length-drop block left in
    elim (le-cases (length left) 59) [
      | inl few ↦
          let all : block ≡ length left = ground (arith, few) in
          omega (
            arith,
            sum,
            size,
            ih,
            rest,
            all,
            lo,
            packets_nil fuel channel (sequence + 1) left block all,
          )
      | inr many ↦
          let full : block ≡ 59 = ground (arith, many) in
          omega (arith, sum, size, ih, rest, full, many)
    ]

-- The packets of a command that one APDU holds fit into the 400 bytes of sendApduHidapi.
pub padded-frame_short :
    (channel fuel : ℕ) (command : List ℕ)
    → length command ≤ 255
    → length (padded 64 (frame channel 64 fuel command)) ≤ 400
unfolding frame
padded-frame_short channel fuel command h =
    let n = length command in
    let block = block_size n (minus 64 7) in
    let first : List ℕ =
      packet_header channel 0 ++ (n / 256 % 256 ∷ n % 256 ∷ take block command) in
    let others : List ℕ = packets fuel channel 64 1 (drop block command) in
    let whole : List ℕ = first ++ others in
    let size : length whole ≤ 336 = elim (le-cases n 57) [
      | inl few ↦
          let all : block ≡ n = ground (arith, few) in
          omega (
            arith,
            length-append first others,
            length-take block command,
            packets_nil fuel channel 1 command block all,
            few,
          )
      | inr many ↦
          let full : block ≡ 57 = ground (arith, many) in
          omega (
            arith,
            length-append first others,
            length-take block command,
            length-drop block command,
            packets-length fuel channel 1 (drop block command),
            full,
          )
    ] in
    omega (
      arith,
      size,
      length-append whole (replicate (zeros 64 (length whole)) 0),
      length-replicate {A = ℕ} (zeros 64 (length whole)) 0,
    )
