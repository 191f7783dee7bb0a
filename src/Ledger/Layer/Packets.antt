-- ===== src/Ledger/Layer/Packets.antt =====
-- What wrapCommandAPDU writes: the packets, and zeros up to a whole packet.
use libaergo.Base.{
  ℕ, zero, suc, ◌+◌, ◌-◌, ◌%◌, ◌^◌, ◌≤◌, ◌<◌, ◌≡◌, ◌≢◌, refl, ap, sym, ◌∙◌, arith, inl, inr,
}
use libaergo.Base.{
  List, [], ◌∷◌, ◌++◌, take, drop, replicate, length, append-nil, append_assoc, ltb, ◌==◌, false,
}
use libaergo.Base.{length-append, length-take, length-drop, min, le→ltb, le-cases, ==_iff}
use native.Mathlib.Decide.{ℕ_discrete}
use native.Mathlib.Nat.{mod-lt, mod-eq_of_lt, mod-add-mod, mod_self}
use libaergo.Ledger.Layer.{packet_header, minus, block_size, wrapped, pad, wrap_loop}

-- How much of `left` goes into the next packet, and that packet.
abbrev pub next_block : ℕ → List ℕ → ℕ
next_block packet_size left = block_size (length left) (minus packet_size 5)

abbrev pub packet : ℕ → ℕ → ℕ → List ℕ → List ℕ
packet channel packet_size sequence left =
    packet_header channel sequence ++ take (next_block packet_size left) left

-- The packets behind the first.
unfoldable pub packets : ℕ → ℕ → ℕ → ℕ → List ℕ → List ℕ
packets zero channel packet_size sequence left = []
packets (suc fuel) channel packet_size sequence [] = []
packets (suc fuel) channel packet_size sequence (x ∷ xs) =
    let left : List ℕ = x ∷ xs in
    packet channel packet_size sequence left
    ++ packets fuel channel packet_size (sequence + 1) (drop (next_block packet_size left) left)

-- A packet takes a byte at least, and no more than there are.
pub next_block_bounds :
    (packet_size x : ℕ) (xs : List ℕ)
    → 5 < packet_size
    → packet_size < 2 ^ 32
    → (0 < next_block packet_size (x ∷ xs)) × (next_block packet_size (x ∷ xs) ≤ length (x ∷ xs))
next_block_bounds packet_size x xs h k = ground arith

-- How many zeros fill the last packet.
abbrev pub zeros : ℕ → ℕ → ℕ
zeros packet_size n = (packet_size - n % packet_size) % packet_size

zeros_step :
    (packet_size n : ℕ)
    → 0 < packet_size
    → n % packet_size ≢ 0
    → zeros packet_size n ≡ suc (zeros packet_size (n + 1))
zeros_step packet_size n h e =
    let r = n % packet_size in
    let below : r < packet_size = mod-lt n h in
    let next : (n + 1) % packet_size ≡ (r + 1) % packet_size = sym (mod-add-mod n packet_size 1) in
    let here : zeros packet_size n ≡ packet_size - r = mod-eq_of_lt (omega (arith, e)) in
    elim (le-cases packet_size (r + 1)) [
      | inl full ↦
          let last : r + 1 ≡ packet_size = omega (arith, full, below) in
          let later : (n + 1) % packet_size ≡ 0 =
            next ∙ ap (λ (t : ℕ). t % packet_size) last ∙ mod_self packet_size in
          here
          ∙ sym (
              ap (λ (t : ℕ). suc ((packet_size - t) % packet_size)) later
              ∙ ap (λ (t : ℕ). suc (t % packet_size)) {y = packet_size} (omega arith)
              ∙ ap suc (mod_self packet_size)
              ∙ omega (arith, last))
      | inr more ↦
          let later : (n + 1) % packet_size ≡ r + 1 = next ∙ mod-eq_of_lt more in
          here
          ∙ sym (
              ap (λ (t : ℕ). suc ((packet_size - t) % packet_size)) later
              ∙ ap suc (mod-eq_of_lt (omega (arith, more)))
              ∙ omega (arith, more))
    ]

zeros_none : (packet_size n : ℕ) → 0 < packet_size → n % packet_size ≡ 0 → zeros packet_size n ≡ 0
zeros_none packet_size n h e = grind arith

replicate_snoc :
    (n : ℕ) (xs : List ℕ) → (xs ++ (0 ∷ [])) ++ replicate n 0 ≡ xs ++ replicate (suc n) 0
replicate_snoc n xs = append_assoc xs (0 ∷ []) (replicate n 0)

-- The padding writes the zeros that are missing, if there is room for them, and no more.
pub pad-zeros :
    (packet_size room : ℕ) (out : List ℕ)
    → 0 < packet_size
    → zeros packet_size (length out) ≤ room
    → pad packet_size room out ≡ wrapped (out ++ replicate (zeros packet_size (length out)) 0)
unfolding pad
pad-zeros packet_size zero out h k = elim (ℕ_discrete (length out % packet_size) 0) [
  | yes e ↦
      rw ((==_iff (length out % packet_size) 0).1 e, pad, zeros_none packet_size (length out) h e)
        (rw (append-nil out) refl)
  | no e ↦ absurd (omega (arith, zeros_step packet_size (length out) h e, k))
]
pad-zeros packet_size (suc room) out h k = elim (ℕ_discrete (length out % packet_size) 0) [
  | yes e ↦
      rw ((==_iff (length out % packet_size) 0).1 e, pad, zeros_none packet_size (length out) h e)
        (rw (append-nil out) refl)
  | no e ↦
      let next : length (out ++ (0 ∷ [])) ≡ length out + 1 = length-append out (0 ∷ []) in
      let step = zeros_step packet_size (length out) h e in
      let test : (length out % packet_size == 0) ≡ false = ground (arith, e) in
      rw (test, pad, step)
        (pad-zeros packet_size room (out ++ (0 ∷ [])) h (rw next (omega (arith, step, k)))
          ∙ ap wrapped (
              ap (λ (n : ℕ). (out ++ (0 ∷ [])) ++ replicate (zeros packet_size n) 0) next
              ∙ replicate_snoc (zeros packet_size (length out + 1)) out))
]

-- A packet of zeros behind what was written.
abbrev pub padded : ℕ → List ℕ → List ℕ
padded packet_size out = out ++ replicate (zeros packet_size (length out)) 0

module _ (channel packet_size : ℕ) (h : 5 < packet_size) (small : packet_size < 2 ^ 32) where
  wrap_loop-step :
      (fuel sequence x : ℕ) (xs : List ℕ) (room : ℕ) (out : List ℕ)
      → let left : List ℕ = x ∷ xs in
        let block = next_block packet_size left in
        5 + block ≤ room
        → wrap_loop (suc fuel) channel packet_size sequence left room out
          ≡ wrap_loop fuel channel packet_size
              (sequence + 1)
              (drop block left)
              (room - 5 - block)
              (out ++ packet channel packet_size sequence left)
  unfolding wrap_loop
  wrap_loop-step fuel sequence x xs room out k =
      let block = next_block packet_size (x ∷ xs) in
      let enough : ltb room 5 ≡ false = le→ltb room 5 (omega (arith, k)) in
      let fits : ltb (room - 5) block ≡ false = le→ltb (room - 5) block (omega (arith, k)) in
      rw (enough, fits) refl

  pub length-packet :
      (sequence x : ℕ) (xs : List ℕ)
      → length (packet channel packet_size sequence (x ∷ xs)) ≡ 5 + next_block packet_size (x ∷ xs)
  length-packet sequence x xs =
      let (_, hi) = next_block_bounds packet_size x xs h small in
      omega (arith, length-take (next_block packet_size (x ∷ xs)) (x ∷ xs), hi)

  -- The loop writes the packets of what is left, if there is room for them and the zeros.
  pub wrap_loop-packets :
      (fuel sequence : ℕ) (left : List ℕ) (room : ℕ) (out : List ℕ)
      → length left < fuel
      → let added : List ℕ = packets fuel channel packet_size sequence left in
        length added + zeros packet_size (length (out ++ added)) ≤ room
        → wrap_loop fuel channel packet_size sequence left room out
          ≡ wrapped (padded packet_size (out ++ added))
  unfolding packets
  wrap_loop-packets zero sequence left room out f k = absurd (omega arith)
  wrap_loop-packets (suc fuel) sequence [] room out f k =
      unfold wrap_loop in
      let k' : 0 + zeros packet_size (length out) ≤ room = rw (append-nil out) at k in
      rw (append-nil out) (pad-zeros packet_size room out (omega (arith, h)) (omega (arith, k')))
  wrap_loop-packets (suc fuel) sequence (x ∷ xs) room out f k =
      let left : List ℕ = x ∷ xs in
      let block = next_block packet_size left in
      let one : List ℕ = packet channel packet_size sequence left in
      let others : List ℕ = packets fuel channel packet_size (sequence + 1) (drop block left) in
      let (lo, hi) = next_block_bounds packet_size x xs h small in
      let size : length one ≡ 5 + block = length-packet sequence x xs in
      let sum : length (one ++ others) ≡ length one + length others = length-append one others in
      let same : (out ++ one) ++ others ≡ out ++ (one ++ others) = append_assoc out one others in
      wrap_loop-step fuel sequence x xs room out (omega (arith, k, size, sum))
      ∙ wrap_loop-packets fuel (sequence + 1) (drop block left) (room - 5 - block) (out ++ one)
          (omega (arith, length-drop block left, lo, f)) (rw same (omega (arith, k, size, sum)))
      ∙ ap (λ t. wrapped (padded packet_size t)) same

  -- Fuel that is too little shows in the length.
  pub packets-long :
      (fuel sequence : ℕ) (left : List ℕ)
      → min fuel (length left) ≤ length (packets fuel channel packet_size sequence left)
  unfolding packets
  packets-long zero sequence left = omega arith
  packets-long (suc fuel) sequence [] = omega arith
  packets-long (suc fuel) sequence (x ∷ xs) =
      let left : List ℕ = x ∷ xs in
      let block = next_block packet_size left in
      let others : List ℕ = packets fuel channel packet_size (sequence + 1) (drop block left) in
      let (lo, hi) = next_block_bounds packet_size x xs h small in
      omega (
        arith,
        length-append (packet channel packet_size sequence left) others,
        length-packet sequence x xs,
        length-drop block left,
        packets-long fuel (sequence + 1) (drop block left),
        lo,
        hi,
      )
