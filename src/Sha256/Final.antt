-- ===== src/Sha256/Final.antt =====
-- sha256 of a whole message: the padding, and the last blocks.
use libaergo.Base.{
  ℕ, zero, suc, ◌+◌, ◌-◌, ◌*◌, ◌/◌, ◌%◌, ◌^◌, ◌≤◌, ◌<◌, ◌≡◌, refl, ap, sym, ◌∙◌, arith, inl, inr,
  le-cases,
}
use libaergo.Base.{
  List, [], ◌∷◌, ◌++◌, set, take, drop, replicate, length, append-nil, append_assoc, All, flatten,
  foldl,
}
use libaergo.Base.{length-append, length-take, length-drop, take_all, All-append}
use libaergo.Base.{lt→ltb, le→ltb}
use libaergo.Sha256.Compress.{compress}
use libaergo.Sha256.Padding.{
  take-set, length-set, length-zero_from, take-zero_from, put_length-take, length_bytes,
}
use libaergo.Sha256.{Ctx, initial_state, sha256_transform, sha256_init, sha256_update}
use libaergo.Sha256.{zero_from, pad_buffer, put_length, hash_bytes, sha256_final, sha256}
use libaergo.Sha256.Stream.{pad, digest_of, IsBlock, Absorbed, length-flatten, flatten-append}
use libaergo.Sha256.Stream.{
  blocks_of-flatten, foldl-snoc, sha256_update-Absorbed, sha256_init-Absorbed,
}

digest_of-flatten :
    (message : List ℕ) (bs : List (List ℕ))
    → All IsBlock bs
    → pad message ≡ flatten bs
    → digest_of message ≡ hash_bytes (foldl compress initial_state bs)
unfolding digest_of
digest_of-flatten message bs h e =
    let count : length (flatten bs) / 64 ≡ length bs = omega (arith, length-flatten bs h) in
    rw (e, count, blocks_of-flatten bs h) refl

replicate-add : (n m k : ℕ) → n + m ≡ k → replicate {A = ℕ} k 0 ≡ replicate n 0 ++ replicate m 0
replicate-add zero m k e = ap (λ (i : ℕ). replicate {A = ℕ} i 0) (omega arith)
replicate-add (suc n) m zero e = absurd (omega arith)
replicate-add (suc n) m (suc k) e = ap (λ t. 0 ∷ t) (replicate-add n m k (omega arith))

module _ (message : List ℕ) (ctx : Ctx) (y : Absorbed message ctx)
    (fits : length message < 2 ^ 32) where
  open y use {blocks, rest, whole, short, cut, hashed, kept, room, counted, bits}

  length-message : length message ≡ 64 * length blocks + length rest
  length-message =
      ap length cut
      ∙ omega (arith, length-append (flatten blocks) rest, length-flatten blocks whole)

  total_bits : (ctx.bitlen + ctx.datalen * 8) % 2 ^ 64 ≡ 8 * length message
  total_bits = omega (arith, bits, counted, length-message, fits)

  -- The buffer with the mark and `n` zeros.
  marked : ℕ → List ℕ
  marked n = zero_from n (ctx.datalen + 1) (set ctx.buffer ctx.datalen 0x80)

  length-marked : (n : ℕ) → length (marked n) ≡ 64
  unfolding marked
  length-marked n =
      length-zero_from n (ctx.datalen + 1) (set ctx.buffer ctx.datalen 0x80)
      ∙ length-set ctx.buffer ctx.datalen 0x80
      ∙ room

  take-marked :
      (n e : ℕ)
      → length rest + suc n ≡ e
      → e ≤ 64
      → take e (marked n) ≡ rest ++ (0x80 ∷ replicate n 0)
  unfolding marked
  take-marked n e h k =
      take-zero_from n (ctx.datalen + 1) e (set ctx.buffer ctx.datalen 0x80)
        (omega (arith, counted)) (omega (arith, length-set ctx.buffer ctx.datalen 0x80, room))
      ∙ ap (λ t. t ++ replicate n 0)
          (ap (λ (i : ℕ). take (i + 1) (set ctx.buffer i 0x80)) counted
            ∙ ap (λ (i : ℕ). take i (set ctx.buffer (length rest) 0x80)) {x = length rest + 1}
                {y = suc (length rest)} (omega arith)
            ∙ take-set ctx.buffer (length rest) 0x80 (omega (arith, room, short))
            ∙ ap (λ t. t ++ (0x80 ∷ [])) kept)
      ∙ append_assoc rest (0x80 ∷ []) (replicate n 0)

  -- What follows the whole blocks of the message in the padded message.
  tail_blocks : List ℕ → List ℕ
  tail_blocks zeros = rest ++ ((0x80 ∷ zeros) ++ length_bytes (8 * length message))

  pad-tail :
      (n : ℕ)
      → (119 - length message % 64) % 64 ≡ n
      → pad message ≡ flatten blocks ++ tail_blocks (replicate n 0)
  unfolding pad tail_blocks
  pad-tail n e = rw e (
      ap (λ t. t ++ ((0x80 ∷ replicate n 0) ++ length_bytes (8 * length message))) cut
      ∙ append_assoc (flatten blocks) rest _)

  flatten-snoc : (b : List ℕ) → flatten (blocks ++ (b ∷ [])) ≡ flatten blocks ++ b
  flatten-snoc b = flatten-append blocks (b ∷ []) ∙ ap (λ t. flatten blocks ++ t) (append-nil b)

  -- What sha256_final computes from the padded buffer.
  finish : List ℕ → List ℕ → List ℕ
  finish state buffer =
      hash_bytes (compress state (put_length ((ctx.bitlen + ctx.datalen * 8) % 2 ^ 64) buffer))

  sha256_final-short :
      ctx.datalen < 56 → sha256_final ctx ≡ finish ctx.state (marked (56 - (ctx.datalen + 1)))
  unfolding sha256_final pad_buffer sha256_transform finish marked
  sha256_final-short h = rw (lt→ltb ctx.datalen 56 h) refl

  sha256_final-long :
      56 ≤ ctx.datalen
      → let full : List ℕ = marked (64 - (ctx.datalen + 1)) in
        sha256_final ctx ≡ finish (compress ctx.state full) (replicate 56 0 ++ drop 56 full)
  unfolding sha256_final pad_buffer sha256_transform finish marked
  sha256_final-long h = rw (le→ltb ctx.datalen 56 h) refl

  put_total :
      (buffer : List ℕ)
      → length buffer ≡ 64
      → put_length ((ctx.bitlen + ctx.datalen * 8) % 2 ^ 64) buffer
        ≡ take 56 buffer ++ length_bytes (8 * length message)
  put_total buffer h =
      ap (λ n. put_length n buffer) total_bits ∙ put_length-take (8 * length message) buffer h

  abbrev Finishes : Type 0
  Finishes =
      (bs : List (List ℕ)) × All IsBlock bs
      × (pad message ≡ flatten bs)
      × (sha256_final ctx ≡ hash_bytes (foldl compress initial_state bs))

  -- The length still fits behind the rest of the message.
  final_short : length rest < 56 → Finishes
  unfolding finish tail_blocks
  final_short h =
      let n = 56 - (ctx.datalen + 1) in
      let block : List ℕ = take 56 (marked n) ++ length_bytes (8 * length message) in
      let shape : block ≡ tail_blocks (replicate n 0) =
        ap (λ t. t ++ length_bytes (8 * length message))
          (take-marked n 56 (omega (arith, counted, h)) (omega arith))
        ∙ append_assoc rest (0x80 ∷ replicate n 0) _ in
      (
        blocks ++ (block ∷ []),
        All-append _ blocks (block ∷ []) whole (
          omega (
            arith,
            length-append (take 56 (marked n)) (length_bytes (8 * length message)),
            length-take 56 (marked n),
            length-marked n,
          ),
          tt,
        ),
        pad-tail n (omega (arith, length-message, counted, h))
            ∙ ap (λ t. flatten blocks ++ t) (sym shape)
            ∙ sym (flatten-snoc block),
        sha256_final-short (omega (arith, counted, h))
            ∙ ap hash_bytes (
                ap (λ t. compress ctx.state t) (put_total (marked n) (length-marked n))
                ∙ ap (λ t. compress t block) hashed
                ∙ sym (foldl-snoc compress initial_state blocks block)),
      )

  -- The zeros of the last block, and the length.
  last_block : List ℕ
  last_block = replicate 56 0 ++ length_bytes (8 * length message)

  long_shape :
      (n : ℕ) (full : List ℕ)
      → full ≡ rest ++ (0x80 ∷ replicate n 0)
      → full ++ last_block ≡ tail_blocks (replicate (n + 56) 0)
  unfolding last_block tail_blocks
  long_shape n full e =
      let l : List ℕ = length_bytes (8 * length message) in
      ap (λ t. t ++ (replicate 56 0 ++ l)) e
      ∙ append_assoc rest (0x80 ∷ replicate n 0) (replicate 56 0 ++ l)
      ∙ ap (λ t. rest ++ t) (sym (append_assoc (0x80 ∷ replicate n 0) (replicate 56 0) l))
      ∙ ap (λ t. rest ++ ((0x80 ∷ t) ++ l)) (sym (replicate-add n 56 (n + 56) refl))

  -- The rest of the message and the mark fill a block, and the length goes into one more.
  final_long : 56 ≤ length rest → Finishes
  unfolding finish last_block
  final_long h =
      let n = 64 - (ctx.datalen + 1) in
      let full : List ℕ = marked n in
      let shape : full ≡ rest ++ (0x80 ∷ replicate n 0) =
        sym (take_all 64 full (omega (arith, length-marked n)))
        ∙ take-marked n 64 (omega (arith, counted, short)) (omega arith) in
      let state : List ℕ = foldl compress initial_state blocks in
      (
        (blocks ++ (full ∷ [])) ++ (last_block ∷ []),
        All-append _ (blocks ++ (full ∷ [])) (last_block ∷ [])
            (All-append _ blocks (full ∷ []) whole (length-marked n, tt)) (refl, tt),
        pad-tail (n + 56) (omega (arith, length-message, counted, h, short))
            ∙ ap (λ t. flatten blocks ++ t) (sym (long_shape n full shape))
            ∙ sym (
                flatten-append (blocks ++ (full ∷ [])) (last_block ∷ [])
                ∙ ap (λ t. t ++ (last_block ++ [])) (flatten-snoc full)
                ∙ append_assoc (flatten blocks) full (last_block ++ [])
                ∙ ap (λ t. flatten blocks ++ (full ++ t)) (append-nil last_block)),
        sha256_final-long (omega (arith, counted, h))
            ∙ ap hash_bytes (
                ap (λ t. compress (compress ctx.state full) t)
                  (put_total (replicate 56 0 ++ drop 56 full)
                    (omega (arith, length-drop 56 full, length-marked n)))
                ∙ ap (λ t. compress (compress t full) last_block) hashed
                ∙ ap (λ t. compress t last_block)
                    (sym (foldl-snoc compress initial_state blocks full))
                ∙ sym (foldl-snoc compress initial_state (blocks ++ (full ∷ [])) last_block)),
      )

  sha256_final-digest : sha256_final ctx ≡ digest_of message
  sha256_final-digest = elim (le-cases 56 (length rest)) [
    | inl h ↦
        let (bs, whole', e, f) = final_long h in f ∙ sym (digest_of-flatten message bs whole' e)
    | inr h ↦
        let (bs, whole', e, f) = final_short h in f ∙ sym (digest_of-flatten message bs whole' e)
  ]

-- For a message of fewer than 2 ^ 32 bytes, the hash that the streaming code computes byte by byte
-- in its buffer of 64 bytes, whatever the memory held before, is that of the standard: the
-- compression function folded over the blocks of the message padded with a bit 1, zeros and its
-- length in 64 bits.
pub sha256-digest :
    (junk : Ctx) (message : List ℕ)
    → length junk.buffer ≡ 64
    → length message < 2 ^ 32
    → sha256 junk message ≡ digest_of message
unfolding sha256
sha256-digest junk message h fits =
    sha256_final-digest message (sha256_update (sha256_init junk) message)
      (sha256_update-Absorbed [] message (sha256_init junk) (sha256_init-Absorbed junk h)) fits
