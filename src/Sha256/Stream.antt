-- ===== src/Sha256/Stream.antt =====
-- The padding of the standard, and a hash in the midst of a message.
use libaergo.Base.{
  ℕ, zero, suc, ◌+◌, ◌-◌, ◌*◌, ◌/◌, ◌%◌, ◌^◌, ◌<◌, ◌≡◌, ◌≢◌, refl, ap, sym, ◌∙◌, arith,
}
use libaergo.Base.{
  List, [], ◌∷◌, ◌++◌, set, take, drop, replicate, length, append-nil, append_assoc, All, flatten,
  foldl, ◌==◌, true, false,
}
use libaergo.Base.{length-append, take_all, All-append}
use libaergo.Base.{take-length_append, drop-length_append}
use native.Mathlib.Decide.{ℕ_discrete}
use libaergo.Sha256.Compress.{compress}
use libaergo.Sha256.Padding.{take-set, length-set, length_bytes}
use libaergo.Sha256.{Ctx, initial_state, sha256_transform, sha256_init, update_byte, sha256_update}
use libaergo.Sha256.{hash_bytes}

-- The padded message: a bit 1, zeros up to 8 bytes before the end of a block, the length in bits.
unfoldable pub pad : List ℕ → List ℕ
pad message =
    message
    ++ ((0x80 ∷ replicate ((119 - length message % 64) % 64) 0)
        ++ length_bytes (8 * length message))

-- The blocks of 64 bytes.
unfoldable pub blocks_of : ℕ → List ℕ → List (List ℕ)
blocks_of zero xs = []
blocks_of (suc n) xs = take 64 xs ∷ blocks_of n (drop 64 xs)

unfoldable pub digest_of : List ℕ → List ℕ
digest_of message =
    let padded : List ℕ = pad message in
    hash_bytes (foldl compress initial_state (blocks_of (length padded / 64) padded))

abbrev pub IsBlock : List ℕ → Type 0
IsBlock b = length b ≡ 64

pub blocks_of-flatten :
    (bs : List (List ℕ)) → All IsBlock bs → blocks_of (length bs) (flatten bs) ≡ bs
unfolding blocks_of
blocks_of-flatten [] h = refl
blocks_of-flatten (b ∷ bs) (h, hs) =
    let front : take 64 (b ++ flatten bs) ≡ b =
      ap (λ (n : ℕ). take n (b ++ flatten bs)) (sym h) ∙ take-length_append b (flatten bs) in
    let back : drop 64 (b ++ flatten bs) ≡ flatten bs =
      ap (λ (n : ℕ). drop n (b ++ flatten bs)) (sym h) ∙ drop-length_append b (flatten bs) in
    rw (front, back, blocks_of-flatten bs hs) refl

pub length-flatten : (bs : List (List ℕ)) → All IsBlock bs → length (flatten bs) ≡ 64 * length bs
length-flatten [] h = refl
length-flatten (b ∷ bs) (h, hs) = omega (arith, length-append b (flatten bs), length-flatten bs hs)

pub flatten-append : (bs cs : List (List ℕ)) → flatten (bs ++ cs) ≡ flatten bs ++ flatten cs
flatten-append [] cs = refl
flatten-append (b ∷ bs) cs =
    ap (λ t. b ++ t) (flatten-append bs cs) ∙ sym (append_assoc b (flatten bs) (flatten cs))

-- What the context holds when `message` was hashed: whole blocks, and the rest in the buffer.
pub record Absorbed (message : List ℕ) (ctx : Ctx) : Type 0 where
  pub blocks : List (List ℕ)
  pub rest : List ℕ
  pub whole : All IsBlock blocks
  pub short : length rest < 64
  pub cut : message ≡ flatten blocks ++ rest
  pub hashed : ctx.state ≡ foldl compress initial_state blocks
  pub kept : take (length rest) ctx.buffer ≡ rest
  pub room : length ctx.buffer ≡ 64
  pub counted : ctx.datalen ≡ length rest
  pub bits : ctx.bitlen ≡ 512 * length blocks % 2 ^ 64

pub foldl-snoc :
    (f : List ℕ → List ℕ → List ℕ) (s : List ℕ) (bs : List (List ℕ)) (b : List ℕ)
    → foldl f s (bs ++ (b ∷ [])) ≡ f (foldl f s bs) b
foldl-snoc f s [] b = refl
foldl-snoc f s (c ∷ bs) b = foldl-snoc f (f s c) bs b

module _ (message : List ℕ) (ctx : Ctx) (b : ℕ) (y : Absorbed message ctx) where
  open y use {blocks, rest, whole, short, cut, hashed, kept, room, counted, bits}

  grown : List ℕ
  grown = set ctx.buffer ctx.datalen b

  take-grown : take (suc (length rest)) grown ≡ rest ++ (b ∷ [])
  unfolding grown
  take-grown =
      ap (λ (n : ℕ). take (suc (length rest)) (set ctx.buffer n b)) counted
      ∙ take-set ctx.buffer (length rest) b (omega (arith, room, short))
      ∙ ap (λ t. t ++ (b ∷ [])) kept

  length-grown : length grown ≡ 64
  unfolding grown
  length-grown = length-set ctx.buffer ctx.datalen b ∙ room

  length-snoc : length (rest ++ (b ∷ [])) ≡ suc (length rest)
  length-snoc = omega (arith, length-append rest (b ∷ []))

  cut_snoc : message ++ (b ∷ []) ≡ flatten blocks ++ (rest ++ (b ∷ []))
  cut_snoc = ap (λ t. t ++ (b ∷ [])) cut ∙ append_assoc (flatten blocks) rest (b ∷ [])

  -- A byte that does not fill the buffer.
  update_byte-short : length rest ≢ 63 → Absorbed (message ++ (b ∷ [])) (update_byte ctx b)
  unfolding update_byte
  update_byte-short ne =
      let test : (ctx.datalen + 1 == 64) ≡ false = ground (arith, ne, counted) in
      let e : update_byte ctx b ≡ record ctx { buffer = grown; datalen = ctx.datalen + 1 } =
        rw test (unfold grown in refl) in
      rw e (record {
        blocks = blocks;
        rest = rest ++ (b ∷ []);
        whole = whole;
        short = omega (arith, length-snoc, short, ne);
        cut = cut_snoc;
        hashed = hashed;
        kept = rw length-snoc take-grown;
        room = length-grown;
        counted = omega (arith, length-snoc, counted);
        bits = bits;
      })

  -- A byte that completes a block.
  update_byte-full : length rest ≡ 63 → Absorbed (message ++ (b ∷ [])) (update_byte ctx b)
  unfolding update_byte sha256_transform
  update_byte-full full =
      let test : (ctx.datalen + 1 == 64) ≡ true = ground (arith, full, counted) in
      let e : update_byte ctx b ≡ record {
        buffer = grown;
        datalen = 0;
        bitlen = (ctx.bitlen + 512) % 2 ^ 64;
        state = compress ctx.state grown;
      } =
        rw test (unfold grown in refl) in
      let block : grown ≡ rest ++ (b ∷ []) =
        sym (take_all (suc (length rest)) grown (omega (arith, length-grown, full))) ∙ take-grown in
      rw e (record {
        blocks = blocks ++ (grown ∷ []);
        rest = [];
        whole = All-append _ blocks (grown ∷ []) whole (length-grown, tt);
        short = omega arith;
        cut =
            cut_snoc
            ∙ ap (λ t. flatten blocks ++ t) (sym block)
            ∙ sym (
                ap (λ t. t ++ [])
                  (flatten-append blocks (grown ∷ [])
                    ∙ ap (λ t. flatten blocks ++ t) (append-nil grown))
                ∙ append-nil (flatten blocks ++ grown));
        hashed =
            ap (λ t. compress t grown) hashed
            ∙ sym (foldl-snoc compress initial_state blocks grown);
        kept = refl;
        room = length-grown;
        counted = refl;
        bits = omega (arith, length-append blocks (grown ∷ []), bits);
      })

update_byte-Absorbed :
    (message : List ℕ) (ctx : Ctx) (b : ℕ)
    → Absorbed message ctx
    → Absorbed (message ++ (b ∷ [])) (update_byte ctx b)
update_byte-Absorbed message ctx b y = elim (ℕ_discrete (length y.rest) 63) [
  | yes e ↦ update_byte-full message ctx b y e
  | no e ↦ update_byte-short message ctx b y e
]

pub sha256_update-Absorbed :
    (message bytes : List ℕ) (ctx : Ctx)
    → Absorbed message ctx
    → Absorbed (message ++ bytes) (sha256_update ctx bytes)
unfolding sha256_update
sha256_update-Absorbed message [] ctx y = rw (append-nil message) y
sha256_update-Absorbed message (b ∷ bytes) ctx y = rw (append_assoc message (b ∷ []) bytes) at (
    sha256_update-Absorbed (message ++ (b ∷ [])) bytes (update_byte ctx b)
      (update_byte-Absorbed message ctx b y))

pub sha256_init-Absorbed : (junk : Ctx) → length junk.buffer ≡ 64 → Absorbed [] (sha256_init junk)
unfolding sha256_init
sha256_init-Absorbed junk h = record {
  blocks = [];
  rest = [];
  whole = tt;
  short = omega arith;
  cut = refl;
  hashed = refl;
  kept = refl;
  room = h;
  counted = refl;
  bits = omega arith;
}
