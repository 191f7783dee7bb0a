-- ===== src/Sha256/Compress.antt =====
-- sha256.c: the macros, and what sha256_transform computes from a state and a block.
use Prim.Native.Nat.{bit_and, bit_or, bit_xor}
use libaergo.Base.{ℕ, zero, suc, ◌+◌, ◌-◌, ◌*◌, ◌/◌, ◌%◌, ◌^◌, List, [], ◌∷◌, ◌++◌, get_or, drop}

abbrev pub word : ℕ → ℕ
word x = x % 2 ^ 32

-- ROTRIGHT(a,b) and a >> b
rotright : ℕ → ℕ → ℕ
rotright a b = bit_or (a / 2 ^ b) (word (a * 2 ^ (32 - b)))

shr : ℕ → ℕ → ℕ
shr a b = a / 2 ^ b

complement : ℕ → ℕ
complement x = 2 ^ 32 - 1 - x

ch : ℕ → ℕ → ℕ → ℕ
unfolding complement
ch x y z = bit_xor (bit_and x y) (bit_and (complement x) z)

maj : ℕ → ℕ → ℕ → ℕ
maj x y z = bit_xor (bit_xor (bit_and x y) (bit_and x z)) (bit_and y z)

ep0 : ℕ → ℕ
unfolding rotright
ep0 x = bit_xor (bit_xor (rotright x 2) (rotright x 13)) (rotright x 22)

ep1 : ℕ → ℕ
unfolding rotright
ep1 x = bit_xor (bit_xor (rotright x 6) (rotright x 11)) (rotright x 25)

sig0 : ℕ → ℕ
unfolding rotright shr
sig0 x = bit_xor (bit_xor (rotright x 7) (rotright x 18)) (shr x 3)

sig1 : ℕ → ℕ
unfolding rotright shr
sig1 x = bit_xor (bit_xor (rotright x 17) (rotright x 19)) (shr x 10)

-- k[64]
abbrev round_constants : List ℕ
round_constants =
    0x428a2f98 ∷ 0x71374491 ∷ 0xb5c0fbcf ∷ 0xe9b5dba5 ∷ 0x3956c25b ∷ 0x59f111f1 ∷ 0x923f82a4
    ∷ 0xab1c5ed5 ∷ 0xd807aa98 ∷ 0x12835b01 ∷ 0x243185be ∷ 0x550c7dc3 ∷ 0x72be5d74 ∷ 0x80deb1fe
    ∷ 0x9bdc06a7 ∷ 0xc19bf174 ∷ 0xe49b69c1 ∷ 0xefbe4786 ∷ 0x0fc19dc6 ∷ 0x240ca1cc ∷ 0x2de92c6f
    ∷ 0x4a7484aa ∷ 0x5cb0a9dc ∷ 0x76f988da ∷ 0x983e5152 ∷ 0xa831c66d ∷ 0xb00327c8 ∷ 0xbf597fc7
    ∷ 0xc6e00bf3 ∷ 0xd5a79147 ∷ 0x06ca6351 ∷ 0x14292967 ∷ 0x27b70a85 ∷ 0x2e1b2138 ∷ 0x4d2c6dfc
    ∷ 0x53380d13 ∷ 0x650a7354 ∷ 0x766a0abb ∷ 0x81c2c92e ∷ 0x92722c85 ∷ 0xa2bfe8a1 ∷ 0xa81a664b
    ∷ 0xc24b8b70 ∷ 0xc76c51a3 ∷ 0xd192e819 ∷ 0xd6990624 ∷ 0xf40e3585 ∷ 0x106aa070 ∷ 0x19a4c116
    ∷ 0x1e376c08 ∷ 0x2748774c ∷ 0x34b0bcb5 ∷ 0x391c0cb3 ∷ 0x4ed8aa4a ∷ 0x5b9cca4f ∷ 0x682e6ff3
    ∷ 0x748f82ee ∷ 0x78a5636f ∷ 0x84c87814 ∷ 0x8cc70208 ∷ 0x90befffa ∷ 0xa4506ceb ∷ 0xbef9a3f7
    ∷ 0xc67178f2 ∷ []

-- m[i] for i below 16: `rounds` words of big-endian bytes.
first_words : ℕ → List ℕ → List ℕ
first_words zero bytes = []
first_words (suc rounds) bytes =
    bit_or
      (bit_or (bit_or (word (get_or bytes 0 0 * 2 ^ 24)) (get_or bytes 1 0 * 2 ^ 16))
        (get_or bytes 2 0 * 2 ^ 8))
      (get_or bytes 3 0)
    ∷ first_words rounds (drop 4 bytes)

-- The rounds from `i` on that extend `m` by a word each.
extend_words : ℕ → ℕ → List ℕ → List ℕ
unfolding sig0 sig1
extend_words zero i m = m
extend_words (suc rounds) i m = extend_words rounds (i + 1) (
    m
    ++ (word (
          sig1 (get_or m (i - 2) 0)
          + get_or m (i - 7) 0
          + sig0 (get_or m (i - 15) 0)
          + get_or m (i - 16) 0)
        ∷ []))

-- The variables a to h.
pub record Vars : Type 0 where
  pub a : ℕ
  pub b : ℕ
  pub c : ℕ
  pub d : ℕ
  pub e : ℕ
  pub f : ℕ
  pub g : ℕ
  pub h : ℕ

-- One round, with t1 and t2.
mix : ℕ → ℕ → Vars → Vars
unfolding ep0 ep1 ch maj
mix k m v =
    let t1 = word (v.h + ep1 v.e + ch v.e v.f v.g + k + m) in
    let t2 = word (ep0 v.a + maj v.a v.b v.c) in
    record {
      a = word (t1 + t2);
      b = v.a;
      c = v.b;
      d = v.c;
      e = word (v.d + t1);
      f = v.e;
      g = v.f;
      h = v.g;
    }

-- The 64 rounds, over the two tables.
mix_all : List ℕ → List ℕ → Vars → Vars
unfolding mix
mix_all [] ms v = v
mix_all (k ∷ ks) [] v = v
mix_all (k ∷ ks) (m ∷ ms) v = mix_all ks ms (mix k m v)

add_vars : List ℕ → Vars → List ℕ
add_vars s v =
    word (get_or s 0 0 + v.a)
    ∷ word (get_or s 1 0 + v.b)
    ∷ word (get_or s 2 0 + v.c)
    ∷ word (get_or s 3 0 + v.d)
    ∷ word (get_or s 4 0 + v.e)
    ∷ word (get_or s 5 0 + v.f)
    ∷ word (get_or s 6 0 + v.g)
    ∷ word (get_or s 7 0 + v.h)
    ∷ []

-- The new state of sha256_transform for a state and a block of 64 bytes.
unfoldable pub compress : List ℕ → List ℕ → List ℕ
unfolding first_words extend_words mix_all add_vars
compress s block =
    let m : List ℕ = extend_words 48 16 (first_words 16 block) in
    let v : Vars = record {
      a = get_or s 0 0;
      b = get_or s 1 0;
      c = get_or s 2 0;
      d = get_or s 3 0;
      e = get_or s 4 0;
      f = get_or s 5 0;
      g = get_or s 6 0;
      h = get_or s 7 0;
    } in
    add_vars s (mix_all round_constants m v)
