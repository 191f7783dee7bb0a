-- ===== src/Endianess.antt =====
-- endianess.c on a little-endian machine, the branch that its BYTE_ORDER test takes there. An object
-- in memory is the list of its bytes.
mod Tests
use libaergo.Base.{ℕ, zero, suc, ◌+◌, ◌-◌, ◌*◌, ◌/◌, ◌%◌, ◌^◌, ◌<◌, ◌≡◌, arith}
use libaergo.Base.{List, [], ◌∷◌, get_or}
use libaergo.Base.Bytes.{be_value}

-- The bytes of an unsigned integer of `n` bytes in memory.
unfoldable pub le_bytes : ℕ → ℕ → List ℕ
le_bytes zero v = []
le_bytes (suc n) v = v % 256 ∷ le_bytes n (v / 256)

-- The unsigned integer that bytes in memory are.
unfoldable pub le_value : List ℕ → ℕ
le_value [] = 0
le_value (b ∷ bs) = b + 256 * le_value bs

unfoldable pub copy_be16 : List ℕ → List ℕ
copy_be16 source = get_or source 1 0 ∷ get_or source 0 0 ∷ []

unfoldable pub copy_be32 : List ℕ → List ℕ
copy_be32 source =
    get_or source 3 0 ∷ get_or source 2 0 ∷ get_or source 1 0 ∷ get_or source 0 0 ∷ []

-- The rounds `i` to 7 of the loop `dest[i] = source[7-i]`.
copy_be64_loop : ℕ → ℕ → List ℕ → List ℕ
copy_be64_loop zero i source = []
copy_be64_loop (suc rounds) i source =
    get_or source (7 - i) 0 ∷ copy_be64_loop rounds (i + 1) source

unfoldable pub copy_be64 : List ℕ → List ℕ
unfolding copy_be64_loop
copy_be64 source = copy_be64_loop 8 0 source

-- The big-endian bytes of a 32-bit number.
abbrev pub be32 : ℕ → List ℕ
be32 v = v / 2 ^ 24 % 256 ∷ v / 2 ^ 16 % 256 ∷ v / 2 ^ 8 % 256 ∷ v % 256 ∷ []

abbrev pub be64 : ℕ → List ℕ
be64 v =
    v / 2 ^ 56 % 256 ∷ v / 2 ^ 48 % 256 ∷ v / 2 ^ 40 % 256 ∷ v / 2 ^ 32 % 256 ∷ be32 (v % 2 ^ 32)

-- A 32-bit integer copied by copy_be32 on a little-endian machine lies in memory most significant
-- byte first.
pub copy_be32-be32 : (v : ℕ) → v < 2 ^ 32 → copy_be32 (le_bytes 4 v) ≡ be32 v
unfolding copy_be32 le_bytes
copy_be32-be32 v h = ground arith

-- A 64-bit integer copied by copy_be64 on a little-endian machine lies in memory most significant
-- byte first.
pub copy_be64-be64 : (v : ℕ) → v < 2 ^ 64 → copy_be64 (le_bytes 8 v) ≡ be64 v
unfolding copy_be64 le_bytes
copy_be64-be64 v h = ground arith

-- Reading four big-endian bytes through a copy gives the number that they stand for.
pub le_value-copy_be32 :
    (a b c d : ℕ) → le_value (copy_be32 (a ∷ b ∷ c ∷ d ∷ [])) ≡ be_value (a ∷ b ∷ c ∷ d ∷ [])
unfolding copy_be32 le_value
le_value-copy_be32 a b c d = omega arith

pub be_value-be32 : (v : ℕ) → v < 2 ^ 32 → be_value (be32 v) ≡ v
be_value-be32 v h = omega arith

pub be_value-be64 : (v : ℕ) → v < 2 ^ 64 → be_value (be64 v) ≡ v
be_value-be64 v h = omega arith
