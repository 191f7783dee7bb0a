-- ===== src/Base/Bytes.antt =====
-- Bytes, and the numbers that byte strings stand for, most significant byte first.
use Prim.Native.Nat.{ℕ, ◌+◌, ◌*◌, ◌<◌}
use mathlib.Core.List.{List, [], ◌∷◌}

abbrev pub IsByte : ℕ → Type 0
IsByte b = b < 256

-- The value of digits in a base, the first digit the most significant, continued from `acc`.
abbrev pub value_from : ℕ → ℕ → List ℕ → ℕ
value_from base acc [] = acc
value_from base acc (d ∷ ds) = value_from base (acc * base + d) ds

abbrev pub be_value : List ℕ → ℕ
be_value ds = value_from 256 0 ds
