-- ===== src/Convert/Numbers.antt =====
-- What is taken from the documentation of mbedtls, and the value of decimal digits.
use libaergo.Base.{
  ℕ, zero, suc, ◌+◌, ◌*◌, ◌^◌, ◌≤◌, ◌<◌, ◌≡◌, refl, ap, arith, some, List, [], ◌∷◌, ◌++◌, map, All,
  length, replicate,
}
use libaergo.Base.Bytes.{IsByte, value_from, be_value}
use native.Mathlib.Nat.{add-mul, mul_assoc, pow-succ', mul-le-mul_right}
use libaergo.Convert.{Mpi}

abbrev pub IsDigit : ℕ → Type 0
IsDigit d = d < 10

-- Digits as text.
abbrev pub ascii : List ℕ → List ℕ
ascii ds = map (λ (d : ℕ). 48 + d) ds

abbrev pub dec_value : List ℕ → ℕ
dec_value ds = value_from 10 0 ds

-- Reading and printing of numbers that are not negative, by their value.
pub record IsDocumented {V : Type 0} (mpi : Mpi V) : Type 0 where
  pub value : V → ℕ
  pub read_string-digits :
      (ds : List ℕ)
      → 0 < length ds
      → All IsDigit ds
      → (v : V) × (mpi.read_string (ascii ds) ≡ some v) × (value v ≡ dec_value ds)
  pub size_least : (v : V) (n : ℕ) → value v < 256 ^ n → mpi.size v ≤ n
  pub write_binary-size :
      (v : V)
      → (bytes : List ℕ) × (mpi.write_binary v (mpi.size v) ≡ some bytes)
        × (length bytes ≡ mpi.size v)
        × All IsByte bytes
        × (be_value bytes ≡ value v)
  pub read_binary-value :
      (bytes : List ℕ)
      → All IsByte bytes
      → (v : V) × (mpi.read_binary bytes ≡ some v) × (value v ≡ be_value bytes)
  -- How many bytes printing needs.
  pub room : V → ℕ
  pub write_string-digits :
      (v : V) (n : ℕ)
      → room v ≤ n
      → (ds : List ℕ) × (mpi.write_string v n ≡ some (ascii ds))
        × All IsDigit ds
        × (dec_value ds ≡ value v)
        × (0 < length ds)
        × ((k : ℕ) → 0 < k → value v < 10 ^ k → length ds ≤ k)

pub value_from-append :
    (base acc : ℕ) (xs ys : List ℕ)
    → value_from base acc (xs ++ ys) ≡ value_from base (value_from base acc xs) ys
value_from-append base acc [] ys = refl
value_from-append base acc (x ∷ xs) ys = value_from-append base (acc * base + x) xs ys

-- Digits behind others.
pub value_from_shift :
    (acc : ℕ) (ds : List ℕ) → value_from 10 acc ds ≡ acc * 10 ^ length ds + dec_value ds
value_from_shift acc [] = omega arith
value_from_shift acc (d ∷ ds) =
    let p = 10 ^ length ds in
    let up : 10 ^ suc (length ds) ≡ 10 * p = pow-succ' 10 (length ds) in
    let whole : (acc * 10 + d) * p ≡ acc * 10 * p + d * p = add-mul (acc * 10) d p in
    let moved : acc * 10 * p ≡ acc * (10 * p) = mul_assoc acc 10 p in
    let ih1 = value_from_shift (acc * 10 + d) ds in
    let ih2 = value_from_shift (0 * 10 + d) ds in
    let same : (0 * 10 + d) * p ≡ d * p = ap (λ (n : ℕ). n * p) (omega arith) in
    let raised : acc * 10 ^ suc (length ds) ≡ acc * (10 * p) = ap (λ (n : ℕ). acc * n) up in
    omega (arith, ih1, ih2, whole, moved, same, raised)

pub dec_value-zeros : (n : ℕ) → dec_value (replicate n 0) ≡ 0
dec_value-zeros zero = refl
dec_value-zeros (suc n) = dec_value-zeros n

-- The value of `n` digits is below 10 ^ n.
pub dec_value_below : (ds : List ℕ) → All IsDigit ds → dec_value ds < 10 ^ length ds
dec_value_below [] h = omega arith
dec_value_below (d ∷ ds) (h, hs) =
    let p = 10 ^ length ds in
    let up : 10 ^ suc (length ds) ≡ 10 * p = pow-succ' 10 (length ds) in
    let shift = value_from_shift (0 * 10 + d) ds in
    let small : (0 * 10 + d) * p ≤ 9 * p = mul-le-mul_right p (omega (arith, h)) in
    omega (arith, dec_value_below ds hs, up, shift, small)
