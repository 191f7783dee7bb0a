-- ===== src/Convert/Digits.antt =====
-- The digits of a number in a base, and numbers in place of those of mbedtls for runs.
use libaergo.Base.{
  ℕ, zero, suc, ◌+◌, ◌-◌, ◌*◌, ◌/◌, ◌%◌, ◌^◌, ◌≤◌, ◌<◌, ◌≡◌, refl, ◌∙◌, arith, true, false, Option,
  none, some, inl, inr, Bool-cases, List, [], ◌∷◌, ◌++◌, All, length, ltb, ◌==◌, ◌||◌,
  if◌then◌else◌, length-append, All-append,
}
use libaergo.Base.Bytes.{IsByte, value_from, be_value}
use native.Mathlib.Nat.{pow-suc}
use libaergo.Convert.{Mpi}
use libaergo.Convert.Numbers.{IsDigit, ascii, dec_value, IsDocumented, value_from-append}

unfoldable pub digits_of : ℕ → ℕ → ℕ → List ℕ
digits_of base zero v = []
digits_of base (suc fuel) v = elim (v == 0) [
  | true ↦ []
  | false ↦ digits_of base fuel (v / base) ++ (v % base ∷ [])
]

digits_of-value_256 : (fuel v : ℕ) → v ≤ fuel → be_value (digits_of 256 fuel v) ≡ v
unfolding digits_of
digits_of-value_256 zero v h = omega (arith, h)
digits_of-value_256 (suc fuel) v h = elim (Bool-cases (v == 0)) [
  | inl e ↦ let nought : v ≡ 0 = ground (arith, e) in rw (e, digits_of) (omega (arith, nought))
  | inr e ↦
      let some_value : 0 < v = ground (arith, e) in
      let ih = digits_of-value_256 fuel (v / 256) (omega (arith, h, some_value)) in
      rw (e, digits_of)
        (value_from-append 256 0 (digits_of 256 fuel (v / 256)) (v % 256 ∷ []) ∙ omega (arith, ih))
]

digits_of-value_10 : (fuel v : ℕ) → v ≤ fuel → dec_value (digits_of 10 fuel v) ≡ v
unfolding digits_of
digits_of-value_10 zero v h = omega (arith, h)
digits_of-value_10 (suc fuel) v h = elim (Bool-cases (v == 0)) [
  | inl e ↦ let nought : v ≡ 0 = ground (arith, e) in rw (e, digits_of) (omega (arith, nought))
  | inr e ↦
      let some_value : 0 < v = ground (arith, e) in
      let ih = digits_of-value_10 fuel (v / 10) (omega (arith, h, some_value)) in
      rw (e, digits_of)
        (value_from-append 10 0 (digits_of 10 fuel (v / 10)) (v % 10 ∷ []) ∙ omega (arith, ih))
]

digits_of-All_256 : (fuel v : ℕ) → All IsByte (digits_of 256 fuel v)
unfolding digits_of
digits_of-All_256 zero v = tt
digits_of-All_256 (suc fuel) v = elim (Bool-cases (v == 0)) [
  | inl e ↦ rw (e, digits_of) tt
  | inr e ↦
      rw (e, digits_of)
        (All-append IsByte (digits_of 256 fuel (v / 256)) (v % 256 ∷ [])
          (digits_of-All_256 fuel (v / 256)) (omega arith, tt))
]

digits_of-All_10 : (fuel v : ℕ) → All IsDigit (digits_of 10 fuel v)
unfolding digits_of
digits_of-All_10 zero v = tt
digits_of-All_10 (suc fuel) v = elim (Bool-cases (v == 0)) [
  | inl e ↦ rw (e, digits_of) tt
  | inr e ↦
      rw (e, digits_of)
        (All-append IsDigit (digits_of 10 fuel (v / 10)) (v % 10 ∷ [])
          (digits_of-All_10 fuel (v / 10)) (omega arith, tt))
]

length-digits_of_256 : (fuel n v : ℕ) → v < 256 ^ n → length (digits_of 256 fuel v) ≤ n
unfolding digits_of
length-digits_of_256 zero n v h = omega arith
length-digits_of_256 (suc fuel) zero v h =
    let none_there : (v == 0) ≡ true = ground (arith, h) in rw (none_there, digits_of) (omega arith)
length-digits_of_256 (suc fuel) (suc n) v h = elim (Bool-cases (v == 0)) [
  | inl e ↦ rw (e, digits_of) (omega arith)
  | inr e ↦
      let less : v / 256 < 256 ^ n = omega (arith, h, pow-suc 256 n) in
      rw (e, digits_of)
        (omega (
          arith,
          length-append (digits_of 256 fuel (v / 256)) (v % 256 ∷ []),
          length-digits_of_256 fuel n (v / 256) less,
        ))
]

length-digits_of_10 : (fuel n v : ℕ) → v < 10 ^ n → length (digits_of 10 fuel v) ≤ n
unfolding digits_of
length-digits_of_10 zero n v h = omega arith
length-digits_of_10 (suc fuel) zero v h =
    let none_there : (v == 0) ≡ true = ground (arith, h) in rw (none_there, digits_of) (omega arith)
length-digits_of_10 (suc fuel) (suc n) v h = elim (Bool-cases (v == 0)) [
  | inl e ↦ rw (e, digits_of) (omega arith)
  | inr e ↦
      let less : v / 10 < 10 ^ n = omega (arith, h, pow-suc 10 n) in
      rw (e, digits_of)
        (omega (
          arith,
          length-append (digits_of 10 fuel (v / 10)) (v % 10 ∷ []),
          length-digits_of_10 fuel n (v / 10) less,
        ))
]

read_digits : ℕ → List ℕ → Option ℕ
read_digits acc [] = some acc
read_digits acc (c ∷ s) =
    let rest = read_digits (acc * 10 + (c - 48)) s in if ltb c 48 || ltb 57 c then none else rest

abbrev read_number : List ℕ → Option ℕ
read_number [] = none
read_number (c ∷ s) = read_digits 0 (c ∷ s)

abbrev pub print_number : ℕ → List ℕ
print_number zero = 0 ∷ []
print_number (suc v) = digits_of 10 (suc v) (suc v)

pub numbers : Mpi ℕ
numbers = record {
  read_string = read_number;
  size = λ v. length (digits_of 256 v v);
  write_binary = λ v n. some (digits_of 256 v v);
  read_binary = λ bytes. some (be_value bytes);
  write_string = λ v n. some (ascii (print_number v));
}

read_digits-ascii :
    (acc : ℕ) (ds : List ℕ)
    → All IsDigit ds
    → read_digits acc (ascii ds) ≡ some (value_from 10 acc ds)
unfolding read_digits
read_digits-ascii acc [] h = refl
read_digits-ascii acc (d ∷ ds) (h, hs) =
    let digit : (ltb (48 + d) 48 || ltb 57 (48 + d)) ≡ false = ground arith in
    let same : 48 + d - 48 ≡ d = omega arith in
    rw (digit, same) (read_digits-ascii (acc * 10 + d) ds hs)

read_number-ascii :
    (ds : List ℕ) → 0 < length ds → All IsDigit ds → read_number (ascii ds) ≡ some (dec_value ds)
read_number-ascii [] p h = absurd (omega arith)
read_number-ascii (d ∷ ds) p h = read_digits-ascii 0 (d ∷ ds) h

some_digits : (v : ℕ) → 0 < length (digits_of 10 (suc v) (suc v))
unfolding digits_of
some_digits v =
    let positive : (suc v == 0) ≡ false = ground arith in
    rw (positive, digits_of)
      (omega (arith, length-append (digits_of 10 v (suc v / 10)) (suc v % 10 ∷ [])))

pub print_number-digits :
    (v : ℕ)
    → All IsDigit (print_number v)
      × (dec_value (print_number v) ≡ v)
      × (0 < length (print_number v))
      × ((k : ℕ) → 0 < k → v < 10 ^ k → length (print_number v) ≤ k)
unfolding digits_of
print_number-digits zero = ((omega arith, tt), refl, omega arith, λ k p h. omega (arith, p))
print_number-digits (suc v) = (
  digits_of-All_10 (suc v) (suc v),
  digits_of-value_10 (suc v) (suc v) (omega arith),
  some_digits v,
  λ k p h. length-digits_of_10 (suc v) k (suc v) h,
)

pub numbers-IsDocumented : IsDocumented numbers
unfolding numbers
numbers-IsDocumented = record {
  value = λ v. v;
  read_string-digits = λ ds p h. (dec_value ds, read_number-ascii ds p h, refl);
  size_least = λ v n h. length-digits_of_256 v n v h;
  write_binary-size = λ v.
      (digits_of 256 v v, refl, refl, digits_of-All_256 v v, digits_of-value_256 v v (omega arith));
  read_binary-value = λ bytes h. (be_value bytes, refl, refl);
  room = λ v. 0;
  write_string-digits = λ v n h.
      let (digits, val, some_digits, least) = print_number-digits v in
      (print_number v, refl, digits, val, some_digits, least);
}

pub room-numbers : (v n : ℕ) → numbers-IsDocumented.room v ≤ n
unfolding numbers-IsDocumented
room-numbers v n = omega arith
