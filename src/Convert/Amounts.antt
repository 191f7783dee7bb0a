-- ===== src/Convert/Amounts.antt =====
-- string_to_bignum: a decimal amount in units of 10 ^ -18.
use libaergo.Base.{
  ℕ, zero, suc, ◌+◌, ◌-◌, ◌*◌, ◌^◌, ◌≤◌, ◌<◌, ◌≡◌, refl, ap, sym, ◌∙◌, arith, false, Option, none,
  some, List, [], ◌∷◌, ◌++◌, All, length, replicate, take, drop, ltb, ◌==◌, le→ltb, length-append,
  length-take, length-map, length-replicate, take_all, take-length_append, All-append, All-take,
  All-replicate,
}
use libaergo.Base.Bytes.{IsByte, be_value}
use libaergo.Base.Text.{strchr}
use native.Mathlib.Nat.{pow-le-pow_right}
use libaergo.Convert.{Mpi, converted, split_amount, fill_decimals, string_to_bignum}
use libaergo.Convert.Numbers.{
  IsDigit, ascii, dec_value, IsDocumented, value_from-append, value_from_shift, dec_value-zeros,
  dec_value_below,
}

-- A text of digits, with a point and decimals or without.
abbrev pub amount : List ℕ → Option (List ℕ) → List ℕ
amount whole none = ascii whole
amount whole (some decimals) = ascii whole ++ (46 ∷ ascii decimals)

abbrev pub decimals_of : Option (List ℕ) → List ℕ
decimals_of none = []
decimals_of (some decimals) = decimals

-- Its value in units of 10 ^ -18, decimals behind the 18th left out.
abbrev pub units : List ℕ → Option (List ℕ) → ℕ
units whole decimals =
    dec_value whole * 10 ^ 18
    + dec_value (take 18 (decimals_of decimals)) * 10 ^ (18 - length (decimals_of decimals))

strchr-ascii :
    (whole rest : List ℕ)
    → All IsDigit whole
    → strchr (ascii whole ++ (46 ∷ rest)) 46 ≡ some (length whole)
unfolding strchr
strchr-ascii [] rest h = refl
strchr-ascii (d ∷ whole) rest (h, hs) =
    let other : (48 + d == 46) ≡ false = ground (arith, h) in
    rw (other, strchr, strchr-ascii whole rest hs) refl

strchr-ascii-none : (whole : List ℕ) → All IsDigit whole → strchr (ascii whole) 46 ≡ none
unfolding strchr
strchr-ascii-none [] h = refl
strchr-ascii-none (d ∷ whole) (h, hs) =
    let other : (48 + d == 46) ≡ false = ground (arith, h) in
    rw (other, strchr, strchr-ascii-none whole hs) refl

pub ascii-append : (xs ys : List ℕ) → ascii (xs ++ ys) ≡ ascii xs ++ ascii ys
ascii-append [] ys = refl
ascii-append (x ∷ xs) ys = ap (λ t. (48 + x) ∷ t) (ascii-append xs ys)

pub ascii-take : (n : ℕ) (xs : List ℕ) → take n (ascii xs) ≡ ascii (take n xs)
ascii-take zero xs = refl
ascii-take (suc n) [] = refl
ascii-take (suc n) (x ∷ xs) = ap (λ t. (48 + x) ∷ t) (ascii-take n xs)

pub ascii-replicate : (n : ℕ) → ascii (replicate n 0) ≡ replicate n 48
ascii-replicate zero = refl
ascii-replicate (suc n) = ap (λ t. 48 ∷ t) (ascii-replicate n)

drop_point : (xs ys : List ℕ) → drop (suc (length xs)) (xs ++ (46 ∷ ys)) ≡ ys
drop_point [] ys = refl
drop_point (x ∷ xs) ys = drop_point xs ys

split_amount-amount :
    (whole : List ℕ) (decimals : Option (List ℕ))
    → All IsDigit whole
    → length whole ≤ 35
    → split_amount (amount whole decimals) ≡ (ascii whole, ascii (take 18 (decimals_of decimals)))
unfolding split_amount
split_amount-amount whole none h short = rw (strchr-ascii-none whole h, split_amount) refl
split_amount-amount whole (some decimals) h short =
    let size : length (ascii whole) ≡ length whole = length-map (λ (d : ℕ). 48 + d) whole in
    let rest : List ℕ = 46 ∷ ascii decimals in
    let front : take (length whole) (ascii whole ++ rest) ≡ ascii whole =
      ap (λ (n : ℕ). take n (ascii whole ++ rest)) (sym size)
      ∙ take-length_append (ascii whole) rest in
    let back : drop (suc (length whole)) (ascii whole ++ rest) ≡ ascii decimals =
      ap (λ (n : ℕ). drop (suc n) (ascii whole ++ rest)) (sym size)
      ∙ drop_point (ascii whole) (ascii decimals) in
    rw (strchr-ascii whole (ascii decimals) h, split_amount)
      (rw
        (
          front,
          back,
          take_all 35 (ascii whole) (omega (arith, size, short)),
          ascii-take 18 decimals,
        )
        refl)

-- The digits that mbedtls reads.
abbrev all_digits : List ℕ → List ℕ → List ℕ
all_digits whole first = whole ++ (first ++ replicate (18 - length first) 0)

all_digits-text :
    (whole first : List ℕ)
    → ascii whole ++ fill_decimals (ascii first) ≡ ascii (all_digits whole first)
unfolding fill_decimals
all_digits-text whole first =
    let size : length (ascii first) ≡ length first = length-map (λ (d : ℕ). 48 + d) first in
    let zeros : List ℕ = replicate (18 - length first) 0 in
    ap (λ (n : ℕ). ascii whole ++ (ascii first ++ replicate (18 - n) 48)) size
    ∙ ap (λ t. ascii whole ++ (ascii first ++ t)) (sym (ascii-replicate (18 - length first)))
    ∙ ap (λ t. ascii whole ++ t) (sym (ascii-append first zeros))
    ∙ sym (ascii-append whole (first ++ zeros))

length-all_digits :
    (whole first : List ℕ) → length first ≤ 18 → length (all_digits whole first) ≡ length whole + 18
length-all_digits whole first h =
    let zeros : List ℕ = replicate (18 - length first) 0 in
    omega (
      arith,
      h,
      length-append whole (first ++ zeros),
      length-append first zeros,
      length-replicate {A = ℕ} (18 - length first) 0,
    )

dec_value-all_digits :
    (whole first : List ℕ)
    → length first ≤ 18
    → dec_value (all_digits whole first)
      ≡ dec_value whole * 10 ^ 18 + dec_value first * 10 ^ (18 - length first)
dec_value-all_digits whole first h =
    let n = 18 - length first in
    let zeros : List ℕ = replicate n 0 in
    let tail : List ℕ = first ++ zeros in
    let size : length tail ≡ 18 =
      omega (arith, h, length-append first zeros, length-replicate {A = ℕ} n 0) in
    let outer = value_from-append 10 0 whole tail ∙ value_from_shift (dec_value whole) tail in
    let scale : dec_value whole * 10 ^ length tail ≡ dec_value whole * 10 ^ 18 =
      ap (λ (k : ℕ). dec_value whole * 10 ^ k) size in
    let inner = value_from-append 10 0 first zeros ∙ value_from_shift (dec_value first) zeros in
    let scale' : dec_value first * 10 ^ length zeros ≡ dec_value first * 10 ^ n =
      ap (λ (k : ℕ). dec_value first * 10 ^ k) (length-replicate {A = ℕ} n 0) in
    omega (arith, outer, inner, scale, scale', dec_value-zeros n)

take-decimals : (decimals : List ℕ) → 18 - length (take 18 decimals) ≡ 18 - length decimals
take-decimals decimals = omega (arith, length-take 18 decimals)

module _ {V : Type 0} (mpi : Mpi V) (doc : IsDocumented mpi) where
  -- With mbedtls as documented: an amount of at most 17 digits before the point, and any number
  -- behind it or no point, is converted to the big-endian bytes, at most 15, of the number of its
  -- units of 10 ^ -18; the decimals behind the 18th are left out.
  pub string_to_bignum-amount :
      (whole : List ℕ) (decimals : Option (List ℕ))
      → All IsDigit whole
      → All IsDigit (decimals_of decimals)
      → length whole ≤ 17
      → (bytes : List ℕ) × (string_to_bignum mpi (amount whole decimals) ≡ converted bytes)
        × (be_value bytes ≡ units whole decimals)
        × All IsByte bytes
        × (length bytes ≤ 15)
  unfolding string_to_bignum
  string_to_bignum-amount whole decimals h k short =
      let first : List ℕ = take 18 (decimals_of decimals) in
      let cut : length first ≤ 18 = omega (arith, length-take 18 (decimals_of decimals)) in
      let ds : List ℕ = all_digits whole first in
      let digits : All IsDigit ds =
        All-append IsDigit whole (first ++ replicate (18 - length first) 0) h (
          All-append IsDigit first (replicate (18 - length first) 0)
            (All-take IsDigit 18 (decimals_of decimals) k)
            (All-replicate IsDigit (18 - length first) 0 (omega arith))) in
      let size = length-all_digits whole first cut in
      let (v, reads, val) = doc.read_string-digits ds (omega (arith, size)) digits in
      let (bytes, writes, len, are_bytes, val') = doc.write_binary-size v in
      let splits = split_amount-amount whole decimals h (omega (arith, short)) in
      let fits : ltb 35 (length (ascii ds)) ≡ false =
        le→ltb 35 (length (ascii ds))
          (omega (arith, length-map (λ (d : ℕ). 48 + d) ds, size, short)) in
      let less : dec_value ds < 10 ^ 35 = omega (
        arith,
        dec_value_below ds digits,
        pow-le-pow_right {n = 10} (omega arith) {i = length ds} {j = 35}
            (omega (arith, size, short)),
      ) in
      let few : length bytes ≤ 15 =
        omega (arith, len, doc.size_least v 15 (omega (arith, val, less))) in
      let exact : be_value bytes ≡ units whole decimals =
        val'
        ∙ val
        ∙ dec_value-all_digits whole first cut
        ∙ ap (λ (n : ℕ). dec_value whole * 10 ^ 18 + dec_value first * 10 ^ n)
            (take-decimals (decimals_of decimals)) in
      (
        bytes,
        rw (splits, all_digits-text whole first) (rw (fits, reads) (rw writes refl)),
        exact,
        are_bytes,
        few,
      )
