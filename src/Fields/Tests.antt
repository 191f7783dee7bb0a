-- ===== src/Fields/Tests.antt =====
-- A field of three bytes, and a balance.
use libaergo.Base.{ℕ, ◌+◌, ◌*◌, ◌^◌, ◌<◌, ◌≡◌, ◌↔◌, arith, true, some, List, [], ◌∷◌, length}
use libaergo.Base.Bytes.{be_value}
use libaergo.Convert.Numbers.{dec_value}
use libaergo.Convert.Amounts.{amount}
use libaergo.Convert.Digits.{numbers, numbers-IsDocumented, room-numbers}
use libaergo.Fields.{target, behind, read_string, read_bignum_to_double}
use libaergo.Fields.Reading.{field, read_string-cases, read_bignum_to_double-amount}

abbrev three : List ℕ
three = 1 ∷ 2 ∷ 3 ∷ []

read_string-cases_example :
    ((read_string (field three) (some (0 ∷ 0 ∷ 0 ∷ [])) ≡ behind) ↔ (◌≡◌ {A = ℕ} 3 3))
    × (((text : List ℕ) × (read_string (field three) (some (0 ∷ 0 ∷ 0 ∷ []))
            ≡ target (some text) true)
          × (length text ≡ 3))
        ↔ (3 < 3))
read_string-cases_example = read_string-cases three (0 ∷ 0 ∷ 0 ∷ [])

abbrev same_text : List ℕ → List ℕ
same_text text = text

read_bignum_to_double_run :
    (whole : List ℕ) × (decimals : List ℕ) × (read_bignum_to_double numbers same_text
        (field (13 ∷ 224 ∷ []))
        (some [])
      ≡ target (some (amount whole (some decimals))) true)
    × (length whole ≡ 14)
    × (length decimals ≡ 18)
    × (dec_value whole * 10 ^ 18 + dec_value decimals ≡ be_value (13 ∷ 224 ∷ []))
read_bignum_to_double_run =
    read_bignum_to_double-amount numbers numbers-IsDocumented same_text (13 ∷ 224 ∷ []) []
      (omega arith, (omega arith, tt)) (omega arith) (omega arith) (λ v e. room-numbers v 64)
