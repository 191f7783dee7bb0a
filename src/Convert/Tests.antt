-- ===== src/Convert/Tests.antt =====
-- Amounts converted with numbers in place of those of mbedtls.
use libaergo.Base.{ℕ, ◌+◌, ◌*◌, ◌^◌, ◌≤◌, ◌≡◌, arith, some, List, [], ◌∷◌, All, length}
use libaergo.Base.Bytes.{IsByte, be_value}
use libaergo.Convert.{converted, printed, string_to_bignum, bignum_to_string}
use libaergo.Convert.Numbers.{IsDigit, dec_value}
use libaergo.Convert.Amounts.{amount, units, string_to_bignum-amount}
use libaergo.Convert.Printing.{bignum_to_string-amount, string_to_bignum-bignum_to_string}
use libaergo.Convert.Digits.{numbers, numbers-IsDocumented, room-numbers}

-- 12.5
string_to_bignum-amount_example :
    (bytes : List ℕ) × (string_to_bignum numbers (amount (1 ∷ 2 ∷ []) (some (5 ∷ [])))
      ≡ converted bytes)
    × (be_value bytes ≡ units (1 ∷ 2 ∷ []) (some (5 ∷ [])))
    × All IsByte bytes
    × (length bytes ≤ 15)
string_to_bignum-amount_example =
    string_to_bignum-amount numbers numbers-IsDocumented (1 ∷ 2 ∷ []) (some (5 ∷ []))
      (omega arith, (omega arith, tt)) (omega arith, tt) (omega arith)

bignum_to_string_run :
    (whole : List ℕ) × (decimals : List ℕ) × (bignum_to_string numbers (13 ∷ 224 ∷ []) 36
      ≡ printed (amount whole (some decimals)) 34)
    × (length whole ≡ 14)
    × (length decimals ≡ 18)
    × All IsDigit whole
    × All IsDigit decimals
    × (dec_value whole * 10 ^ 18 + dec_value decimals ≡ be_value (13 ∷ 224 ∷ []))
bignum_to_string_run =
    bignum_to_string-amount numbers numbers-IsDocumented (13 ∷ 224 ∷ []) 36
      (omega arith, (omega arith, tt)) (omega arith) (λ v e. room-numbers v 36) (omega arith)

string_to_bignum-bignum_to_string_example :
    (text : List ℕ) × (bytes : List ℕ) × (bignum_to_string numbers (13 ∷ 224 ∷ []) 36
      ≡ printed text 34)
    × (length text ≡ 33)
    × (string_to_bignum numbers text ≡ converted bytes)
    × (be_value bytes ≡ be_value (13 ∷ 224 ∷ []))
string_to_bignum-bignum_to_string_example =
    string_to_bignum-bignum_to_string numbers numbers-IsDocumented (13 ∷ 224 ∷ []) 36
      (omega arith, (omega arith, tt)) (omega arith) (λ v e. room-numbers v 36) (omega arith)
