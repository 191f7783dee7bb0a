-- ===== src/Fields/Reading.antt =====
-- What the reading of a field leaves.
use libaergo.Base.{
  ℕ, suc, ◌+◌, ◌*◌, ◌^◌, ◌≤◌, ◌<◌, ◌≡◌, ◌≢◌, sym, Bool, ◌↔◌, inl, inr, refl, ◌∙◌, arith, true,
  false, some, List, ◌∷◌, ◌++◌, All, length, drop, ltb, ◌==◌, le→ltb, lt→ltb, le-cases,
  length-append, length-drop,
}
use libaergo.Base.Bytes.{IsByte, be_value}
use libaergo.Convert.{Mpi}
use libaergo.Convert.Numbers.{IsDocumented, dec_value}
use libaergo.Convert.Amounts.{amount}
use libaergo.Convert.Printing.{bignum_to_string-amount}
use libaergo.Fields.{Stream, target, behind, read_string, read_bignum_to_double}

abbrev pub field : List ℕ → Stream
field bytes = record { left = bytes; readable = true }

pub read_string-short :
    (bytes buffer : List ℕ)
    → length bytes < length buffer
    → read_string (field bytes) (some buffer)
      ≡ target (some (bytes ++ (0 ∷ drop (suc (length bytes)) buffer))) true
unfolding read_string
read_string-short bytes buffer h =
    let room : ltb (length buffer) (length bytes) ≡ false =
      le→ltb (length buffer) (length bytes) (omega (arith, h)) in
    let less : (length bytes == length buffer) ≡ false = ground (arith, h) in rw (room, less) refl

read_string-full :
    (bytes buffer : List ℕ)
    → length bytes ≡ length buffer
    → read_string (field bytes) (some buffer) ≡ behind
unfolding read_string
read_string-full bytes buffer h =
    let room : ltb (length buffer) (length bytes) ≡ false =
      le→ltb (length buffer) (length bytes) (omega (arith, h)) in
    let same : (length bytes == length buffer) ≡ true = ground (arith, h) in rw (room, same) refl

read_string-long :
    (bytes buffer : List ℕ)
    → length buffer < length bytes
    → read_string (field bytes) (some buffer) ≡ target (some buffer) false
unfolding read_string
read_string-long bytes buffer h = rw (lt→ltb (length buffer) (length bytes) h) refl

target-ne-behind : {A : Type 0} {a : A} {b : Bool} → target a b ≢ behind
target-ne-behind e = cc

refused-ne-read : {A : Type 0} {a b : A} → target a false ≢ target b true
refused-ne-read e = cc

length-terminated :
    (bytes buffer : List ℕ)
    → length bytes < length buffer
    → length (bytes ++ (0 ∷ drop (suc (length bytes)) buffer)) ≡ length buffer
length-terminated bytes buffer h = omega (
  arith,
  h,
  length-append bytes (0 ∷ drop (suc (length bytes)) buffer),
  length-drop (suc (length bytes)) buffer,
)

-- read_string of a field that nanopb can read writes behind the buffer if and only if the field is
-- as long as the buffer; and it returns true, with a buffer of the same length, if and only if the
-- field is shorter.
pub read_string-cases :
    (bytes buffer : List ℕ)
    → ((read_string (field bytes) (some buffer) ≡ behind) ↔ (length bytes ≡ length buffer))
      × (((text : List ℕ) × (read_string (field bytes) (some buffer) ≡ target (some text) true)
            × (length text ≡ length buffer))
          ↔ (length bytes < length buffer))
read_string-cases bytes buffer = elim (le-cases (length buffer) (length bytes)) [
  | inr short ↦
      let e = read_string-short bytes buffer short in
      (
        (λ k. absurd (target-ne-behind (sym e ∙ k)), λ h. absurd (omega (arith, h, short))),
        (λ h. short, λ h. (_, e, length-terminated bytes buffer short)),
      )
  | inl over ↦ elim (le-cases (length bytes) (length buffer)) [
    | inl under ↦
        let e = read_string-full bytes buffer (omega (arith, over, under)) in
        (
          (λ k. omega (arith, over, under), λ h. e),
          (
            λ h. let (text, k, size) = h in absurd (target-ne-behind (sym k ∙ e)),
            λ h. absurd (omega (arith, h, over)),
          ),
        )
    | inr long ↦
        let e = read_string-long bytes buffer long in
        (
          (λ k. absurd (target-ne-behind (sym e ∙ k)), λ h. absurd (omega (arith, h, long))),
          (
            λ h. let (text, k, size) = h in absurd (refused-ne-read (sym e ∙ k)),
            λ h. absurd (omega (arith, h, long)),
          ),
        )
  ]
]

module _ {V F : Type 0} (mpi : Mpi V) (doc : IsDocumented mpi) (atof : List ℕ → F) where
  -- With mbedtls as documented: a field of at most 64 bytes, with a number below 10 ^ 32 that mbedtls
  -- can print into 64 bytes, gives the double of a text of 14 digits, a point and 18 digits, which
  -- stand for the number in units of 10 ^ -18.
  pub read_bignum_to_double-amount :
      (bytes : List ℕ) (old : F)
      → All IsByte bytes
      → length bytes ≤ 64
      → be_value bytes < 10 ^ 32
      → ((v : V) → mpi.read_binary bytes ≡ some v → doc.room v ≤ 64)
      → (whole : List ℕ) × (decimals : List ℕ) × (read_bignum_to_double mpi atof
            (field bytes)
            (some old)
          ≡ target (some (atof (amount whole (some decimals)))) true)
        × (length whole ≡ 14)
        × (length decimals ≡ 18)
        × (dec_value whole * 10 ^ 18 + dec_value decimals ≡ be_value bytes)
  unfolding read_bignum_to_double
  read_bignum_to_double-amount bytes old are_bytes short small room =
      let (whole, decimals, prints, w, l, _, _, val) =
        bignum_to_string-amount mpi doc bytes 64 are_bytes small room (omega arith) in
      let fits : ltb 64 (length bytes) ≡ false = le→ltb 64 (length bytes) short in
      (whole, decimals, rw (fits, prints) refl, w, l, val)
