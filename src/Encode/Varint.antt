-- ===== src/Encode/Varint.antt =====
-- encode_varuint64: an integer as big-endian bytes without zeros in front.
use libaergo.Base.{
  ℕ, ◌^◌, ◌<◌, ◌≡◌, ◌≢◌, ◌⊎◌, inl, inr, refl, ap, ◌∙◌, arith, List, [], ◌∷◌, length, get_or, ◌==◌,
  Bool-cases,
}
use libaergo.Base.Bytes.{be_value}
use libaergo.Endianess.{be64, copy_be64-be64, be_value-be64}
use libaergo.Encode.{skip_zeros, encode_varuint64}

be_value-skip_zeros : (bytes : List ℕ) → be_value (skip_zeros bytes) ≡ be_value bytes
unfolding skip_zeros
be_value-skip_zeros [] = refl
be_value-skip_zeros (b ∷ []) = refl
be_value-skip_zeros (b ∷ c ∷ bytes) = elim (Bool-cases (b == 0)) [
  | inl e ↦
      let nought : b ≡ 0 = ground (arith, e) in
      rw (e, skip_zeros) (be_value-skip_zeros (c ∷ bytes) ∙ rw nought refl)
  | inr e ↦ rw (e, skip_zeros) refl
]

-- No byte could be left out.
abbrev pub IsShortest : List ℕ → Type 0
IsShortest bytes = (length bytes ≡ 1) ⊎ (get_or bytes 0 0 ≢ 0)

skip_zeros-IsShortest : (b : ℕ) (bytes : List ℕ) → IsShortest (skip_zeros (b ∷ bytes))
unfolding skip_zeros
skip_zeros-IsShortest b [] = inl refl
skip_zeros-IsShortest b (c ∷ bytes) = elim (Bool-cases (b == 0)) [
  | inl e ↦ rw (e, skip_zeros) (skip_zeros-IsShortest c bytes)
  | inr e ↦ let some_bit : b ≢ 0 = ground (arith, e) in rw (e, skip_zeros) (inr some_bit)
]

encode_varuint64-skip_zeros : (v : ℕ) → v < 2 ^ 64 → encode_varuint64 v ≡ skip_zeros (be64 v)
unfolding encode_varuint64
encode_varuint64-skip_zeros v h = ap skip_zeros (copy_be64-be64 v h)

-- The bytes that encode_varuint64 writes for a 64-bit integer stand for it, most significant byte
-- first, and are as few as can be: one, or more with the first not zero.
pub encode_varuint64-value :
    (v : ℕ) → v < 2 ^ 64 → (be_value (encode_varuint64 v) ≡ v) × IsShortest (encode_varuint64 v)
encode_varuint64-value v h =
    rw (encode_varuint64-skip_zeros v h)
      (be_value-skip_zeros (be64 v) ∙ be_value-be64 v h, skip_zeros-IsShortest _ _)
