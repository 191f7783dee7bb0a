-- ===== src/Fields/Address.antt =====
-- An address that was encoded, decoded again.
use libaergo.Base.{
  ℕ, ◌+◌, ◌≤◌, ◌≡◌, ap, ◌∙◌, arith, false, some, List, ◌∷◌, ◌++◌, length, take, ltb, le→ltb,
  take-length_append,
}
use libaergo.Fields.{Base58, encode_address, decode_address}

-- What libbase58 is documented to do: reading a text of b58check_enc gives the version, the bytes and
-- a checksum of 4 bytes, which b58check accepts.
pub record IsBase58 (b58 : Base58) : Type 0 where
  pub tobin-check_enc :
      (version n outsize : ℕ) (bytes text : List ℕ)
      → length bytes + 5 ≡ n
      → b58.check_enc version bytes outsize ≡ some text
      → (checksum : List ℕ) × (b58.tobin n text ≡ some (version ∷ (bytes ++ checksum), n))
  pub check-tobin :
      (version n outsize : ℕ) (bytes text decoded : List ℕ)
      → b58.check_enc version bytes outsize ≡ some text
      → b58.tobin n text ≡ some (decoded, n)
      → b58.check decoded n text ≡ some version

-- An address of 33 bytes, encoded to a text of at least 52 characters, is decoded to itself.
pub decode_address-encode_address :
    (b58 : Base58)
    → IsBase58 b58
    → (bytes text : List ℕ) (outsize outsize' : ℕ) → length bytes ≡ 33
    → encode_address b58 bytes outsize ≡ some text
    → 52 ≤ length text
    → 33 ≤ outsize'
    → decode_address b58 text outsize' ≡ some bytes
unfolding encode_address decode_address
decode_address-encode_address b58 is bytes text outsize outsize' size e long room =
    let (checksum, decodes) =
      is.tobin-check_enc 0x42 38 outsize bytes text (omega (arith, size)) e in
    let checks = is.check-tobin 0x42 38 outsize bytes text _ e decodes in
    let t1 : ltb (length text) 52 ≡ false = le→ltb (length text) 52 long in
    let t2 : ltb outsize' 33 ≡ false = le→ltb outsize' 33 room in
    rw (t1, t2, decodes)
      (rw checks (
        ap some (
          ap (λ (n : ℕ). take n (bytes ++ checksum)) {x = 33} {y = length bytes}
            (omega (arith, size))
          ∙ take-length_append bytes checksum)))
