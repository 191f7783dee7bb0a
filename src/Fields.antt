-- ===== src/Fields.antt =====
-- aergo.c, the callbacks with which nanopb reads and writes fields, and account.c, the addresses. A
-- stream is the bytes of its field, which pb_read gives or not; libbase58 is a parameter.
pub mod Reading
pub mod Address
mod Tests
use libaergo.Base.{
  ℕ, suc, ◌+◌, ◌-◌, Bool, true, false, Option, none, some, List, [], ◌∷◌, ◌++◌, length, take, drop,
  ltb, ◌==◌, not, ◌&&◌, ◌||◌, if◌then◌else◌,
}
use libaergo.Convert.{Mpi, Printed, printed, not_printed, bignum_to_string}

-- The field, and whether pb_read succeeds.
pub record Stream : Type 0 where
  pub left : List ℕ
  pub readable : Bool

-- What a callback leaves: the value it returns with what is in the target, or a write behind it.
pub data Target (A : Type 0) : Type 0 where
  target : A → Bool → Target A
  behind : Target A

-- The buffer of a blob has the blob's size; `none` is no blob.
unfoldable pub read_string : Stream → Option (List ℕ) → Target (Option (List ℕ))
read_string stream none = target none true
read_string stream (some buffer) =
    let len = length stream.left in
    if ltb (length buffer) len
    then target (some buffer) false
    else if not stream.readable
    then target (some buffer) false
    else if len == length buffer
    then behind
    else target (some (stream.left ++ (0 ∷ drop (suc len) buffer))) true

unfoldable pub read_blob : Stream → Option (List ℕ) → Target (Option (List ℕ))
read_blob stream none = target none true
read_blob stream (some buffer) =
    let len = length stream.left in
    if ltb (length buffer) len
    then target (some buffer) false
    else if not stream.readable
    then target (some buffer) false
    else target (some (stream.left ++ drop len buffer)) true

module _ {V F : Type 0} (mpi : Mpi V) (atof : List ℕ → F) where
  abbrev pub to_double : F → Printed → Target (Option F)
  to_double old not_printed = target (some old) false
  to_double old (printed text n) =
      if n == 0 then target (some old) false else target (some (atof text)) true

  -- The text of the number is written over its bytes.
  unfoldable pub read_bignum_to_double : Stream → Option F → Target (Option F)
  unfolding bignum_to_string
  read_bignum_to_double stream none = target none true
  read_bignum_to_double stream (some old) =
      if ltb 64 (length stream.left)
      then target (some old) false
      else if not stream.readable
      then target (some old) false
      else to_double old (bignum_to_string mpi stream.left 64)

-- pb_decode of a proof calls read_string for the field with the value, where there is one.
unfoldable pub read_contract_var_proof :
    (Stream → Option Stream × Bool) → Stream → Option (List ℕ) → Target (Option (List ℕ))
unfolding read_string
read_contract_var_proof pb_decode stream buffer =
    let (field, ok) = pb_decode stream in
    elim field [
      | none ↦ target buffer ok
      | some value ↦ elim (read_string value buffer) [
        | behind ↦ behind
        | target buffer' read ↦ target buffer' (read && ok)
      ]
    ]

-- libbase58: b58check_enc of a version and bytes into some room, b58tobin, which fills a buffer of
-- some size and says how much of it counts, and b58check, which gives the version.
pub record Base58 : Type 0 where
  pub check_enc : ℕ → List ℕ → ℕ → Option (List ℕ)
  pub tobin : ℕ → List ℕ → Option (List ℕ × ℕ)
  pub check : List ℕ → ℕ → List ℕ → Option ℕ

abbrev pub address_version : ℕ
address_version = 0x42

abbrev pub encoded_address_length : ℕ
encoded_address_length = 52

module _ (b58 : Base58) where
  unfoldable pub encode_address : List ℕ → ℕ → Option (List ℕ)
  encode_address bytes outsize = b58.check_enc address_version bytes outsize

  abbrev pub version_is : Option ℕ → Bool
  version_is none = false
  version_is (some version) = version == address_version

  abbrev pub check_decoded : List ℕ → Option (List ℕ × ℕ) → Option (List ℕ)
  check_decoded encoded none = none
  check_decoded encoded (some (decoded, decsize)) =
      if version_is (b58.check decoded decsize encoded)
      then some (take 33 (drop 1 decoded))
      else none

  -- `none` is the value false.
  unfoldable pub decode_address : List ℕ → ℕ → Option (List ℕ)
  decode_address encoded outsize =
      if ltb (length encoded) encoded_address_length || ltb outsize 33
      then none
      else check_decoded encoded (b58.tobin 38 encoded)

  -- The bytes that encode_account_address hands to nanopb, behind the tag of the field.
  unfoldable pub encode_account_address : List ℕ → Option (List ℕ)
  unfolding decode_address
  encode_account_address str =
      if length str == encoded_address_length then decode_address str 128 else none
