-- ===== src/Convert.antt =====
-- conversions.c: amounts as text with a decimal point and as big-endian bytes. mbedtls is a parameter,
-- Convert/Numbers.antt says what is taken from its documentation. A text is the list of its bytes without
-- the terminator.
pub mod Numbers
pub mod Amounts
pub mod Printing
pub mod Json
pub mod Digits
mod Tests
use libaergo.Base.{
  ℕ, zero, suc, ◌+◌, ◌-◌, Bool, true, false, Option, none, some, List, [], ◌∷◌, ◌++◌,
}
use libaergo.Base.{ltb, leb, ◌==◌, if◌then◌else◌, length, take, drop, replicate}
use libaergo.Base.Text.{strchr}

-- The functions of mbedtls that are called, on its numbers `V`: `none` is an error code. size is
-- mbedtls_mpi_size; write_string, for the base 10, gives the text without its terminator.
pub record Mpi (V : Type 0) : Type 0 where
  pub read_string : List ℕ → Option V
  pub size : V → ℕ
  pub write_binary : V → ℕ → Option (List ℕ)
  pub read_binary : List ℕ → Option V
  pub write_string : V → ℕ → Option (List ℕ)

-- The result of a conversion: what was written, the result -1, or a write outside of a buffer.
pub data Converted : Type 0 where
  converted : List ℕ → Converted
  refused out_of_buffer : Converted

abbrev dot : ℕ
dot = 46

-- The integer part and up to 18 decimals; the text without a point is copied by strcpy, with one the
-- integer part by snprintf.
unfoldable pub split_amount : List ℕ → List ℕ × List ℕ
split_amount str = elim (strchr str dot) [
  | some p ↦ (take 35 (take p str), take 18 (drop (suc p) str))
  | none ↦ (str, [])
]

-- fill the decimals with trailing zeros
unfoldable pub fill_decimals : List ℕ → List ℕ
fill_decimals decimal = decimal ++ replicate (18 - length decimal) 48

abbrev pub or_refused : Option (List ℕ) → Converted
or_refused none = refused
or_refused (some bytes) = converted bytes

module _ {V : Type 0} (mpi : Mpi V) where
  abbrev pub write_value : Option V → Converted
  write_value none = refused
  write_value (some value) = or_refused (mpi.write_binary value (mpi.size value))

  -- `integer` has 36 bytes, for strcpy and for strcat.
  unfoldable pub string_to_bignum : List ℕ → Converted
  unfolding split_amount fill_decimals
  string_to_bignum str =
      let (integer, decimal) = split_amount str in
      let text : List ℕ = integer ++ fill_decimals decimal in
      if ltb 35 (length text) then out_of_buffer else write_value (mpi.read_string text)

-- replace the spaces with zeros, and count them
unfoldable pub fill_spaces : List ℕ → List ℕ × ℕ
fill_spaces [] = ([], 0)
fill_spaces (c ∷ s) =
    let (s', n) = fill_spaces s in if c == 32 then (48 ∷ s', suc n) else (c ∷ s, 0)

-- snprintf of "%32s" into 36 bytes
abbrev pub align_right : List ℕ → List ℕ
align_right text = take 35 (replicate (32 - length text) 32 ++ text)

-- The text that is written, and the result.
pub data Printed : Type 0 where
  printed : List ℕ → ℕ → Printed
  not_printed : Printed

unfoldable pub add_point : ℕ → List ℕ → Printed
unfolding fill_spaces
add_point outlen digits =
    let (tmp, spaces) = fill_spaces (align_right digits) in
    printed (take (outlen - 1) (take 14 tmp ++ (46 ∷ drop 14 tmp))) (length digits + 1 + spaces + 1)

abbrev pub point_or_not : ℕ → Option (List ℕ) → Printed
point_or_not outlen none = not_printed
point_or_not outlen (some digits) = add_point outlen digits

module _ {V : Type 0} (mpi : Mpi V) where
  abbrev pub write_text : ℕ → Option V → Printed
  write_text outlen none = not_printed
  write_text outlen (some value) = point_or_not outlen (mpi.write_string value outlen)

  unfoldable pub bignum_to_string : List ℕ → ℕ → Printed
  unfolding add_point
  bignum_to_string buf outlen = write_text outlen (mpi.read_binary buf)
