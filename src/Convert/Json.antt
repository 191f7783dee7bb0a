-- ===== src/Convert/Json.antt =====
-- arguments_to_json: the arguments of a call as a JSON array. The text of a double is a parameter,
-- that of the C library. The characters of `types` and the arguments they tell apart are one list.
pub mod Render
pub mod Overrun
mod Tests
use libaergo.Base.{
  ℕ, zero, suc, ◌+◌, ◌-◌, ◌*◌, ◌/◌, ◌%◌, ◌^◌, Bool, true, false, List, [], ◌∷◌, ◌++◌,
}
use libaergo.Base.{ltb, if◌then◌else◌, length, take, map}
use libaergo.Convert.Digits.{print_number}

-- An int or a long is its sign, `true` for a negative one, and its absolute value; `unknown` stands
-- for any other character.
pub data Argument (F : Type 0) : Type 0 where
  text : List ℕ → Argument F
  int : Bool → ℕ → Argument F
  long : Bool → ℕ → Argument F
  double : F → Argument F
  blob : List ℕ → Argument F
  unknown : Argument F

-- What is in the buffer, the result false, or a write behind the buffer.
pub data Json : Type 0 where
  json : List ℕ → Json
  invalid overrun : Json

infixl 5 ◌>>=◌
abbrev pub ◌>>=◌ : Json → (List ℕ → Json) → Json
json out >>= f = f out
invalid >>= f = invalid
overrun >>= f = overrun

-- The decimal text of snprintf: "%d", and "%" PRIu64 for an int64_t.
abbrev ascii_number : ℕ → List ℕ
ascii_number n = map (λ (d : ℕ). 48 + d) (print_number n)

abbrev pub int_text : Bool → ℕ → List ℕ
int_text negative n = if negative then 45 ∷ ascii_number n else ascii_number n

abbrev pub long_text : Bool → ℕ → List ℕ
long_text negative n = ascii_number (if negative then (2 ^ 64 - n) % 2 ^ 64 else n)

abbrev hex_digit : ℕ → ℕ
hex_digit d = if ltb d 10 then 48 + d else 55 + d

unfoldable pub hex : List ℕ → List ℕ
hex [] = []
hex (c ∷ s) = hex_digit (c / 16 % 16) ∷ hex_digit (c % 16) ∷ hex s

module _ (bufsize : ℕ) where
  abbrev pub put : List ℕ → List ℕ → Json
  put bytes out = if ltb bufsize (length out + length bytes) then overrun else json (out ++ bytes)

  abbrev pub comma : Bool → List ℕ → Json
  comma first out = if first then json out else put (b',' ∷ []) out

  -- while (*z)
  unfoldable pub copy_text : List ℕ → List ℕ → Json
  copy_text [] out = json out
  copy_text (c ∷ z) out =
      let rest = copy_text z (out ++ (c ∷ [])) in
      put (c ∷ []) out >>= λ out'. if ltb (bufsize - 4) (length out') then invalid else rest

  -- snprintf, which writes a terminator too, and then dest += strlen(dest)
  abbrev pub print : ℕ → List ℕ → List ℕ → Json
  print dsize bytes out =
      let cut : List ℕ = take (dsize - 1) bytes in
      if ltb bufsize (length out + length cut + 1) then overrun else json (out ++ cut)

  module _ {F : Type 0} (show_double : F → List ℕ) where
    unfoldable pub write_argument : Bool → ℕ → Argument F → List ℕ → Json
    unfolding copy_text hex
    write_argument first dsize (text z) out =
        comma first out >>= put (34 ∷ []) >>= copy_text z >>= put (34 ∷ [])
    write_argument first dsize (int negative n) out =
        if ltb dsize 12 then invalid else comma first out >>= print dsize (int_text negative n)
    write_argument first dsize (long negative n) out =
        if ltb dsize 12 then invalid else comma first out >>= print dsize (long_text negative n)
    write_argument first dsize (double x) out =
        if ltb dsize 26 then invalid else comma first out >>= print dsize (show_double x)
    write_argument first dsize (blob bytes) out =
        if ltb dsize (length bytes * 2 + 3)
        then invalid
        else comma first out >>= put (34 ∷ (hex bytes ++ (34 ∷ [])))
    write_argument first dsize unknown out = invalid

    unfoldable pub write_arguments : Bool → ℕ → List (Argument F) → List ℕ → Json
    unfolding write_argument
    write_arguments first dsize [] out = put (b']' ∷ 0 ∷ []) out
    write_arguments first dsize (a ∷ args) out = write_argument first dsize a out >>= λ out'.
        write_arguments false (bufsize - length out') args out'

    unfoldable pub arguments_to_json : List (Argument F) → Json
    unfolding write_arguments
    arguments_to_json args = write_arguments true (bufsize - 2) args (b'[' ∷ [])
