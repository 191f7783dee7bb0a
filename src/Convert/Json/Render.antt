-- ===== src/Convert/Json/Render.antt =====
-- What arguments_to_json writes, for arguments that fit.
use libaergo.Base.{
  ℕ, ◌+◌, ◌-◌, ◌*◌, ◌≤◌, ◌<◌, ◌≡◌, refl, ap, sym, ◌∙◌, arith, Bool, true, false, List, [], ◌∷◌,
  ◌++◌, All, length, ltb, le→ltb, if◌then◌else◌, length-append, take_all, append_assoc, append-nil,
}
use libaergo.Convert.Json.{
  Argument, text, int, long, double, blob, unknown, json, put, comma, print, copy_text, hex,
  int_text, long_text, write_argument, write_arguments, arguments_to_json, ◌>>=◌,
}

-- Whether it is of one of the types that are known.
abbrev pub is_known : {F : Type 0} → Argument F → Bool
is_known unknown = false
is_known _ = true

abbrev pub separator : Bool → List ℕ
separator first = if first then [] else b',' ∷ []

module _ {F : Type 0} (show_double : F → List ℕ) where
  -- A JSON value; a long as an unsigned number, bytes as a string of hexadecimal digits.
  abbrev pub item : Argument F → List ℕ
  item (text z) = 34 ∷ (z ++ (34 ∷ []))
  item (int negative n) = int_text negative n
  item (long negative n) = long_text negative n
  item (double x) = show_double x
  item (blob bytes) = 34 ∷ (hex bytes ++ (34 ∷ []))
  item unknown = []

  unfoldable pub items : Bool → List (Argument F) → List ℕ
  items first [] = []
  items first (a ∷ args) = (separator first ++ item a) ++ items false args

  unfoldable pub array : List (Argument F) → List ℕ
  unfolding items
  array args = b'[' ∷ (items true args ++ (b']' ∷ []))

length-hex : (bytes : List ℕ) → length (hex bytes) ≡ length bytes * 2
unfolding hex
length-hex [] = refl
length-hex (c ∷ bytes) = omega (arith, length-hex bytes)

module _ (bufsize : ℕ) where
  put_fits :
      (bytes out : List ℕ)
      → length out + length bytes ≤ bufsize
      → put bufsize bytes out ≡ json (out ++ bytes)
  put_fits bytes out h = rw (le→ltb bufsize (length out + length bytes) h) refl

  comma_fits :
      (first : Bool) (out : List ℕ)
      → length out + length (separator first) ≤ bufsize
      → comma bufsize first out ≡ json (out ++ separator first)
  comma_fits true out h = ap json (sym (append-nil out))
  comma_fits false out h = put_fits (b',' ∷ []) out h

  copy_text_fits :
      (z out : List ℕ)
      → length out + length z + 4 ≤ bufsize
      → copy_text bufsize z out ≡ json (out ++ z)
  unfolding copy_text
  copy_text_fits [] out h = ap json (sym (append-nil out))
  copy_text_fits (c ∷ z) out h =
      let one : List ℕ = c ∷ [] in
      let size : length (out ++ one) ≡ length out + 1 = length-append out one in
      let room : ltb (bufsize - 4) (length (out ++ one)) ≡ false =
        le→ltb (bufsize - 4) (length (out ++ one)) (omega (arith, size, h)) in
      rw (put_fits one out (omega (arith, h))) (
        rw room (
          copy_text_fits z (out ++ one) (omega (arith, size, h))
          ∙ ap json (append_assoc out one z)))

  print_fits :
      (dsize : ℕ) (bytes out : List ℕ)
      → length out + length bytes + 1 ≤ bufsize
      → length bytes < dsize
      → print bufsize dsize bytes out ≡ json (out ++ bytes)
  print_fits dsize bytes out h k =
      rw (take_all (dsize - 1) bytes (omega (arith, k)))
        (rw (le→ltb bufsize (length out + length bytes + 1) h) refl)

  module _ {F : Type 0} (show_double : F → List ℕ) where
    separated-print :
        (first : Bool) (dsize : ℕ) (bytes out : List ℕ)
        → length out + length (separator first ++ bytes) + 26 ≤ bufsize
        → length bytes + 26 ≤ dsize
        → (comma bufsize first out >>= print bufsize dsize bytes)
          ≡ json (out ++ (separator first ++ bytes))
    separated-print first dsize bytes out h d =
        let sep : List ℕ = separator first in
        let e1 = length-append out sep in
        let e2 = length-append sep bytes in
        rw (comma_fits first out (omega (arith, e1, e2, h))) (
          print_fits dsize bytes (out ++ sep) (omega (arith, e1, e2, h)) (omega (arith, d))
          ∙ ap json (append_assoc out sep bytes))

    -- A value is written behind a comma, where it is not the first.
    write_argument-item :
        (first : Bool) (dsize : ℕ) (a : Argument F) (out : List ℕ)
        → is_known a ≡ true
        → length out + length (separator first ++ item show_double a) + 26 ≤ bufsize
        → length (item show_double a) + 26 ≤ dsize
        → write_argument bufsize show_double first dsize a out
          ≡ json (out ++ (separator first ++ item show_double a))
    unfolding write_argument
    write_argument-item first dsize (text z) out k h d =
        let sep : List ℕ = separator first in
        let quote : List ℕ = 34 ∷ [] in
        let out1 : List ℕ = out ++ sep in
        let out2 : List ℕ = out1 ++ quote in
        let e1 = length-append out sep in
        let e2 = length-append out1 quote in
        let e3 = length-append out2 z in
        let e4 = length-append sep (34 ∷ (z ++ quote)) in
        let e5 = length-append z quote in
        rw (comma_fits first out (omega (arith, e1, e4, h))) (
          rw (put_fits quote out1 (omega (arith, e1, e4, e5, h))) (
            rw (copy_text_fits z out2 (omega (arith, e1, e2, e4, e5, h))) (
              put_fits quote (out2 ++ z) (omega (arith, e1, e2, e3, e4, e5, h))
              ∙ ap json (
                  append_assoc out2 z quote
                  ∙ append_assoc out1 quote (z ++ quote)
                  ∙ append_assoc out sep (34 ∷ (z ++ quote))))))
    write_argument-item first dsize (int negative n) out k h d =
        let many : ltb dsize 12 ≡ false = le→ltb dsize 12 (omega (arith, d)) in
        rw many (separated-print first dsize (int_text negative n) out h d)
    write_argument-item first dsize (long negative n) out k h d =
        let many : ltb dsize 12 ≡ false = le→ltb dsize 12 (omega (arith, d)) in
        rw many (separated-print first dsize (long_text negative n) out h d)
    write_argument-item first dsize (double x) out k h d =
        let many : ltb dsize 26 ≡ false = le→ltb dsize 26 (omega (arith, d)) in
        rw many (separated-print first dsize (show_double x) out h d)
    write_argument-item first dsize (blob bytes) out k h d =
        let sep : List ℕ = separator first in
        let quoted : List ℕ = 34 ∷ (hex bytes ++ (34 ∷ [])) in
        let e1 = length-append out sep in
        let e2 = length-append sep quoted in
        let e3 = length-append (hex bytes) (34 ∷ []) in
        let many : ltb dsize (length bytes * 2 + 3) ≡ false =
          le→ltb dsize (length bytes * 2 + 3) (omega (arith, d, e3, length-hex bytes)) in
        rw many (
          rw (comma_fits first out (omega (arith, e1, e2, h))) (
            put_fits quoted (out ++ sep) (omega (arith, e1, e2, h))
            ∙ ap json (append_assoc out sep quoted)))
    write_argument-item first dsize unknown out k h d = cc

    -- The values one after the other, and the end of the array.
    write_arguments-items :
        (first : Bool) (dsize : ℕ) (args : List (Argument F)) (out : List ℕ)
        → All (λ a. is_known a ≡ true) args
        → length out + length (items show_double first args) + 28 ≤ bufsize
        → bufsize ≤ dsize + length out + 1
        → write_arguments bufsize show_double first dsize args out
          ≡ json (out ++ (items show_double first args ++ (b']' ∷ 0 ∷ [])))
    unfolding write_arguments items
    write_arguments-items first dsize [] out k h d = put_fits (b']' ∷ 0 ∷ []) out (omega (arith, h))
    write_arguments-items first dsize (a ∷ args) out (k, ks) h d =
        let one : List ℕ = separator first ++ item show_double a in
        let rest : List ℕ = items show_double false args in
        let ends : List ℕ = b']' ∷ 0 ∷ [] in
        let e1 = length-append one rest in
        let e2 = length-append (separator first) (item show_double a) in
        let e3 = length-append out one in
        rw
          (write_argument-item first dsize a out k (omega (arith, e1, h))
            (omega (arith, e1, e2, h, d)))
          (write_arguments-items false (bufsize - length (out ++ one)) args (out ++ one) ks
              (omega (arith, e1, e3, h)) (omega arith)
            ∙ ap json (
                append_assoc out one (rest ++ ends)
                ∙ ap (λ t. out ++ t) (sym (append_assoc one rest ends))))

-- Arguments of the known types whose JSON array, with 27 bytes more, fits into the buffer: they are
-- accepted and the buffer holds the array and a terminator. The array has a value for each
-- argument, in their order, with commas between them.
pub arguments_to_json-array :
    {F : Type 0} (show_double : F → List ℕ) (bufsize : ℕ) (args : List (Argument F))
    → All (λ a. is_known a ≡ true) args
    → length (array show_double args) + 27 ≤ bufsize
    → arguments_to_json bufsize show_double args ≡ json (array show_double args ++ (0 ∷ []))
unfolding arguments_to_json array
arguments_to_json-array show_double bufsize args k h =
    let values : List ℕ = items show_double true args in
    let e1 = length-append values (b']' ∷ []) in
    write_arguments-items bufsize show_double true (bufsize - 2) args (b'[' ∷ []) k
      (omega (arith, e1, h)) (omega arith)
    ∙ ap (λ t. json (b'[' ∷ t)) (sym (append_assoc values (b']' ∷ []) (0 ∷ [])))
