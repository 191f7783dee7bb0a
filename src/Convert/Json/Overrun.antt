-- ===== src/Convert/Json/Overrun.antt =====
-- arguments_to_json on empty strings, for which there is no test of the room.
use libaergo.Base.{
  ℕ, zero, suc, ◌+◌, ◌-◌, ◌≤◌, ◌<◌, ◌≡◌, ◌⊎◌, inl, inr, refl, arith, Bool, true, false, List, [],
  ◌∷◌, ◌++◌, length, replicate, le→ltb, lt→ltb, le-cases, length-append,
}
use libaergo.Convert.Json.{
  text, json, overrun, put, comma, copy_text, write_argument, write_arguments, arguments_to_json,
}

module _ (bufsize : ℕ) where
  put-cases :
      (bytes out : List ℕ)
      → (put bufsize bytes out ≡ overrun) ⊎ (put bufsize bytes out ≡ json (out ++ bytes))
  put-cases bytes out = elim (le-cases (length out + length bytes) bufsize) [
    | inl fits ↦ inr (rw (le→ltb bufsize (length out + length bytes) fits) refl)
    | inr over ↦ inl (rw (lt→ltb bufsize (length out + length bytes) over) refl)
  ]

  comma-cases :
      (first : Bool) (out : List ℕ)
      → (comma bufsize first out ≡ overrun)
        ⊎ ((out' : List ℕ) × (comma bufsize first out ≡ json out') × (length out ≤ length out'))
  comma-cases true out = inr (out, refl, omega arith)
  comma-cases false out = elim (put-cases (b',' ∷ []) out) [
    | inl over ↦ inl over
    | inr fits ↦ inr (out ++ (b',' ∷ []), fits, omega (arith, length-append out (b',' ∷ [])))
  ]

  module _ {F : Type 0} (show_double : F → List ℕ) where
    empty_text-cases :
        (first : Bool) (dsize : ℕ) (out : List ℕ)
        → (write_argument bufsize show_double first dsize (text []) out ≡ overrun)
          ⊎ ((out' : List ℕ) × (write_argument bufsize show_double first dsize (text []) out
                ≡ json out')
              × (length out < length out'))
    unfolding write_argument copy_text
    empty_text-cases first dsize out = elim (comma-cases first out) [
      | inl over ↦ inl (rw over refl)
      | inr (out1, e1, more) ↦ elim (put-cases (34 ∷ []) out1) [
        | inl over ↦ inl (rw e1 (rw over refl))
        | inr e2 ↦ elim (put-cases (34 ∷ []) (out1 ++ (34 ∷ []))) [
          | inl over ↦ inl (rw e1 (rw e2 (rw over refl)))
          | inr e3 ↦ inr (
            (out1 ++ (34 ∷ [])) ++ (34 ∷ []),
            rw e1 (rw e2 (rw e3 refl)),
            omega (
              arith,
              more,
              length-append out1 (34 ∷ []),
              length-append (out1 ++ (34 ∷ [])) (34 ∷ []),
            ),
          )
        ]
      ]
    ]

    empty_texts :
        (n : ℕ) (first : Bool) (dsize : ℕ) (out : List ℕ)
        → bufsize < length out + n + 2
        → write_arguments bufsize show_double first dsize (replicate n (text [])) out ≡ overrun
    unfolding write_arguments
    empty_texts zero first dsize out h =
        rw (lt→ltb bufsize (length out + 2) (omega (arith, h))) refl
    empty_texts (suc n) first dsize out h = elim (empty_text-cases first dsize out) [
      | inl over ↦ rw over refl
      | inr (out', e, more) ↦
          rw e (empty_texts n false (bufsize - length out') out' (omega (arith, h, more)))
    ]

-- As many empty strings as the buffer has bytes, or more, are written behind its end.
pub arguments_to_json-overrun :
    {F : Type 0} (show_double : F → List ℕ) (bufsize n : ℕ)
    → bufsize ≤ n
    → arguments_to_json bufsize show_double (replicate n (text [])) ≡ overrun
unfolding arguments_to_json
arguments_to_json-overrun show_double bufsize n h =
    empty_texts bufsize show_double n true (bufsize - 2) (b'[' ∷ []) (omega (arith, h))
