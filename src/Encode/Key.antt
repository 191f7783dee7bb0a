-- ===== src/Encode/Key.antt =====
-- The storage keys of state variables.
use libaergo.Base.{
  ℕ, ◌+◌, ◌≤◌, ◌≡◌, ◌≢◌, refl, ap, sym, ◌∙◌, arith, false, none, some, List, [], ◌∷◌, ◌++◌, length,
  take, set, All, ◌==◌, append_assoc, length-append, take_all, take-length_append,
}
use libaergo.Base.Text.{codes, strchr, strrchr, has_prefix}
use libaergo.Encode.{array_key, state_key}

strchr-append :
    (c : ℕ) (xs ys : List ℕ) → All (λ x. x ≢ c) xs → strchr (xs ++ (c ∷ ys)) c ≡ some (length xs)
unfolding strchr
strchr-append c [] ys h = ground arith
strchr-append c (x ∷ xs) ys (h, hs) =
    let no : (x == c) ≡ false = ground (arith, h) in rw (no, strchr, strchr-append c xs ys hs) refl

strrchr-append : (c : ℕ) (xs : List ℕ) → strrchr (xs ++ (c ∷ [])) c ≡ some (length xs)
unfolding strrchr
strrchr-append c [] = ground arith
strrchr-append c (x ∷ xs) = rw (strrchr-append c xs, strrchr) refl

set-append :
    (xs : List ℕ) (x v : ℕ) (ys : List ℕ) → set (xs ++ (x ∷ ys)) (length xs) v ≡ xs ++ (v ∷ ys)
set-append [] x v ys = refl
set-append (y ∷ xs) x v ys = ap (λ t. y ∷ t) (set-append xs x v ys)

-- The second half of array_key.
abbrev cut_key : List ℕ → List ℕ
cut_key dashed = elim (strrchr dashed 93) [ none ↦ dashed | some j ↦ take j dashed ]

pub array_key-append :
    (name key : List ℕ)
    → All (λ x. x ≢ 91) name
    → array_key (name ++ (91 ∷ (key ++ (93 ∷ [])))) ≡ name ++ (45 ∷ key)
unfolding array_key
array_key-append name key h =
    let dashed : List ℕ = name ++ (45 ∷ key) in
    let shape : name ++ (45 ∷ (key ++ (93 ∷ []))) ≡ dashed ++ (93 ∷ []) =
      sym (append_assoc name (45 ∷ key) (93 ∷ [])) in
    rw (strchr-append 91 name (key ++ (93 ∷ [])) h, array_key)
      (ap cut_key (set-append name 91 45 (key ++ (93 ∷ [])) ∙ shape)
        ∙ rw (strrchr-append 93 dashed, cut_key) (take-length_append dashed (93 ∷ [])))

-- The storage key of an array element name[key], where the name has no "[", the text does not start
-- with "raw:" and the name and the key have at most 249 bytes, is "_sv_name-key", brackets in the
-- key kept.
pub state_key-array :
    (name key : List ℕ)
    → All (λ x. x ≢ 91) name
    → has_prefix (name ++ (91 ∷ (key ++ (93 ∷ [])))) (codes "raw:") ≡ false
    → length name + length key ≤ 249
    → state_key (name ++ (91 ∷ (key ++ (93 ∷ [])))) ≡ codes "_sv_" ++ (name ++ (45 ∷ key))
unfolding state_key
state_key-array name key h cooked short =
    let var_name : List ℕ = name ++ (91 ∷ (key ++ (93 ∷ []))) in
    let size : length var_name ≡ length name + (2 + length key) =
      omega (arith, length-append name (91 ∷ (key ++ (93 ∷ []))), length-append key (93 ∷ [])) in
    let clean : All (λ x. x ≢ 91) (codes "_sv_" ++ name) =
      ((λ e. omega arith), ((λ e. omega arith), ((λ e. omega arith), ((λ e. omega arith), h)))) in
    rw (cooked, state_key, take_all 255 (codes "_sv_" ++ var_name) (omega (arith, size, short)))
      (array_key-append (codes "_sv_" ++ name) key clean)
