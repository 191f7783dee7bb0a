-- ===== src/Sha256/Padding.antt =====
-- What sha256_final leaves in the buffer.
use libaergo.Base.{ℕ, zero, suc, ◌+◌, ◌/◌, ◌%◌, ◌^◌, ◌≤◌, ◌<◌, ◌≡◌, refl, ap, sym, ◌∙◌, arith}
use libaergo.Base.{
  List, [], ◌∷◌, ◌++◌, set, take, drop, replicate, length, append-nil, append_assoc,
}
use libaergo.Base.{length-take, length-drop, take-append-drop}
use libaergo.Sha256.{zero_from, put_length}

pub length-set : (xs : List ℕ) (i v : ℕ) → length (set xs i v) ≡ length xs
length-set [] i v = refl
length-set (x ∷ xs) zero v = refl
length-set (x ∷ xs) (suc i) v = ap suc (length-set xs i v)

-- A write just behind a front extends it.
pub take-set :
    (xs : List ℕ) (i v : ℕ) → i < length xs → take (suc i) (set xs i v) ≡ take i xs ++ (v ∷ [])
take-set [] i v h = absurd (omega arith)
take-set (x ∷ xs) zero v h = refl
take-set (x ∷ xs) (suc i) v h = ap (λ t. x ∷ t) (take-set xs i v (omega arith))

pub length-zero_from : (rounds i : ℕ) (xs : List ℕ) → length (zero_from rounds i xs) ≡ length xs
unfolding zero_from
length-zero_from zero i xs = refl
length-zero_from (suc rounds) i xs =
    length-zero_from rounds (i + 1) (set xs i 0) ∙ length-set xs i 0

replicate_snoc :
    (n : ℕ) (xs : List ℕ) → (xs ++ (0 ∷ [])) ++ replicate n 0 ≡ xs ++ replicate (suc n) 0
replicate_snoc n xs = append_assoc xs (0 ∷ []) (replicate n 0)

pub take-zero_from :
    (rounds i e : ℕ) (xs : List ℕ)
    → i + rounds ≡ e
    → e ≤ length xs
    → take e (zero_from rounds i xs) ≡ take i xs ++ replicate rounds 0
unfolding zero_from
take-zero_from zero i e xs h k =
    ap (λ (n : ℕ). take n xs) (omega arith) ∙ sym (append-nil (take i xs))
take-zero_from (suc rounds) i e xs h k =
    take-zero_from rounds (i + 1) e (set xs i 0) (omega arith) (omega (arith, length-set xs i 0))
    ∙ ap (λ t. t ++ replicate rounds 0)
        (ap (λ (n : ℕ). take n (set xs i 0)) {x = i + 1} {y = suc i} (omega arith)
          ∙ take-set xs i 0 (omega arith))
    ∙ replicate_snoc rounds (take i xs)

set-append :
    (xs ys : List ℕ) (i j v : ℕ) → i ≡ length xs + j → set (xs ++ ys) i v ≡ xs ++ set ys j v
set-append [] ys i j v e = ap (λ (n : ℕ). set ys n v) (omega arith)
set-append (x ∷ xs) ys zero j v e = absurd (omega arith)
set-append (x ∷ xs) ys (suc i) j v e = ap (λ t. x ∷ t) (set-append xs ys i j v (omega arith))

-- The bytes of a number of 64 bits, the highest first.
abbrev pub length_bytes : ℕ → List ℕ
length_bytes n =
    n / 2 ^ 56 % 256
    ∷ n / 2 ^ 48 % 256
    ∷ n / 2 ^ 40 % 256
    ∷ n / 2 ^ 32 % 256
    ∷ n / 2 ^ 24 % 256
    ∷ n / 2 ^ 16 % 256
    ∷ n / 2 ^ 8 % 256
    ∷ n % 256
    ∷ []

-- `put_length` eight places from the end.
put_tail : ℕ → List ℕ → List ℕ
put_tail n ys =
    set
      (set
        (set
          (set
            (set (set (set (set ys 7 (n % 256)) 6 (n / 2 ^ 8 % 256)) 5 (n / 2 ^ 16 % 256)) 4
              (n / 2 ^ 24 % 256))
            3 (n / 2 ^ 32 % 256))
          2 (n / 2 ^ 40 % 256))
        1 (n / 2 ^ 48 % 256))
      0 (n / 2 ^ 56 % 256)

put_tail-eight : (n : ℕ) (ys : List ℕ) → length ys ≡ 8 → put_tail n ys ≡ length_bytes n
unfolding put_tail
put_tail-eight n [] k = absurd (omega arith)
put_tail-eight n (a ∷ []) k = absurd (omega arith)
put_tail-eight n (a ∷ b ∷ []) k = absurd (omega arith)
put_tail-eight n (a ∷ b ∷ c ∷ []) k = absurd (omega arith)
put_tail-eight n (a ∷ b ∷ c ∷ d ∷ []) k = absurd (omega arith)
put_tail-eight n (a ∷ b ∷ c ∷ d ∷ e ∷ []) k = absurd (omega arith)
put_tail-eight n (a ∷ b ∷ c ∷ d ∷ e ∷ f ∷ []) k = absurd (omega arith)
put_tail-eight n (a ∷ b ∷ c ∷ d ∷ e ∷ f ∷ g ∷ []) k = absurd (omega arith)
put_tail-eight n (a ∷ b ∷ c ∷ d ∷ e ∷ f ∷ g ∷ h ∷ []) k = refl
put_tail-eight n (a ∷ b ∷ c ∷ d ∷ e ∷ f ∷ g ∷ h ∷ x ∷ xs) k = absurd (omega arith)

put_length-append :
    (n : ℕ) (xs ys : List ℕ) → length xs ≡ 56 → put_length n (xs ++ ys) ≡ xs ++ put_tail n ys
unfolding put_length put_tail
put_length-append n xs ys h = rw (
  set-append xs ys 63 7 _ (omega arith),
  set-append xs _ 62 6 _ (omega arith),
  set-append xs _ 61 5 _ (omega arith),
  set-append xs _ 60 4 _ (omega arith),
  set-append xs _ 59 3 _ (omega arith),
  set-append xs _ 58 2 _ (omega arith),
  set-append xs _ 57 1 _ (omega arith),
  set-append xs _ 56 0 _ (omega arith),
)

-- The eight bytes of the length go behind the first 56.
pub put_length-take :
    (n : ℕ) (xs : List ℕ) → length xs ≡ 64 → put_length n xs ≡ take 56 xs ++ length_bytes n
put_length-take n xs h =
    ap (put_length n) (sym (take-append-drop 56 xs))
    ∙ put_length-append n (take 56 xs) (drop 56 xs) (omega (arith, length-take 56 xs))
    ∙ ap (λ t. take 56 xs ++ t) (put_tail-eight n (drop 56 xs) (omega (arith, length-drop 56 xs)))
