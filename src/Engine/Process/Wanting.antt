-- ===== src/Engine/Process/Wanting.antt =====
-- The number of requests that want their receipt, at loc_check_receipts.
use libaergo.Base.{
  ℕ, suc, ◌≤◌, ◌≡◌, ◌≢◌, refl, arith, true, false, none, some, List, [], ◌∷◌, ◌++◌, map, All,
  if◌then◌else◌,
}
use libaergo.Engine.{Request, Instance, wants_receipt, first_wanting, modify, find, write}
use libaergo.Engine.Handlers.Keys.{key}
use libaergo.Engine.Process.{from_option}
use libaergo.Engine.Process.Ends.{Ends}
use libaergo.Engine.Process.Fresh.{Distinct}

unfoldable pub count_wanting : List (ℕ × Request) → ℕ
count_wanting [] = 0
count_wanting ((k, r) ∷ rs) = if wants_receipt r then suc (count_wanting rs) else count_wanting rs

pub wants-asked : (r : Request) → wants_receipt (record r { processing_receipt = true }) ≡ false
wants-asked r = ground arith

pub wants-given_up : (r : Request) → wants_receipt (record r { need_receipt = false }) ≡ false
wants-given_up r = ground arith

module _ (id : ℕ) (f : Request → Request) (off : (r : Request) → wants_receipt (f r) ≡ false) where
  pub count_wanting-modify :
      (rs : List (ℕ × Request)) → count_wanting (modify id f rs) ≤ count_wanting rs
  unfolding count_wanting modify
  count_wanting-modify [] = omega arith
  count_wanting-modify ((k, r) ∷ rs) = ground (arith, count_wanting-modify rs, off r)

  first_wanting-ne :
      (k : ℕ) (rs : List (ℕ × Request)) (r : Request)
      → All (λ j. j ≢ k) (map key rs)
      → first_wanting rs ≡ some (id, r)
      → id ≢ k
  unfolding first_wanting
  first_wanting-ne k [] r h e = cc
  first_wanting-ne k ((j, q) ∷ rs) r (h, hs) e = ground (arith, first_wanting-ne k rs r hs)

  pub count_wanting-first :
      (rs : List (ℕ × Request)) (r : Request)
      → Distinct (map key rs)
      → first_wanting rs ≡ some (id, r)
      → suc (count_wanting (modify id f rs)) ≤ count_wanting rs
  unfolding count_wanting modify first_wanting
  count_wanting-first [] r h e = cc
  count_wanting-first ((k, q) ∷ rs) r (h, hs) e =
      ground (arith, count_wanting-first rs r hs, first_wanting-ne k rs r h, off q)

pub count_wanting-append :
    (n : ℕ) (q : Request) (rs : List (ℕ × Request))
    → wants_receipt q ≡ false
    → count_wanting (rs ++ ((n, q) ∷ [])) ≡ count_wanting rs
unfolding count_wanting
count_wanting-append n q [] e = rw e refl
count_wanting-append n q ((k, r) ∷ rs) e = ground (arith, count_wanting-append n q rs e)

pub write-requests :
    (id : ℕ) (f : Request → Request) (s : Instance)
    → Ends (λ t. t.requests ≡ modify id f s.requests) (from_option (write id f s))
unfolding write
write-requests id f s =
    elim (find id s.requests)
      as (λ r.
        Ends (λ t. t.requests ≡ modify id f s.requests)
          (from_option (elim r [
            | none ↦ none
            | some _ ↦ some (record s { requests = modify id f s.requests })
          ]))) [ none ↦ tt | some r ↦ refl ]
