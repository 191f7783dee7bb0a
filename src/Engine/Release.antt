-- ===== src/Engine/Release.antt =====
-- The release of the requests that are done, at the end of aergo_process_requests__internal.
use libaergo.Base.{
  ℕ, zero, suc, ◌+◌, ◌≤◌, ◌<◌, ◌≡◌, ◌≢◌, inl, inr, refl, ◌∙◌, arith, none, some, List, [], ◌∷◌,
  ◌==◌, if◌then◌else◌, length, All, Bool-cases, Option-cases,
}
use libaergo.Engine.{Request, Instance, is_done, first_done, remove, free_request, release_done}

abbrev pub Absent : ℕ → List (ℕ × Request) → Type 0
Absent k rs = All (λ e. e.0 ≢ k) rs

-- No two requests of the list have one number.
abbrev pub Distinct : List (ℕ × Request) → Type 0
Distinct [] = Unit {0}
Distinct ((k, r) ∷ rs) = Absent k rs × Distinct rs

-- The requests that are not done, in their order.
unfoldable pub active : List (ℕ × Request) → List (ℕ × Request)
active [] = []
active ((k, r) ∷ rs) = if is_done r then active rs else (k, r) ∷ active rs

count_done : List (ℕ × Request) → ℕ
count_done [] = 0
count_done ((k, r) ∷ rs) = if is_done r then suc (count_done rs) else count_done rs

count_done-le : (rs : List (ℕ × Request)) → count_done rs ≤ length rs
unfolding count_done
count_done-le [] = omega arith
count_done-le ((k, r) ∷ rs) = ground (arith, count_done-le rs)

first_done-none : (rs : List (ℕ × Request)) → first_done rs ≡ none → active rs ≡ rs
unfolding first_done active
first_done-none [] e = refl
first_done-none ((k, r) ∷ rs) e = ground (arith, first_done-none rs)

first_done-ne :
    (k id : ℕ) (rs : List (ℕ × Request)) → Absent k rs → first_done rs ≡ some id → id ≢ k
unfolding first_done
first_done-ne k id [] h e = cc
first_done-ne k id ((j, r) ∷ rs) (h, hs) e = ground (arith, first_done-ne k id rs)

Absent-remove : (k id : ℕ) (rs : List (ℕ × Request)) → Absent k rs → Absent k (remove id rs)
unfolding remove
Absent-remove k id [] h = tt
Absent-remove k id ((j, r) ∷ rs) (h, hs) = elim (Bool-cases (j == id)) [
  | inl e ↦ rw e hs
  | inr e ↦ rw e (h, Absent-remove k id rs hs)
]

Distinct-remove : (id : ℕ) (rs : List (ℕ × Request)) → Distinct rs → Distinct (remove id rs)
unfolding remove
Distinct-remove id [] h = tt
Distinct-remove id ((j, r) ∷ rs) (h, hs) = elim (Bool-cases (j == id)) [
  | inl e ↦ rw e hs
  | inr e ↦ rw e (Absent-remove j id rs h, Distinct-remove id rs hs)
]

remove-first_done :
    (id : ℕ) (rs : List (ℕ × Request))
    → Distinct rs
    → first_done rs ≡ some id
    → (active (remove id rs) ≡ active rs) × (count_done (remove id rs) + 1 ≡ count_done rs)
unfolding first_done remove active count_done
remove-first_done id [] h e = cc
remove-first_done id ((k, r) ∷ rs) (h, hs) e =
    ground (arith, first_done-ne k id rs h, remove-first_done id rs hs)

release_done-enough :
    (fuel : ℕ) (s : Instance)
    → Distinct s.requests
    → count_done s.requests < fuel
    → release_done fuel s ≡ some (record s { requests = active s.requests })
unfolding release_done free_request
release_done-enough zero s h f = absurd (omega arith)
release_done-enough (suc fuel) s h f = elim (Option-cases (first_done s.requests)) [
  | inl e ↦ rw (e, release_done) (rw (first_done-none s.requests e) refl)
  | inr (id, e) ↦
      let (same, fewer) = remove-first_done id s.requests h e in
      rw (e, release_done)
        (release_done-enough fuel (free_request id s) (Distinct-remove id s.requests h)
            (omega (arith, fewer))
          ∙ rw same refl)
]

-- Where no two requests have one number, the loop at loc_exit ends, with fuel for one pass more
-- than there are requests: it leaves the requests that are not done, in their order, and nothing
-- else of the instance is changed.
pub release_done-active :
    (s : Instance)
    → Distinct s.requests
    → release_done (suc (length s.requests)) s ≡ some (record s { requests = active s.requests })
release_done-active s h =
    release_done-enough (suc (length s.requests)) s h (omega (arith, count_done-le s.requests))
