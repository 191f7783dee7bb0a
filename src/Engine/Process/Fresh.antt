-- ===== src/Engine/Process/Fresh.antt =====
-- The numbers of the requests of an instance, which stand for blocks of memory that malloc gave and
-- that were not freed.
use libaergo.Base.{
  ℕ, zero, suc, ◌+◌, ◌≤◌, ◌<◌, ◌≡◌, ◌≢◌, refl, ap, arith, none, some, List, [], ◌∷◌, ◌++◌, map, All,
  All-append, ◌==◌, Bool-cases, inl, inr, ◌⊎◌,
}
use libaergo.Engine.{
  Request, Instance, write, remove, new_request, free_request, first_done, release_done,
}
use libaergo.Engine.Handlers.Keys.{key, keys, write-Same}
use libaergo.Engine.Process.{Env, Event, from_option, run_events}
use libaergo.Engine.Process.Ends.{Ends, Ends-weaken, Is, from_option-Ends, run_events-Is}

-- No two are the same.
abbrev pub Distinct : List ℕ → Type 0
Distinct [] = Unit {0}
Distinct (k ∷ ks) = All (λ j. j ≢ k) ks × Distinct ks

-- All are below the next number, and no two are the same.
abbrev pub FreshKeys : List ℕ → ℕ → Type 0
FreshKeys ks n = All (λ k. k < n) ks × Distinct ks

abbrev pub Fresh : Instance → Type 0
Fresh s = FreshKeys (keys s) s.next_id

abbrev pub Among : ℕ → List ℕ → Type 0
Among k [] = ⊥
Among k (j ∷ js) = (k ≡ j) ⊎ Among k js

-- Every request is one of the earlier state, or has a number that was not given by then.
abbrev pub Later : Instance → Instance → Type 0
Later old s =
    Fresh s × (old.next_id ≤ s.next_id) × All (λ k. Among k (keys old) ⊎ (old.next_id ≤ k)) (keys s)

All-weaken : (P Q : ℕ → Type 0) (ks : List ℕ) → All P ks → ((k : ℕ) → P k → Q k) → All Q ks
All-weaken P Q [] h f = tt
All-weaken P Q (k ∷ ks) (h, hs) f = (f k h, All-weaken P Q ks hs f)

All-Among : (ks : List ℕ) → All (λ k. Among k ks) ks
All-Among [] = tt
All-Among (k ∷ ks) = (
  inl refl,
  All-weaken (λ j. Among j ks) (λ j. Among j (k ∷ ks)) ks (All-Among ks) (λ j h. inr h),
)

pub Later-self : (s : Instance) → Fresh s → Later s s
Later-self s h = (
  h,
  omega arith,
  All-weaken (λ k. Among k (keys s)) _ (keys s) (All-Among (keys s)) (λ k a. inl a),
)

Is-Later : (old s s' : Instance) → Is (keys s) s.next_id s' → Later old s → Later old s'
Is-Later old s s' (e1, e2) h = rw (e1, e2) h

-- Releases and new requests.
All-remove :
    (P : ℕ → Type 0) (id : ℕ) (rs : List (ℕ × Request))
    → All P (map key rs)
    → All P (map key (remove id rs))
unfolding remove
All-remove P id [] h = tt
All-remove P id ((k, r) ∷ rs) (h, hs) = elim (Bool-cases (k == id)) [
  | inl e ↦ rw e hs
  | inr e ↦ rw e (h, All-remove P id rs hs)
]

Distinct-remove :
    (id : ℕ) (rs : List (ℕ × Request)) → Distinct (map key rs) → Distinct (map key (remove id rs))
unfolding remove
Distinct-remove id [] h = tt
Distinct-remove id ((k, r) ∷ rs) (h, hs) = elim (Bool-cases (k == id)) [
  | inl e ↦ rw e hs
  | inr e ↦ rw e (All-remove (λ j. j ≢ k) id rs h, Distinct-remove id rs hs)
]

free_request-Later :
    (old : Instance) (id : ℕ) (s : Instance) → Later old s → Later old (free_request id s)
unfolding free_request
free_request-Later old id s ((h, d), le, a) = (
  (All-remove (λ k. k < s.next_id) id s.requests h, Distinct-remove id s.requests d),
  le,
  All-remove (λ k. Among k (keys old) ⊎ (old.next_id ≤ k)) id s.requests a,
)

All-suc : (n : ℕ) (ks : List ℕ) → All (λ k. k < n) ks → All (λ k. k < n + 1) ks
All-suc n [] h = tt
All-suc n (k ∷ ks) (h, hs) = (omega arith, All-suc n ks hs)

Distinct-append :
    (n : ℕ) (ks : List ℕ) → All (λ k. k < n) ks → Distinct ks → Distinct (ks ++ (n ∷ []))
Distinct-append n [] h d = (tt, tt)
Distinct-append n (k ∷ ks) (h, hs) (a, d) =
    (All-append (λ j. j ≢ k) ks (n ∷ []) a ((λ e. omega arith), tt), Distinct-append n ks hs d)

map-append :
    (rs : List (ℕ × Request)) (n : ℕ) (r : Request)
    → map key (rs ++ ((n, r) ∷ [])) ≡ map key rs ++ (n ∷ [])
map-append [] n r = refl
map-append ((k, q) ∷ rs) n r = ap (λ t. k ∷ t) (map-append rs n r)

pub new_request-Later :
    (old : Instance) (r : Request) (s : Instance) → Later old s → Later old (new_request r s)
unfolding new_request
new_request-Later old r s ((h, d), le, a) = rw (map-append s.requests s.next_id r) (
  (
    All-append (λ k. k < s.next_id + 1) (keys s) (s.next_id ∷ []) (All-suc s.next_id (keys s) h)
        (omega arith, tt),
    Distinct-append s.next_id (keys s) h d,
  ),
  omega arith,
  All-append (λ k. Among k (keys old) ⊎ (old.next_id ≤ k)) (keys s) (s.next_id ∷ []) a (inr le, tt),
)

pub release_done-Later :
    (old : Instance) (fuel : ℕ) (s : Instance)
    → Later old s
    → Ends (Later old) (from_option (release_done fuel s))
unfolding release_done
release_done-Later old zero s h = tt
release_done-Later old (suc fuel) s h =
    elim (first_done s.requests)
        as (λ c.
          first_done s.requests ≡ c → Ends (Later old) (from_option (release_done (suc fuel) s))) [
            | none ↦ λ e. rw (e, release_done) h
            | some id ↦ λ e.
                rw (e, release_done)
                  (release_done-Later old fuel (free_request id s) (free_request-Later old id s h))
          ]
      refl

pub write-Later :
    (old : Instance) (id : ℕ) (f : Request → Request) (s : Instance)
    → Later old s
    → Ends (Later old) (from_option (write id f s))
write-Later old id f s h =
    Ends-weaken (Is (keys s) s.next_id) (Later old) _
      (from_option-Ends (keys s) s.next_id _ (write-Same (keys s) s.next_id id f s (refl, refl)))
      (λ s' e. Is-Later old s s' e h)

pub run_events-Later :
    (old : Instance) (env : Env) (es : List Event) (s : Instance)
    → Later old s
    → Ends (Later old) (run_events env es s)
run_events-Later old env es s h =
    Ends-weaken (Is (keys s) s.next_id) (Later old) _
      (run_events-Is env (keys s) s.next_id es s (refl, refl)) (λ s' e. Is-Later old s s' e h)
