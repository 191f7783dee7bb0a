-- ===== src/Engine/Store.antt =====
-- Reading a request after a write to the list.
use libaergo.Base.{ℕ, ◌≡◌, ◌≢◌, refl, arith, some, List, [], ◌∷◌}
use libaergo.Engine.{Request, Instance, find, modify, write}

pub find-modify_self :
    (id : ℕ) (f : Request → Request) (rs : List (ℕ × Request)) {r : Request}
    → find id rs ≡ some r
    → find id (modify id f rs) ≡ some (f r)
unfolding find modify
find-modify_self id f [] e = cc
find-modify_self id f ((k, q) ∷ rs) {r} e = ground (arith, find-modify_self id f rs {r = r})

pub find-modify_ne :
    (id j : ℕ) (f : Request → Request) (rs : List (ℕ × Request))
    → j ≢ id
    → find j (modify id f rs) ≡ find j rs
unfolding find modify
find-modify_ne id j f [] h = refl
find-modify_ne id j f ((k, q) ∷ rs) h = ground (arith, find-modify_ne id j f rs h)

pub modify-modify :
    (id : ℕ) (f g : Request → Request) (rs : List (ℕ × Request))
    → modify id f (modify id g rs) ≡ modify id (λ r. f (g r)) rs
unfolding modify
modify-modify id f g [] = refl
modify-modify id f g ((k, q) ∷ rs) = ground (arith, modify-modify id f g rs)

pub write-find :
    (id : ℕ) (f : Request → Request) (s : Instance) {r : Request}
    → find id s.requests ≡ some r
    → write id f s ≡ some (record s { requests = modify id f s.requests })
unfolding write
write-find id f s e = rw (e, write) refl
