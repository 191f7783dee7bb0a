-- ===== src/LinkedList/Segment.antt =====
-- The operations of linked_list.c on the sequence of items that the memory holds.
use libaergo.Base.{
  ℕ, zero, suc, ◌<◌, ◌≡◌, ◌≢◌, refl, ap, sym, ◌∙◌, arith, true, false, some, List, [], ◌∷◌, ◌++◌,
  length, All, ◌==◌,
}
use libaergo.LinkedList.{store, add_loop, llist_add, llist_prepend, remove_loop, llist_remove}

-- The items from `first` on are these, none of them twice.
abbrev pub IsSegment : (ℕ → ℕ) → ℕ → List ℕ → Type 0
IsSegment next first [] = first ≡ 0
IsSegment next first (x ∷ xs) =
    (first ≡ x) × (x ≢ 0) × All (λ y. y ≢ x) xs × IsSegment next (next x) xs

store-same : (next : ℕ → ℕ) (item value : ℕ) → store next item value item ≡ value
unfolding store
store-same next item value = ground arith

store-other : (next : ℕ → ℕ) (item value a : ℕ) → a ≢ item → store next item value a ≡ next a
unfolding store
store-other next item value a h = ground (arith, h)

-- A write to an item that is not among them changes nothing.
IsSegment-store :
    (next : ℕ → ℕ) (item value first : ℕ) (xs : List ℕ)
    → All (λ y. y ≢ item) xs
    → IsSegment next first xs
    → IsSegment (store next item value) first xs
IsSegment-store next item value first [] h s = s
IsSegment-store next item value first (x ∷ xs) (ne, h) (e, nz, fresh, s) = (
  e,
  nz,
  fresh,
  rw (store-other next item value x ne) (IsSegment-store next item value (next x) xs h s),
)

All-snoc : (x z : ℕ) (ys : List ℕ) → All (λ y. y ≢ x) ys → z ≢ x → All (λ y. y ≢ x) (ys ++ (z ∷ []))
All-snoc x z [] h k = (k, tt)
All-snoc x z (y ∷ ys) (e, h) k = (e, All-snoc x z ys h k)

-- The loop of llist_add writes to an item of the list only.
add_loop-IsSegment :
    (fuel : ℕ) (next : ℕ → ℕ) (x y : ℕ) (ys : List ℕ)
    → IsSegment next y (y ∷ ys)
    → All (λ z. z ≢ x) (y ∷ ys)
    → x ≢ 0
    → next x ≡ 0
    → length ys < fuel
    → (item : ℕ) × (add_loop fuel next y x ≡ some (store next item x))
      × IsSegment (store next item x) y ((y ∷ ys) ++ (x ∷ []))
      × ((a : ℕ) → All (λ z. z ≢ a) (y ∷ ys) → item ≢ a)
unfolding add_loop
add_loop-IsSegment zero next x y ys s h nz e k = absurd (omega arith)
add_loop-IsSegment (suc fuel) next x y [] (_, ny, _, end) (ne, _) nz e k =
    let test : (next y == 0) ≡ true = ground (arith, end) in
    let x_ne : x ≢ y = λ q. ne (sym q) in
    (
      y,
      rw (test, add_loop) refl,
      (refl, ny, (x_ne, tt), (store-same next y x, nz, tt, store-other next y x x x_ne ∙ e)),
      λ a q. q.0,
    )
add_loop-IsSegment (suc fuel) next x y (z ∷ zs) (_, ny, fresh, (ez, nz', fz, s)) (ne, h) nz e k =
    let test : (next y == 0) ≡ false = ground (arith, ez, nz') in
    let (item, result, seg, others) =
      add_loop-IsSegment fuel next x z zs (refl, nz', fz, s) h nz e (omega (arith, k)) in
    let y_ne : item ≢ y = others y fresh in
    (
      item,
      rw (test, add_loop, ez) result,
      (
        refl,
        ny,
        All-snoc y x (z ∷ zs) fresh (λ q. ne (sym q)),
        rw (store-other next item x y (λ q. y_ne (sym q)), ez) seg,
      ),
      λ a q. others a q.1,
    )

-- If the memory holds a list of items, none NULL and none twice, then llist_add of an item that is
-- not NULL, not in the list and has the next NULL ends, with fuel for the items, and leaves the
-- list with the item at its end.
pub llist_add-IsSegment :
    (next : ℕ → ℕ) (first x : ℕ) (xs : List ℕ)
    → IsSegment next first xs
    → All (λ z. z ≢ x) xs
    → x ≢ 0
    → next x ≡ 0
    → (next' : ℕ → ℕ) × (first' : ℕ) × (llist_add (length xs) next first x ≡ some (next', first'))
      × IsSegment next' first' (xs ++ (x ∷ []))
unfolding llist_add
llist_add-IsSegment next first x [] s h nz e = (next, x, rw (s) refl, (refl, nz, tt, e))
llist_add-IsSegment next first x (y ∷ ys) (ey, ny, fresh, s) h nz e =
    let test : (y == 0) ≡ false = ground (arith, ny) in
    let (item, result, seg, _) =
      add_loop-IsSegment (suc (length ys)) next x y ys (refl, ny, fresh, s) h nz e (omega arith) in
    (
      store next item x,
      y,
      ap (λ t. llist_add (suc (length ys)) next t x) ey ∙ rw (test, llist_add) (rw result refl),
      seg,
    )

-- If the memory holds a list of items, none NULL and none twice, then llist_prepend of an item that
-- is not NULL and not in the list leaves the list with the item in front.
pub llist_prepend-IsSegment :
    (next : ℕ → ℕ) (first x : ℕ) (xs : List ℕ)
    → IsSegment next first xs
    → All (λ z. z ≢ x) xs
    → x ≢ 0
    → IsSegment (llist_prepend next first x).0 (llist_prepend next first x).1 (x ∷ xs)
unfolding llist_prepend
llist_prepend-IsSegment next first x xs s h nz =
    let link : store next x first x ≡ first = store-same next x first in
    (refl, nz, h, rw link (IsSegment-store next x first first xs h s))

All-middle {κ} : (P : ℕ → Type κ) (x : ℕ) (ys zs : List ℕ) → All P (ys ++ (x ∷ zs)) → P x
All-middle P x [] zs (p, h) = p
All-middle P x (y ∷ ys) zs (p, h) = All-middle P x ys zs h

All-front {κ} : (P : ℕ → Type κ) (ys zs : List ℕ) → All P (ys ++ zs) → All P ys
All-front P [] zs h = tt
All-front P (y ∷ ys) zs (p, h) = (p, All-front P ys zs h)

All-without {κ} :
    (P : ℕ → Type κ) (x : ℕ) (ys zs : List ℕ) → All P (ys ++ (x ∷ zs)) → All P (ys ++ zs)
All-without P x [] zs (p, h) = h
All-without P x (y ∷ ys) zs (p, h) = (p, All-without P x ys zs h)

absent :
    (next : ℕ → ℕ) (first x : ℕ) (ys zs : List ℕ)
    → IsSegment next first (ys ++ (x ∷ zs))
    → All (λ z. z ≢ x) (ys ++ zs)
absent next first x [] zs (_, _, fresh, _) = fresh
absent next first x (y ∷ ys) zs (_, _, fresh, s) =
    let ne : x ≢ y = All-middle (λ z. z ≢ y) x ys zs fresh in
    (λ q. ne (sym q), absent next (next y) x ys zs s)

-- The loop of llist_remove writes to an item of the list only.
remove_loop-IsSegment :
    (fuel : ℕ) (next : ℕ → ℕ) (x y : ℕ) (ys zs : List ℕ)
    → IsSegment next y ((y ∷ ys) ++ (x ∷ zs))
    → length ys < fuel
    → (item : ℕ) × (remove_loop fuel next y x ≡ some (store next item (next x)))
      × IsSegment (store next item (next x)) y ((y ∷ ys) ++ zs)
      × ((a : ℕ) → All (λ z. z ≢ a) (y ∷ ys) → item ≢ a)
unfolding remove_loop
remove_loop-IsSegment zero next x y ys zs s k = absurd (omega arith)
remove_loop-IsSegment (suc fuel) next x y [] zs (_, ny, (_, fresh), (ex, _, _, s)) k =
    let there : (y == 0) ≡ false = ground (arith, ny) in
    let test : (next y == x) ≡ true = ground (arith, ex) in
    let link : store next y (next x) y ≡ next x = store-same next y (next x) in
    (
      y,
      rw (there, remove_loop, test) refl,
      (refl, ny, fresh, rw link (IsSegment-store next y (next x) (next x) zs fresh s)),
      λ a q. q.0,
    )
remove_loop-IsSegment (suc fuel) next x y (w ∷ ws) zs (_, ny, fresh, (ew, nw, fw, s)) k =
    let ne : x ≢ w = All-middle (λ z. z ≢ w) x ws zs fw in
    let there : (y == 0) ≡ false = ground (arith, ny) in
    let test : (next y == x) ≡ false = ground (arith, ew, ne) in
    let (item, result, seg, others) =
      remove_loop-IsSegment fuel next x w ws zs (refl, nw, fw, s) (omega (arith, k)) in
    let front : All (λ z. z ≢ y) (w ∷ ws) = All-front (λ z. z ≢ y) (w ∷ ws) (x ∷ zs) fresh in
    let y_ne : item ≢ y = others y front in
    (
      item,
      rw (there, remove_loop, test, ew) result,
      (
        refl,
        ny,
        All-without (λ z. z ≢ y) x (w ∷ ws) zs fresh,
        rw (store-other next item (next x) y (λ q. y_ne (sym q)), ew) seg,
      ),
      λ a q. others a q.1,
    )

-- If the memory holds a list of items, none NULL and none twice, then llist_remove of one of them
-- ends, with fuel for the items before it and one, and leaves the list of the others in their
-- order, with the next of the item removed NULL.
pub llist_remove-IsSegment :
    (next : ℕ → ℕ) (first x : ℕ) (ys zs : List ℕ)
    → IsSegment next first (ys ++ (x ∷ zs))
    → (next' : ℕ → ℕ) × (first' : ℕ) × (llist_remove (suc (length ys)) next first x
        ≡ some (next', first'))
      × IsSegment next' first' (ys ++ zs)
      × (next' x ≡ 0)
unfolding llist_remove
llist_remove-IsSegment next first x [] zs (e, nz, fresh, s) =
    let test : (x == first) ≡ true = ground (arith, e) in
    (
      store next x 0,
      next x,
      rw (test, llist_remove) refl,
      IsSegment-store next x 0 (next x) zs fresh s,
      store-same next x 0,
    )
llist_remove-IsSegment next first x (y ∷ ys) zs (ey, ny, fresh, s) =
    let ne : x ≢ y = All-middle (λ z. z ≢ y) x ys zs fresh in
    let test : (x == y) ≡ false = ground (arith, ne) in
    let (item, result, seg, _) =
      remove_loop-IsSegment (suc (suc (length ys))) next x y ys zs (refl, ny, fresh, s)
        (omega arith) in
    let gone : All (λ z. z ≢ x) ((y ∷ ys) ++ zs) =
      absent next y x (y ∷ ys) zs (refl, ny, fresh, s) in
    (
      store (store next item (next x)) x 0,
      y,
      ap (λ t. llist_remove (suc (suc (length ys))) next t x) ey
          ∙ rw (test, llist_remove) (rw result refl),
      IsSegment-store (store next item (next x)) x 0 y ((y ∷ ys) ++ zs) gone seg,
      store-same (store next item (next x)) x 0,
    )
