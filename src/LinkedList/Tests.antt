-- ===== src/LinkedList/Tests.antt =====
-- A list of the items 10, 20 and 30.
use libaergo.Base.{ℕ, ◌≡◌, ◌≢◌, refl, arith, some, List, [], ◌∷◌, ◌++◌, All, ◌==◌, if◌then◌else◌}
use libaergo.LinkedList.{llist_add, llist_remove}
use libaergo.LinkedList.Segment.{IsSegment, llist_add-IsSegment, llist_remove-IsSegment}

abbrev next : ℕ → ℕ
next item = if item == 10 then 20 else if item == 20 then 30 else 0

abbrev items : List ℕ
items = 10 ∷ 20 ∷ 30 ∷ []

items-IsSegment : IsSegment next 10 items
items-IsSegment = (
  refl,
  (λ e. omega arith),
  ((λ e. omega arith), ((λ e. omega arith), tt)),
  (refl, (λ e. omega arith), ((λ e. omega arith), tt), (refl, (λ e. omega arith), tt, refl)),
)

items_apart : All (λ z. z ≢ 40) items
items_apart = ((λ e. omega arith), ((λ e. omega arith), ((λ e. omega arith), tt)))

llist_add-IsSegment_example :
    (next' : ℕ → ℕ) × (first' : ℕ) × (llist_add 3 next 10 40 ≡ some (next', first'))
    × IsSegment next' first' (items ++ (40 ∷ []))
llist_add-IsSegment_example =
    llist_add-IsSegment next 10 40 items items-IsSegment items_apart (λ e. omega arith) refl

llist_remove-IsSegment_example :
    (next' : ℕ → ℕ) × (first' : ℕ) × (llist_remove 2 next 10 20 ≡ some (next', first'))
    × IsSegment next' first' ((10 ∷ []) ++ (30 ∷ []))
    × (next' 20 ≡ 0)
llist_remove-IsSegment_example =
    llist_remove-IsSegment next 10 20 (10 ∷ []) (30 ∷ []) items-IsSegment
