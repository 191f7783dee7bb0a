-- ===== src/LinkedList.antt =====
-- linked_list.c. An item is its address, 0 for NULL; the memory holds the field `next` of each.
pub mod Segment
mod Tests
use libaergo.Base.{ℕ, zero, suc, Option, none, some, ◌==◌, if◌then◌else◌}

-- item->next = value
unfoldable pub store : (ℕ → ℕ) → ℕ → ℕ → ℕ → ℕ
store next item value address = if address == item then value else next address

-- The loop of llist_add, from `item` on; `none` where the fuel runs out.
unfoldable pub add_loop : ℕ → (ℕ → ℕ) → ℕ → ℕ → Option (ℕ → ℕ)
unfolding store
add_loop zero next item to_add = none
add_loop (suc fuel) next item to_add =
    let rest = add_loop fuel next (next item) to_add in
    if next item == 0 then some (store next item to_add) else rest

-- The memory and *pfirst after the call.
unfoldable pub llist_add : ℕ → (ℕ → ℕ) → ℕ → ℕ → Option ((ℕ → ℕ) × ℕ)
unfolding add_loop
llist_add fuel next first to_add =
    if first == 0
    then some (next, to_add)
    else elim (add_loop fuel next first to_add) [ none ↦ none | some next' ↦ some (next', first) ]

unfoldable pub llist_prepend : (ℕ → ℕ) → ℕ → ℕ → (ℕ → ℕ) × ℕ
unfolding store
llist_prepend next first to_add = (store next to_add first, to_add)

unfoldable pub remove_loop : ℕ → (ℕ → ℕ) → ℕ → ℕ → Option (ℕ → ℕ)
unfolding store
remove_loop zero next item to_del = none
remove_loop (suc fuel) next item to_del =
    let rest = remove_loop fuel next (next item) to_del in
    if item == 0
    then some next
    else if next item == to_del
    then some (store next item (next to_del))
    else rest

unfoldable pub llist_remove : ℕ → (ℕ → ℕ) → ℕ → ℕ → Option ((ℕ → ℕ) × ℕ)
unfolding remove_loop store
llist_remove fuel next first to_del =
    if to_del == first
    then some (store next to_del 0, next to_del)
    else elim (remove_loop fuel next first to_del) [
      | none ↦ none
      | some next' ↦ some (store next' to_del 0, first)
    ]
