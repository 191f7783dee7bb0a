-- ===== src/Engine.antt =====
-- The requests of an instance (aergo-int.h, socket.c, aergo.c): what the callbacks of a request do
-- to the others, and how the library waits for them.
pub mod Handlers
pub mod Process
pub mod Release
pub mod Store
mod Tests
use libaergo.Base.{ℕ, zero, suc, ◌+◌, ◌-◌, ◌≡◌, Bool, true, false, Option, none, some}
use libaergo.Base.{List, [], ◌∷◌, ◌++◌, ◌==◌, ◌&&◌, not, if◌then◌else◌}
use libaergo.Response.{Rx}

-- `process_response`, one for each handler handle_..._response of aergo.c.
pub data Handler : Type 0 where
  transfer contract_call receipt query query_state_var block event : Handler
  blockchain_status account_state : Handler

-- `process_error`
pub data ErrorHandler : Type 0 where
  on_failed_receipt handle_query_error : ErrorHandler

-- `struct request`. Pointers to requests are their numbers; of `callback` and `return_ptr` only
-- whether they are set.
pub record Request : Type 0 where
  pub parent : Option ℕ
  pub callback : Bool
  pub return_ptr : Bool
  pub return_size : ℕ
  pub process_response : Handler
  pub process_error : Option ErrorHandler
  pub rx : Rx
  pub need_receipt : Bool
  pub processing_receipt : Bool
  pub receipt_attempts : ℕ
  pub keep_active : Bool

-- What the user of the library sees: a call of the callback of a request, with a success flag and a
-- text, or a result written through its `return_ptr`. The last two are what a handler writes to
-- blockchain_id_hash, and to the account of a request: its nonce, and that it is updated.
pub data Notice : Type 0 where
  called : ℕ → Bool → List ℕ → Notice
  filled : ℕ → Bool → List ℕ → Notice
  chain_read : List ℕ → Notice
  account_read : ℕ → ℕ → Notice

-- `struct aergo`: the linked list of requests, in its order, with their numbers; a number that is
-- not in it is that of memory freed. `next_id` is the number of the next block that malloc gives.
pub record Instance : Type 0 where
  pub requests : List (ℕ × Request)
  pub next_id : ℕ
  pub transfers : ℕ
  pub notices : List Notice

unfoldable pub find : ℕ → List (ℕ × Request) → Option Request
find id [] = none
find id ((k, r) ∷ rs) = if k == id then some r else find id rs

unfoldable pub modify : ℕ → (Request → Request) → List (ℕ × Request) → List (ℕ × Request)
modify id f [] = []
modify id f ((k, r) ∷ rs) = if k == id then (k, f r) ∷ rs else (k, r) ∷ modify id f rs

unfoldable pub remove : ℕ → List (ℕ × Request) → List (ℕ × Request)
remove id [] = []
remove id ((k, r) ∷ rs) = if k == id then rs else (k, r) ∷ remove id rs

-- A write to a request; `none` where it was freed.
unfoldable pub write : ℕ → (Request → Request) → Instance → Option Instance
unfolding find modify
write id f s = elim (find id s.requests) [
  | none ↦ none
  | some r ↦ some (record s { requests = modify id f s.requests })
]

abbrev pub notify : Notice → Instance → Instance
notify n s = record s { notices = s.notices ++ (n ∷ []) }

-- new_request, when malloc succeeds: at the end of the list (llist_add).
unfoldable pub new_request : Request → Instance → Instance
new_request r s = record s {
  requests = s.requests ++ ((s.next_id, r) ∷ []);
  next_id = s.next_id + 1;
}

unfoldable pub free_request : ℕ → Instance → Instance
unfolding remove
free_request id s = record s { requests = remove id s.requests }

-- The test at `loc_exit`.
abbrev pub is_done : Request → Bool
is_done r = r.rx.processed && not r.need_receipt && not r.keep_active

unfoldable pub first_done : List (ℕ × Request) → Option ℕ
first_done [] = none
first_done ((k, r) ∷ rs) = if is_done r then some k else first_done rs

-- The loop at `loc_exit`, which starts again from the beginning after each release.
unfoldable pub release_done : ℕ → Instance → Option Instance
unfolding first_done free_request
release_done zero s = none
release_done (suc fuel) s = elim (first_done s.requests) [
  | none ↦ some s
  | some id ↦ release_done fuel (free_request id s)
]

-- The test at `loc_check_receipts`.
abbrev pub wants_receipt : Request → Bool
wants_receipt r = r.rx.processed && r.rx.success && r.need_receipt && not r.processing_receipt

unfoldable pub first_wanting : List (ℕ × Request) → Option (ℕ × Request)
first_wanting [] = none
first_wanting ((k, r) ∷ rs) = if wants_receipt r then some (k, r) else first_wanting rs
