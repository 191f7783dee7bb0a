-- ===== src/Engine/Process.antt =====
-- aergo_process_requests__internal, send_grpc_request and aergo_get_receipt__internal. What libcurl
-- does is a schedule: a list of rounds, one for each time that the loop performs transfers.
pub mod Ends
pub mod Fresh
pub mod Passes
pub mod Settled
pub mod Wanting
pub mod Ending
pub mod Rounds
pub mod Steps
pub mod Sync
mod Tests
use libaergo.Base.{
  ℕ, zero, suc, ◌+◌, ◌-◌, ◌≡◌, Bool, true, false, Option, none, some, List, [], ◌∷◌, ◌++◌, ◌==◌,
  ltb, not, ◌&&◌, if◌then◌else◌, length,
}
use libaergo.Response.{
  Rx, Outcome, returned, running, server_response_callback, server_header_callback,
}
use libaergo.Engine.{
  Request, Handler, ErrorHandler, Instance, receipt, on_failed_receipt, find, write, new_request,
  release_done, first_wanting,
}
use libaergo.Engine.Handlers.{Decoder, handlers_of}

-- A call that libcurl makes of a callback of a request.
pub data Event : Type 0 where
  header : ℕ → List ℕ → Event
  chunk : ℕ → List ℕ → Event

-- One pass of the loop: whether curl_multi_perform and curl_multi_wait succeed, the callbacks that
-- the first makes, and how many transfers curl_multi_info_read then reports as done.
pub record Round : Type 0 where
  pub perform_ok : Bool
  pub events : List Event
  pub wait_ok : Bool
  pub completed : ℕ

-- `fault` is an access to memory that was freed or that lies outside of a buffer, `blocked` that
-- the schedule is at its end while the library waits, `no_fuel` that the fuel is, and `unfinished`
-- that a callback is not at its end after the rounds it is given.
pub data Run (A : Type 0) : Type 0 where
  done : A → Run A
  fault blocked no_fuel unfinished : Run A

infixl 5 ◌>>=◌
abbrev pub ◌>>=◌ : {A B : Type 0} → Run A → (A → Run B) → Run B
done a >>= f = f a
fault >>= f = fault
blocked >>= f = blocked
no_fuel >>= f = no_fuel
unfinished >>= f = unfinished

abbrev pub from_option : {A : Type 0} → Option A → Run A
from_option none = fault
from_option (some a) = done a

-- nanopb, and what the system does: whether malloc gives a block of some size, whether the request
-- with some number can be encoded and allocated, and whether a transfer can be set up for it. `rounds` is the
-- fuel of one callback.
pub record Env : Type 0 where
  pub decoder : Decoder
  pub malloc : ℕ → Bool
  pub can_alloc : ℕ → Bool
  pub can_open : ℕ → Bool
  pub rounds : ℕ

-- What a call leaves: the instance, the schedule that was not used, the value returned (`none` for
-- -1), and the flag that `psuccess` points to, false before the call.
pub record Finished : Type 0 where
  pub state : Instance
  pub schedule : List Round
  pub value : Option ℕ
  pub success : Bool

abbrev pub empty_rx : Rx
empty_rx = record {
  response = none;
  response_size = 0;
  remaining_size = 0;
  received = 0;
  processed = false;
  success = false;
  error_msg = none;
}

module _ (env : Env) where
  open env use {decoder, malloc, can_alloc, can_open, rounds}

  -- The state that a callback of request `id` leaves, with its own fields written back.
  abbrev write_back : ℕ → Rx → Option Instance → Run Instance
  write_back id rx none = fault
  write_back id rx (some s) = from_option (write id (λ r. record r { rx = rx }) s)

  unfoldable pub run_event : Event → Instance → Run Instance
  unfolding find write
  run_event (header id line) s = elim (find id s.requests) [
    | none ↦ fault
    | some r ↦
        let (rx, w, n) =
          server_header_callback (handlers_of decoder malloc id r) r.rx (some s) line in
        write_back id rx w
  ]
  run_event (chunk id contents) s = elim (find id s.requests) [
    | none ↦ fault
    | some r ↦
        elim (server_response_callback (handlers_of decoder malloc id r) rounds r.rx (some s)
          contents) [
            | returned rx w n ↦ write_back id rx w
            | Outcome.fault ↦ fault
            | running ↦ unfinished
          ]
  ]

  unfoldable pub run_events : List Event → Instance → Run Instance
  unfolding run_event
  run_events [] s = done s
  run_events (e ∷ es) s = do s' ← run_event e s; run_events es s'

abbrev pub finished : Instance → List Round → Option ℕ → Bool → Run Finished
finished s schedule value success =
    done (record { state = s; schedule = schedule; value = value; success = success })

-- The code from `loc_exit` on.
unfoldable pub exit : Instance → List Round → Bool → Run Finished
unfolding release_done
exit s schedule success = do
  s' ← from_option (release_done (suc (length s.requests)) s)
  finished s' schedule (some s'.transfers) success

-- The request that aergo_get_receipt__internal makes for the request `id`.
abbrev pub receipt_request : ℕ → Request → Request
receipt_request id r = record {
  parent = some id;
  callback = r.callback;
  return_ptr = r.return_ptr;
  return_size = 0;
  process_response = receipt;
  process_error = some on_failed_receipt;
  rx = empty_rx;
  need_receipt = false;
  processing_receipt = false;
  receipt_attempts = 0;
  keep_active = false;
}

abbrev pub start_transfer : Instance → Instance
start_transfer s = record s { transfers = s.transfers + 1 }

-- Each call of one of these functions takes one unit of fuel, so a nested call, and each pass of a
-- loop, has less of it.
module _ (env : Env) where
  open env use {can_alloc, can_open}

  unfoldable mutual
    unfolding exit run_events new_request write find first_wanting

    -- aergo_process_requests__internal, with a main request for a synchronous call.
    pub process_requests : ℕ → Option ℕ → Instance → List Round → Run Finished
    process_requests zero main s schedule = no_fuel
    process_requests (suc fuel) main s schedule = elim s.requests [
      | [] ↦ finished s schedule (some 0) false
      | r ∷ rs ↦ wait_again fuel main s schedule
    ]

    -- From `loc_wait_again` on.
    pub wait_again : ℕ → Option ℕ → Instance → List Round → Run Finished
    wait_again zero main s schedule = no_fuel
    wait_again (suc fuel) main s schedule = elim (ltb 0 s.transfers) [
      | false ↦ check_receipts fuel main s schedule
      | true ↦ elim schedule [
        | [] ↦ blocked
        | round ∷ rest ↦ do
          s' ← run_events env round.events s
          elim (round.perform_ok && round.wait_ok) [
            | false ↦ finished s' rest none false
            | true ↦
                check_receipts fuel main (record s' { transfers = s'.transfers - round.completed })
                  rest
          ]
      ]
    ]

    -- From `loc_check_receipts` on.
    pub check_receipts : ℕ → Option ℕ → Instance → List Round → Run Finished
    check_receipts zero main s schedule = no_fuel
    check_receipts (suc fuel) main s schedule = elim (first_wanting s.requests) [
      | none ↦ check_main fuel main s schedule
      | some (id, r) ↦ do
        s' ← from_option (write id (λ q. record q { processing_receipt = true }) s)
        got ← get_receipt fuel (receipt_request id r) s' schedule
        s'' ← from_option (
            if got.success
            then some got.state
            else write id (λ q. record q { need_receipt = false }) got.state)
        check_receipts fuel main s'' got.schedule
    ]

    -- The part on the main request, and the exit.
    pub check_main : ℕ → Option ℕ → Instance → List Round → Run Finished
    check_main zero main s schedule = no_fuel
    check_main (suc fuel) none s schedule = exit s schedule false
    check_main (suc fuel) (some id) s schedule = elim (find id s.requests) [
      | none ↦ fault
      | some m ↦ elim (m.rx.processed && not m.need_receipt) [
        | true ↦ exit s schedule m.rx.success
        | false ↦ elim (ltb 0 s.transfers) [
          | true ↦ wait_again fuel (some id) s schedule
          | false ↦ exit s schedule false
        ]
      ]
    ]

    -- aergo_get_receipt__internal.
    pub get_receipt : ℕ → Request → Instance → List Round → Run Finished
    get_receipt zero r s schedule = no_fuel
    get_receipt (suc fuel) r s schedule = elim (can_alloc s.next_id) [
      | false ↦ finished s schedule none false
      | true ↦ send_grpc_request fuel s.next_id r (new_request r s) schedule
    ]

    -- send_grpc_request for a request that is in the list.
    pub send_grpc_request : ℕ → ℕ → Request → Instance → List Round → Run Finished
    send_grpc_request zero id r s schedule = no_fuel
    send_grpc_request (suc fuel) id r s schedule = elim (can_open id) [
      | false ↦ finished s schedule none false
      | true ↦ elim r.callback [
        | true ↦ finished (start_transfer s) schedule none true
        | false ↦ process_requests fuel (some id) (start_transfer s) schedule
      ]
    ]
