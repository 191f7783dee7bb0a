-- ===== src/Engine/Tests.antt =====
-- Runs of the engine.
use libaergo.Engine.Process.{
  chunk, Round, Finished, fault, Run, Env, Event, empty_rx, send_grpc_request, process_requests,
  check_receipts,
}
use libaergo.Base.{
  ℕ, ◌≡◌, refl, arith, Bool, true, false, none, some, List, [], ◌∷◌, ◌++◌, get_or, replicate, All,
  All-replicate,
}
use libaergo.Base.Text.{codes, strstr}
use libaergo.Response.{content_size}
use libaergo.Response.Rounds.{IsMessage}
use libaergo.Engine.{
  Request, Handler, Instance, receipt, on_failed_receipt, query, handle_query_error, notify, filled,
  called, find, modify, release_done,
}
use libaergo.Engine.Release.{Distinct, active, release_done-active}
use libaergo.Engine.Handlers.{Decoder, tell, tx_not_found, process_response, process_error}
use libaergo.Engine.Handlers.QueryError.{process_error-query}
use libaergo.Engine.Handlers.Receipt.{
  with_receipt, process_response-receipt, process_response-receipt_cases,
  process_response-bad_receipt,
}
use libaergo.Engine.Handlers.Retry.{
  fail_each, retried, given_up, refused, with_parent, failure, fail_each-retried,
  fail_each-gives_up, fail_each-other_error,
}
use libaergo.Engine.Process.Sync.{waiting_main, message_round, check_receipts_use_after_free}

abbrev decoder : Decoder
decoder = record {
  commit_result = λ bytes. some (get_or bytes 5 1, []);
  receipt_text = λ bytes. some bytes;
  single_bytes = λ bytes. some bytes;
  state_proof = λ bytes. some bytes;
  block_text = λ bytes. some bytes;
  event_text = λ bytes. some bytes;
  chain_hash = λ bytes. (some (7 ∷ []), true);
  state_nonce = λ bytes. some 5;
  reread = λ text. text;
}

abbrev no_decoder : Decoder
no_decoder = record decoder { receipt_text = λ bytes. none }

abbrev env : Env
env = record {
  decoder = decoder;
  malloc = λ n. true;
  can_alloc = λ id. true;
  can_open = λ id. true;
  rounds = 5;
}

abbrev transfer : Bool → Request
transfer callback = record {
  parent = none;
  callback = callback;
  return_ptr = true;
  return_size = 0;
  process_response = Handler.transfer;
  process_error = none;
  rx = empty_rx;
  need_receipt = false;
  processing_receipt = false;
  receipt_attempts = 0;
  keep_active = false;
}

abbrev one : Bool → Instance
one callback = record {
  requests = (0, transfer callback) ∷ [];
  next_id = 1;
  transfers = 0;
  notices = [];
}

abbrev round : Event → Round
round e = record { perform_ok = true; events = e ∷ []; wait_ok = true; completed = 1 }

abbrev message : ℕ → List ℕ
message b = 0 ∷ 0 ∷ 0 ∷ 0 ∷ 1 ∷ b ∷ []

sync_run : Run Finished
unfolding send_grpc_request
sync_run =
    send_grpc_request env 50 0 (transfer false) (one false)
      (round (chunk 0 (message 0)) ∷ round (chunk 1 (message 7)) ∷ [])

async_run : Run Finished
unfolding send_grpc_request process_requests
async_run =
    process_requests env 50 none (record (one true) { transfers = 1 })
      (round (chunk 0 (message 0)) ∷ [])

-- A transaction that was committed and a request for its receipt.
abbrev receipt_of : ℕ → Request
receipt_of parent = record (transfer true) {
  parent = some parent;
  process_response = receipt;
  process_error = some on_failed_receipt;
}

abbrev waiting_pair : Instance
waiting_pair = record (one true) {
  requests = (0, record (transfer true) { need_receipt = true }) ∷ (1, receipt_of 0) ∷ [];
}

abbrev not_found : List ℕ
not_found = codes "tx not found"

not_found_at : strstr not_found tx_not_found ≡ some 0
unfolding strstr
not_found_at = refl

refused_text : strstr (codes "no") tx_not_found ≡ none
unfolding strstr
refused_text = refl

abbrev parent_now : Request
parent_now = record (transfer true) { need_receipt = true }

found : find 0 waiting_pair.requests ≡ some parent_now
unfolding find
found = refl

found_child : find 1 waiting_pair.requests ≡ some (receipt_of 0)
unfolding find
found_child = refl

abbrev nine : List (ℕ × Request)
nine = replicate 9 (1, receipt_of 0)

nine-have_parents : All (λ e. e.1.parent ≡ some 0) nine
nine-have_parents =
    All-replicate (λ (e : ℕ × Request). e.1.parent ≡ some 0) 9 (1, receipt_of 0) refl

fail_each-retried_example :
    fail_each 0 not_found ((1, receipt_of 0) ∷ (2, receipt_of 0) ∷ []) waiting_pair
    ≡ some (with_parent 0 (retried 2) waiting_pair)
fail_each-retried_example =
    fail_each-retried 0 not_found not_found_at (1, receipt_of 0) ((2, receipt_of 0) ∷ [])
      waiting_pair parent_now (refl, (refl, tt)) found (omega arith)

fail_each-gives_up_example :
    fail_each 0 not_found (nine ++ ((2, receipt_of 0) ∷ [])) waiting_pair
    ≡ some (record (with_parent 0 (given_up 10) waiting_pair) {
      notices = failure 2 (receipt_of 0) not_found [];
    })
fail_each-gives_up_example =
    fail_each-gives_up 0 not_found not_found_at nine 2 (receipt_of 0) waiting_pair parent_now
      nine-have_parents refl found (omega arith)

fail_each_run :
    fail_each 0 (codes "no") ((1, receipt_of 0) ∷ []) waiting_pair
    ≡ some (record (with_parent 0 refused waiting_pair) {
      notices = failure 1 (receipt_of 0) (codes "no") [];
    })
fail_each_run =
    fail_each-other_error 0 (codes "no") 1 (receipt_of 0) waiting_pair parent_now refused_text refl
      found

process_response_run : process_response decoder (λ n. true) 1 (some waiting_pair) (message 7) ≡ (
  some (record (tell 1 (receipt_of 0) true (message 7) waiting_pair) {
    requests = modify 0 with_receipt waiting_pair.requests;
  }),
  true,
)
process_response_run =
    process_response-receipt decoder (λ n. true) 1 0 waiting_pair (receipt_of 0) parent_now
      (message 7) found_child refl refl found refl {text = message 7} refl

process_response_bad_run :
    process_response no_decoder (λ n. true) 1 (some waiting_pair) (message 7)
    ≡ (some (record waiting_pair { requests = modify 0 with_receipt waiting_pair.requests }), false)
process_response_bad_run =
    process_response-bad_receipt no_decoder (λ n. true) 1 0 waiting_pair (receipt_of 0) parent_now
      (message 7) found_child refl refl found refl refl

process_response-receipt_cases_example :
    process_response decoder (λ n. true) 1 (some waiting_pair) (message 7) ≡ (
      some (record waiting_pair {
        requests =
            modify 0
              (λ o. record o { need_receipt = false; processing_receipt = false })
              waiting_pair.requests;
        notices = called 1 true (message 7) ∷ [];
      }),
      true,
    )
process_response-receipt_cases_example =
    process_response-receipt_cases decoder (λ n. true) 1 0 waiting_pair (receipt_of 0) parent_now
      (message 7) found_child refl refl found refl

-- One request that is done, between two that are not.
abbrev three : Instance
three = record (one true) {
  requests =
      (0, transfer true)
      ∷ (1, record (receipt_of 0) { rx = record empty_rx { processed = true } })
      ∷ (2, transfer false)
      ∷ [];
}

three-Distinct : Distinct three.requests
three-Distinct = ((λ e. omega arith, (λ e. omega arith, tt)), ((λ e. omega arith, tt), (tt, tt)))

release_done-active_example :
    release_done 4 three ≡ some (record three { requests = active three.requests })
release_done-active_example = release_done-active three three-Distinct

-- A synchronous call whose transaction was committed.
abbrev committed : Request
committed = record (transfer false) {
  rx = record empty_rx { processed = true; success = true };
  need_receipt = true;
}

message_size_7 : content_size (message 7) ≡ 1
unfolding content_size
message_size_7 = refl

message_7-IsMessage : IsMessage (message 7)
message_7-IsMessage = record {
  sized = omega (arith, message_size_7);
  fits = omega (arith, message_size_7);
}

check_receipts_use_after_free_example :
    check_receipts env 7
      (some 0)
      (waiting_main 0 1 committed (one false))
      (message_round 1 (message 7) ∷ [])
    ≡ fault
check_receipts_use_after_free_example =
    check_receipts_use_after_free env 0 1 committed (message 7) (message 7) (λ e. omega arith)
      message_7-IsMessage (λ n. refl) (omega arith) refl refl refl refl refl refl refl 0 (one false)
      []

-- A query that failed, with a buffer of four bytes.
abbrev failed_query : Request
failed_query = record (transfer false) {
  return_size = 4;
  process_response = query;
  process_error = some handle_query_error;
}

abbrev one_query : Instance
one_query = record (one true) { requests = (0, failed_query) ∷ [] }

found_query : find 0 one_query.requests ≡ some failed_query
unfolding find
found_query = refl

process_error-query_example :
    process_error 0 handle_query_error (some one_query) (codes "broken")
    ≡ (some (notify (filled 0 false (codes "bro")) one_query), false)
process_error-query_example =
    process_error-query 0 one_query failed_query (codes "broken") refl (omega arith) found_query
