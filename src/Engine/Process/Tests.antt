-- ===== src/Engine/Process/Tests.antt =====
-- An asynchronous transfer that was committed asks for its receipt, and a request that is done is
-- released.
use libaergo.Base.{◌≡◌, refl, arith, true, false, none, some, [], ◌∷◌}
use libaergo.Engine.{
  Request, Handler, Instance, find, modify, write, remove, first_done, first_wanting, release_done,
  free_request, new_request,
}
use libaergo.Engine.Handlers.{Decoder}
use libaergo.Engine.Process.{
  Env, Round, header, done, Finished, empty_rx, receipt_request, exit, process_requests,
  send_grpc_request,
}
use libaergo.Engine.Process.Fresh.{Fresh}
use libaergo.Engine.Process.Ending.{Ending, process_requests-ends}
use libaergo.Base.Text.{codes}
use libaergo.Engine.Process.Rounds.{run_events_header-ne}

abbrev decoder : Decoder
decoder = record {
  commit_result = λ bytes. some (0, []);
  receipt_text = λ bytes. some bytes;
  single_bytes = λ bytes. some bytes;
  state_proof = λ bytes. some bytes;
  block_text = λ bytes. some bytes;
  event_text = λ bytes. some bytes;
  chain_hash = λ bytes. (none, true);
  state_nonce = λ bytes. none;
  reread = λ text. text;
}

abbrev env : Env
env = record {
  decoder = decoder;
  malloc = λ n. true;
  can_alloc = λ id. true;
  can_open = λ id. true;
  rounds = 5;
}

abbrev sent : Request
sent = record {
  parent = none;
  callback = true;
  return_ptr = true;
  return_size = 0;
  process_response = Handler.transfer;
  process_error = none;
  rx = empty_rx;
  need_receipt = false;
  processing_receipt = false;
  receipt_attempts = 0;
  keep_active = false;
}

-- The transfer after its commit result came, and when its receipt is asked for.
abbrev committed : Request
committed = record sent {
  rx = record empty_rx { processed = true; success = true };
  need_receipt = true;
}

abbrev asked : Request
asked = record committed { processing_receipt = true }

abbrev finished_query : Request
finished_query = record committed { process_response = Handler.query; need_receipt = false }

abbrev before : Instance
before = record {
  requests = (3, committed) ∷ (1, finished_query) ∷ [];
  next_id = 4;
  transfers = 0;
  notices = [];
}

abbrev after : Finished
after = record {
  state = record {
    requests = (3, asked) ∷ (4, receipt_request 3 committed) ∷ [];
    next_id = 5;
    transfers = 1;
    notices = [];
  };
  schedule = [];
  value = some 1;
  success = false;
}

-- A round with an error line for the transfer.
abbrev error_round : Round
error_round = record {
  perform_ok = true;
  events = header 3 (codes "grpc-message: no") ∷ [];
  wait_ok = true;
  completed = 1;
}

process_requests-after : process_requests env 9 none before [] ≡ done after
unfolding process_requests exit release_done first_done free_request remove new_request write find
    modify first_wanting
process_requests-after = refl

before-Fresh : Fresh before
before-Fresh = ((omega arith, (omega arith, tt)), (((λ e. omega arith), tt), (tt, tt)))

process_requests-ends_example :
    Ending (λ j. process_requests env j (some 3) before (error_round ∷ []))
    × Ending (λ j. send_grpc_request env j 4 sent (new_request sent before) (error_round ∷ []))
process_requests-ends_example =
    process_requests-ends env (some 3) sent before (error_round ∷ []) before-Fresh
      (run_events_header-ne env 3 (codes "grpc-message: no"), tt)
