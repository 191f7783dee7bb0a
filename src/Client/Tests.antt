-- ===== src/Client/Tests.antt =====
-- Runs of queries, with a nanopb that gives what it gets.
use libaergo.Base.{
  false, ◌+◌, ◌++◌, ℕ, ◌<◌, ◌≡◌, refl, arith, true, Option, none, some, List, [], ◌∷◌, length,
}
use libaergo.Base.Text.{codes}
use libaergo.Response.{content_size}
use libaergo.Response.Rounds.{IsMessage}
use libaergo.Encode.{Message, encode_query}
use libaergo.Engine.{Instance}
use libaergo.Engine.Handlers.{Decoder}
use libaergo.Engine.Process.{Env, done, finished}
use libaergo.Engine.Process.Sync.{message_round}
use libaergo.Client.{
  strlen2, call_info, aergo_query_smart_contract_json, aergo_query_smart_contract_json_async,
}
use libaergo.Client.Query.{
  query_request, call_info-fits, aergo_query_smart_contract_json_async-starts,
}
use libaergo.Client.Sync.{idle}
use libaergo.Client.Answer.{answered, aergo_query_smart_contract_json-answers}

abbrev decoder : Decoder
decoder = record {
  commit_result = λ bytes. none;
  receipt_text = λ bytes. none;
  single_bytes = λ bytes. some (codes "ok");
  state_proof = λ bytes. none;
  block_text = λ bytes. none;
  event_text = λ bytes. none;
  chain_hash = λ bytes. (some (7 ∷ []), true);
  state_nonce = λ bytes. some 5;
  reread = λ text. text;
}

abbrev env : Env
env = record {
  decoder = decoder;
  malloc = λ n. true;
  can_alloc = λ id. true;
  can_open = λ id. true;
  rounds = 2;
}

abbrev start : Instance
start = record { requests = []; next_id = 3; transfers = 0; notices = [] }

abbrev pb : ℕ → Message → Option (List ℕ)
pb room message = some (1 ∷ [])

abbrev answer : List ℕ
answer = 0 ∷ 0 ∷ 0 ∷ 0 ∷ 1 ∷ 7 ∷ []

answer_size : content_size answer ≡ 1
unfolding content_size
answer_size = refl

answer-IsMessage : IsMessage answer
answer-IsMessage = record { sized = omega (arith, answer_size); fits = omega (arith, answer_size) }

query_bytes :
    encode_query pb 305 (codes "Am") (call_info (codes "get") (some (codes "[]")))
    ≡ some (0 ∷ 0 ∷ 0 ∷ 0 ∷ 1 ∷ 1 ∷ [])
unfolding encode_query
query_bytes = refl

call_info-fits_example : length (call_info (codes "get") (some (codes "[]"))) < 37
call_info-fits_example = call_info-fits (codes "get") (some (codes "[]"))

aergo_query_smart_contract_json_async-starts_example :
    let command =
      encode_query pb
        (length (codes "get") + strlen2 (some (codes "[]")) + 300)
        (codes "Am")
        (call_info (codes "get") (some (codes "[]"))) in
    let asked : Instance = record start {
      requests = start.requests ++ ((3, query_request) ∷ []);
      next_id = 4;
    } in
    aergo_query_smart_contract_json_async env pb 1 true
      (some (codes "Am"))
      (some (codes "get"))
      (some (codes "[]"))
      start
      []
    ≡ elim command [
      | none ↦ finished start [] none false
      | some bytes ↦ finished (record asked { transfers = start.transfers + 1 }) [] none true
    ]
aergo_query_smart_contract_json_async-starts_example =
    aergo_query_smart_contract_json_async-starts env pb 0 (codes "Am") (codes "get")
      (some (codes "[]")) start [] (λ n. refl)

aergo_query_smart_contract_json-answers_example :
    aergo_query_smart_contract_json env pb 5
      (some 10)
      (some (codes "Am"))
      (some (codes "get"))
      (some (codes "[]"))
      (idle start)
      (message_round 3 answer ∷ [])
    ≡ done (record {
      state = answered (codes "ok") start;
      schedule = [];
      value = some 0;
      success = true;
    })
aergo_query_smart_contract_json-answers_example =
    aergo_query_smart_contract_json-answers env 10 answer (codes "ok") answer-IsMessage (λ n. refl)
      (omega arith) refl (omega arith) pb 0 start [] (codes "Am") (codes "get") (some (codes "[]"))
      {bytes = 0 ∷ 0 ∷ 0 ∷ 0 ∷ 1 ∷ 1 ∷ []} refl refl query_bytes
