-- ===== src/Client/Answer.antt =====
-- A synchronous query from the call to its answer.
use libaergo.Base.{
  ℕ, suc, ◌+◌, ◌<◌, ◌≡◌, refl, arith, true, Option, some, List, ◌∷◌, length, ltb, lt→ltb,
}
use libaergo.Response.Rounds.{IsMessage}
use libaergo.Encode.{Message, encode_query}
use libaergo.Engine.{Request, Instance, filled, query, handle_query_error, find}
use libaergo.Engine.Handlers.{process_response, tell}
use libaergo.Engine.Handlers.QueryError.{process_response-query}
use libaergo.Engine.Process.{done, Env, Round}
use libaergo.Engine.Process.Sync.{message_round}
use libaergo.Client.{
  request_of, strlen2, call_info, submit_encoded, aergo_query_smart_contract__internal,
  aergo_query_smart_contract_json,
}
use libaergo.Client.Sync.{sync_request, answered_with, asked, told, idle, submit-answers}

-- The instance after the query was answered with a text.
abbrev pub answered : List ℕ → Instance → Instance
answered text s = answered_with (filled s.next_id true text) s

module _ (env : Env) (size : ℕ) (f text : List ℕ) (message : IsMessage f)
    (memory : (n : ℕ) → env.malloc n ≡ true) (rounds : 1 < env.rounds)
    (decodes : env.decoder.single_bytes f ≡ some text) (fits : length text < size) where
  abbrev sync_query : Request
  sync_query = sync_request (some size) query (some handle_query_error)

  query-found : (s : Instance) → find s.next_id (asked sync_query s).requests ≡ some sync_query
  unfolding find asked
  query-found s = ground arith

  handle_query :
      (s : Instance)
      → process_response env.decoder env.malloc s.next_id (some (asked sync_query s)) f
        ≡ (some (told sync_query (filled s.next_id true text) s), true)
  unfolding tell told asked sync_request request_of
  handle_query s =
      process_response-query env.decoder env.malloc s.next_id (asked sync_query s) sync_query f
        (query-found s) refl refl decodes fits

  -- A synchronous query on an instance that has no request and no transfer, where the query is
  -- encoded, malloc gives every block and the request can be made: if the next round of libcurl
  -- brings the answer as one whole message with a value that is shorter than the buffer, then with
  -- fuel 5 or more the call returns true, the value is in the buffer, and the instance has no
  -- request and no transfer left.
  pub aergo_query_smart_contract_json-answers :
      (pb_encode : ℕ → Message → Option (List ℕ)) (fuel : ℕ) (s : Instance) (rest : List Round)
      (contract_address function : List ℕ) (args : Option (List ℕ)) {bytes : List ℕ}
      → env.can_alloc s.next_id ≡ true
      → env.can_open s.next_id ≡ true
      → encode_query pb_encode
          (length function + strlen2 args + 300)
          contract_address
          (call_info function args)
        ≡ some bytes
      → aergo_query_smart_contract_json env pb_encode
          (suc (suc (suc (suc (suc fuel)))))
          (some size)
          (some contract_address)
          (some function)
          args
          (idle s)
          (message_round s.next_id f ∷ rest)
        ≡ done (record { state = answered text s; schedule = rest; value = some 0; success = true })
  unfolding aergo_query_smart_contract_json aergo_query_smart_contract__internal submit_encoded
      sync_request
  aergo_query_smart_contract_json-answers pb_encode fuel s rest contract_address function args a o
        e =
      let n = length function + strlen2 args in
      let some_room : ltb 0 size ≡ true = lt→ltb 0 size (omega (arith, fits)) in
      rw (some_room, memory (n + 32), memory (n + 300), e)
        (submit-answers env (some size) query (some handle_query_error) (filled s.next_id true text)
          f message memory rounds pb_encode fuel s rest (handle_query s) a o)
