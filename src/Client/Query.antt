-- ===== src/Client/Query.antt =====
-- Queries of a contract: the text of the call, and what an asynchronous query starts.
use libaergo.Base.{
  Bool-cases, inl, inr, if◌then◌else◌, ℕ, suc, ◌+◌, ◌<◌, ◌≡◌, refl, ap, arith, true, false, Option,
  none, some, List, [], ◌∷◌, ◌++◌, length, length-append,
}
use libaergo.Base.Text.{codes}
use libaergo.Encode.{Message, encode_query}
use libaergo.Engine.{Request, Instance, query, handle_query_error, new_request}
use libaergo.Engine.Process.{
  Env, Run, Finished, Round, finished, start_transfer, send_grpc_request, process_requests,
}
use libaergo.Client.{
  request_of, strlen2, call_info, submit, submit_encoded, aergo_query_smart_contract__internal,
  aergo_query_smart_contract_json_async,
}

-- The text of a call with its terminator fits into the buffer of the lengths of the function and
-- the arguments and 32 bytes, for each function and arguments, NULL and empty ones too.
pub call_info-fits :
    (function : List ℕ) (args : Option (List ℕ))
    → length (call_info function args) < length function + strlen2 args + 32
unfolding call_info
call_info-fits function none = omega (arith, length-append function (codes "\"}"))
call_info-fits function (some []) = omega (arith, length-append function (codes "\"}"))
call_info-fits function (some (c ∷ args)) =
    let text : List ℕ = c ∷ args in
    let tail : List ℕ = codes "\",\"Args\":" ++ (text ++ codes "}") in
    ground (arith, length-append function tail, length-append args (codes "}"))

-- The request of a query with a callback.
abbrev pub async_query : Request
async_query = request_of true none query (some handle_query_error) false

-- The same, field by field.
abbrev pub query_request : Request
query_request = record {
  parent = none;
  callback = true;
  return_ptr = false;
  return_size = 0;
  process_response = query;
  process_error = some handle_query_error;
  rx = record {
    response = none;
    response_size = 0;
    remaining_size = 0;
    received = 0;
    processed = false;
    success = false;
    error_msg = none;
  };
  need_receipt = false;
  processing_receipt = false;
  receipt_attempts = 0;
  keep_active = false;
}

module _ (env : Env) (pb_encode : ℕ → Message → Option (List ℕ)) (fuel : ℕ) where
  pub send-async :
      (id : ℕ) (r : Request) (s : Instance) (schedule : List Round)
      → env.can_open id ≡ true
      → r.callback ≡ true
      → send_grpc_request env (suc fuel) id r s schedule
        ≡ finished (start_transfer s) schedule none true
  unfolding process_requests
  send-async id r s schedule o c =
      rw (o, send_grpc_request)
        (ap
          (λ b. elim b as (λ _. Run Finished) [
            | true ↦ finished (start_transfer s) schedule none true
            | false ↦ process_requests env fuel (some id) (start_transfer s) schedule
          ])
          c)

  submitted_async :
      (s : Instance) (schedule : List Round) (command : Option (List ℕ))
      → let asked : Instance = record s {
        requests = s.requests ++ ((s.next_id, query_request) ∷ []);
        next_id = s.next_id + 1;
      } in
        submit_encoded env pb_encode (suc fuel) command async_query s schedule ≡ elim command [
          | none ↦ finished s schedule none false
          | some bytes ↦
              if env.can_alloc s.next_id
              then (if env.can_open s.next_id
                  then finished (record asked { transfers = s.transfers + 1 }) schedule none true
                  else finished asked schedule none false)
              else finished s schedule none false
        ]
  unfolding submit_encoded submit new_request request_of send_grpc_request
  submitted_async s schedule none = refl
  submitted_async s schedule (some bytes) = elim (Bool-cases (env.can_alloc s.next_id)) [
    | inr full ↦ rw (full, submit_encoded, submit) refl
    | inl got ↦ elim (Bool-cases (env.can_open s.next_id)) [
      | inr closed ↦ rw (got, submit_encoded, submit, closed, send_grpc_request) refl
      | inl open_ok ↦ rw (got, submit_encoded, submit, open_ok, send_grpc_request) refl
    ]
  ]

  -- An asynchronous query with a callback and a contract and a function, where malloc gives the
  -- buffers. If the query cannot be encoded, or no request allocated, it returns false and the
  -- instance is as before. Else there is one more request behind the others, with the next number,
  -- the callback and the handlers of a query, no buffer, and nothing received; and if a transfer
  -- can be set up for it, one more is running and the call returns true at once, else it returns
  -- false.
  pub aergo_query_smart_contract_json_async-starts :
      (contract_address function : List ℕ) (args : Option (List ℕ)) (s : Instance)
      (schedule : List Round)
      → ((n : ℕ) → env.malloc n ≡ true)
      → let command =
          encode_query pb_encode
            (length function + strlen2 args + 300)
            contract_address
            (call_info function args) in
        let asked : Instance = record s {
          requests = s.requests ++ ((s.next_id, query_request) ∷ []);
          next_id = s.next_id + 1;
        } in
        aergo_query_smart_contract_json_async env pb_encode
          (suc fuel)
          true
          (some contract_address)
          (some function)
          args
          s
          schedule
        ≡ elim command [
          | none ↦ finished s schedule none false
          | some bytes ↦
              if env.can_alloc s.next_id
              then (if env.can_open s.next_id
                  then finished (record asked { transfers = s.transfers + 1 }) schedule none true
                  else finished asked schedule none false)
              else finished s schedule none false
        ]
  unfolding aergo_query_smart_contract_json_async submit_encoded submit new_request request_of
  aergo_query_smart_contract_json_async-starts contract_address function args s schedule memory =
      let size = length function + strlen2 args in
      rw (memory (size + 32), aergo_query_smart_contract__internal, memory (size + 300))
        (submitted_async s schedule
          (encode_query pb_encode (size + 300) contract_address (call_info function args)))
