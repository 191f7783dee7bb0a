-- ===== src/Client.antt =====
-- aergo.c, exported functions that make one request: the queries of a contract and of its state, the
-- subscriptions, and the receipt of a transaction. A pointer that may be NULL is an option; the
-- instance is not NULL. What is cleared in the result of a query before the request is left out.
pub mod Account
pub mod Answer
pub mod Lifecycle
pub mod Query
pub mod Sync
pub mod Transfer
mod Tests
use libaergo.Base.{
  ℕ, suc, ◌+◌, ◌<◌, ◌≡◌, Bool, true, false, Option, none, some, List, [], ◌∷◌, ◌++◌, length, ltb,
  ◌==◌, if◌then◌else◌,
}
use libaergo.Base.Text.{codes}
use libaergo.Sha256.{Ctx}
use libaergo.Encode.{
  Message, encode_query, encode_state_query, encode_filter_info, encode_txn_hash,
  encode_empty_message,
}
use libaergo.Engine.{
  Request, Instance, Handler, ErrorHandler, receipt, query, query_state_var, event, block,
  handle_query_error, new_request,
}
use libaergo.Engine.Process.{Env, Run, Finished, Round, finished, empty_rx, send_grpc_request}

-- A request of which new_request cleared all, with the fields that the functions set.
unfoldable pub request_of : Bool → Option ℕ → Handler → Option ErrorHandler → Bool → Request
request_of callback result handler error keep_active = record {
  parent = none;
  callback = callback;
  return_ptr = elim result [ none ↦ false | some size ↦ true ];
  return_size = elim result [ none ↦ 0 | some size ↦ size ];
  process_response = handler;
  process_error = error;
  rx = empty_rx;
  need_receipt = false;
  processing_receipt = false;
  receipt_attempts = 0;
  keep_active = keep_active;
}

abbrev pub strlen2 : Option (List ℕ) → ℕ
strlen2 none = 0
strlen2 (some text) = length text

abbrev text_or_empty : Option (List ℕ) → List ℕ
text_or_empty none = []
text_or_empty (some text) = text

-- What snprintf writes of a call, the limit aside.
unfoldable pub call_info : List ℕ → Option (List ℕ) → List ℕ
call_info function args =
    let head : List ℕ = codes "{\"Name\":\"" ++ function in
    let text : List ℕ = text_or_empty args in
    if ltb 0 (length text)
    then head ++ (codes "\",\"Args\":" ++ (text ++ codes "}"))
    else head ++ codes "\"}"

module _ (env : Env) (pb_encode : ℕ → Message → Option (List ℕ)) (fuel : ℕ) where
  open env use {can_alloc, malloc}

  -- From the call of new_request on.
  unfoldable pub submit : Request → Instance → List Round → Run Finished
  unfolding new_request
  submit r s schedule =
      if can_alloc s.next_id
      then send_grpc_request env fuel s.next_id r (new_request r s) schedule
      else finished s schedule none false

  -- The request of a command that was encoded, or the value false.
  unfoldable pub submit_encoded : Option (List ℕ) → Request → Instance → List Round → Run Finished
  unfolding submit
  submit_encoded none r s schedule = finished s schedule none false
  submit_encoded (some bytes) r s schedule = submit r s schedule

  unfoldable pub aergo_query_smart_contract__internal :
      Bool
      → Option ℕ
      → Option (List ℕ)
      → Option (List ℕ)
      → Option (List ℕ)
      → Instance
      → List Round
      → Run Finished
  unfolding submit_encoded encode_query call_info request_of
  aergo_query_smart_contract__internal cb result (some contract_address) (some function) args s
        schedule =
      let size = length function + strlen2 args in
      if malloc (size + 32)
      then (if malloc (size + 300)
          then submit_encoded
              (encode_query pb_encode (size + 300) contract_address (call_info function args))
              (request_of cb result query (some handle_query_error) false) s schedule
          else finished s schedule none false)
      else finished s schedule none false
  aergo_query_smart_contract__internal cb result _ _ args s schedule =
      finished s schedule none false

  unfoldable pub aergo_query_smart_contract_json :
      Option ℕ
      → Option (List ℕ)
      → Option (List ℕ)
      → Option (List ℕ)
      → Instance
      → List Round
      → Run Finished
  unfolding aergo_query_smart_contract__internal
  aergo_query_smart_contract_json none contract_address function args s schedule =
      finished s schedule none false
  aergo_query_smart_contract_json (some size) contract_address function args s schedule =
      if ltb 0 size
      then aergo_query_smart_contract__internal false (some size) contract_address function args s
          schedule
      else finished s schedule none false

  unfoldable pub aergo_query_smart_contract_json_async :
      Bool
      → Option (List ℕ)
      → Option (List ℕ)
      → Option (List ℕ)
      → Instance
      → List Round
      → Run Finished
  unfolding aergo_query_smart_contract__internal
  aergo_query_smart_contract_json_async cb contract_address function args s schedule =
      if cb
      then aergo_query_smart_contract__internal true none contract_address function args s schedule
      else finished s schedule none false

  -- The memory of the hash function holds `junk`.
  unfoldable pub aergo_query_smart_contract_state_variable__internal :
      Ctx
      → Bool
      → Option ℕ
      → Option (List ℕ)
      → Option (List ℕ)
      → Instance
      → List Round
      → Run Finished
  unfolding submit_encoded encode_state_query request_of
  aergo_query_smart_contract_state_variable__internal junk cb result (some contract_address)
        (some var_name) s schedule =
      if malloc 1024
      then submit_encoded (encode_state_query pb_encode junk 1024 contract_address var_name)
          (request_of cb result query_state_var (some handle_query_error) false) s schedule
      else finished s schedule none false
  aergo_query_smart_contract_state_variable__internal junk cb result _ _ s schedule =
      finished s schedule none false

  unfoldable pub aergo_query_smart_contract_state_variable :
      Ctx → Option ℕ → Option (List ℕ) → Option (List ℕ) → Instance → List Round → Run Finished
  unfolding aergo_query_smart_contract_state_variable__internal
  aergo_query_smart_contract_state_variable junk none contract_address var_name s schedule =
      finished s schedule none false
  aergo_query_smart_contract_state_variable junk (some size) contract_address var_name s schedule =
      if ltb 0 size
      then aergo_query_smart_contract_state_variable__internal junk false (some size)
          contract_address var_name s schedule
      else finished s schedule none false

  unfoldable pub aergo_query_smart_contract_state_variable_async :
      Ctx → Bool → Option (List ℕ) → Option (List ℕ) → Instance → List Round → Run Finished
  unfolding aergo_query_smart_contract_state_variable__internal
  aergo_query_smart_contract_state_variable_async junk cb contract_address var_name s schedule =
      if cb
      then aergo_query_smart_contract_state_variable__internal junk true none contract_address
          var_name s schedule
      else finished s schedule none false

  unfoldable pub aergo_contract_events_subscribe :
      Option (List ℕ) → Option (List ℕ) → Bool → Instance → List Round → Run Finished
  unfolding submit_encoded encode_filter_info request_of
  aergo_contract_events_subscribe (some contract_address) (some event_name) true s schedule =
      submit_encoded (encode_filter_info pb_encode 256 contract_address (some event_name))
        (request_of true none event none true) s schedule
  aergo_contract_events_subscribe _ _ _ s schedule = finished s schedule none false

  unfoldable pub aergo_block_stream_subscribe : Bool → Instance → List Round → Run Finished
  unfolding submit_encoded encode_empty_message request_of
  aergo_block_stream_subscribe cb s schedule =
      if cb
      then submit_encoded (encode_empty_message pb_encode 32) (request_of true none block none true)
          s schedule
      else finished s schedule none false

  -- aergo_get_receipt__internal without a parent; the receipt is no buffer of some size.
  unfoldable pub receipt_without_parent :
      Bool → Option (List ℕ) → Instance → List Round → Run Finished
  unfolding submit_encoded encode_txn_hash request_of
  receipt_without_parent cb (some txn_hash) s schedule =
      submit_encoded (encode_txn_hash pb_encode 256 txn_hash)
        (request_of cb (if cb then none else some 0) receipt none false) s schedule
  receipt_without_parent cb none s schedule = finished s schedule none false

  unfoldable pub aergo_get_receipt : Option (List ℕ) → Bool → Instance → List Round → Run Finished
  unfolding receipt_without_parent
  aergo_get_receipt txn_hash given s schedule =
      if given
      then receipt_without_parent false txn_hash s schedule
      else finished s schedule none false

  unfoldable pub aergo_get_receipt_async :
      Option (List ℕ) → Bool → Instance → List Round → Run Finished
  unfolding receipt_without_parent
  aergo_get_receipt_async txn_hash cb s schedule =
      if cb then receipt_without_parent true txn_hash s schedule else finished s schedule none false
