-- ===== src/Engine/Handlers.antt =====
-- The handlers of aergo.c, and the callbacks of socket.c on a request of an instance.
pub mod Keys
pub mod QueryError
pub mod Receipt
pub mod Retry
pub mod State
use libaergo.Base.{
  ℕ, zero, suc, ◌+◌, ◌-◌, ltb, length, take, ◌≡◌, Bool, true, false, Option, none, some, List, [],
  ◌∷◌, ◌++◌, ◌==◌, ◌||◌, leb, not, replicate, if◌then◌else◌,
}
use libaergo.Base.Text.{codes, strstr}
use libaergo.Fields.{Stream, Target, target, behind, read_string}
use libaergo.Response
use libaergo.Response.{
  Rx, Handlers, Outcome, returned, fault, running, server_response_callback, server_header_callback,
}
use libaergo.Engine.{
  Request, Handler, ErrorHandler, Instance, Notice, find, modify, write, notify, transfer,
  contract_call, receipt, query, query_state_var, block, event, on_failed_receipt,
  handle_query_error, called, filled, chain_read, account_read, blockchain_status, account_state,
}

-- pb_decode, of nanopb, on the bytes of a message, the 5 of its header included, with the callbacks
-- that the handlers set; `none` where it fails. A commit result is its error code and its detail; of
-- a query and of a state variable the bytes of the value, which read_string then reads. Of a chain
-- status, what is written to the hash and whether it decodes; of the state of an account its nonce.
-- `reread` is what libcurl left of an earlier error text.
pub record Decoder : Type 0 where
  pub commit_result : List ℕ → Option (ℕ × List ℕ)
  pub receipt_text : List ℕ → Option (List ℕ)
  pub single_bytes : List ℕ → Option (List ℕ)
  pub state_proof : List ℕ → Option (List ℕ)
  pub block_text : List ℕ → Option (List ℕ)
  pub event_text : List ℕ → Option (List ℕ)
  pub chain_hash : List ℕ → Option (List ℕ) × Bool
  pub state_nonce : List ℕ → Option ℕ
  pub reread : List ℕ → List ℕ

-- CommitStatus_TX_OK
abbrev pub tx_ok : ℕ
tx_ok = 0

abbrev pub tx_not_found : List ℕ
tx_not_found = codes "tx not found"

-- The user is told by the callback if there is one, else through `return_ptr`.
unfoldable pub tell : ℕ → Request → Bool → List ℕ → Instance → Instance
tell id r ok text s = notify (if r.callback then called id ok text else filled id ok text) s

abbrev pub no_value : List ℕ
no_value = codes "No state variable value found"

-- What read_string makes of a value, for a buffer of some size: a text, and whether it succeeds.
unfoldable pub value_of : ℕ → Option (List ℕ) → Target (List ℕ)
unfolding read_string
value_of size none = target [] false
value_of size (some value) =
    elim (read_string (record { left = value; readable = true }) (some (replicate size 0))) [
      | behind ↦ behind
      | target buffer ok ↦ target value ok
    ]

-- The first result of a handler is `none` where it writes to memory that was freed, or outside of an
-- object.
module _ (pb : Decoder) (malloc : ℕ → Bool) (id : ℕ) where
  open pb use {
    commit_result, receipt_text, single_bytes, state_proof, block_text, event_text, chain_hash,
    state_nonce,
  }

  -- A failed commit is reported through `return_ptr` only.
  pub handle_transfer_response : Request → Instance → List ℕ → Option Instance × Bool
  unfolding write
  handle_transfer_response r s bytes = elim (commit_result bytes) [
    | none ↦ (some s, false)
    | some (error, detail) ↦
        if error == tx_ok
        then (write id (λ q. record q { need_receipt = true }) s, true)
        else (some (if r.return_ptr then notify (filled id false detail) s else s), false)
  ]

  -- The same text as the function above.
  pub handle_contract_call_response : Request → Instance → List ℕ → Option Instance × Bool
  unfolding handle_transfer_response
  handle_contract_call_response = handle_transfer_response

  release_parent : Option ℕ → Instance → Option Instance
  unfolding write
  release_parent none s = some s
  release_parent (some p) s =
      write p (λ q. record q { need_receipt = false; processing_receipt = false }) s

  read_receipt : Request → Instance → List ℕ → Option Instance × Bool
  unfolding release_parent tell
  read_receipt r s bytes = elim (receipt_text bytes) [
    | none ↦ (release_parent r.parent s, false)
    | some text ↦ (release_parent r.parent (tell id r true text s), true)
  ]

  -- The receipt is cleared first, through `return_ptr` where there is no callback.
  pub handle_receipt_response : Request → Instance → List ℕ → Option Instance × Bool
  unfolding read_receipt
  handle_receipt_response r s bytes =
      if r.callback || r.return_ptr then read_receipt r s bytes else (none, false)

  -- With a callback, the value is decoded into a block as long as the message, which is freed again.
  with_buffer :
      Request → Instance → List ℕ → (ℕ → Instance → Option Instance × Bool) → Option Instance × Bool
  unfolding write
  with_buffer r s bytes run =
      let sized = write id (λ q. record q { return_size = length bytes }) s in
      if r.callback
      then (if malloc (length bytes)
          then elim sized [ none ↦ (none, false) | some s' ↦ run (length bytes) s' ]
          else (sized, false))
      else run r.return_size s

  pub handle_query_response : Request → Instance → List ℕ → Option Instance × Bool
  unfolding with_buffer tell value_of
  handle_query_response r s bytes = with_buffer r s bytes (λ size s'.
      elim (value_of size (single_bytes bytes)) [
        | behind ↦ (none, false)
        | target text false ↦ (some s', false)
        | target text true ↦ (some (tell id r true text s'), true)
      ])

  -- Without a callback, strcpy writes the text and its terminator to the buffer.
  tell_no_value : Request → ℕ → Instance → Option Instance
  unfolding tell
  tell_no_value r size s =
      if r.callback || ltb (length no_value) size then some (tell id r false no_value s) else none

  -- The value returned is true also where there was no value.
  pub handle_query_state_var_response : Request → Instance → List ℕ → Option Instance × Bool
  unfolding with_buffer tell value_of tell_no_value
  handle_query_state_var_response r s bytes = with_buffer r s bytes (λ size s'.
      elim (value_of size (state_proof bytes)) [
        | behind ↦ (none, false)
        | target text false ↦ (some s', false)
        | target [] true ↦ (tell_no_value r size s', true)
        | target (c ∷ text) true ↦ (some (tell id r true (c ∷ text) s'), true)
      ])

  pub handle_block_response : Request → Instance → List ℕ → Option Instance × Bool
  handle_block_response r s bytes = elim (block_text bytes) [
    | none ↦ (some s, false)
    | some text ↦ (some (if r.callback then notify (called id true text) s else s), true)
  ]

  -- The callback is called without a test.
  pub handle_event_response : Request → Instance → List ℕ → Option Instance × Bool
  handle_event_response r s bytes = elim (event_text bytes) [
    | none ↦ (some s, false)
    | some text ↦ (if r.callback then some (notify (called id true text) s) else none, true)
  ]

  pub handle_blockchain_status_response : Request → Instance → List ℕ → Option Instance × Bool
  handle_blockchain_status_response r s bytes =
      let (hash, ok) = chain_hash bytes in
      (some (elim hash [ none ↦ s | some h ↦ notify (chain_read h) s ]), ok)

  pub handle_account_state_response : Request → Instance → List ℕ → Option Instance × Bool
  handle_account_state_response r s bytes = elim (state_nonce bytes) [
    | none ↦ (some s, false)
    | some nonce ↦ (some (notify (account_read id nonce) s), true)
  ]

  response_of : Handler → Request → Instance → List ℕ → Option Instance × Bool
  unfolding handle_transfer_response handle_contract_call_response handle_receipt_response
      handle_query_response handle_query_state_var_response handle_block_response
      handle_event_response handle_blockchain_status_response handle_account_state_response
  response_of transfer = handle_transfer_response
  response_of contract_call = handle_contract_call_response
  response_of receipt = handle_receipt_response
  response_of query = handle_query_response
  response_of query_state_var = handle_query_state_var_response
  response_of block = handle_block_response
  response_of event = handle_event_response
  response_of blockchain_status = handle_blockchain_status_response
  response_of account_state = handle_account_state_response

  pub process_response : Option Instance → List ℕ → Option Instance × Bool
  unfolding response_of find
  process_response none bytes = (none, false)
  process_response (some s) bytes = elim (find id s.requests) [
    | none ↦ (none, false)
    | some r ↦ response_of r.process_response r s bytes
  ]

module _ (id : ℕ) where
  -- The end of on_failed_receipt.
  report_failure : Request → List ℕ → Instance → Instance
  report_failure r msg s = if r.callback then notify (called id false msg) s else s

  -- on_failed_receipt from the point where the parent is found: the parent is flagged for another
  -- attempt, or given up at the tenth and at any other error.
  retry_or_give_up : ℕ → Request → Request → List ℕ → Instance → Option Instance
  unfolding report_failure write strstr
  retry_or_give_up p parent r msg s =
      let attempts = parent.receipt_attempts + 1 in
      elim (strstr msg tx_not_found) [
        | none ↦ write p (λ q. record q { need_receipt = false }) (report_failure r msg s)
        | some _ ↦
            if leb 10 attempts
            then write p (λ q. record q { receipt_attempts = attempts; need_receipt = false })
                (report_failure r msg s)
            else write p (λ q. record q { receipt_attempts = attempts; processing_receipt = false })
                s
      ]

  pub failed_receipt : Request → Instance → List ℕ → Option Instance
  unfolding retry_or_give_up report_failure find
  failed_receipt r s msg = elim r.parent [
    | none ↦ some (report_failure r msg s)
    | some p ↦ elim (find p s.requests) [
      | none ↦ none
      | some parent ↦ retry_or_give_up p parent r msg s
    ]
  ]

  -- The message is cut to the buffer, unless it is as long as that: then its terminator is written
  -- behind the buffer.
  pub query_error : Request → Instance → List ℕ → Option Instance
  query_error r s msg =
      let text : List ℕ =
        if ltb r.return_size (length msg) then take (r.return_size - 1) msg else msg in
      if r.callback
      then some (notify (called id false msg) s)
      else if ltb (length text) r.return_size
      then some (notify (filled id false text) s)
      else none

  error_of : ErrorHandler → Request → Instance → List ℕ → Option Instance
  unfolding failed_receipt query_error
  error_of on_failed_receipt r s msg = failed_receipt r s msg
  error_of handle_query_error r s msg = query_error r s msg

  -- Both error handlers return false.
  pub process_error : ErrorHandler → Option Instance → List ℕ → Option Instance × Bool
  unfolding error_of find
  process_error h none msg = (none, false)
  process_error h (some s) msg = elim (find id s.requests) [
    | none ↦ (none, false)
    | some r ↦ (error_of h r s msg, false)
  ]

abbrev pub error_handler :
    ℕ → Option ErrorHandler → Option (Option Instance → List ℕ → Option Instance × Bool)
error_handler id none = none
error_handler id (some h) = some (process_error id h)

-- The callbacks of request `id`.
abbrev pub handlers_of : Decoder → (ℕ → Bool) → ℕ → Request → Handlers (Option Instance)
handlers_of pb malloc id r = record {
  process_response = process_response pb malloc id;
  process_error = error_handler id r.process_error;
  malloc = malloc;
  reread = pb.reread;
}
