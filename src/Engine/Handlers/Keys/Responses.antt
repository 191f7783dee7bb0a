-- ===== src/Engine/Handlers/Keys/Responses.antt =====
-- The numbers of the requests in the handlers of responses.
use libaergo.Base.{
  ltb, length, ℕ, ◌≡◌, refl, Bool, true, false, Option, none, some, List, [], ◌∷◌, ◌==◌, ◌||◌,
  if◌then◌else◌, length,
}
use libaergo.Response.Worlds.{Keeps}
use libaergo.Engine.{
  Request, Handler, Instance, find, write, notify, transfer, contract_call, receipt, query,
  query_state_var, block, event, blockchain_status, account_state, called, filled, chain_read,
  account_read,
}
use libaergo.Fields.{target, behind}
use libaergo.Engine.Handlers.{
  value_of, tell_no_value, Decoder, tx_ok, tell, handle_transfer_response,
  handle_contract_call_response, release_parent, read_receipt, handle_receipt_response, with_buffer,
  handle_query_response, handle_query_state_var_response, handle_block_response,
  handle_event_response, handle_blockchain_status_response, handle_account_state_response,
  response_of, process_response, no_value,
}
use libaergo.Engine.Handlers.Keys.{Same, write-Same, if-Same, if-some, if-option}

module _ (ks : List ℕ) (n : ℕ) where
  module _ (pb : Decoder) (malloc : ℕ → Bool) (id : ℕ) (r : Request) where
    transfer-Same :
        (s : Instance) (bytes : List ℕ)
        → Same ks n (some s)
        → Same ks n (handle_transfer_response pb malloc id r s bytes).0
    unfolding handle_transfer_response
    transfer-Same s bytes h =
        elim (pb.commit_result bytes)
            as (λ c.
              pb.commit_result bytes ≡ c
              → Same ks n (handle_transfer_response pb malloc id r s bytes).0) [
                | none ↦ λ e. rw (e, handle_transfer_response) h
                | some (error, detail) ↦ λ e.
                    rw (e, handle_transfer_response)
                      (if-Same ks n (error == tx_ok) _ _ (write-Same ks n id _ s h)
                        (if-some ks n r.return_ptr (notify (filled id false detail) s) s h h))
              ]
          refl

    release_parent-Same :
        (parent : Option ℕ) (s : Instance)
        → Same ks n (some s)
        → Same ks n (release_parent pb malloc id parent s)
    unfolding release_parent
    release_parent-Same none s h = h
    release_parent-Same (some p) s h = write-Same ks n p _ s h

    read_receipt-Same :
        (s : Instance) (bytes : List ℕ)
        → Same ks n (some s)
        → Same ks n (read_receipt pb malloc id r s bytes).0
    unfolding read_receipt tell
    read_receipt-Same s bytes h =
        elim (pb.receipt_text bytes)
            as (λ c.
              pb.receipt_text bytes ≡ c → Same ks n (read_receipt pb malloc id r s bytes).0) [
                | none ↦ λ e. rw (e, read_receipt) (release_parent-Same r.parent s h)
                | some text ↦ λ e.
                    rw (e, read_receipt) (release_parent-Same r.parent (tell id r true text s) h)
              ]
          refl

    receipt-Same :
        (s : Instance) (bytes : List ℕ)
        → Same ks n (some s)
        → Same ks n (handle_receipt_response pb malloc id r s bytes).0
    unfolding handle_receipt_response
    receipt-Same s bytes h =
        if-Same ks n (r.callback || r.return_ptr) _ _ (read_receipt-Same s bytes h) tt

    sized-Same :
        (sized : Option Instance) (size : ℕ) (run : ℕ → Instance → Option Instance × Bool)
        → ((k : ℕ) (t : Instance) → Same ks n (some t) → Same ks n (run k t).0)
        → Same ks n sized
        → Same ks n (
            let o : Option Instance × Bool = elim sized [
              | none ↦ (none, false)
              | some t ↦ run size t
            ] in
            o.0)
    sized-Same none size run keeps h = tt
    sized-Same (some t) size run keeps h = keeps size t h

    with_buffer-Same :
        (s : Instance) (bytes : List ℕ) (run : ℕ → Instance → Option Instance × Bool)
        → ((k : ℕ) (t : Instance) → Same ks n (some t) → Same ks n (run k t).0)
        → Same ks n (some s)
        → Same ks n (with_buffer pb malloc id r s bytes run).0
    unfolding with_buffer
    with_buffer-Same s bytes run keeps h =
        let sized = write id (λ q. record q { return_size = length bytes }) s in
        let same : Same ks n sized = write-Same ks n id _ s h in
        if-Same ks n r.callback _ _
          (if-Same ks n (malloc (length bytes)) _ (sized, false)
            (sized-Same sized (length bytes) run keeps same) same)
          (keeps r.return_size s h)

    query-Same :
        (s : Instance) (bytes : List ℕ)
        → Same ks n (some s)
        → Same ks n (handle_query_response pb malloc id r s bytes).0
    unfolding handle_query_response tell
    query-Same s bytes =
        let value = pb.single_bytes bytes in
        let run : ℕ → Instance → Option Instance × Bool = λ size s'. elim (value_of size value) [
          | behind ↦ (none, false)
          | target text false ↦ (some s', false)
          | target text true ↦ (some (tell id r true text s'), true)
        ] in
        with_buffer-Same s bytes run (λ k t h.
          elim (value_of k value)
            as (λ c. Same ks n (
              let o : Option Instance × Bool = elim c [
                | behind ↦ (none, false)
                | target text false ↦ (some t, false)
                | target text true ↦ (some (tell id r true text t), true)
              ] in
              o.0)) [ behind ↦ tt | target text false ↦ h | target text true ↦ h ])

    no_value-Same :
        (size : ℕ) (s : Instance)
        → Same ks n (some s)
        → Same ks n (tell_no_value pb malloc id r size s)
    unfolding tell_no_value tell
    no_value-Same size s h =
        if-option ks n (r.callback || ltb (length no_value) size)
          (some (tell id r false no_value s)) none h tt

    query_state_var-Same :
        (s : Instance) (bytes : List ℕ)
        → Same ks n (some s)
        → Same ks n (handle_query_state_var_response pb malloc id r s bytes).0
    unfolding handle_query_state_var_response tell
    query_state_var-Same s bytes =
        let value = pb.state_proof bytes in
        let run : ℕ → Instance → Option Instance × Bool = λ size s'. elim (value_of size value) [
          | behind ↦ (none, false)
          | target text false ↦ (some s', false)
          | target [] true ↦ (tell_no_value pb malloc id r size s', true)
          | target (x ∷ text) true ↦ (some (tell id r true (x ∷ text) s'), true)
        ] in
        with_buffer-Same s bytes run (λ k t h.
          elim (value_of k value)
            as (λ c. Same ks n (
              let o : Option Instance × Bool = elim c [
                | behind ↦ (none, false)
                | target text false ↦ (some t, false)
                | target [] true ↦ (tell_no_value pb malloc id r k t, true)
                | target (x ∷ text) true ↦ (some (tell id r true (x ∷ text) t), true)
              ] in
              o.0)) [
                | behind ↦ tt
                | target text false ↦ h
                | target [] true ↦ no_value-Same k t h
                | target (x ∷ text) true ↦ h
              ])

    response_of-Same :
        (kind : Handler) (s : Instance) (bytes : List ℕ)
        → Same ks n (some s)
        → Same ks n (response_of pb malloc id kind r s bytes).0
    unfolding response_of handle_contract_call_response handle_block_response handle_event_response
        handle_blockchain_status_response handle_account_state_response
    response_of-Same transfer s bytes h = transfer-Same s bytes h
    response_of-Same contract_call s bytes h = transfer-Same s bytes h
    response_of-Same receipt s bytes h = receipt-Same s bytes h
    response_of-Same query s bytes h = query-Same s bytes h
    response_of-Same query_state_var s bytes h = query_state_var-Same s bytes h
    response_of-Same block s bytes h =
        elim (pb.block_text bytes)
          as (λ c. Same ks n (
            let o : Option Instance × Bool = elim c [
              | none ↦ (some s, false)
              | some text ↦ (some (if r.callback then notify (called id true text) s else s), true)
            ] in
            o.0)) [
              | none ↦ h
              | some text ↦ if-some ks n r.callback (notify (called id true text) s) s h h
            ]
    response_of-Same event s bytes h =
        elim (pb.event_text bytes)
          as (λ c. Same ks n (
            let o : Option Instance × Bool = elim c [
              | none ↦ (some s, false)
              | some text ↦
                  (if r.callback then some (notify (called id true text) s) else none, true)
            ] in
            o.0)) [
              | none ↦ h
              | some text ↦
                  if-option ks n r.callback (some (notify (called id true text) s)) none h tt
            ]
    response_of-Same blockchain_status s bytes h =
        elim (pb.chain_hash bytes).0
          as (λ c.
            Same ks n (some (elim c [ none ↦ s | some hash ↦ notify (chain_read hash) s ]))) [
              | none ↦ h
              | some hash ↦ h
            ]
    response_of-Same account_state s bytes h =
        elim (pb.state_nonce bytes)
          as (λ c. Same ks n (
            let o : Option Instance × Bool = elim c [
              | none ↦ (some s, false)
              | some nonce ↦ (some (notify (account_read id nonce) s), true)
            ] in
            o.0)) [ none ↦ h | some nonce ↦ h ]

  pub process_response-Same :
      (pb : Decoder) (malloc : ℕ → Bool) (id : ℕ)
      → Keeps (Same ks n) (process_response pb malloc id)
  unfolding process_response
  process_response-Same pb malloc id none bytes h = tt
  process_response-Same pb malloc id (some s) bytes h =
      elim (find id s.requests)
        as (λ c. Same ks n (
          let o : Option Instance × Bool = elim c [
            | none ↦ (none, false)
            | some r ↦ response_of pb malloc id r.process_response r s bytes
          ] in
          o.0)) [
            | none ↦ tt
            | some r ↦ response_of-Same pb malloc id r r.process_response s bytes h
          ]
