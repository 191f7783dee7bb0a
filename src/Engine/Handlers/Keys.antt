-- ===== src/Engine/Handlers/Keys.antt =====
-- The numbers of the requests in the handlers of aergo.c.
pub mod Errors
pub mod Responses
use libaergo.Base.{
  ℕ, ◌+◌, ◌≡◌, refl, ap, ◌∙◌, Bool, true, false, Option, none, some, List, [], ◌∷◌, map, ◌==◌, ltb,
  leb, ◌||◌, if◌then◌else◌, take, length, ◌-◌,
}
use libaergo.Base.Text.{strstr}
use libaergo.Response.Worlds.{Keeps, KeepsSome}
use libaergo.Engine.{
  Request, Handler, ErrorHandler, Instance, find, modify, write, notify, transfer, contract_call,
  receipt, query, query_state_var, block, event, blockchain_status, account_state, called, filled,
  chain_read, account_read, on_failed_receipt, handle_query_error,
}
use libaergo.Engine.Handlers.{
  Decoder, tx_ok, tx_not_found, tell, handle_transfer_response, handle_contract_call_response,
  release_parent, read_receipt, handle_receipt_response, with_buffer, handle_query_response,
  handle_query_state_var_response, handle_block_response, handle_event_response,
  handle_blockchain_status_response, handle_account_state_response, response_of, process_response,
  report_failure, retry_or_give_up, failed_receipt, query_error, error_of, process_error,
  error_handler, no_value,
}

abbrev pub key : ℕ × Request → ℕ
key (id, r) = id

abbrev pub keys : Instance → List ℕ
keys s = map key s.requests

pub map-modify :
    (id : ℕ) (f : Request → Request) (rs : List (ℕ × Request))
    → map key (modify id f rs) ≡ map key rs
unfolding modify
map-modify id f [] = refl
map-modify id f ((k, r) ∷ rs) =
    elim (k == id)
      as (λ b. map key (if b then (k, f r) ∷ rs else (k, r) ∷ modify id f rs) ≡ k ∷ map key rs) [
        | true ↦ refl
        | false ↦ ap (λ t. k ∷ t) (map-modify id f rs)
      ]

-- The instance, where it was not left by a fault, has these requests and this next number.
abbrev pub Same : List ℕ → ℕ → Option Instance → Type 0
Same ks n none = Unit {0}
Same ks n (some s) = (keys s ≡ ks) × (s.next_id ≡ n)

module _ (ks : List ℕ) (n : ℕ) where
  pub write-Same :
      (id : ℕ) (f : Request → Request) (s : Instance)
      → Same ks n (some s)
      → Same ks n (write id f s)
  unfolding write
  write-Same id f s (h, k) =
      elim (find id s.requests)
        as (λ r. Same ks n (elim r [
          | none ↦ none
          | some _ ↦ some (record s { requests = modify id f s.requests })
        ])) [ none ↦ tt | some r ↦ (map-modify id f s.requests ∙ h, k) ]

  pub if-Same :
      (b : Bool) (s t : Option Instance × Bool)
      → Same ks n s.0
      → Same ks n t.0
      → Same ks n (if b then s else t).0
  if-Same true s t h k = h
  if-Same false s t h k = k

  pub if-some :
      (b : Bool) (s t : Instance)
      → Same ks n (some s)
      → Same ks n (some t)
      → Same ks n (some (if b then s else t))
  if-some true s t h k = h
  if-some false s t h k = k

  pub if-option :
      (b : Bool) (s t : Option Instance)
      → Same ks n s
      → Same ks n t
      → Same ks n (if b then s else t)
  if-option true s t h k = h
  if-option false s t h k = k
