-- ===== src/Engine/Handlers/State.antt =====
-- The handlers of the state of the chain and of an account, on a message that decodes.
use libaergo.Base.{ℕ, Bool, ◌≡◌, refl, ap, ◌∙◌, true, some, List}
use libaergo.Engine.{
  Request, Instance, find, notify, blockchain_status, account_state, chain_read, account_read,
}
use libaergo.Engine.Handlers.{
  Decoder, process_response, response_of, handle_blockchain_status_response,
  handle_account_state_response,
}

module _ (pb : Decoder) (malloc : ℕ → Bool) (id : ℕ) (s : Instance) (r : Request) (bytes : List ℕ)
    (here : find id s.requests ≡ some r) where
  pub process_response-chain :
      {hash : List ℕ}
      → r.process_response ≡ blockchain_status
      → pb.chain_hash bytes ≡ (some hash, true)
      → process_response pb malloc id (some s) bytes ≡ (some (notify (chain_read hash) s), true)
  unfolding process_response response_of handle_blockchain_status_response
  process_response-chain kind decodes =
      rw (here, process_response)
        (ap (λ h. response_of pb malloc id h r s bytes) kind ∙ rw decodes refl)

  pub process_response-account :
      {nonce : ℕ}
      → r.process_response ≡ account_state
      → pb.state_nonce bytes ≡ some nonce
      → process_response pb malloc id (some s) bytes
        ≡ (some (notify (account_read id nonce) s), true)
  unfolding process_response response_of handle_account_state_response
  process_response-account kind decodes =
      rw (here, process_response)
        (ap (λ h. response_of pb malloc id h r s bytes) kind
          ∙ rw (decodes, handle_account_state_response) refl)
