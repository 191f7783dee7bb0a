-- ===== src/Client/Account.antt =====
-- aergo.c: the state of the chain and of an account, which the transfers and calls read first where
-- they do not have it. What is read is found in the notices of the instance.
use libaergo.Base.{
  ℕ, Bool, true, false, Option, none, some, List, [], ◌∷◌, ◌++◌, length, drop, get_or, ◌==◌, not,
  ◌&&◌, if◌then◌else◌,
}
use libaergo.Base.Text.{codes}
use libaergo.Encode.{Message, encode_empty_message, encode_account_key}
use libaergo.Engine.{
  Instance, Notice, blockchain_status, account_state, chain_read, account_read, new_request,
}
use libaergo.Engine.Process.{Env, Run, done, Finished, Round, finished, ◌>>=◌, send_grpc_request}
use libaergo.Transaction.{Account}
use libaergo.Client.{request_of, submit_encoded}

-- `aergo_account`, less its balance and its state root.
pub record Wallet : Type 0 where
  pub account : Account
  pub index : ℕ
  pub address : List ℕ
  pub is_updated : Bool

-- blockchain_id_hash, 32 bytes, after the writes to it.
unfoldable pub read_chain : List ℕ → List Notice → List ℕ
read_chain hash [] = hash
read_chain hash (chain_read h ∷ notices) = read_chain (h ++ drop (length h) hash) notices
read_chain hash (_ ∷ notices) = read_chain hash notices

-- The nonce that was written last to the account of a request.
unfoldable pub read_nonce : ℕ → Option ℕ → List Notice → Option ℕ
read_nonce id last [] = last
read_nonce id last (account_read k nonce ∷ notices) =
    read_nonce id (if k == id then some nonce else last) notices
read_nonce id last (_ ∷ notices) = read_nonce id last notices

-- What the public key comes from: the device, with the text of its error, or secp256k1; and
-- encode_address.
pub record KeySource : Type 0 where
  pub ledger_key : ℕ → Option (List ℕ) × List ℕ
  pub secp_key : List ℕ → Option (List ℕ)
  pub encode_address : List ℕ → List ℕ

-- What a call leaves that also changes an account; `error` is the text in its buffer, `none` where the
-- buffer was not written.
pub record Read : Type 0 where
  pub wallet : Wallet
  pub finished : Finished
  pub error : Option (List ℕ)

abbrev pub unsent : Wallet → Instance → List Round → Option (List ℕ) → Read
unsent w s schedule error = record {
  wallet = w;
  finished = record { state = s; schedule = schedule; value = none; success = false };
  error = error;
}

abbrev pub set_key : Wallet → List ℕ → Wallet
set_key w key = record w { account = record (w.account) { pubkey = key } }

-- The public key is found where its first two bytes are zero.
unfoldable pub find_key : KeySource → Wallet → Option Wallet × Option (List ℕ)
find_key source w =
    if get_or w.account.pubkey 0 0 == 0 && get_or w.account.pubkey 1 0 == 0
    then if w.account.use_ledger
      then (let (key, text) = source.ledger_key w.index in
          elim key [ none ↦ (none, some text) | some k ↦ (some (set_key w k), some text) ])
      else elim (source.secp_key w.account.privkey) [
        | none ↦ (none, some (codes "failed to get public key from the secret key"))
        | some k ↦ (some (set_key w k), none)
      ]
    else (some w, none)

abbrev pub with_key :
    Option Wallet × Option (List ℕ)
    → (Option (List ℕ) → Run Read)
    → (Option (List ℕ) → Wallet → Run Read)
    → Run Read
with_key (none, error) fails next = fails error
with_key (some w, error) fails next = next error w

-- The account after its request: it is updated if the handler wrote it.
unfoldable pub update_wallet : KeySource → ℕ → List Notice → Wallet → Wallet
unfolding read_nonce
update_wallet source id notices w =
    let known = record w { address = source.encode_address w.account.pubkey } in
    elim (read_nonce id none notices) [
      | none ↦ record known { is_updated = false }
      | some nonce ↦ record known {
        account = record (w.account) { nonce = nonce };
        is_updated = true;
      }
    ]

abbrev pub read_of : Wallet → Option (List ℕ) → Finished → Read
read_of w error f = record {
  wallet = w;
  finished = record f { success = w.is_updated };
  error = error;
}

module _ (env : Env) (pb_encode : ℕ → Message → Option (List ℕ)) (fuel : ℕ) where
  open env use {can_alloc}

  unfoldable pub aergo_get_blockchain_status : Instance → List Round → Run Finished
  unfolding submit_encoded encode_empty_message request_of
  aergo_get_blockchain_status s schedule =
      submit_encoded env pb_encode fuel (encode_empty_message pb_encode 128)
        (request_of false none blockchain_status none false) s schedule

  -- `hash` is what blockchain_id_hash held before the notices; the success is the value returned.
  unfoldable pub check_blockchain_id_hash : List ℕ → Instance → List Round → Run Finished
  unfolding aergo_get_blockchain_status read_chain
  check_blockchain_id_hash hash s schedule =
      let known : Instance → Bool = λ t. not (get_or (read_chain hash t.notices) 0 0 == 0) in
      if known s then finished s schedule none true else do
        f ← aergo_get_blockchain_status s schedule
        finished f.state f.schedule f.value (known f.state)

  -- From the encoding on, for an account with its key.
  unfoldable pub request_state :
      KeySource → Option (List ℕ) → Wallet → Instance → List Round → Run Read
  unfolding encode_account_key update_wallet new_request request_of
  request_state source error w s schedule =
      let r = request_of false none account_state none false in
      elim (encode_account_key pb_encode 128 w.account.pubkey) [
        | none ↦ done (unsent w s schedule error)
        | some bytes ↦
            if can_alloc s.next_id
            then (do
              f ← send_grpc_request env fuel s.next_id r (new_request r s) schedule
              done (read_of (update_wallet source s.next_id f.state.notices w) error f))
            else done (unsent w s schedule error)
      ]

  unfoldable pub aergo_get_account_state : KeySource → Wallet → Instance → List Round → Run Read
  unfolding request_state find_key
  aergo_get_account_state source w s schedule =
      with_key (find_key source w) (λ error. done (unsent w s schedule error))
        (λ error w'. request_state source error (record w' { is_updated = false }) s schedule)
