-- ===== src/Client/Transfer/Commit.antt =====
-- A transfer from an account of which nothing is known yet.
use libaergo.Base.{
  ℕ, suc, ◌+◌, ◌<◌, ◌≡◌, ◌≢◌, refl, ◌∙◌, arith, true, false, Option, none, some, List, [], ◌∷◌,
  ◌++◌, length, get_or, drop, if◌then◌else◌, ◌==◌,
}
use libaergo.Response.Rounds.{IsMessage}
use libaergo.Sha256.{Ctx}
use libaergo.Encode.{Message, encode_empty_message, encode_account_key}
use libaergo.Engine.{
  Request, Instance, Notice, Handler, transfer, blockchain_status, account_state, chain_read,
  account_read, find, new_request,
}
use libaergo.Engine.Handlers.{process_response}
use libaergo.Engine.Handlers.State.{process_response-chain, process_response-account}
use libaergo.Engine.Process.{Env, done, Round, finished, start_transfer, send_grpc_request}
use libaergo.Engine.Process.Sync.{message_round}
use libaergo.Transaction.{Account, Crypto, encoded, encode_transfer}
use libaergo.Client.{request_of, submit, submit_encoded}
use libaergo.Client.Query.{send-async}
use libaergo.Client.Sync.{sync_request, answered_with, asked, told, idle, submit-answers}
use libaergo.Client.Account.{
  Wallet, KeySource, read_chain, read_nonce, aergo_get_blockchain_status, check_blockchain_id_hash,
  aergo_get_account_state, request_state, find_key, update_wallet,
}
use libaergo.Client.Transfer.{
  commit_request, ensure_state, with_state, commit, aergo_transfer_bignum__internal,
  aergo_transfer_bignum_async,
}

read_chain-append :
    (hash : List ℕ) (xs ys : List Notice)
    → read_chain hash (xs ++ ys) ≡ read_chain (read_chain hash xs) ys
unfolding read_chain
read_chain-append hash [] ys = refl
read_chain-append hash (chain_read h ∷ xs) ys = read_chain-append (h ++ drop (length h) hash) xs ys
read_chain-append hash (Notice.called id ok text ∷ xs) ys = read_chain-append hash xs ys
read_chain-append hash (Notice.filled id ok text ∷ xs) ys = read_chain-append hash xs ys
read_chain-append hash (account_read id n ∷ xs) ys = read_chain-append hash xs ys

read_nonce-append :
    (id n : ℕ) (xs : List Notice) (last : Option ℕ)
    → read_nonce id last (xs ++ (account_read id n ∷ [])) ≡ some n
unfolding read_nonce
read_nonce-append id n [] last = ground arith
read_nonce-append id n (chain_read h ∷ xs) last = read_nonce-append id n xs last
read_nonce-append id n (Notice.called k ok text ∷ xs) last = read_nonce-append id n xs last
read_nonce-append id n (Notice.filled k ok text ∷ xs) last = read_nonce-append id n xs last
read_nonce-append id n (account_read k m ∷ xs) last =
    read_nonce-append id n xs (if k == id then some m else last)

-- The account after its state was read.
abbrev pub with_nonce : KeySource → ℕ → Wallet → Wallet
with_nonce source n w = record w {
  account = record (w.account) { nonce = n };
  address = source.encode_address w.account.pubkey;
  is_updated = true;
}

module _ (env : Env) (memory : (n : ℕ) → env.malloc n ≡ true) (rounds : 1 < env.rounds)
    (pb_encode : ℕ → Message → Option (List ℕ)) (fuel : ℕ) (s : Instance) (rest : List Round)
    (alloc : env.can_alloc s.next_id ≡ true) (opens : env.can_open s.next_id ≡ true) (f : List ℕ)
    (message : IsMessage f) where
  abbrev asking : Handler → Request
  asking handler = sync_request none handler none

  asking-found :
      (handler : Handler)
      → find s.next_id (asked (asking handler) s).requests ≡ some (asking handler)
  unfolding find asked
  asking-found handler = ground arith

  chain_handled :
      {h : List ℕ}
      → env.decoder.chain_hash f ≡ (some h, true)
      → process_response env.decoder env.malloc s.next_id
          (some (asked (asking blockchain_status) s))
          f
        ≡ (some (told (asking blockchain_status) (chain_read h) s), true)
  unfolding told asked sync_request request_of
  chain_handled e =
      process_response-chain env.decoder env.malloc s.next_id (asked (asking blockchain_status) s)
        (asking blockchain_status) f (asking-found blockchain_status) refl e

  account_handled :
      {n : ℕ}
      → env.decoder.state_nonce f ≡ some n
      → process_response env.decoder env.malloc s.next_id (some (asked (asking account_state) s)) f
        ≡ (some (told (asking account_state) (account_read s.next_id n) s), true)
  unfolding told asked sync_request request_of
  account_handled e =
      process_response-account env.decoder env.malloc s.next_id (asked (asking account_state) s)
        (asking account_state) f (asking-found account_state) refl e

  aergo_get_blockchain_status-answered :
      {h bytes : List ℕ}
      → env.decoder.chain_hash f ≡ (some h, true)
      → encode_empty_message pb_encode 128 ≡ some bytes
      → aergo_get_blockchain_status env pb_encode
          (suc (suc (suc (suc (suc fuel)))))
          (idle s)
          (message_round s.next_id f ∷ rest)
        ≡ finished (answered_with (chain_read h) s) rest (some 0) true
  unfolding aergo_get_blockchain_status submit_encoded sync_request
  aergo_get_blockchain_status-answered {h} e b =
      rw (b, submit_encoded)
        (submit-answers env none blockchain_status none (chain_read h) f message memory rounds
          pb_encode fuel s rest (chain_handled e) alloc opens)

  -- The answer of the chain is in blockchain_id_hash.
  check_blockchain_id_hash-answered :
      (hash : List ℕ) {h bytes : List ℕ}
      → get_or (read_chain hash s.notices) 0 0 ≡ 0
      → get_or (read_chain hash (s.notices ++ (chain_read h ∷ []))) 0 0 ≢ 0
      → env.decoder.chain_hash f ≡ (some h, true)
      → encode_empty_message pb_encode 128 ≡ some bytes
      → check_blockchain_id_hash env pb_encode
          (suc (suc (suc (suc (suc fuel)))))
          hash
          (idle s)
          (message_round s.next_id f ∷ rest)
        ≡ finished (answered_with (chain_read h) s) rest (some 0) true
  unfolding check_blockchain_id_hash
  check_blockchain_id_hash-answered hash {h} zero_now set_then e b =
      let unknown : (get_or (read_chain hash s.notices) 0 0 == 0) ≡ true =
        ground (arith, zero_now) in
      let known : (get_or (read_chain hash (s.notices ++ (chain_read h ∷ []))) 0 0 == 0) ≡ false =
        ground (arith, set_then) in
      rw (unknown, aergo_get_blockchain_status-answered e b) (rw known refl)

  account_sent :
      {n : ℕ}
      → env.decoder.state_nonce f ≡ some n
      → send_grpc_request env
          (suc (suc (suc (suc (suc fuel)))))
          s.next_id
          (asking account_state)
          (new_request (asking account_state) (idle s))
          (message_round s.next_id f ∷ rest)
        ≡ finished (answered_with (account_read s.next_id n) s) rest (some 0) true
  unfolding submit
  account_sent {n} e = rw alloc at (
      submit-answers env none account_state none (account_read s.next_id n) f message memory rounds
        pb_encode fuel s rest (account_handled e) alloc opens)

  request_state-answered :
      (source : KeySource) (error : Option (List ℕ)) (w : Wallet) {n : ℕ} {bytes : List ℕ}
      → env.decoder.state_nonce f ≡ some n
      → encode_account_key pb_encode 128 w.account.pubkey ≡ some bytes
      → request_state env pb_encode
          (suc (suc (suc (suc (suc fuel)))))
          source
          error
          w
          (idle s)
          (message_round s.next_id f ∷ rest)
        ≡ done (record {
          wallet = with_nonce source n w;
          finished = record {
            state = answered_with (account_read s.next_id n) s;
            schedule = rest;
            value = some 0;
            success = true;
          };
          error = error;
        })
  unfolding request_state sync_request update_wallet
  request_state-answered source error w {n} e b =
      rw (b, request_state)
        (rw (alloc, account_sent e)
          (rw (read_nonce-append s.next_id n s.notices none, update_wallet) refl))

  -- The answer for the account is in the account.
  aergo_get_account_state-answered :
      (source : KeySource) (w : Wallet) {n : ℕ} {bytes : List ℕ}
      → get_or w.account.pubkey 0 0 ≢ 0
      → env.decoder.state_nonce f ≡ some n
      → encode_account_key pb_encode 128 w.account.pubkey ≡ some bytes
      → aergo_get_account_state env pb_encode
          (suc (suc (suc (suc (suc fuel)))))
          source
          w
          (idle s)
          (message_round s.next_id f ∷ rest)
        ≡ done (record {
          wallet = with_nonce source n w;
          finished = record {
            state = answered_with (account_read s.next_id n) s;
            schedule = rest;
            value = some 0;
            success = true;
          };
          error = none;
        })
  unfolding aergo_get_account_state find_key
  aergo_get_account_state-answered source w {n} key e b =
      let there : (get_or w.account.pubkey 0 0 == 0) ≡ false = ground (arith, key) in
      let found : find_key source w ≡ (some w, none) = rw there refl in
      rw (found, aergo_get_account_state)
        (request_state-answered source none (record w { is_updated = false }) e b)

-- An account whose state was not read.
abbrev pub stale : Wallet → Wallet
stale w = record w { is_updated = false }

ensure_state-stale :
    (env : Env) (pb_encode : ℕ → Message → Option (List ℕ)) (fuel : ℕ) (source : KeySource)
    (hash : List ℕ) (w : Wallet) (s : Instance) (schedule : List Round)
    → ensure_state env pb_encode fuel source hash (stale w) s schedule
      ≡ aergo_get_account_state env pb_encode fuel source (stale w) s schedule
unfolding ensure_state
ensure_state-stale env pb_encode fuel source hash w s schedule = refl

-- The request of a transfer with a callback.
abbrev pub async_transfer : Request
async_transfer = commit_request transfer true false

commit-async :
    (env : Env) (pb_encode : ℕ → Message → Option (List ℕ)) (fuel : ℕ) (source : KeySource)
    (hash : List ℕ) (w : Wallet) (s : Instance) (schedule : List Round) (bytes txn_hash : List ℕ)
    (account : Account)
    → env.can_alloc s.next_id ≡ true
    → env.can_open s.next_id ≡ true
    → commit env pb_encode
        (suc fuel)
        source
        hash
        transfer
        true
        false
        w
        (account, encoded bytes txn_hash)
        s
        schedule
      ≡ done (record {
        wallet = record w { account = account };
        finished = record {
          state = start_transfer (new_request async_transfer s);
          schedule = schedule;
          value = none;
          success = true;
        };
        failed = false;
      })
unfolding commit submit request_of
commit-async env pb_encode fuel source hash w s schedule bytes txn_hash account alloc opens =
    rw (alloc, commit)
      (rw
        (send-async env pb_encode fuel s.next_id async_transfer (new_request async_transfer s)
          schedule opens refl)
        refl)

-- After the chain and the account have answered.
abbrev pub informed : List ℕ → ℕ → Instance → Instance
informed h n s = answered_with (account_read (s.next_id + 1) n) (answered_with (chain_read h) s)

-- A transfer with a callback, of an amount that is not empty, from an account whose state was not
-- read and whose public key starts with a byte that is not zero, on an instance with no request and
-- no transfer, with the hash of the chain not known, where malloc gives every block and each
-- request can be made: if the next round brings the hash of the chain, its first byte not zero, and
-- the one after it the nonce of the account, and the transaction with them can be encoded, then
-- with fuel 5 or more the call returns true; the account is the one that the encoder leaves, and is
-- updated, and the only request left is that of the transfer, with its callback.
pub aergo_transfer_bignum_async-starts :
    (env : Env) (memory : (n : ℕ) → env.malloc n ≡ true) (rounds : 1 < env.rounds)
    (pb_encode : ℕ → Message → Option (List ℕ)) (fuel : ℕ) (s : Instance) (rest : List Round)
    (alloc : (id : ℕ) → env.can_alloc id ≡ true) (opens : (id : ℕ) → env.can_open id ≡ true)
    (f1 f2 : List ℕ) (source : KeySource) (hash : List ℕ) (crypto : Crypto) (junk : Ctx)
    (w : Wallet) (to_account amount : List ℕ) (b n : ℕ)
    {h status_bytes key_bytes bytes txn_hash : List ℕ} {account' : Account}
    → IsMessage f1
    → IsMessage f2
    → get_or w.account.pubkey 0 0 ≢ 0
    → get_or (read_chain hash s.notices) 0 0 ≡ 0
    → get_or (read_chain hash (s.notices ++ (chain_read h ∷ []))) 0 0 ≢ 0
    → env.decoder.chain_hash f1 ≡ (some h, true)
    → encode_empty_message pb_encode 128 ≡ some status_bytes
    → env.decoder.state_nonce f2 ≡ some n
    → encode_account_key pb_encode 128 w.account.pubkey ≡ some key_bytes
    → encode_transfer crypto junk 1024
        (record (w.account) { nonce = n })
        (read_chain hash (informed h n s).notices)
        to_account
        (b ∷ amount)
      ≡ (account', encoded bytes txn_hash)
    → aergo_transfer_bignum_async env pb_encode
        (suc (suc (suc (suc (suc fuel)))))
        source
        hash
        crypto
        junk
        true
        (stale w)
        (some to_account)
        (some (b ∷ amount))
        (idle s)
        (message_round s.next_id f1 ∷ message_round (s.next_id + 1) f2 ∷ rest)
      ≡ done (record {
        wallet = record (with_nonce source n w) { account = account' };
        finished = record {
          state = start_transfer (new_request async_transfer (informed h n s));
          schedule = rest;
          value = none;
          success = true;
        };
        failed = false;
      })
unfolding aergo_transfer_bignum_async aergo_transfer_bignum__internal with_state
aergo_transfer_bignum_async-starts env memory rounds pb_encode fuel s rest alloc opens f1 f2 source
      hash crypto junk w to_account amount b n {h} {bytes = bytes} {txn_hash = txn_hash}
      {account' = account'} m1 m2 key zero_now set_then e1 c1 e2 c2 e3 =
    let s1 = answered_with (chain_read h) s in
    let chain =
      check_blockchain_id_hash-answered env memory rounds pb_encode fuel s
        (message_round (s.next_id + 1) f2 ∷ rest) (alloc s.next_id) (opens s.next_id) f1 m1 hash
        zero_now set_then e1 c1 in
    let state =
      aergo_get_account_state-answered env memory rounds pb_encode fuel s1 rest (alloc s1.next_id)
        (opens s1.next_id) f2 m2 source (stale w) key e2 c2 in
    let ready =
      ensure_state-stale env pb_encode (suc (suc (suc (suc (suc fuel))))) source hash w s1
        (message_round s1.next_id f2 ∷ rest)
      ∙ state in
    rw (chain, with_state)
      (rw ready (
        rw e3 (
          commit-async env pb_encode (suc (suc (suc (suc fuel)))) source hash
            (with_nonce source n w) (informed h n s) rest bytes txn_hash account' (alloc _)
            (opens _))))
