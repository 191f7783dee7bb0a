-- ===== src/Client/Transfer.antt =====
-- aergo.c: the transfers and the calls of contracts, which commit a transaction. The instance and the
-- account are not NULL, and other pointers that may be are options. `hash` is what blockchain_id_hash
-- held before the notices of the instance.
pub mod Commit
pub mod Wrappers
pub mod Amount
mod Tests
use libaergo.Base.{
  ℕ, ◌+◌, ◌-◌, Bool, true, false, Option, none, some, List, [], ◌∷◌, ◌++◌, length, take, replicate,
  map, ltb, if◌then◌else◌,
}
use libaergo.Sha256.{Ctx}
use libaergo.Encode.{Message}
use libaergo.Engine.{Request, Instance, Handler, transfer, contract_call}
use libaergo.Engine.Process.{Env, Run, done, fault, Finished, Round, ◌>>=◌}
use libaergo.Transaction.{
  Account, Crypto, Encoded, encoded, refused, overflow, encode_transfer, encode_contract_call,
  encode_multi_call,
}
use libaergo.Convert.{Mpi, Converted, converted, out_of_buffer, string_to_bignum}
use libaergo.Convert.Digits.{print_number}
use libaergo.Convert.Json.{Argument, json, invalid, overrun, arguments_to_json}
use libaergo.Client.{request_of, strlen2, call_info, submit}
use libaergo.Client.Account.{
  Wallet, KeySource, Read, unsent, read_chain, check_blockchain_id_hash, aergo_get_account_state,
}

-- What a transfer or a call leaves: whether the status FAILED was written to the receipt, its text
-- left out.
pub record Committed : Type 0 where
  pub wallet : Wallet
  pub finished : Finished
  pub failed : Bool

abbrev pub not_committed : Wallet → Instance → List Round → Bool → Committed
not_committed w s schedule failed = record {
  wallet = w;
  finished = (unsent w s schedule none).finished;
  failed = failed;
}

abbrev pub committed : Wallet → Finished → Committed
committed w f = record { wallet = w; finished = f; failed = false }

-- The pointer to the receipt, which is no buffer of some size.
abbrev pub commit_request : Handler → Bool → Bool → Request
commit_request handler cb receipt =
    request_of cb (if receipt then some 0 else none) handler none false

module _ (env : Env) (pb_encode : ℕ → Message → Option (List ℕ)) (fuel : ℕ) (source : KeySource)
    (hash : List ℕ) where
  -- check if nonce was retrieved
  unfoldable pub ensure_state : Wallet → Instance → List Round → Run Read
  ensure_state w s schedule =
      if w.is_updated
      then done (record {
        wallet = w;
        finished = record { state = s; schedule = schedule; value = none; success = true };
        error = none;
      })
      else aergo_get_account_state env pb_encode fuel source w s schedule

  -- The first part of the transfers and calls, and then `next`.
  unfoldable pub with_state :
      Bool
      → Wallet
      → Instance
      → List Round
      → (Wallet → Instance → List Round → Run Committed)
      → Run Committed
  unfolding ensure_state check_blockchain_id_hash
  with_state receipt w s schedule next = do
    c ← check_blockchain_id_hash env pb_encode fuel hash s schedule
    if c.success
        then (do
          a ← ensure_state w c.state c.schedule
          if a.finished.success
              then next a.wallet a.finished.state a.finished.schedule
              else done (not_committed a.wallet a.finished.state a.finished.schedule receipt))
        else done (not_committed w c.state c.schedule false)

  -- The last part: the request for the transaction that was encoded.
  unfoldable pub commit :
      Handler → Bool → Bool → Wallet → Account × Encoded → Instance → List Round → Run Committed
  unfolding submit
  commit handler cb receipt w (account, encoded bytes txn_hash) s schedule = do
    f ← submit env pb_encode fuel (commit_request handler cb receipt) s schedule
    done (committed (record w { account = account }) f)
  commit handler cb receipt w (account, refused) s schedule =
      done (not_committed (record w { account = account }) s schedule receipt)
  commit handler cb receipt w (account, overflow) s schedule = fault

  module _ (crypto : Crypto) (junk : Ctx) where
    unfoldable pub aergo_transfer_bignum__internal :
        Bool
        → Bool
        → Wallet
        → Option (List ℕ)
        → Option (List ℕ)
        → Instance
        → List Round
        → Run Committed
    unfolding with_state commit
    aergo_transfer_bignum__internal cb receipt w (some to_account) (some (b ∷ amount)) s schedule =
        with_state receipt w s schedule (λ w' s' schedule'.
          commit transfer cb receipt w'
            (encode_transfer crypto junk 1024 w'.account (read_chain hash s'.notices) to_account
              (b ∷ amount))
            s' schedule')
    aergo_transfer_bignum__internal cb receipt w _ _ s schedule =
        done (not_committed w s schedule false)

    unfoldable pub aergo_transfer_bignum :
        Bool → Wallet → Option (List ℕ) → Option (List ℕ) → Instance → List Round → Run Committed
    unfolding aergo_transfer_bignum__internal
    aergo_transfer_bignum receipt = aergo_transfer_bignum__internal false receipt

    unfoldable pub aergo_transfer_bignum_async :
        Bool → Wallet → Option (List ℕ) → Option (List ℕ) → Instance → List Round → Run Committed
    unfolding aergo_transfer_bignum__internal
    aergo_transfer_bignum_async cb w to_account amount s schedule =
        if cb
        then aergo_transfer_bignum__internal true false w to_account amount s schedule
        else done (not_committed w s schedule false)

    unfoldable pub aergo_multicall__internal :
        Bool → Bool → Wallet → Option (List ℕ) → Instance → List Round → Run Committed
    unfolding with_state commit
    aergo_multicall__internal cb receipt w none s schedule = done (not_committed w s schedule false)
    aergo_multicall__internal cb receipt w (some payload) s schedule =
        let size = length payload + 300 in
        with_state receipt w s schedule (λ w' s' schedule'.
          if env.malloc size
          then commit contract_call cb receipt w'
              (encode_multi_call crypto junk size w'.account (read_chain hash s'.notices) payload)
              s' schedule'
          else done (not_committed w' s' schedule' false))

    unfoldable pub aergo_multicall :
        Bool → Wallet → Option (List ℕ) → Instance → List Round → Run Committed
    unfolding aergo_multicall__internal
    aergo_multicall receipt w payload s schedule =
        if receipt
        then aergo_multicall__internal false true w payload s schedule
        else done (not_committed w s schedule false)

    unfoldable pub aergo_multicall_async :
        Bool → Wallet → Option (List ℕ) → Instance → List Round → Run Committed
    unfolding aergo_multicall__internal
    aergo_multicall_async cb w payload s schedule =
        if cb
        then aergo_multicall__internal true false w payload s schedule
        else done (not_committed w s schedule false)

    unfoldable pub aergo_call_smart_contract__internal :
        Bool
        → Bool
        → Wallet
        → Option (List ℕ)
        → Option (List ℕ)
        → Option (List ℕ)
        → Instance
        → List Round
        → Run Committed
    unfolding with_state commit call_info
    aergo_call_smart_contract__internal cb receipt w (some contract_address) (some function) args s
          schedule =
        let size = length function + strlen2 args in
        with_state receipt w s schedule (λ w' s' schedule'.
          if env.malloc (size + 32)
          then if env.malloc (size + 300)
            then commit contract_call cb receipt w'
                (encode_contract_call crypto junk (size + 300) w'.account
                  (read_chain hash s'.notices) contract_address (call_info function args))
                s' schedule'
            else done (not_committed w' s' schedule' false)
          else done (not_committed w' s' schedule' false))
    aergo_call_smart_contract__internal cb receipt w _ _ args s schedule =
        done (not_committed w s schedule false)
