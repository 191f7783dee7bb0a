-- ===== src/Transaction/Nonce.antt =====
-- EncodeTransfer, EncodeContractCall and EncodeMultiCall: the transaction that they send, and a payload
-- that is too long.
use libaergo.Base.{
  ℕ, ◌+◌, ◌<◌, ◌≡◌, refl, arith, true, false, some, List, [], ◌∷◌, ◌++◌, length, take, replicate,
  ltb, lt→ltb, length-append, length-take,
}
use libaergo.Sha256.{Ctx}
use libaergo.Transaction.{
  Account, Txn, Crypto, overflow, tx_bytes, calculate_tx_hash, sign_transaction, sign_and_encode,
  next_nonce, txn_of, encode_multi_call, address_length,
}

module _ (crypto : Crypto) (junk : Ctx) where
  -- The length of what is hashed for a call of several contracts.
  length-tx_bytes_multi :
      (account : Account) (chain payload : List ℕ)
      → length account.pubkey ≡ 33
      → length chain ≡ 32
      → length (
          tx_bytes
            (txn_of account chain 7 (replicate address_length 0) (0 ∷ []) (some payload))
            false)
        ≡ length payload + 87
  unfolding tx_bytes
  length-tx_bytes_multi account chain payload key id =
      let last : List ℕ = take 32 chain ++ [] in
      let fields : List ℕ = 0 ∷ 0 ∷ 0 ∷ 0 ∷ 0 ∷ 0 ∷ 0 ∷ 0 ∷ 0 ∷ 7 ∷ 0 ∷ 0 ∷ 0 ∷ last in
      omega (
        arith,
        length-take 33 account.pubkey,
        length-take 32 chain,
        length-append (take 32 chain) [],
        length-append payload fields,
        length-append (take 33 account.pubkey) (0 ∷ (payload ++ fields)),
        key,
        id,
      )

  -- EncodeMultiCall for an account that is not on a device, a public key of 33 bytes and a chain id
  -- of 32, with a payload of more than 4009 bytes, writes outside of the buffer in which the hash
  -- is computed, the nonce having been counted up.
  pub encode_multi_call-overflow :
      (size : ℕ) (account : Account) (chain payload : List ℕ)
      → account.use_ledger ≡ false
      → length account.pubkey ≡ 33
      → length chain ≡ 32
      → 4009 < length payload
      → encode_multi_call crypto junk size account chain payload ≡ (next_nonce account, overflow)
  unfolding encode_multi_call sign_and_encode sign_transaction calculate_tx_hash
  encode_multi_call-overflow size account chain payload here key id long =
      let txn : Txn =
        txn_of (next_nonce account) chain 7 (replicate address_length 0) (0 ∷ []) (some payload) in
      let total = length-tx_bytes_multi (next_nonce account) chain payload key id in
      let test : ltb 4096 (length (tx_bytes txn false)) ≡ true =
        lt→ltb 4096 (length (tx_bytes txn false)) (omega (arith, total, long)) in
      rw (here, encode_multi_call, sign_and_encode, sign_transaction)
        (rw (test, calculate_tx_hash) refl)
