-- ===== src/Transaction.antt =====
-- aergo.c, the transactions: struct txn, its hash, its signature and its encoding, and EncodeTransfer,
-- EncodeContractCall and EncodeMultiCall, which fill it.
pub mod Hash
pub mod Nonce
mod Tests
use libaergo.Base.{
  ℕ, zero, suc, ◌+◌, ◌-◌, ◌*◌, ◌%◌, ◌^◌, Bool, true, false, Option, none, some, List, [], ◌∷◌, ◌++◌,
  length, take, get_or, replicate, ltb, ◌==◌, if◌then◌else◌,
}
use libaergo.Endianess.{le_bytes}
use libaergo.Sha256.{Ctx, sha256}
use libaergo.Encode.{encode_http2_data_frame, encode_varuint64}

-- The parts of aergo_account that the encoders use.
pub record Account : Type 0 where
  pub use_ledger : Bool
  pub privkey : List ℕ
  pub pubkey : List ℕ
  pub nonce : ℕ

-- `payload` is none for NULL; a payload is a C string without its terminator. `sign` are the sig_len
-- bytes of the signature.
pub record Txn : Type 0 where
  pub nonce : ℕ
  pub account : List ℕ
  pub recipient : List ℕ
  pub amount : List ℕ
  pub payload : Option (List ℕ)
  pub gas_limit : ℕ
  pub gas_price : ℕ
  pub type : ℕ
  pub chain_id_hash : List ℕ
  pub sign : List ℕ

abbrev pub address_length : ℕ
address_length = 33

-- encode_bigint, which writes the lowest byte only.
abbrev pub encode_bigint : ℕ → List ℕ
encode_bigint value = value % 256 ∷ []

-- An address is there if its first byte is not zero.
abbrev pub recipient_of : Txn → List ℕ
recipient_of txn = if get_or txn.recipient 0 0 == 0 then [] else take address_length txn.recipient

abbrev payload_of : Option (List ℕ) → List ℕ
payload_of none = []
payload_of (some payload) = payload

-- What calculate_tx_hash writes to its buffer.
unfoldable pub tx_bytes : Txn → Bool → List ℕ
unfolding le_bytes
tx_bytes txn include_signature =
    le_bytes 8 txn.nonce
    ++ (take address_length txn.account
        ++ (recipient_of txn
            ++ (txn.amount
                ++ (payload_of txn.payload
                    ++ (le_bytes 8 txn.gas_limit
                        ++ (encode_bigint txn.gas_price
                            ++ (le_bytes 4 txn.type
                                ++ (take 32 txn.chain_id_hash
                                    ++ (if include_signature then txn.sign else [])))))))))

-- `none` where the bytes do not fit into the buffer of 4096. The memory of the hash function holds
-- `junk`.
unfoldable pub calculate_tx_hash : Ctx → Txn → Bool → Option (List ℕ)
unfolding tx_bytes
calculate_tx_hash junk txn include_signature =
    let bytes : List ℕ = tx_bytes txn include_signature in
    if ltb 4096 (length bytes) then none else some (sha256 junk bytes)

-- The fields that encode_transaction_body hands to nanopb.
pub record Body : Type 0 where
  pub type : ℕ
  pub nonce : ℕ
  pub account : List ℕ
  pub recipient : List ℕ
  pub payload : Option (List ℕ)
  pub amount : List ℕ
  pub gas_limit : ℕ
  pub gas_price : List ℕ
  pub chain_id_hash : List ℕ
  pub sign : List ℕ

unfoldable pub transaction_body : Txn → Body
unfolding encode_varuint64
transaction_body txn = record {
  type = txn.type;
  nonce = txn.nonce;
  account = take address_length txn.account;
  recipient = recipient_of txn;
  payload = txn.payload;
  amount = txn.amount;
  gas_limit = txn.gas_limit;
  gas_price = encode_varuint64 txn.gas_price;
  chain_id_hash = take 32 txn.chain_id_hash;
  sign = txn.sign;
}

-- nanopb, given the room that there is, on the body of a transaction and on a list of one transaction
-- with its hash; the signature by the device, and that of secp256k1 on a hash with a private key, in
-- DER; decode_address, which writes an address only where it succeeds.
pub record Crypto : Type 0 where
  pub pb_body : ℕ → Body → Option (List ℕ)
  pub pb_tx_list : ℕ → List ℕ → Body → Option (List ℕ)
  pub ledger_sign : List ℕ → Option (List ℕ)
  pub ecdsa_sign : List ℕ → List ℕ → Option (List ℕ)
  pub decode_address : List ℕ → Option (List ℕ)

-- A result of an encoder: the bytes in the buffer and the hash of the transaction; the value false,
-- the text of the error dropped; or a write outside of the buffer of the hash.
pub data Encoded : Type 0 where
  encoded : List ℕ → List ℕ → Encoded
  refused : Encoded
  overflow : Encoded

-- account->nonce++
abbrev pub next_nonce : Account → Account
next_nonce account = record account { nonce = (account.nonce + 1) % 2 ^ 64 }

-- The fields that the three encoders fill in the same way.
abbrev pub txn_of : Account → List ℕ → ℕ → List ℕ → List ℕ → Option (List ℕ) → Txn
txn_of account chain type recipient amount payload = record {
  nonce = account.nonce;
  account = account.pubkey;
  recipient = recipient;
  amount = amount;
  payload = payload;
  gas_limit = 0;
  gas_price = 0;
  type = type;
  chain_id_hash = chain;
  sign = [];
}

module _ (crypto : Crypto) (junk : Ctx) where
  open crypto use {pb_body, pb_tx_list, ledger_sign, ecdsa_sign, decode_address}

  -- sign_transaction, and then `next` on the transaction that was signed.
  unfoldable pub sign_transaction : Account → Txn → (Txn → Encoded) → Encoded
  unfolding calculate_tx_hash transaction_body
  sign_transaction account txn next =
      let signed : Option (List ℕ) → Encoded =
        λ s. elim s [ none ↦ refused | some sign ↦ next (record txn { sign = sign }) ] in
      if account.use_ledger
      then elim (pb_body (64 * 1024 - 1) (transaction_body txn)) [
        | none ↦ refused
        | some bytes ↦ signed (ledger_sign (txn.type % 256 ∷ bytes))
      ]
      else elim (calculate_tx_hash junk txn false) [
        | none ↦ overflow
        | some hash ↦ signed (ecdsa_sign hash account.privkey)
      ]

  -- encode_transaction, with encode_1_transaction, which nanopb calls.
  unfoldable pub encode_transaction : ℕ → Txn → Encoded
  unfolding calculate_tx_hash transaction_body encode_http2_data_frame
  encode_transaction size txn = elim (calculate_tx_hash junk txn true) [
    | none ↦ overflow
    | some hash ↦ elim (pb_tx_list ((size + 2 ^ 64 - 5) % 2 ^ 64) hash (transaction_body txn)) [
      | none ↦ refused
      | some body ↦ encoded (encode_http2_data_frame (length body) ++ body) hash
    ]
  ]

  unfoldable pub sign_and_encode : Account → ℕ → Txn → Encoded
  unfolding sign_transaction encode_transaction
  sign_and_encode account size txn = sign_transaction account txn (encode_transaction size)

  -- The result of decode_address is not tested: the recipient stays zero where it fails.
  abbrev pub address_or_zero : List ℕ → List ℕ
  address_or_zero text = elim (decode_address text) [
    | none ↦ replicate address_length 0
    | some address ↦ address
  ]

  -- EncodeTransfer
  unfoldable pub encode_transfer : ℕ → Account → List ℕ → List ℕ → List ℕ → Account × Encoded
  unfolding sign_and_encode
  encode_transfer size account chain recipient amount =
      let account' = next_nonce account in
      if length amount == 0 then (account, refused) else (
        account',
        sign_and_encode account' size
            (txn_of account' chain 4 (address_or_zero recipient) amount none),
      )

  -- EncodeContractCall
  unfoldable pub encode_contract_call : ℕ → Account → List ℕ → List ℕ → List ℕ → Account × Encoded
  unfolding sign_and_encode
  encode_contract_call size account chain contract_address call_info =
      let account' = next_nonce account in
      (
        account',
        sign_and_encode account' size
            (txn_of account' chain 5 (address_or_zero contract_address) (0 ∷ []) (some call_info)),
      )

  -- EncodeMultiCall
  unfoldable pub encode_multi_call : ℕ → Account → List ℕ → List ℕ → Account × Encoded
  unfolding sign_and_encode
  encode_multi_call size account chain payload =
      let account' = next_nonce account in
      (
        account',
        sign_and_encode account' size
            (txn_of account' chain 7 (replicate address_length 0) (0 ∷ []) (some payload)),
      )
