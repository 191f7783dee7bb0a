-- ===== src/Client/Transfer/Tests.antt =====
-- A transfer with a nanopb that writes three bytes, and numbers in place of those of mbedtls.
use libaergo.Base.{
  ℕ, ◌+◌, ◌*◌, ◌^◌, ◌≤◌, ◌≡◌, refl, arith, true, false, Option, none, some, List, [], ◌∷◌, length,
  replicate,
}
use libaergo.Base.Bytes.{be_value}
use libaergo.Base.Text.{codes}
use libaergo.Response.{content_size}
use libaergo.Response.Rounds.{IsMessage}
use libaergo.Sha256.{Ctx, sha256}
use libaergo.Encode.{Message, encode_empty_message, encode_account_key}
use libaergo.Engine.{Instance, new_request}
use libaergo.Engine.Handlers.{Decoder}
use libaergo.Engine.Process.{Env, done, start_transfer}
use libaergo.Engine.Process.Sync.{message_round}
use libaergo.Transaction.{
  Account, Txn, Crypto, encoded, tx_bytes, next_nonce, txn_of, encode_transfer,
}
use libaergo.Transaction.Hash.{with_sign}
use libaergo.Convert.Digits.{numbers, numbers-IsDocumented}
use libaergo.Client.Sync.{idle}
use libaergo.Client.Account.{Wallet, KeySource, read_chain}
use libaergo.Client.Transfer.{aergo_transfer_bignum_async}
use libaergo.Client.Transfer.Commit.{
  async_transfer, stale, with_nonce, informed, aergo_transfer_bignum_async-starts,
}
use libaergo.Client.Transfer.Wrappers.{aergo_transfer_int_async}
use libaergo.Client.Transfer.Amount.{aergo_transfer_int_async-bignum}

abbrev decoder : Decoder
decoder = record {
  commit_result = λ bytes. none;
  receipt_text = λ bytes. none;
  single_bytes = λ bytes. none;
  state_proof = λ bytes. none;
  block_text = λ bytes. none;
  event_text = λ bytes. none;
  chain_hash = λ bytes. (some (7 ∷ []), true);
  state_nonce = λ bytes. some 5;
  reread = λ text. text;
}

abbrev env : Env
env = record {
  decoder = decoder;
  malloc = λ n. true;
  can_alloc = λ id. true;
  can_open = λ id. true;
  rounds = 2;
}

abbrev pb : ℕ → Message → Option (List ℕ)
pb room message = some (1 ∷ [])

abbrev start : Instance
start = record { requests = []; next_id = 3; transfers = 0; notices = [] }

abbrev answer : List ℕ
answer = 0 ∷ 0 ∷ 0 ∷ 0 ∷ 1 ∷ 7 ∷ []

answer_size : content_size answer ≡ 1
unfolding content_size
answer_size = refl

answer-IsMessage : IsMessage answer
answer-IsMessage = record { sized = omega (arith, answer_size); fits = omega (arith, answer_size) }

abbrev source : KeySource
source = record {
  ledger_key = λ index. (none, []);
  secp_key = λ key. none;
  encode_address = λ key. codes "Am";
}

abbrev crypto : Crypto
crypto = record {
  pb_body = λ room b. some (1 ∷ []);
  pb_tx_list = λ room hash b. some (1 ∷ 2 ∷ 3 ∷ []);
  ledger_sign = λ bytes. some (9 ∷ []);
  ecdsa_sign = λ hash key. some (9 ∷ []);
  decode_address = λ text. some (replicate 33 5);
}

abbrev junk : Ctx
junk = record { buffer = replicate 64 7; datalen = 5; bitlen = 6; state = [] }

abbrev account : Account
account = record { use_ledger = false; privkey = 3 ∷ []; pubkey = replicate 33 2; nonce = 5 }

abbrev wallet : Wallet
wallet = record { account = account; index = 0; address = []; is_updated = true }

abbrev zeros : List ℕ
zeros = replicate 32 0

abbrev chain : List ℕ
chain = 7 ∷ replicate 31 0

abbrev hash_of : Txn → List ℕ
hash_of txn = sha256 junk (tx_bytes (with_sign (9 ∷ []) txn) true)

abbrev sent_txn : Txn
sent_txn = txn_of (next_nonce account) chain 4 (replicate 33 5) (1 ∷ []) none

abbrev frame : List ℕ
frame = 0 ∷ 0 ∷ 0 ∷ 0 ∷ 3 ∷ 1 ∷ 2 ∷ 3 ∷ []

transfer_encoded :
    encode_transfer crypto junk 1024 account
      (read_chain zeros (informed (7 ∷ []) 5 start).notices)
      (codes "Am")
      (1 ∷ [])
    ≡ (next_nonce account, encoded frame (hash_of sent_txn))
unfolding encode_transfer read_chain
transfer_encoded = refl

abbrev message_bytes : List ℕ
message_bytes = 0 ∷ 0 ∷ 0 ∷ 0 ∷ 1 ∷ 1 ∷ []

status_encoded : encode_empty_message pb 128 ≡ some message_bytes
unfolding encode_empty_message
status_encoded = refl

key_encoded : encode_account_key pb 128 (replicate 33 2) ≡ some message_bytes
unfolding encode_account_key
key_encoded = refl

aergo_transfer_bignum_async-starts_example :
    aergo_transfer_bignum_async env pb 5 source zeros crypto junk true
      (stale wallet)
      (some (codes "Am"))
      (some (1 ∷ []))
      (idle start)
      (message_round 3 answer ∷ message_round 4 answer ∷ [])
    ≡ done (record {
      wallet = record (with_nonce source 5 wallet) { account = next_nonce account };
      finished = record {
        state = start_transfer (new_request async_transfer (informed (7 ∷ []) 5 start));
        schedule = [];
        value = none;
        success = true;
      };
      failed = false;
    })
aergo_transfer_bignum_async-starts_example =
    aergo_transfer_bignum_async-starts env (λ n. refl) (omega arith) pb 0 start [] (λ id. refl)
      (λ id. refl) answer answer source zeros crypto junk wallet (codes "Am") [] 1 5
      answer-IsMessage answer-IsMessage (omega arith) (unfold read_chain in refl)
      (unfold read_chain in omega arith) refl status_encoded refl key_encoded transfer_encoded

aergo_transfer_int_async-bignum_example :
    (bytes : List ℕ) × (aergo_transfer_int_async env pb 5 source zeros crypto junk numbers true
        wallet
        (some (codes "Am"))
        2
        30
        (idle start)
        []
      ≡ aergo_transfer_bignum_async env pb 5 source zeros crypto junk true wallet
          (some (codes "Am"))
          (some bytes)
          (idle start)
          [])
    × (be_value bytes ≡ 2 * 10 ^ 18 + 30)
    × (length bytes ≤ 15)
aergo_transfer_int_async-bignum_example =
    aergo_transfer_int_async-bignum numbers numbers-IsDocumented env pb 5 source zeros crypto junk
      true wallet (some (codes "Am")) 2 30 (idle start) [] (omega arith) (omega arith)
