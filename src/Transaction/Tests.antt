-- ===== src/Transaction/Tests.antt =====
-- Transactions of a small account, with a nanopb that writes three bytes and signatures of one byte.
use libaergo.Base.{
  ℕ, ◌≡◌, refl, arith, true, false, Option, none, some, List, [], ◌∷◌, replicate, ltb,
  if◌then◌else◌, length-replicate,
}
use libaergo.Base.Text.{codes}
use libaergo.Sha256.{Ctx, sha256}
use libaergo.Transaction.{
  Account, Txn, Body, Crypto, overflow, tx_bytes, next_nonce, txn_of, encode_multi_call,
}
use libaergo.Transaction.Hash.{with_sign}
use libaergo.Transaction.Nonce.{encode_multi_call-overflow}

abbrev junk : Ctx
junk = record { buffer = replicate 64 7; datalen = 5; bitlen = 6; state = [] }

abbrev three_bytes : ℕ → List ℕ → Body → Option (List ℕ)
three_bytes room hash b = if ltb room 3 then none else some (1 ∷ 2 ∷ 3 ∷ [])

abbrev crypto : Crypto
crypto = record {
  pb_body = λ room b. some (1 ∷ []);
  pb_tx_list = three_bytes;
  ledger_sign = λ bytes. some (9 ∷ []);
  ecdsa_sign = λ hash key. some (9 ∷ []);
  decode_address = λ text. some (replicate 33 5);
}

abbrev account : Account
account = record { use_ledger = false; privkey = 3 ∷ []; pubkey = replicate 33 2; nonce = 4 }

abbrev chain : List ℕ
chain = replicate 32 8

abbrev transfer : Txn
transfer = txn_of (next_nonce account) chain 4 (replicate 33 5) (1 ∷ []) none

abbrev call : Txn
call = txn_of (next_nonce account) chain 5 (replicate 33 5) (0 ∷ []) (some (codes "{}"))

abbrev frame : List ℕ
frame = 0 ∷ 0 ∷ 0 ∷ 0 ∷ 3 ∷ 1 ∷ 2 ∷ 3 ∷ []

abbrev hash_of : Txn → List ℕ
hash_of txn = sha256 junk (tx_bytes (with_sign (9 ∷ []) txn) true)

encode_multi_call-overflow_example :
    encode_multi_call crypto junk 4400 account chain (replicate 4010 65)
    ≡ (next_nonce account, overflow)
encode_multi_call-overflow_example =
    encode_multi_call-overflow crypto junk 4400 account chain (replicate 4010 65) refl refl refl
      (omega (arith, length-replicate {A = ℕ} 4010 65))
