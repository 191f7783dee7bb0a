-- ===== src/Transaction/Hash.antt =====
-- The hash and the message that the encoders of transactions give.
use libaergo.Base.{
  ◌⊎◌, ℕ, ◌+◌, ◌-◌, ◌*◌, ◌%◌, ◌^◌, ◌≤◌, ◌<◌, ◌≡◌, refl, sym, ◌∙◌, arith, Bool, true, false, Option,
  none, some, List, ◌∷◌, ◌++◌, length, ltb, Option-cases, Bool-cases, le-cases, le→ltb, lt→ltb, inl,
  inr,
}
use libaergo.Sha256.{Ctx, sha256}
use libaergo.Sha256.Stream.{digest_of}
use libaergo.Sha256.Final.{sha256-digest}
use libaergo.Response.Rounds.{IsMessage}
use libaergo.Encode.{encode_http2_data_frame}
use libaergo.Encode.Frame.{encode_http2_data_frame-IsMessage, length-encode_http2_data_frame}
use libaergo.Transaction.{
  Account, Txn, Body, Crypto, Encoded, encoded, refused, overflow, tx_bytes, calculate_tx_hash,
  transaction_body, sign_transaction, encode_transaction, sign_and_encode,
}

-- The transaction with a signature.
abbrev pub with_sign : List ℕ → Txn → Txn
with_sign sign txn = record txn { sign = sign }

-- The hash, if there is one, is that of the bytes.
pub calculate_tx_hash-digest :
    (junk : Ctx) (txn : Txn) (include_signature : Bool) {hash : List ℕ}
    → length junk.buffer ≡ 64
    → calculate_tx_hash junk txn include_signature ≡ some hash
    → hash ≡ digest_of (tx_bytes txn include_signature)
unfolding calculate_tx_hash
calculate_tx_hash-digest junk txn include_signature {hash} whole e =
    let bytes : List ℕ = tx_bytes txn include_signature in
    elim (le-cases (length bytes) 4096) [
      | inl fits ↦
          let test : ltb 4096 (length bytes) ≡ false = le→ltb 4096 (length bytes) fits in
          let same : calculate_tx_hash junk txn include_signature ≡ some (sha256 junk bytes) =
            rw (test, calculate_tx_hash) refl in
          let digest = sha256-digest junk bytes whole (omega (arith, fits)) in cc
      | inr long ↦
          let test : ltb 4096 (length bytes) ≡ true = lt→ltb 4096 (length bytes) long in
          let same : calculate_tx_hash junk txn include_signature ≡ none =
            rw (test, calculate_tx_hash) refl in
          cc
    ]

-- The signature of the device on the type and the body of the transaction, or of the private key on
-- the hash of the transaction without a signature.
abbrev pub IsSignature : Crypto → Account → Txn → List ℕ → Type 0
IsSignature crypto account txn sign =
    ((account.use_ledger ≡ true)
      × ((body : List ℕ) × (crypto.pb_body (64 * 1024 - 1) (transaction_body txn) ≡ some body)
          × (crypto.ledger_sign (txn.type % 256 ∷ body) ≡ some sign)))
    ⊎ ((account.use_ledger ≡ false)
        × (crypto.ecdsa_sign (digest_of (tx_bytes txn false)) account.privkey ≡ some sign))

-- The bytes are the frame of what nanopb writes for the transaction and the hash.
abbrev pub IsFrame : Crypto → ℕ → Txn → List ℕ → List ℕ → Type 0
IsFrame crypto size txn hash bytes =
    (body : List ℕ) × (crypto.pb_tx_list ((size + 2 ^ 64 - 5) % 2 ^ 64) hash (transaction_body txn)
      ≡ some body)
    × (bytes ≡ encode_http2_data_frame (length body) ++ body)

-- A message with a transaction that was signed: the hash is that of the transaction with its
-- signature, and the message, which fits into the buffer, carries both.
abbrev pub Sends : Crypto → Account → ℕ → Txn → List ℕ → List ℕ → Type 0
Sends crypto account size txn bytes hash =
    (sign : List ℕ) × IsSignature crypto account txn sign
    × (hash ≡ digest_of (tx_bytes (with_sign sign txn) true))
    × IsFrame crypto size (with_sign sign txn) hash bytes
    × (length bytes ≤ size)
    × IsMessage bytes

-- The part of sign_transaction behind the signature.
abbrev use_signature : (Txn → Encoded) → Txn → Option (List ℕ) → Encoded
use_signature next txn s = elim s [ none ↦ refused | some sign ↦ next (with_sign sign txn) ]

signature_used :
    (next : Txn → Encoded) (txn : Txn) (s : Option (List ℕ)) {bytes hash : List ℕ}
    → use_signature next txn s ≡ encoded bytes hash
    → (sign : List ℕ) × (s ≡ some sign) × (next (with_sign sign txn) ≡ encoded bytes hash)
signature_used next txn none e = absurd (cc)
signature_used next txn (some sign) e = (sign, refl, e)

module _ (crypto : Crypto) (junk : Ctx) (whole : length junk.buffer ≡ 64)
    (within : (room : ℕ) (hash : List ℕ) (b : Body) (bytes : List ℕ)
      → crypto.pb_tx_list room hash b ≡ some bytes
      → length bytes ≤ room) where
  encode_transaction-digest :
      (size : ℕ) (txn : Txn) {bytes hash : List ℕ}
      → 5 ≤ size
      → size < 2 ^ 31
      → encode_transaction crypto junk size txn ≡ encoded bytes hash
      → (hash ≡ digest_of (tx_bytes txn true))
        × IsFrame crypto size txn hash bytes
        × (length bytes ≤ size)
        × IsMessage bytes
  unfolding encode_transaction
  encode_transaction-digest size txn {bytes} {hash} h k e =
      let room = (size + 2 ^ 64 - 5) % 2 ^ 64 in
      elim (Option-cases (calculate_tx_hash junk txn true)) [
        | inl failed ↦
            let result : encode_transaction crypto junk size txn ≡ overflow =
              rw (failed, encode_transaction) refl in
            cc
        | inr (d, hashed) ↦ elim (Option-cases (crypto.pb_tx_list room d (transaction_body txn))) [
          | inl failed ↦
              let result : encode_transaction crypto junk size txn ≡ refused =
                rw (hashed, encode_transaction) (rw failed refl) in
              cc
          | inr (body, written) ↦
              let result : encode_transaction crypto junk size txn
                  ≡ encoded (encode_http2_data_frame (length body) ++ body) d =
                rw (hashed, encode_transaction) (rw written refl) in
              let same : encode_http2_data_frame (length body) ++ body ≡ bytes = cc in
              let same_hash : d ≡ hash = cc in
              let fit = within room d (transaction_body txn) body written in
              let long = length-encode_http2_data_frame (length body) body in
              (
                sym same_hash ∙ calculate_tx_hash-digest junk txn true whole hashed,
                (body, rw (← same_hash) written, sym same),
                rw (← same) (omega (arith, long, fit, h, k)),
                rw (← same) (encode_http2_data_frame-IsMessage body (omega (arith, fit, h, k))),
              )
        ]
      ]

  sign_transaction-signed :
      (account : Account) (txn : Txn) (next : Txn → Encoded) {bytes hash : List ℕ}
      → sign_transaction crypto junk account txn next ≡ encoded bytes hash
      → (sign : List ℕ) × IsSignature crypto account txn sign
        × (next (with_sign sign txn) ≡ encoded bytes hash)
  unfolding sign_transaction
  sign_transaction-signed account txn next {bytes} {hash} e = elim (Bool-cases account.use_ledger) [
    | inl device ↦ elim (Option-cases (crypto.pb_body (64 * 1024 - 1) (transaction_body txn))) [
      | inl failed ↦
          let result : sign_transaction crypto junk account txn next ≡ refused =
            rw (device, sign_transaction) (rw failed refl) in
          cc
      | inr (body, written) ↦
          let (sign, signed, f) =
            signature_used next txn (crypto.ledger_sign (txn.type % 256 ∷ body))
              (sym (rw (device, sign_transaction) (rw written refl)) ∙ e) in
          (sign, inl (device, (body, written, signed)), f)
    ]
    | inr no_device ↦ elim (Option-cases (calculate_tx_hash junk txn false)) [
      | inl failed ↦
          let result : sign_transaction crypto junk account txn next ≡ overflow =
            rw (no_device, sign_transaction) (rw failed refl) in
          cc
      | inr (hash', hashed) ↦
          let (sign, signed, f) =
            signature_used next txn (crypto.ecdsa_sign hash' account.privkey)
              (sym (rw (no_device, sign_transaction) (rw hashed refl)) ∙ e) in
          let same = calculate_tx_hash-digest junk txn false whole hashed in
          (sign, inr (no_device, rw (← same) signed), f)
    ]
  ]

  pub sign_and_encode-digest :
      (account : Account) (size : ℕ) (txn : Txn) {bytes hash : List ℕ}
      → 5 ≤ size
      → size < 2 ^ 31
      → sign_and_encode crypto junk account size txn ≡ encoded bytes hash
      → Sends crypto account size txn bytes hash
  unfolding sign_and_encode
  sign_and_encode-digest account size txn {bytes} {hash} h k e =
      let (sign, signed, f) =
        sign_transaction-signed account txn (encode_transaction crypto junk size) e in
      let (digest, frame, fits, message) =
        encode_transaction-digest size (with_sign sign txn) h k f in
      (sign, signed, digest, frame, fits, message)
