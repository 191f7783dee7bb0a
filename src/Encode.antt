-- ===== src/Encode.antt =====
-- aergo.c, the encoding of commands: a message is encoded by nanopb behind the five bytes of the frame
-- of encode_http2_data_frame (socket.c).
pub mod Frame
pub mod Key
mod Tests
pub mod Varint
use libaergo.Base.{
  ℕ, zero, suc, ◌+◌, ◌-◌, ◌%◌, ◌^◌, Bool, true, false, ◌&&◌, Option, none, some, List, [], ◌∷◌,
  ◌++◌, length, take, drop, set, ltb, ◌==◌, if◌then◌else◌,
}
use libaergo.Base.Text.{codes, strchr, strrchr, has_prefix}
use libaergo.Endianess.{le_bytes, copy_be32, copy_be64}
use libaergo.Sha256.{Ctx, sha256}

-- What the encoders hand to pb_encode: the fields that they set.
pub data Message : Type 0 where
  query : List ℕ → List ℕ → Message
  state_query : List ℕ → List ℕ → Message
  filter_info : List ℕ → Option (List ℕ) → Message
  single_bytes : List ℕ → Message
  fixed64 : ℕ → Message
  empty : Message

-- The bytes in front of the content, of a size that is a uint32.
unfoldable pub encode_http2_data_frame : ℕ → List ℕ
unfolding le_bytes copy_be32
encode_http2_data_frame content_size = 0 ∷ copy_be32 (le_bytes 4 (content_size % 2 ^ 32))

-- The loop of encode_varuint64, which drops the zeros in front of `len` bytes.
unfoldable pub skip_zeros : List ℕ → List ℕ
skip_zeros [] = []
skip_zeros (b ∷ []) = b ∷ []
skip_zeros (b ∷ c ∷ bytes) =
    let rest = skip_zeros (c ∷ bytes) in if b == 0 then rest else b ∷ c ∷ bytes

unfoldable pub encode_varuint64 : ℕ → List ℕ
unfolding skip_zeros le_bytes copy_be64
encode_varuint64 value = skip_zeros (copy_be64 (le_bytes 8 value))

-- Array notation: the first "[" becomes "-", and the text ends at the last "]".
unfoldable pub array_key : List ℕ → List ℕ
unfolding strchr strrchr
array_key key = elim (strchr key 91) [
  | none ↦ key
  | some i ↦
      let dashed : List ℕ = set key i 45 in
      elim (strrchr dashed 93) [ none ↦ dashed | some j ↦ take j dashed ]
]

-- The key that is hashed, in a buffer of 256 bytes.
unfoldable pub state_key : List ℕ → List ℕ
unfolding array_key
state_key var_name =
    if has_prefix var_name (codes "raw:")
    then take 255 (drop 4 var_name)
    else array_key (take 255 (codes "_sv_" ++ var_name))

-- `pb_encode` is given the room that there is, and gives the bytes written, `none` where it fails.
-- The result is what is in the buffer, its length the new *psize.
module _ (pb_encode : ℕ → Message → Option (List ℕ)) where
  unfoldable pub encode_message : ℕ → Message → Option (List ℕ)
  unfolding encode_http2_data_frame
  encode_message size message = elim (pb_encode ((size + 2 ^ 64 - 5) % 2 ^ 64) message) [
    | none ↦ none
    | some body ↦ some (encode_http2_data_frame (length body) ++ body)
  ]

  unfoldable pub encode_query : ℕ → List ℕ → List ℕ → Option (List ℕ)
  unfolding encode_message
  encode_query size contract_address query_info =
      encode_message size (query contract_address query_info)

  -- The memory of the hash function holds `junk`.
  unfoldable pub encode_state_query : Ctx → ℕ → List ℕ → List ℕ → Option (List ℕ)
  unfolding encode_message state_key
  encode_state_query junk size contract_address var_name =
      encode_message size (state_query contract_address (sha256 junk (state_key var_name)))

  unfoldable pub encode_filter_info : ℕ → List ℕ → Option (List ℕ) → Option (List ℕ)
  unfolding encode_message
  encode_filter_info size contract_address event_name =
      encode_message size (filter_info contract_address event_name)

  unfoldable pub encode_account_key : ℕ → List ℕ → Option (List ℕ)
  unfolding encode_message
  encode_account_key size pubkey = encode_message size (single_bytes (take 33 pubkey))

  unfoldable pub encode_txn_hash : ℕ → List ℕ → Option (List ℕ)
  unfolding encode_message
  encode_txn_hash size txn_hash = encode_message size (single_bytes (take 32 txn_hash))

  unfoldable pub encode_block_no : ℕ → ℕ → Option (List ℕ)
  unfolding encode_message
  encode_block_no size block_no = encode_message size (fixed64 block_no)

  unfoldable pub encode_empty_message : ℕ → Option (List ℕ)
  unfolding encode_message
  encode_empty_message size = encode_message size empty
