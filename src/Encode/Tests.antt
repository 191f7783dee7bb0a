-- ===== src/Encode/Tests.antt =====
-- Runs of the encoders, with a nanopb that writes three bytes.
use libaergo.Base.{
  ℕ, ◌≤◌, ◌≡◌, ◌≢◌, refl, arith, false, Option, none, some, List, [], ◌∷◌, ◌++◌, length, All, ltb,
  if◌then◌else◌, Bool-cases, inl, inr,
}
use libaergo.Base.Bytes.{be_value}
use libaergo.Base.Text.{codes, starts_with, has_prefix}
use libaergo.Response.{content_size}
use libaergo.Response.Rounds.{IsMessage}
use libaergo.Encode.{
  Message, query, encode_message, encode_http2_data_frame, encode_varuint64, state_key,
}
use libaergo.Encode.Frame.{content_size-encode_http2_data_frame, encode_message-fits}
use libaergo.Encode.Key.{state_key-array}
use libaergo.Encode.Varint.{IsShortest, encode_varuint64-value}

abbrev three_bytes : ℕ → Message → Option (List ℕ)
three_bytes room message = if ltb room 3 then none else some (1 ∷ 2 ∷ 3 ∷ [])

three_bytes-fit :
    (room : ℕ) (m : Message) (body : List ℕ) → three_bytes room m ≡ some body → length body ≤ room
three_bytes-fit room m body e = elim (Bool-cases (ltb room 3)) [
  | inl small ↦ let no : three_bytes room m ≡ none = rw small refl in cc
  | inr large ↦
      let three : three_bytes room m ≡ some (1 ∷ 2 ∷ 3 ∷ []) = rw large refl in
      let same : body ≡ 1 ∷ 2 ∷ 3 ∷ [] = cc in rw same (ground (arith, large))
]

abbrev a_query : Message
a_query = query (codes "Am") (codes "{}")

abbrev query_frame : List ℕ
query_frame = 0 ∷ 0 ∷ 0 ∷ 0 ∷ 3 ∷ 1 ∷ 2 ∷ 3 ∷ []

query_bytes : encode_message three_bytes 64 a_query ≡ some query_frame
unfolding encode_message
query_bytes = refl

encode_message-fits_example : (length query_frame ≤ 64) × IsMessage query_frame
encode_message-fits_example =
    encode_message-fits three_bytes three_bytes-fit 64 a_query {bytes = query_frame} (omega arith)
      (omega arith) query_bytes

content_size-encode_http2_data_frame_example :
    content_size (encode_http2_data_frame 70000 ++ (7 ∷ [])) ≡ 70000
content_size-encode_http2_data_frame_example =
    content_size-encode_http2_data_frame 70000 (7 ∷ []) (omega arith)

name_clean : All (λ x. x ≢ 91) (codes "xs")
name_clean = ((λ e. omega arith), ((λ e. omega arith), tt))

name_cooked : has_prefix (codes "xs" ++ (91 ∷ (codes "1" ++ (93 ∷ [])))) (codes "raw:") ≡ false
unfolding starts_with
name_cooked = refl

state_key-array_example :
    state_key (codes "xs" ++ (91 ∷ (codes "1" ++ (93 ∷ []))))
    ≡ codes "_sv_" ++ (codes "xs" ++ (45 ∷ codes "1"))
state_key-array_example =
    state_key-array (codes "xs") (codes "1") name_clean name_cooked (omega arith)

encode_varuint64-value_example :
    (be_value (encode_varuint64 70000) ≡ 70000) × IsShortest (encode_varuint64 70000)
encode_varuint64-value_example = encode_varuint64-value 70000 (omega arith)
