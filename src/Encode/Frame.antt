-- ===== src/Encode/Frame.antt =====
-- The frames of the encoders, and how server_response_callback reads them.
use libaergo.Base.{
  ℕ, ◌+◌, ◌-◌, ◌%◌, ◌^◌, ◌≤◌, ◌<◌, ◌≡◌, refl, ap, ◌∙◌, arith, Option, none, some, List, ◌∷◌, ◌++◌,
  length, Option-cases, inl, inr,
}
use libaergo.Endianess.{le_bytes, copy_be32, copy_be32-be32, le_value-copy_be32, be_value-be32}
use libaergo.Response.{content_size}
use libaergo.Response.Rounds.{IsMessage}
use libaergo.Encode.{Message, encode_http2_data_frame, encode_message}

-- The size that server_response_callback reads in a frame of encode_http2_data_frame is the one
-- that was written, for each size below 2 ^ 32 and whatever follows.
pub content_size-encode_http2_data_frame :
    (n : ℕ) (body : List ℕ) → n < 2 ^ 32 → content_size (encode_http2_data_frame n ++ body) ≡ n
unfolding content_size encode_http2_data_frame
content_size-encode_http2_data_frame n body h =
    let same : n % 2 ^ 32 ≡ n = omega (arith, h) in
    ap content_size (
      ap (λ t. (0 ∷ copy_be32 (le_bytes 4 t)) ++ body) same
      ∙ ap (λ t. (0 ∷ t) ++ body) (copy_be32-be32 n h))
    ∙ le_value-copy_be32 _ _ _ _
    ∙ be_value-be32 n h

-- A frame and its content.
pub encode_http2_data_frame-IsMessage :
    (body : List ℕ)
    → length body + 5 < 2 ^ 31
    → IsMessage (encode_http2_data_frame (length body) ++ body)
unfolding encode_http2_data_frame copy_be32
encode_http2_data_frame-IsMessage body h =
    let size = content_size-encode_http2_data_frame (length body) body (omega (arith, h)) in
    record { sized = omega (arith, size); fits = omega (arith, size, h) }

pub length-encode_http2_data_frame :
    (n : ℕ) (body : List ℕ) → length (encode_http2_data_frame n ++ body) ≡ length body + 5
unfolding encode_http2_data_frame copy_be32
length-encode_http2_data_frame n body = omega arith

module _ (pb_encode : ℕ → Message → Option (List ℕ))
    (within : (room : ℕ) (m : Message) (body : List ℕ)
      → pb_encode room m ≡ some body
      → length body ≤ room) where
  -- What the encoders of messages write, for a buffer of 5 to 2 ^ 31 - 1 bytes and where nanopb
  -- writes no more than the room it is given, fits into the buffer and is a whole message for
  -- server_response_callback.
  pub encode_message-fits :
      (size : ℕ) (m : Message) {bytes : List ℕ}
      → 5 ≤ size
      → size < 2 ^ 31
      → encode_message pb_encode size m ≡ some bytes
      → (length bytes ≤ size) × IsMessage bytes
  unfolding encode_message
  encode_message-fits size m {bytes} h k e =
      let room = (size + 2 ^ 64 - 5) % 2 ^ 64 in
      elim (Option-cases (pb_encode room m)) [
        | inl none_left ↦
            let failed : encode_message pb_encode size m ≡ none =
              rw (none_left, encode_message) refl in
            cc
        | inr (body, written) ↦
            let result : encode_message pb_encode size m
                ≡ some (encode_http2_data_frame (length body) ++ body) =
              rw (written, encode_message) refl in
            let same : encode_http2_data_frame (length body) ++ body ≡ bytes = cc in
            let fit = within room m body written in
            let long = length-encode_http2_data_frame (length body) body in
            (
              rw (← same) (omega (arith, long, fit, h, k)),
              rw (← same) (encode_http2_data_frame-IsMessage body (omega (arith, fit, h, k))),
            )
      ]
