-- ===== src/Response.antt =====
-- socket.c: the callbacks that libcurl makes for a request, server_response_callback and
-- server_header_callback, and process_request_error, which both use.
pub mod Delivery
pub mod Failures
pub mod Headers
pub mod Rounds
pub mod Stream
pub mod Worlds
mod Tests
use libaergo.Base.{ℕ, zero, suc, ◌+◌, ◌-◌, ◌%◌, ◌^◌, ◌<◌, ◌≡◌, Bool, true, false}
use libaergo.Base.{Option, none, some, List, [], ◌∷◌, ◌++◌, ltb, leb, ◌==◌, ◌&&◌, if◌then◌else◌}
use libaergo.Base.{length, take, drop}
use libaergo.Base.Text.{codes, strstr, c_string}
use libaergo.Endianess.{le_value, copy_be32}

-- A malloc'ed block: its size, and the bytes written to it so far.
pub record Block : Type 0 where
  pub capacity : ℕ
  pub bytes : List ℕ

-- The fields of `struct request` that the callbacks use. `remaining_size` is the bit pattern of
-- an int; `response` is `none` for NULL.
pub record Rx : Type 0 where
  pub response : Option Block
  pub response_size : ℕ
  pub remaining_size : ℕ
  pub received : ℕ
  pub processed : Bool
  pub success : Bool
  pub error_msg : Option (List ℕ)

-- What a request calls, over the state `W` of the rest of the program: `process_response` on
-- `received` bytes, `process_error` on the error message, where it is set; whether malloc gives a
-- block of some size; and what an earlier error text reads as, which may be a pointer into a buffer
-- of libcurl that was used again since.
pub record Handlers (W : Type 0) : Type 0 where
  pub process_response : W → List ℕ → W × Bool
  pub process_error : Option (W → List ℕ → W × Bool)
  pub malloc : ℕ → Bool
  pub reread : List ℕ → List ℕ

-- `fault` is a read or write outside a buffer, `running` that the fuel ran out.
pub data Outcome (W : Type 0) : Type 0 where
  returned : Rx → W → ℕ → Outcome W
  fault : Outcome W
  running : Outcome W

pub data Round (W : Type 0) : Type 0 where
  stop : Outcome W → Round W
  again : Rx → W → List ℕ → Round W

-- The handler's value replaces `success`, since the handler can retry the request.
abbrev run_process_error : {W : Type 0} → Option (W → List ℕ → W × Bool) → Rx → W → List ℕ → Rx × W
run_process_error none rx w text = (rx, w)
run_process_error (some handle) rx w text =
    let (w', b) = handle w text in (record rx { success = b }, w')

module _ {W : Type 0} (handlers : Handlers W) where
  open handlers use {process_error, reread}

  -- `error_msg` stays what it was if it is set already.
  pub process_request_error : Rx → W → List ℕ → Rx × W
  process_request_error rx w msg =
      let text : List ℕ = elim rx.error_msg [ none ↦ msg | some old ↦ reread old ] in
      let rx' : Rx = record rx { processed = true; error_msg = some text } in
      run_process_error process_error rx' w text

-- An int, converted to size_t.
abbrev pub as_size : ℕ → ℕ
as_size n = if ltb n (2 ^ 31) then n else n + (2 ^ 64 - 2 ^ 32)

-- The size in the first part of a message.
unfoldable pub content_size : List ℕ → ℕ
unfolding le_value copy_be32
content_size ptr = le_value (copy_be32 (take 4 (drop 1 ptr)))

abbrev pub out_of_memory : List ℕ
out_of_memory = codes "out of memory"

abbrev pub grpc_message : List ℕ
grpc_message = codes "grpc-message: "

abbrev pub crlf : List ℕ
crlf = 13 ∷ 10 ∷ []

-- The text behind "grpc-message: " on a header line, up to the end of the line. It is looked for
-- anywhere in the line, and then read from offset 14 on; the line is a C string.
unfoldable pub header_text : List ℕ → Option (List ℕ)
unfolding strstr
header_text string =
    let error_msg : List ℕ = drop 14 string in
    let line : List ℕ = elim (strstr error_msg crlf) [
      | none ↦ error_msg
      | some i ↦ take i error_msg
    ] in
    elim (strstr string grpc_message) [
      | none ↦ none
      | some _ ↦ if ltb 0 (length line) then some line else none
    ]

unfoldable pub header_error : List ℕ → Option (List ℕ)
unfolding header_text c_string
header_error buffer = header_text (c_string buffer)

module _ {W : Type 0} (handlers : Handlers W) where
  open handlers use {process_response, malloc}

  -- The whole message is there: it is parsed, and its memory released.
  pub complete : Rx → W → List ℕ → ℕ → List ℕ → Round W
  complete rx w bytes n ptr =
      let (w', b) = process_response w (take rx.received bytes) in
      let rx' : Rx = record {
        response = none;
        response_size = 0;
        remaining_size = rx.remaining_size;
        received = 0;
        processed = true;
        success = b;
        error_msg = rx.error_msg;
      } in
      if ltb 0 (length ptr) then again rx' w' ptr else stop (returned rx' w' n)

  -- From the memcpy on: `to_process` bytes of `ptr` are appended to the block.
  pub append_part : Rx → W → Block → ℕ → ℕ → List ℕ → Round W
  unfolding complete
  append_part rx w block n to_process ptr =
      let bytes : List ℕ = take rx.response_size block.bytes ++ take to_process ptr in
      let rx' : Rx = record rx {
        response = some (record { capacity = block.capacity; bytes = bytes });
        response_size = (rx.response_size + to_process) % 2 ^ 32;
        received = (rx.received + to_process) % 2 ^ 32;
      } in
      if ltb block.capacity (rx.response_size + to_process)
      then stop fault
      else (if rx.remaining_size == 0
          then complete rx' w bytes n (drop to_process ptr)
          else stop (returned rx' w n))

  -- A new message: the size on its first part, and a block for the whole of it.
  pub first_part : Rx → W → ℕ → List ℕ → Round W
  unfolding append_part process_request_error content_size
  first_part rx w n ptr =
      let size = length ptr in
      let msg_size = (content_size ptr + 5) % 2 ^ 32 in
      let more = ltb msg_size size in
      let rx' : Rx = record rx { remaining_size = if more then 0 else msg_size - size } in
      let (rx'', w') = process_request_error handlers rx' w out_of_memory in
      if ltb size 5
      then stop fault
      else (if malloc msg_size
          then append_part rx' w (record { capacity = msg_size; bytes = [] }) n
              (if more then msg_size else size) ptr
          else stop (returned rx'' w' 0))

  pub next_part : Rx → W → Block → ℕ → List ℕ → Round W
  unfolding append_part
  next_part rx w block n ptr =
      let size = length ptr in
      let left = as_size rx.remaining_size in
      let more = ltb left size in
      append_part (record rx { remaining_size = if more then 0 else (left - size) % 2 ^ 32 }) w
        block n (if more then left else size) ptr

  -- One round from `loc_again`. `size` is always the length of what `ptr` has left.
  pub response_round : Rx → W → ℕ → List ℕ → Round W
  unfolding first_part next_part
  response_round rx w n ptr = elim rx.response [
    | none ↦ first_part rx w n ptr
    | some block ↦ next_part rx w block n ptr
  ]

  pub response_loop : ℕ → Rx → W → ℕ → List ℕ → Outcome W
  response_loop zero rx w n ptr = running
  response_loop (suc fuel) rx w n ptr = elim (response_round rx w n ptr) [
    | stop o ↦ o
    | again rx' w' ptr' ↦ response_loop fuel rx' w' n ptr'
  ]

  -- Each round that goes on has taken a message of 5 bytes at least, unless the size wraps to 0.
  pub server_response_callback : ℕ → Rx → W → List ℕ → Outcome W
  unfolding response_loop response_round
  server_response_callback fuel rx w contents = response_loop fuel rx w (length contents) contents

  pub server_header_callback : Rx → W → List ℕ → Rx × W × ℕ
  unfolding header_error process_request_error
  server_header_callback rx w buffer = elim (header_error buffer) [
    | none ↦ (rx, w, length buffer)
    | some line ↦
        let (rx', w') = process_request_error handlers rx w line in (rx', w', length buffer)
  ]
