-- ===== src/Response/Worlds.antt =====
-- The callbacks of socket.c, over what the handlers of a request keep of the rest of the program.
use libaergo.Base.{
  ℕ, zero, suc, ◌+◌, ◌-◌, ◌%◌, ◌^◌, ◌≡◌, refl, Bool, true, false, Option, none, some, List, [], ltb,
  ◌==◌, if◌then◌else◌, length, take, drop, ◌++◌,
}
use libaergo.Response.{
  Block, Rx, Handlers, Outcome, returned, fault, running, Round, stop, again, process_request_error,
  run_process_error, out_of_memory, content_size, as_size, header_error, complete, append_part,
  first_part, next_part, response_round, response_loop, server_response_callback,
  server_header_callback,
}

module _ {W : Type 0} (P : W → Type 0) where
  abbrev pub Keeps : (W → List ℕ → W × Bool) → Type 0
  Keeps handle = (w : W) (bytes : List ℕ) → P w → P (handle w bytes).0

  abbrev pub KeepsSome : Option (W → List ℕ → W × Bool) → Type 0
  KeepsSome none = Unit {0}
  KeepsSome (some handle) = Keeps handle

  abbrev pub Kept : Outcome W → Type 0
  Kept (returned rx w n) = P w
  Kept fault = Unit {0}
  Kept running = Unit {0}

  abbrev KeptRound : Round W → Type 0
  KeptRound (stop o) = Kept o
  KeptRound (again rx w ptr) = P w

if-Kept : {A : Type 0} (Q : A → Type 0) (b : Bool) (s t : A) → Q s → Q t → Q (if b then s else t)
if-Kept Q true s t h k = h
if-Kept Q false s t h k = k

module _ {W : Type 0} (P : W → Type 0) (handlers : Handlers W)
    (response : Keeps P handlers.process_response)
    (error : KeepsSome P handlers.process_error) where
  run_process_error-Kept :
      (handle : Option (W → List ℕ → W × Bool)) (rx : Rx) (w : W) (text : List ℕ)
      → KeepsSome P handle
      → P w
      → P (run_process_error handle rx w text).1
  run_process_error-Kept none rx w text k h = h
  run_process_error-Kept (some handle) rx w text k h = k w text h

  pub process_request_error-Kept :
      (rx : Rx) (w : W) (msg : List ℕ) → P w → P (process_request_error handlers rx w msg).1
  unfolding process_request_error
  process_request_error-Kept rx w msg h =
      run_process_error-Kept handlers.process_error _ w _ error h

  complete-Kept :
      (rx : Rx) (w : W) (bytes : List ℕ) (n : ℕ) (ptr : List ℕ)
      → P w
      → KeptRound P (complete handlers rx w bytes n ptr)
  unfolding complete
  complete-Kept rx w bytes n ptr h =
      if-Kept (KeptRound P) (ltb 0 (length ptr)) _ _ (response w (take rx.received bytes) h)
        (response w (take rx.received bytes) h)

  append_part-Kept :
      (rx : Rx) (w : W) (block : Block) (n k : ℕ) (ptr : List ℕ)
      → P w
      → KeptRound P (append_part handlers rx w block n k ptr)
  unfolding append_part
  append_part-Kept rx w block n k ptr h =
      let bytes : List ℕ = take rx.response_size block.bytes ++ take k ptr in
      let rx' : Rx = record rx {
        response = some (record { capacity = block.capacity; bytes = bytes });
        response_size = (rx.response_size + k) % 2 ^ 32;
        received = (rx.received + k) % 2 ^ 32;
      } in
      if-Kept (KeptRound P) (ltb block.capacity (rx.response_size + k)) _ _ tt (
        if-Kept (KeptRound P) (rx.remaining_size == 0) _ _
          (complete-Kept rx' w bytes n (drop k ptr) h) h)

  first_part-Kept :
      (rx : Rx) (w : W) (n : ℕ) (ptr : List ℕ) → P w → KeptRound P (first_part handlers rx w n ptr)
  unfolding first_part
  first_part-Kept rx w n ptr h =
      let size = length ptr in
      let msg_size = (content_size ptr + 5) % 2 ^ 32 in
      let more = ltb msg_size size in
      let rx' : Rx = record rx { remaining_size = if more then 0 else msg_size - size } in
      if-Kept (KeptRound P) (ltb size 5) _ _ tt (
        if-Kept (KeptRound P) (handlers.malloc msg_size) _ _
          (append_part-Kept rx' w (record { capacity = msg_size; bytes = [] }) n
            (if more then msg_size else size) ptr h)
          (process_request_error-Kept rx' w out_of_memory h))

  next_part-Kept :
      (rx : Rx) (w : W) (block : Block) (n : ℕ) (ptr : List ℕ)
      → P w
      → KeptRound P (next_part handlers rx w block n ptr)
  unfolding next_part
  next_part-Kept rx w block n ptr h =
      let size = length ptr in
      let left = as_size rx.remaining_size in
      let more = ltb left size in
      append_part-Kept (record rx { remaining_size = if more then 0 else (left - size) % 2 ^ 32 }) w
        block n (if more then left else size) ptr h

  response_round-Kept :
      (rx : Rx) (w : W) (n : ℕ) (ptr : List ℕ)
      → P w
      → KeptRound P (response_round handlers rx w n ptr)
  unfolding response_round
  response_round-Kept rx w n ptr h =
      elim rx.response
          as (λ r. rx.response ≡ r → KeptRound P (response_round handlers rx w n ptr)) [
            | none ↦ λ e. rw (e, response_round) (first_part-Kept rx w n ptr h)
            | some block ↦ λ e. rw (e, response_round) (next_part-Kept rx w block n ptr h)
          ]
        refl

  response_loop-Kept :
      (fuel : ℕ) (rx : Rx) (w : W) (n : ℕ) (ptr : List ℕ)
      → P w
      → Kept P (response_loop handlers fuel rx w n ptr)
  unfolding response_loop
  response_loop-Kept zero rx w n ptr h = tt
  response_loop-Kept (suc fuel) rx w n ptr h =
      elim (response_round handlers rx w n ptr)
          as (λ r.
            KeptRound P r
            → Kept P (elim r [
              | stop o ↦ o
              | again rx' w' ptr' ↦ response_loop handlers fuel rx' w' n ptr'
            ])) [
              | stop o ↦ λ k. k
              | again rx' w' ptr' ↦ λ k. response_loop-Kept fuel rx' w' n ptr' k
            ]
        (response_round-Kept rx w n ptr h)

  pub server_response_callback-Kept :
      (fuel : ℕ) (rx : Rx) (w : W) (contents : List ℕ)
      → P w
      → Kept P (server_response_callback handlers fuel rx w contents)
  unfolding server_response_callback
  server_response_callback-Kept fuel rx w contents h =
      response_loop-Kept fuel rx w (length contents) contents h

  pub server_header_callback-Kept :
      (rx : Rx) (w : W) (buffer : List ℕ) → P w → P (server_header_callback handlers rx w buffer).1
  unfolding server_header_callback
  server_header_callback-Kept rx w buffer h =
      elim (header_error buffer)
          as (λ e. header_error buffer ≡ e → P (server_header_callback handlers rx w buffer).1) [
            | none ↦ λ e. rw (e, server_header_callback) h
            | some line ↦
                λ e. rw (e, server_header_callback) (process_request_error-Kept rx w line h)
          ]
        refl
