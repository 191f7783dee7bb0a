-- ===== src/Response/Failures.antt =====
-- The error paths of server_response_callback: no memory, a part that ends inside the header of a
-- message, and a size that wraps around.
use libaergo.Base.{ℕ, zero, suc, ◌+◌, ◌-◌, ◌^◌, ◌≤◌, ◌<◌, ◌≡◌, refl, true, false, List, [], ltb}
use libaergo.Base.{◌%◌, le→ltb, lt→ltb, if◌then◌else◌, length, arith, none, ◌∙◌}
use libaergo.Response.{
  Rx, Handlers, returned, fault, running, stop, again, content_size, out_of_memory,
}
use libaergo.Response.{complete, append_part, first_part, response_round, response_loop}
use libaergo.Response.{server_response_callback, process_request_error}
use libaergo.Base.Text.{codes}
use libaergo.Response.Headers.{Reported, process_request_error-Reported}
use libaergo.Response.Rounds.{HasMemory, waiting, finished}
use libaergo.Response.Delivery.{loop_again, loop_stop}

-- What the first part leaves to come.
pub first_remaining : List ℕ → ℕ
first_remaining contents =
    let size = length contents in
    let msg_size = (content_size contents + 5) % 2 ^ 32 in
    if ltb msg_size size then 0 else msg_size - size

module _ {W : Type 0} (handlers : Handlers W) where
  open handlers use {process_response, malloc}

  -- A first part of fewer than 5 bytes: the size is read from outside of it.
  pub server_response_callback_short_header :
      (fuel : ℕ) (rx : Rx) (w : W) (contents : List ℕ)
      → rx.response ≡ none
      → length contents < 5
      → server_response_callback handlers (suc fuel) rx w contents ≡ fault
  unfolding server_response_callback first_part
  server_response_callback_short_header fuel rx w contents e h = ground arith

  no_memory_round :
      (rx : Rx) (w : W) (n : ℕ) (ptr : List ℕ)
      → 5 ≤ length ptr
      → ((k : ℕ) → malloc k ≡ false)
      → let rx' : Rx = record (waiting rx []) { remaining_size = first_remaining ptr } in
        let (rx'', w') = process_request_error handlers rx' w out_of_memory in
        response_round handlers (waiting rx []) w n ptr ≡ stop (returned rx'' w' 0)
  unfolding response_round first_part first_remaining waiting
  no_memory_round rx w n ptr h none_left =
      let enough : ltb (length ptr) 5 ≡ false = le→ltb (length ptr) 5 h in
      rw (enough, none_left ((content_size ptr + 5) % 2 ^ 32)) refl

  no_memory_reported :
      (fuel : ℕ) (rx : Rx) (w : W) (contents : List ℕ)
      → 5 ≤ length contents
      → ((n : ℕ) → malloc n ≡ false)
      → let rx' : Rx = record (waiting rx []) { remaining_size = first_remaining contents } in
        let (rx'', w') = process_request_error handlers rx' w out_of_memory in
        server_response_callback handlers (suc fuel) (waiting rx []) w contents ≡ returned rx'' w' 0
  unfolding server_response_callback
  no_memory_reported fuel rx w contents h none_left =
      loop_stop handlers fuel (waiting rx []) w (length contents) contents
        (no_memory_round rx w (length contents) contents h none_left)

  -- Where malloc gives no block, nothing of a message was received and the request has no error
  -- text: on a first part of at least 5 bytes the callback returns 0, which ends the transfer. The
  -- request is processed, with "out of memory" as its error; the handler of errors, if there is
  -- one, gets that text, and its value is the new success of the request, which else is kept; what
  -- is to come of the message is counted, and no other field is changed.
  pub server_response_callback_no_memory :
      (fuel : ℕ) (rx : Rx) (w : W) (contents : List ℕ)
      → rx.error_msg ≡ none
      → 5 ≤ length contents
      → ((n : ℕ) → malloc n ≡ false)
      → (rx' : Rx) × (w' : W) × (server_response_callback handlers
            (suc fuel)
            (waiting rx [])
            w
            contents
          ≡ returned rx' w' 0)
        × Reported handlers.process_error
            (record (waiting rx []) { remaining_size = first_remaining contents })
            w
            (codes "out of memory")
            (rx', w')
  unfolding waiting
  server_response_callback_no_memory fuel rx w contents e h none_left =
      let start : Rx = record (waiting rx []) { remaining_size = first_remaining contents } in
      let (rx', w') = process_request_error handlers start w out_of_memory in
      (
        rx',
        w',
        no_memory_reported fuel rx w contents h none_left,
        process_request_error-Reported handlers start w out_of_memory e,
      )

  -- A header with the size 2 ^ 32 - 5: the sum with the 5 bytes of the header wraps around to 0, and
  -- the callback takes nothing of the part, in every round anew.
  wrapped_round :
      (rx : Rx) (w : W) (n : ℕ) (ptr : List ℕ)
      → HasMemory handlers
      → 5 ≤ length ptr
      → content_size ptr ≡ 2 ^ 32 - 5
      → let (w', b) = process_response w [] in
        response_round handlers (waiting rx []) w n ptr ≡ again (waiting (finished rx b) []) w' ptr
  unfolding response_round first_part append_part complete waiting
  wrapped_round rx w n ptr memory h e =
      let enough : ltb (length ptr) 5 ≡ false = le→ltb (length ptr) 5 h in
      let some_left : ltb 0 (length ptr) ≡ true = lt→ltb 0 (length ptr) (omega (arith, h)) in
      rw (e, enough, memory 0, some_left) (rw some_left refl)

  wrapped_loop :
      (fuel : ℕ) (rx : Rx) (w : W) (n : ℕ) (ptr : List ℕ)
      → HasMemory handlers
      → 5 ≤ length ptr
      → content_size ptr ≡ 2 ^ 32 - 5
      → response_loop handlers fuel (waiting rx []) w n ptr ≡ running
  unfolding response_loop
  wrapped_loop zero rx w n ptr memory h e = refl
  wrapped_loop (suc fuel) rx w n ptr memory h e =
      loop_again handlers fuel (waiting rx []) w n ptr (wrapped_round rx w n ptr memory h e)
      ∙ wrapped_loop fuel _ _ n ptr memory h e

  -- Where malloc gives every block and nothing of a message was received: if the first part of one,
  -- of at least 5 bytes, says the size 2 ^ 32 - 5, then the callback does not return, whatever the
  -- fuel.
  pub server_response_callback_wrapped :
      (fuel : ℕ) (rx : Rx) (w : W) (contents : List ℕ)
      → HasMemory handlers
      → 5 ≤ length contents
      → content_size contents ≡ 2 ^ 32 - 5
      → server_response_callback handlers fuel (waiting rx []) w contents ≡ running
  unfolding server_response_callback
  server_response_callback_wrapped fuel rx w contents =
      wrapped_loop fuel rx w (length contents) contents
