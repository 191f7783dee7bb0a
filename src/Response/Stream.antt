-- ===== src/Response/Stream.antt =====
-- A sequence of calls of server_response_callback, as libcurl makes them for one response.
use libaergo.Base.{ℕ, ◌≤◌, ◌<◌, ◌≡◌, ◌≢◌, refl, List, [], ◌∷◌, ◌++◌, length, All, arith}
use libaergo.Base.{flatten}
use libaergo.Response.{Rx, Handlers, Outcome, returned, fault, running, server_response_callback}
use libaergo.Response.Rounds.{IsMessage, IsPending, finished, HasMemory, waiting}
use libaergo.Response.Delivery.{handle_all, server_response_callback-delivers}

-- A response cut into the parts `chunks`, when `p` was received before: each part completes some
-- messages, all of them `fs`, and leaves a pending part, the last of them `r`.
pub data Cuts : List ℕ → List (List ℕ) → List (List ℕ) → List ℕ → Type 0 where
  end : (p : List ℕ) → IsPending p → Cuts p [] [] p
  part :
      {p c r r' : List ℕ} {chunks gs : List (List ℕ)} (fs : List (List ℕ))
      → IsPending p
      → c ≢ []
      → All IsMessage fs
      → p ++ c ≡ flatten fs ++ r
      → Cuts r chunks gs r'
      → Cuts p (c ∷ chunks) (fs ++ gs) r'

Cuts-IsPending : {p r : List ℕ} {chunks fs : List (List ℕ)} → Cuts p chunks fs r → IsPending p
Cuts-IsPending (end p h) = h
Cuts-IsPending (part fs h ne hfs e rest) = h

module _ {W : Type 0} (handlers : Handlers W) where
  -- The calls, the sum of the values returned dropped: a part that is not taken whole ends them.
  pub feed : ℕ → Rx → W → List (List ℕ) → Outcome W
  feed fuel rx w [] = returned rx w 0
  feed fuel rx w (c ∷ chunks) = elim (server_response_callback handlers fuel rx w c) [
    | returned rx' w' n ↦ feed fuel rx' w' chunks
    | fault ↦ fault
    | running ↦ running
  ]

  handle_all-append :
      (rx : Rx) (w : W) (fs gs : List (List ℕ))
      → handle_all handlers rx w (fs ++ gs)
        ≡ handle_all handlers (handle_all handlers rx w fs).0 (handle_all handlers rx w fs).1 gs
  unfolding handle_all
  handle_all-append rx w [] gs = refl
  handle_all-append rx w (f ∷ fs) gs =
      handle_all-append (finished rx (handlers.process_response w f).1)
        (handlers.process_response w f).0 fs gs

  length-append_le : {A : Type 0} (xs ys : List A) → length xs ≤ length (xs ++ ys)
  length-append_le [] ys = omega arith
  length-append_le (x ∷ xs) ys = omega (arith, length-append_le xs ys)

  length-append_ge : {A : Type 0} (xs ys : List A) → length ys ≤ length (xs ++ ys)
  length-append_ge [] ys = omega arith
  length-append_ge (x ∷ xs) ys = omega (arith, length-append_ge xs ys)

  -- The calls that libcurl makes for the parts of a response, where malloc gives every block and
  -- the fuel of a call is more than there are messages: however the response is cut into parts that
  -- are not empty, each cut between messages or inside of one behind its size, the calls all
  -- return, the handler gets the messages in their order, and the request is left holding what is
  -- pending behind the last.
  pub feed-delivers :
      {p r : List ℕ} {chunks fs : List (List ℕ)} (fuel : ℕ) (rx : Rx) (w : W)
      → HasMemory handlers
      → Cuts p chunks fs r
      → length fs < fuel
      → feed fuel (waiting rx p) w chunks
        ≡ returned (waiting (handle_all handlers rx w fs).0 r) (handle_all handlers rx w fs).1 0
  unfolding feed handle_all
  feed-delivers fuel rx w memory (end p h) k = refl
  feed-delivers fuel rx w memory (part {p} {c} {r} {r'} {chunks} {gs} fs h ne hfs e rest) k =
      rw
        (
          server_response_callback-delivers handlers fs fuel rx w p c r memory h
              (Cuts-IsPending rest) hfs ne e (omega (arith, length-append_le fs gs)),
          feed,
          handle_all-append rx w fs gs,
        )
        (feed-delivers fuel (handle_all handlers rx w fs).0 (handle_all handlers rx w fs).1 memory
          rest (omega (arith, length-append_ge fs gs)))
