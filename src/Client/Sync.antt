-- ===== src/Client/Sync.antt =====
-- A synchronous request from send_grpc_request to its answer, for any handler.
use libaergo.Base.{
  ℕ, suc, ◌+◌, ◌<◌, ◌≡◌, ◌≢◌, refl, ap, sym, ◌∙◌, arith, true, false, Option, none, some, List, [],
  ◌∷◌, ◌++◌, length, inl, append-nil,
}
use libaergo.Response.{returned}
use libaergo.Response.Rounds.{IsMessage, waiting, finished}
use libaergo.Response.Delivery.{handle_all, server_response_callback-delivers}
use libaergo.Encode.{Message}
use libaergo.Engine.{
  Request, Instance, Notice, Handler, ErrorHandler, find, write, modify, first_wanting,
  release_done,
}
use libaergo.Engine.Release.{active, release_done-active}
use libaergo.Engine.Handlers.{handlers_of, process_response}
use libaergo.Engine.Process.{
  from_option, chunk, done, Env, Round, run_event, run_events, exit, process_requests,
}
use libaergo.Engine.Process.Steps.{
  run_event-chunk, wait_again-round, check_receipts-none, check_main-done,
}
use libaergo.Engine.Process.Sync.{message_round}
use libaergo.Client.{request_of, submit}

-- The request of a synchronous call.
unfoldable pub sync_request : Option ℕ → Handler → Option ErrorHandler → Request
unfolding request_of
sync_request result handler error = request_of false result handler error false

-- An instance with no request.
abbrev pub idle : Instance → Instance
idle s = record s { requests = []; transfers = 0 }

-- The instance after the request was answered, and what that wrote.
abbrev pub answered_with : Notice → Instance → Instance
answered_with note s = record s {
  requests = [];
  transfers = 0;
  next_id = s.next_id + 1;
  notices = s.notices ++ (note ∷ []);
}

-- The request is made, and its handler has written.
unfoldable pub asked : Request → Instance → Instance
asked r s = record s { requests = (s.next_id, r) ∷ []; transfers = 1; next_id = s.next_id + 1 }

unfoldable pub told : Request → Notice → Instance → Instance
unfolding asked
told r note s = record (asked r s) { notices = s.notices ++ (note ∷ []) }

module _ (env : Env) (result : Option ℕ) (handler : Handler) (error : Option ErrorHandler)
    (note : Notice) (f : List ℕ) (message : IsMessage f) (memory : (n : ℕ) → env.malloc n ≡ true)
    (rounds : 1 < env.rounds) where
  abbrev this : Request
  this = sync_request result handler error

  got : Instance → Instance
  got s = record (told this note s) {
    requests = (s.next_id, record (this) { rx = finished (this).rx true }) ∷ [];
  }

  asked-found : (s : Instance) → find s.next_id (asked this s).requests ≡ some (this)
  unfolding find asked
  asked-found s = ground arith

  answer_written :
      (s : Instance)
      → write s.next_id (λ q. record q { rx = finished (this).rx true }) (told this note s)
        ≡ some (got s)
  unfolding write find modify told asked got
  answer_written s = ground arith

  empty_or_not : (xs : List ℕ) → IsMessage xs → xs ≢ []
  empty_or_not [] m = λ e. omega (arith, m.sized)
  empty_or_not (x ∷ xs) m = λ e. cc

  -- What the handler does with the message.
  abbrev Handled : Instance → Type 0
  Handled s =
      process_response env.decoder env.malloc s.next_id (some (asked this s)) f
      ≡ (some (told this note s), true)

  run_answer :
      (s : Instance) → Handled s → run_event env (chunk s.next_id f) (asked this s) ≡ done (got s)
  unfolding waiting handle_all sync_request
  run_answer s handled =
      run_event-chunk env s.next_id (length f) f (asked this s) (told this note s) (this)
        (finished (this).rx true) (asked-found s)
        (server_response_callback-delivers (handlers_of env.decoder env.malloc s.next_id (this))
            (f ∷ []) env.rounds (this).rx (some (asked this s)) [] f [] memory (inl refl) (inl refl)
            (message, tt) (empty_or_not f message) (sym (append-nil (f ++ []) ∙ append-nil f))
            rounds
          ∙ ap (λ o. returned (finished (this).rx o.1) o.0 (length f)) handled)
      ∙ ap from_option (answer_written s)

  run_round :
      (s : Instance)
      → Handled s
      → run_events env (chunk s.next_id f ∷ []) (asked this s) ≡ done (got s)
  unfolding run_events
  run_round s handled = rw (run_answer s handled) refl

  over : Instance → Instance
  over s = record (got s) { transfers = 0 }

  none_wanting : (s : Instance) → first_wanting (over s).requests ≡ none
  unfolding first_wanting over got told asked sync_request
  none_wanting s = refl

  answered_request :
      (s : Instance)
      → find s.next_id (over s).requests ≡ some (record (this) { rx = finished (this).rx true })
  unfolding find over got
  answered_request s = ground arith

  release_got : (s : Instance) → release_done 2 (over s) ≡ some (answered_with note s)
  unfolding over got told asked active sync_request
  release_got s = release_done-active (over s) (tt, tt)

  -- From the call of send_grpc_request on.
  pub submit-answers :
      (pb_encode : ℕ → Message → Option (List ℕ)) (fuel : ℕ) (s : Instance) (rest : List Round)
      → Handled s
      → env.can_alloc s.next_id ≡ true
      → env.can_open s.next_id ≡ true
      → submit env pb_encode
          (suc (suc (suc (suc (suc fuel)))))
          this
          (idle s)
          (message_round s.next_id f ∷ rest)
        ≡ done (record {
          state = answered_with note s;
          schedule = rest;
          value = some 0;
          success = true;
        })
  unfolding submit process_requests asked exit over got told sync_request
  submit-answers pb_encode fuel s rest handled a o =
      rw (a, o)
        (wait_again-round env (suc (suc fuel)) (some s.next_id) (asked this s) (got s)
            (message_round s.next_id f) rest refl (run_round s handled) refl
          ∙ check_receipts-none env (suc fuel) (some s.next_id) (over s) rest (none_wanting s)
          ∙ check_main-done env fuel s.next_id (over s) _ rest (answered_request s) refl
          ∙ rw (release_got s) refl)
