-- ===== src/Engine/Process/Sync.antt =====
-- A synchronous call that waits for a receipt: aergo_process_requests__internal, called again by
-- send_grpc_request for the receipt.
use libaergo.Engine.Process.{
  chunk, Round, done, fault, Env, receipt_request, run_event, run_events, exit, check_receipts,
  process_requests, from_option,
}
use libaergo.Base.{
  ℕ, suc, ◌+◌, ◌<◌, ◌≡◌, ◌≢◌, inl, refl, ap, sym, ◌∙◌, arith, true, false, none, some, List, [],
  ◌∷◌, ◌++◌, ◌==◌, if◌then◌else◌, length, append-nil,
}
use libaergo.Response.{returned}
use libaergo.Response.Rounds.{IsMessage, waiting, finished}
use libaergo.Response.Delivery.{handle_all, server_response_callback-delivers}
use libaergo.Engine.{
  Request, Instance, called, filled, find, modify, write, wants_receipt, first_wanting,
  release_done, new_request,
}
use libaergo.Engine.Release.{active, release_done-active}
use libaergo.Engine.Handlers.{handlers_of, process_response, tell}
use libaergo.Engine.Handlers.Receipt.{process_response-receipt}
use libaergo.Engine.Process.Steps.{
  run_event-chunk, check_receipts-got, check_receipts-none, get_receipt-sync, wait_again-round,
  check_main-done, check_main-freed,
}

eq_self : (n : ℕ) → (n == n) ≡ true
eq_self n = ground arith

-- A round of libcurl in which a message comes for request `k`.
abbrev pub message_round : ℕ → List ℕ → Round
message_round k f = record {
  perform_ok = true;
  events = chunk k f ∷ [];
  wait_ok = true;
  completed = 1;
}

-- The state of an instance with one request, a synchronous call for the transaction that was
-- committed.
abbrev pub waiting_main : ℕ → ℕ → Request → Instance → Instance
waiting_main id k r s = record s { requests = (id, r) ∷ []; transfers = 0; next_id = k }

module _ (env : Env) (id k : ℕ) (r : Request) (f text : List ℕ) (apart : k ≢ id)
    (message : IsMessage f) (memory : (n : ℕ) → env.malloc n ≡ true) (rounds : 1 < env.rounds)
    (decodes : env.decoder.receipt_text f ≡ some text) (sync : r.callback ≡ false)
    (target : r.return_ptr ≡ true) (waits : wants_receipt r ≡ true)
    (not_kept : r.keep_active ≡ false) (alloc : env.can_alloc k ≡ true)
    (open_ok : env.can_open k ≡ true) where
  -- The instance when the receipt is asked for, and after it came.
  asking : Instance → Instance
  asking s = record s {
    requests = (id, record r { processing_receipt = true }) ∷ (k, receipt_request id r) ∷ [];
    transfers = 1;
    next_id = k + 1;
  }

  answered : Instance → Instance
  answered s = record s {
    requests =
        (id, record r { need_receipt = false; processing_receipt = false })
        ∷ (k, record (receipt_request id r) { rx = finished (receipt_request id r).rx true })
        ∷ [];
    transfers = 1;
    next_id = k + 1;
    notices = s.notices ++ (filled k true text ∷ []);
  }

  handled : Instance → Instance
  handled s = record (answered s) {
    requests =
        (id, record r { need_receipt = false; processing_receipt = false })
        ∷ (k, receipt_request id r)
        ∷ [];
  }

  find_receipt : (s : Instance) → find k (asking s).requests ≡ some (receipt_request id r)
  unfolding find asking
  find_receipt s = ground (arith, apart)

  find_main :
      (s : Instance) → find id (asking s).requests ≡ some (record r { processing_receipt = true })
  unfolding find asking
  find_main s = ground (arith, apart)

  handle_receipt :
      (s : Instance)
      → process_response env.decoder env.malloc k (some (asking s)) f ≡ (some (handled s), true)
  handle_receipt s =
      process_response-receipt env.decoder env.malloc k id (asking s) (receipt_request id r)
        (record r { processing_receipt = true }) f (find_receipt s) refl refl (find_main s)
        (rw (sync, target) refl) decodes
      ∙ unfold handled answered asking tell modify in
        ap (λ t. (some t, true))
          (rw (eq_self id) (
            ap
              (λ b. record (handled s) {
                notices =
                    s.notices ++ ((if b then called k true text else filled k true text) ∷ []);
              })
              sync))

  write_receipt :
      (s : Instance)
      → write k (λ q. record q { rx = finished (receipt_request id r).rx true }) (handled s)
        ≡ some (answered s)
  unfolding write find modify handled answered
  write_receipt s = ground (arith, apart)

  empty_or_not : (xs : List ℕ) → IsMessage xs → xs ≢ []
  empty_or_not [] m = λ e. omega (arith, m.sized)
  empty_or_not (x ∷ xs) m = λ e. cc

  run_receipt : (s : Instance) → run_event env (chunk k f) (asking s) ≡ done (answered s)
  unfolding waiting handle_all
  run_receipt s =
      run_event-chunk env k (length f) f (asking s) (handled s) (receipt_request id r)
        (finished (receipt_request id r).rx true) (find_receipt s)
        (server_response_callback-delivers
            (handlers_of env.decoder env.malloc k (receipt_request id r)) (f ∷ []) env.rounds
            (receipt_request id r).rx (some (asking s)) [] f [] memory (inl refl) (inl refl)
            (message, tt) (empty_or_not f message) (sym (append-nil (f ++ []) ∙ append-nil f))
            rounds
          ∙ ap (λ o. returned (finished (receipt_request id r).rx o.1) o.0 (length f))
              (handle_receipt s))
      ∙ ap from_option (write_receipt s)

  released : Instance → Instance
  released s = record (answered s) { requests = []; transfers = 0 }

  over : Instance → Instance
  over s = record (answered s) { transfers = 0 }

  run_round : (s : Instance) → run_events env (chunk k f ∷ []) (asking s) ≡ done (answered s)
  unfolding run_events
  run_round s = rw (run_receipt s) refl

  none_wanting : (s : Instance) → first_wanting (over s).requests ≡ none
  unfolding first_wanting over answered
  none_wanting s = ground arith

  find_answered :
      (s : Instance)
      → find k (over s).requests
        ≡ some (record (receipt_request id r) { rx = finished (receipt_request id r).rx true })
  unfolding find over answered
  find_answered s = ground (arith, apart)

  release_both : (s : Instance) → release_done 3 (over s) ≡ some (released s)
  unfolding over answered released active
  release_both s =
      let gone : active (over s).requests ≡ [] = ground arith in
      release_done-active (over s) ((apart, tt), (tt, tt)) ∙ rw gone refl

  -- The inner call, for the receipt: it returns true, having released both requests.
  inner :
      (fuel : ℕ) (s : Instance) (rest : List Round)
      → process_requests env
          (suc (suc (suc (suc fuel))))
          (some k)
          (asking s)
          (message_round k f ∷ rest)
        ≡ done (record { state = released s; schedule = rest; value = some 0; success = true })
  unfolding process_requests asking exit over answered released
  inner fuel s rest =
      wait_again-round env (suc (suc fuel)) (some k) (asking s) (answered s) (message_round k f)
        rest refl (run_round s) refl
      ∙ check_receipts-none env (suc fuel) (some k) (over s) rest (none_wanting s)
      ∙ check_main-done env fuel k (over s) _ rest (find_answered s) refl
      ∙ rw (release_both s) refl

  first_is_main : first_wanting ((id, r) ∷ []) ≡ some (id, r)
  unfolding first_wanting
  first_is_main = ground arith

  write_asking :
      (s : Instance)
      → write id (λ q. record q { processing_receipt = true }) (waiting_main id k r s)
        ≡ some (record (waiting_main id k r s) {
          requests = (id, record r { processing_receipt = true }) ∷ [];
        })
  unfolding write find modify
  write_asking s = ground arith

  -- A synchronous call whose transaction was committed, alone in its instance, with a pointer for
  -- its receipt: if the request for the receipt can be made and the next round of libcurl brings
  -- the receipt whole, the inner call frees both requests, and the outer call reads the main
  -- request after that.
  pub check_receipts_use_after_free :
      (fuel : ℕ) (s : Instance) (rest : List Round)
      → check_receipts env
          (suc (suc (suc (suc (suc (suc (suc fuel)))))))
          (some id)
          (waiting_main id k r s)
          (message_round k f ∷ rest)
        ≡ fault
  unfolding asking released new_request first_wanting find
  check_receipts_use_after_free fuel s rest =
      check_receipts-got env _ id (some id) (waiting_main id k r s) _ r (message_round k f ∷ rest) _
        first_is_main (write_asking s)
        (get_receipt-sync env _ (receipt_request id r) _ _ alloc open_ok sync ∙ inner fuel s rest)
        refl
      ∙ check_receipts-none env _ (some id) (released s) rest refl
      ∙ check_main-freed env _ id (released s) rest refl
