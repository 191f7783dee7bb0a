-- ===== src/Engine/Process/Steps.antt =====
-- One step of the engine, each as an equation: what the others rest on.
use libaergo.Engine.Process.{
  wait_again, receipt_request, Run, done, fault, send_grpc_request, run_events, Finished, Round,
  chunk, run_event, process_requests, Env, from_option, start_transfer, finished, exit,
  check_receipts, check_main, get_receipt,
}
use libaergo.Base.{
  ℕ, suc, ◌-◌, ◌≡◌, refl, ap, true, false, Option, none, some, List, ◌∷◌, ltb, not, ◌&&◌,
}
use libaergo.Response.{Rx, returned, server_response_callback}
use libaergo.Engine.{Request, Instance, find, write, first_wanting, new_request}
use libaergo.Engine.Handlers.{handlers_of}

module _ (env : Env) where
  pub run_event-chunk :
      (id n : ℕ) (contents : List ℕ) (s s' : Instance) (r : Request) (rx : Rx)
      → find id s.requests ≡ some r
      → server_response_callback
          (handlers_of env.decoder env.malloc id r)
          env.rounds
          r.rx
          (some s)
          contents
        ≡ returned rx (some s') n
      → run_event env (chunk id contents) s ≡ from_option (write id (λ q. record q { rx = rx }) s')
  unfolding run_event
  run_event-chunk id n contents s s' r rx e o = rw (e, run_event, o) refl

  -- A receipt that was asked for and came.
  pub check_receipts-got :
      (fuel id : ℕ) (main : Option ℕ) (s s' : Instance) (r : Request) (schedule : List Round)
      (got : Finished)
      → first_wanting s.requests ≡ some (id, r)
      → write id (λ q. record q { processing_receipt = true }) s ≡ some s'
      → get_receipt env fuel (receipt_request id r) s' schedule ≡ done got
      → got.success ≡ true
      → check_receipts env (suc fuel) main s schedule
        ≡ check_receipts env fuel main got.state got.schedule
  unfolding process_requests
  check_receipts-got fuel id main s s' r schedule got e w g ok =
      rw (e, check_receipts, w, g, ok) refl

  pub check_receipts-none :
      (fuel : ℕ) (main : Option ℕ) (s : Instance) (schedule : List Round)
      → first_wanting s.requests ≡ none
      → check_receipts env (suc fuel) main s schedule ≡ check_main env fuel main s schedule
  unfolding process_requests
  check_receipts-none fuel main s schedule e = rw (e, check_receipts) refl

  -- A synchronous request is sent, and waited for.
  pub get_receipt-sync :
      (fuel : ℕ) (r : Request) (s : Instance) (schedule : List Round)
      → env.can_alloc s.next_id ≡ true
      → env.can_open s.next_id ≡ true
      → r.callback ≡ false
      → get_receipt env (suc (suc fuel)) r s schedule
        ≡ process_requests env fuel (some s.next_id) (start_transfer (new_request r s)) schedule
  unfolding process_requests
  get_receipt-sync fuel r s schedule a o c =
      let sent : Instance = start_transfer (new_request r s) in
      rw (a, get_receipt, o, send_grpc_request)
        (ap
          (λ b. elim b as (λ _. Run Finished) [
            | true ↦ finished sent schedule none true
            | false ↦ process_requests env fuel (some s.next_id) sent schedule
          ])
          c)

  pub wait_again-round :
      (fuel : ℕ) (main : Option ℕ) (s s' : Instance) (round : Round) (rest : List Round)
      → ltb 0 s.transfers ≡ true
      → run_events env round.events s ≡ done s'
      → (round.perform_ok && round.wait_ok) ≡ true
      → wait_again env (suc fuel) main s (round ∷ rest)
        ≡ check_receipts env fuel main
            (record s' { transfers = s'.transfers - round.completed })
            rest
  unfolding process_requests
  wait_again-round fuel main s s' round rest t e ok = rw (t, wait_again, e, ok) refl

  pub check_main-done :
      (fuel id : ℕ) (s : Instance) (m : Request) (schedule : List Round)
      → find id s.requests ≡ some m
      → (m.rx.processed && not m.need_receipt) ≡ true
      → check_main env (suc fuel) (some id) s schedule ≡ exit s schedule m.rx.success
  unfolding process_requests
  check_main-done fuel id s m schedule e d = rw (e, check_main, d) refl

  -- The main request was freed.
  pub check_main-freed :
      (fuel id : ℕ) (s : Instance) (schedule : List Round)
      → find id s.requests ≡ none
      → check_main env (suc fuel) (some id) s schedule ≡ fault
  unfolding process_requests
  check_main-freed fuel id s schedule e = rw (e, check_main) refl
