-- ===== src/Engine/Process/Ending.antt =====
-- The loops of aergo_process_requests__internal and of the functions it calls, by the rounds of the
-- schedule and the requests that want their receipt.
use libaergo.Base.{
  ℕ, zero, suc, ◌+◌, ◌≤◌, ◌≡◌, ◌≢◌, ◌⊎◌, inl, inr, refl, arith, true, false, Option, none, some,
  List, [], ◌∷◌, length, ltb, if◌then◌else◌,
}
use mathlib.Core.Path.{subst}
use libaergo.Engine.{Request, Instance, modify, write, new_request, first_wanting}
use libaergo.Engine.Process.{
  Env, Round, Run, Finished, finished, from_option, ◌>>=◌, receipt_request, process_requests,
  wait_again, check_receipts, get_receipt, send_grpc_request,
}
use libaergo.Engine.Process.Fresh.{Fresh, Later-self, new_request-Later}
use libaergo.Engine.Process.Settled.{
  Over, Settled, at_once, Settled-weaken, call-Settled, bind-Settled, option-Settled,
}
use libaergo.Engine.Process.Wanting.{count_wanting, wants-asked, count_wanting-first}
use libaergo.Engine.Process.Passes.{
  Calm, Ready, Left, Used, Got, Used-Left, Short, asking, write-counted, given_up-Ends,
  waiting-Settled, check_main-Settled, get_receipt-Settled, send_grpc_request-Settled,
}

module _ (env : Env) where
  module _ (n : ℕ) (short : Short env n) where
    -- What is left after a receipt was asked for: a shorter schedule, or a request less that wants
    -- its receipt.
    abbrev Fewer : ℕ → Type 0
    Fewer w =
        (main : Option ℕ) (s : Instance) (schedule : List Round)
        → length schedule ≤ n
        → count_wanting s.requests ≤ w
        → Ready env s schedule
        → Settled (Left env (length schedule)) (λ j. check_receipts env j main s schedule)

    asked-Settled :
        (w : ℕ) (fewer : Fewer w) (main : Option ℕ) (s : Instance) (schedule : List Round) (b : ℕ)
        → b ≤ n
        → (suc (length schedule) ≤ b) ⊎ ((length schedule ≤ b) × (count_wanting s.requests ≤ w))
        → Ready env s schedule
        → Settled (Left env b) (λ j. check_receipts env j main s schedule)
    asked-Settled w fewer main s schedule b le (inl l) h =
        Settled-weaken (Left env (length schedule)) (Left env b) _
          (λ f k. (k.0, omega (arith, k.1))) (short main s schedule (omega arith) h)
    asked-Settled w fewer main s schedule b le (inr (l, c)) h =
        Settled-weaken (Left env (length schedule)) (Left env b) _
          (λ f k. (k.0, omega (arith, k.1))) (fewer main s schedule (omega arith) c h)

    receipt-Settled :
        (w : ℕ) (fewer : Fewer w) (main : Option ℕ) (id : ℕ) (r : Request) (s : Instance)
        (schedule : List Round)
        → length schedule ≤ n
        → count_wanting s.requests ≤ w
        → Ready env s schedule
        → Settled (Left env (length schedule)) (λ j. do
          got ← get_receipt env j (receipt_request id r) s schedule
          s' ← from_option (
              if got.success
              then some got.state
              else write id (λ q. record q { need_receipt = false }) got.state)
          check_receipts env j main s' got.schedule)
    receipt-Settled w fewer main id r s schedule le c h =
        let b = length schedule in
        bind-Settled (Got env b (count_wanting s.requests)) (Left env b) _ _
          (get_receipt-Settled env n short id r s schedule le h)
          (λ got g.
            option-Settled
              (λ t. Fresh t × (count_wanting t.requests ≤ count_wanting got.state.requests))
              (Left env b) _ _ (given_up-Ends env id got g.0.0)
              (λ t k.
                asked-Settled w fewer main t got.schedule b le
                  (elim g.1 [ inl l ↦ inl l | inr p ↦ inr (p.0, omega (arith, p.1, k.1, c)) ])
                  (k.0, g.0.1)))

    -- The request that is asked for was one that wants its receipt.
    some-Settled :
        (w : ℕ) (fewer : (v : ℕ) → suc v ≤ w → Fewer v) (main : Option ℕ) (s : Instance)
        (schedule : List Round) (id : ℕ) (r : Request)
        → length schedule ≤ n
        → count_wanting s.requests ≤ w
        → Ready env s schedule
        → first_wanting s.requests ≡ some (id, r)
        → Settled (Left env (length schedule)) (λ j. check_receipts env j main s schedule)
    unfolding check_receipts
    some-Settled w fewer main s schedule id r le c h e =
        let b = length schedule in
        let first = count_wanting-first id (asking env) wants-asked s.requests r h.0.1 e in
        call-Settled (Left env b) _ _ (λ j. rw (e, check_receipts) refl)
          (option-Settled (λ t. Fresh t × (t.requests ≡ modify id (asking env) s.requests))
            (Left env b) _ _ (write-counted env id (asking env) s h.0)
            (λ t k.
              receipt-Settled (count_wanting t.requests)
                (fewer (count_wanting t.requests) (rw k.1 (omega (arith, first, c)))) main id r t
                schedule le (omega arith) (k.0, h.1)))

    step-Settled : (w : ℕ) → ((v : ℕ) → suc v ≤ w → Fewer v) → Fewer w
    unfolding check_receipts
    step-Settled w fewer main s schedule le c h =
        elim (first_wanting s.requests)
            as (λ o.
              first_wanting s.requests ≡ o
              → Settled (Left env (length schedule)) (λ j. check_receipts env j main s schedule)) [
                | none ↦ λ e.
                    call-Settled (Left env (length schedule)) _ _ (λ j. rw (e, check_receipts) refl)
                      (check_main-Settled env n short main s schedule le h)
                | some (id, r) ↦ λ e. some-Settled w fewer main s schedule id r le c h e
              ]
          refl

    up_to-Settled : (w v : ℕ) → v ≤ w → Fewer v
    up_to-Settled zero v lv = step-Settled v (λ u lu. absurd (omega arith))
    up_to-Settled (suc w) v lv = step-Settled v (λ u lu. up_to-Settled w u (omega arith))

  short : (n : ℕ) → Short env n
  short zero main s schedule le h = absurd (omega arith)
  short (suc n) main s schedule le h =
      up_to-Settled n (short n) (count_wanting s.requests) (count_wanting s.requests) (omega arith)
        main s schedule (omega arith) (omega arith) h

  wait_again-Settled :
      (main : Option ℕ) (s : Instance) (schedule : List Round)
      → Ready env s schedule
      → Settled (Left env (length schedule)) (λ j. wait_again env j main s schedule)
  unfolding wait_again
  wait_again-Settled main s schedule h =
      let n = length schedule in
      elim (ltb 0 s.transfers)
          as (λ b.
            ltb 0 s.transfers ≡ b → Settled (Left env n) (λ j. wait_again env j main s schedule)) [
              | false ↦ λ e.
                  call-Settled (Left env n) _ _ (λ j. rw (e, wait_again) refl)
                    (short (suc n) main s schedule (omega arith) h)
              | true ↦ λ e.
                  Settled-weaken (Used env n) (Left env n) _ (Used-Left env n)
                    (waiting-Settled env n (short n) main s schedule (omega arith) h e)
            ]
        refl

  process_requests-Settled :
      (main : Option ℕ) (s : Instance) (schedule : List Round)
      → Ready env s schedule
      → Settled (Left env (length schedule)) (λ j. process_requests env j main s schedule)
  unfolding process_requests
  process_requests-Settled main s schedule h =
      let P = Left env (length schedule) in
      elim s.requests
          as (λ l. s.requests ≡ l → Settled P (λ j. process_requests env j main s schedule)) [
            | [] ↦ λ e.
                call-Settled P _ (λ j. finished s schedule (some 0) false)
                  (λ j. rw (e, process_requests) (rw e refl)) (at_once P _ (h, omega arith))
            | r ∷ rs ↦ λ e.
                call-Settled P _ (λ j. wait_again env j main s schedule)
                  (λ j. rw (e, process_requests) (rw e refl)) (wait_again-Settled main s schedule h)
          ]
        refl

-- There is a fuel from which on the result is the same, and is neither that the fuel is out nor that a
-- callback is not at its end.
abbrev pub Ending : (ℕ → Run Finished) → Type 0
Ending run =
    (fuel : ℕ) × (result : Run Finished) × (result ≢ Run.no_fuel)
    × (result ≢ Run.unfinished)
    × ((j : ℕ) → run (fuel + j) ≡ result)

Settled-Ending : (P : Finished → Type 0) (run : ℕ → Run Finished) → Settled P run → Ending run
Settled-Ending P run h = (
  h.fuel,
  h.result,
  (λ e. subst (Over P) e h.over),
  (λ e. subst (Over P) e h.over),
  λ j. h.stable (h.fuel + j) (omega arith),
)

-- Let every request of an instance have a number of its own, below the next one, and let the
-- callbacks of each round of a schedule of libcurl come to an end in every state. For every main
-- request there is a fuel from which on the result of aergo_process_requests__internal is the same,
-- and it is neither that the fuel is out nor that a callback is not at its end: the function
-- returns, or waits for libcurl behind the end of the schedule, or makes an access to memory that
-- was freed or outside of a buffer. The same holds for send_grpc_request for a new request.
pub process_requests-ends :
    (env : Env) (main : Option ℕ) (r : Request) (s : Instance) (schedule : List Round)
    → Fresh s
    → Calm env schedule
    → Ending (λ j. process_requests env j main s schedule)
      × Ending (λ j. send_grpc_request env j s.next_id r (new_request r s) schedule)
process_requests-ends env main r s schedule h c = (
  Settled-Ending (Left env (length schedule)) _
      (process_requests-Settled env main s schedule (h, c)),
  Settled-Ending (Got env (length schedule) (count_wanting (new_request r s).requests)) _ (
      send_grpc_request-Settled env (length schedule) (short env (length schedule)) s.next_id r
        (new_request r s) schedule (omega arith) ((new_request-Later s r s (Later-self s h)).0, c)),
)
