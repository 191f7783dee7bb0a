-- ===== src/Engine/Process/Passes.antt =====
-- The passes of the loops of aergo_process_requests__internal, for a schedule of some length.
use libaergo.Base.{
  ℕ, suc, ◌-◌, ◌≤◌, ◌<◌, ◌≡◌, ◌≢◌, All, ◌⊎◌, inl, inr, refl, arith, Bool, true, false, Option, none,
  some, List, [], ◌∷◌, length, ltb, not, ◌&&◌, if◌then◌else◌,
}
use libaergo.Engine.{
  Request, Instance, wants_receipt, modify, find, write, new_request, release_done,
}
use libaergo.Engine.Process.{
  Env, Round, Run, Finished, finished, from_option, ◌>>=◌, run_events, exit, receipt_request,
  start_transfer, process_requests, wait_again, check_receipts, check_main, get_receipt,
  send_grpc_request,
}
use libaergo.Engine.Process.Ends.{Ends, Ends-weaken, Ends-both}
use libaergo.Engine.Process.Fresh.{
  Fresh, Later, Later-self, write-Later, run_events-Later, release_done-Later, new_request-Later,
}
use libaergo.Engine.Process.Settled.{
  Settled, at_once, Settled-weaken, call-Settled, option-Settled, elim-Settled,
}
use libaergo.Engine.Process.Rounds.{events-Settled, run_events-Steps}
use libaergo.Engine.Process.Wanting.{
  count_wanting, wants-given_up, count_wanting-modify, count_wanting-append, write-requests,
}

module _ (env : Env) where
  -- In every state, the callbacks of each round come to an end.
  abbrev pub Calm : List Round → Type 0
  Calm schedule =
      All (λ round. (s : Instance) → run_events env round.events s ≢ Run.unfinished) schedule

  abbrev pub Ready : Instance → List Round → Type 0
  Ready s schedule = Fresh s × Calm schedule

  -- Where it is done, no more of the schedule is left than this; less than this; or no round was
  -- taken, and then no more requests want their receipt than this.
  abbrev pub Left : ℕ → Finished → Type 0
  Left b f = Ready f.state f.schedule × (length f.schedule ≤ b)

  abbrev pub Used : ℕ → Finished → Type 0
  Used b f = Ready f.state f.schedule × (suc (length f.schedule) ≤ b)

  abbrev pub Got : ℕ → ℕ → Finished → Type 0
  Got b w f =
      Ready f.state f.schedule
      × ((suc (length f.schedule) ≤ b)
          ⊎ ((length f.schedule ≤ b) × (count_wanting f.state.requests ≤ w)))

  pub Used-Left : (b : ℕ) (f : Finished) → Used b f → Left b f
  Used-Left b f (h, le) = (h, omega arith)

  Used-Got : (b w : ℕ) (f : Finished) → Used b f → Got b w f
  Used-Got b w f (h, le) = (h, inl le)

  pub only_Fresh : (old : Instance) (m : Run Instance) → Ends (Later old) m → Ends Fresh m
  only_Fresh old m h = Ends-weaken (Later old) Fresh m h (λ s k. k.0)

  exit-Settled :
      (s : Instance) (schedule : List Round) (success : Bool)
      → Ready s schedule
      → Settled (Left (length schedule)) (λ j. exit s schedule success)
  unfolding exit
  exit-Settled s schedule success h =
      option-Settled Fresh (Left (length schedule)) (release_done (suc (length s.requests)) s) _
        (only_Fresh s _ (release_done-Later s (suc (length s.requests)) s (Later-self s h.0)))
        (λ s' k. at_once (Left (length schedule)) _ ((k, h.1), omega arith))

  same_count :
      (s : Instance) (q : Request) (b : ℕ)
      → wants_receipt q ≡ false
      → (f : Finished) → Got b (count_wanting (new_request q s).requests) f
      → Got b (count_wanting s.requests) f
  unfolding new_request
  same_count s q b e f h = rw⁻¹ (count_wanting-append s.next_id q s.requests e) h

  pub write-counted :
      (id : ℕ) (f : Request → Request) (s : Instance)
      → Fresh s
      → Ends (λ t. Fresh t × (t.requests ≡ modify id f s.requests)) (from_option (write id f s))
  write-counted id f s h =
      Ends-both Fresh (λ t. t.requests ≡ modify id f s.requests) _
        (only_Fresh s _ (write-Later s id f s (Later-self s h))) (write-requests id f s)

  -- The request is not asked for again where that failed.
  pub given_up-Ends :
      (id : ℕ) (got : Finished)
      → Fresh got.state
      → Ends
          (λ s. Fresh s × (count_wanting s.requests ≤ count_wanting got.state.requests))
          (from_option (
            if got.success
            then some got.state
            else write id (λ q. record q { need_receipt = false }) got.state))
  given_up-Ends id got h =
      elim got.success
        as (λ b.
          Ends (λ s. Fresh s × (count_wanting s.requests ≤ count_wanting got.state.requests))
            (from_option (
              if b
              then some got.state
              else write id (λ q. record q { need_receipt = false }) got.state))) [
                | true ↦ (h, omega arith)
                | false ↦
                    Ends-weaken (λ t. Fresh t × (t.requests ≡ modify id _ got.state.requests)) _ _
                      (write-counted id _ got.state h)
                      (λ t k.
                        (k.0, rw k.1 (count_wanting-modify id _ wants-given_up got.state.requests)))
              ]

  abbrev pub asking : Request → Request
  asking q = record q { processing_receipt = true }

  -- The loop ends on each schedule shorter than this.
  abbrev pub Short : ℕ → Type 0
  Short n =
      (main : Option ℕ) (s : Instance) (schedule : List Round)
      → length schedule < n
      → Ready s schedule
      → Settled (Left (length schedule)) (λ j. check_receipts env j main s schedule)

  module _ (n : ℕ) (short : Short n) where
    round-Settled :
        (main : Option ℕ) (round : Round) (rest : List Round) (s : Instance)
        → length rest < n
        → Ready s (round ∷ rest)
        → Settled (Left (length rest)) (λ j. do
          s' ← run_events env round.events s
          elim (round.perform_ok && round.wait_ok) [
            | false ↦ finished s' rest none false
            | true ↦
                check_receipts env j main
                  (record s' { transfers = s'.transfers - round.completed })
                  rest
          ])
    round-Settled main round rest s le h =
        events-Settled Fresh (Left (length rest)) (run_events env round.events s) _
          (run_events-Steps env round.events s) (h.1.0 s)
          (only_Fresh s _ (run_events-Later s env round.events s (Later-self s h.0)))
          (λ s' k.
            elim-Settled (Left (length rest)) (round.perform_ok && round.wait_ok) _ _
              (at_once (Left (length rest)) _ ((k, h.1.1), omega arith))
              (short main (record s' { transfers = s'.transfers - round.completed }) rest le
                (k, h.1.1)))

    pub waiting-Settled :
        (main : Option ℕ) (s : Instance) (schedule : List Round)
        → length schedule ≤ n
        → Ready s schedule
        → ltb 0 s.transfers ≡ true
        → Settled (Used (length schedule)) (λ j. wait_again env j main s schedule)
    unfolding wait_again
    waiting-Settled main s [] le h e =
        call-Settled (Used 0) _ (λ j. Run.blocked) (λ j. rw (e, wait_again) refl)
          (at_once (Used 0) _ tt)
    waiting-Settled main s (round ∷ rest) le h e =
        call-Settled (Used (suc (length rest))) _ _ (λ j. rw (e, wait_again) refl)
          (Settled-weaken (Left (length rest)) (Used (suc (length rest))) _
            (λ f k. (k.0, omega (arith, k.1))) (round-Settled main round rest s (omega arith) h))

    main_found :
        (id : ℕ) (m : Request) (s : Instance) (schedule : List Round)
        → length schedule ≤ n
        → Ready s schedule
        → Settled (Left (length schedule)) (λ j. elim (m.rx.processed && not m.need_receipt) [
          | true ↦ exit s schedule m.rx.success
          | false ↦ elim (ltb 0 s.transfers) [
            | true ↦ wait_again env j (some id) s schedule
            | false ↦ exit s schedule false
          ]
        ])
    main_found id m s schedule le h =
        let P = Left (length schedule) in
        elim-Settled P (m.rx.processed && not m.need_receipt) _ _
          (elim (ltb 0 s.transfers)
              as (λ b.
                ltb 0 s.transfers ≡ b
                → Settled P (λ j. elim b [
                  | true ↦ wait_again env j (some id) s schedule
                  | false ↦ exit s schedule false
                ])) [
                  | false ↦ λ e. exit-Settled s schedule false h
                  | true ↦ λ e.
                      Settled-weaken (Used (length schedule)) P _ (Used-Left (length schedule))
                        (waiting-Settled (some id) s schedule le h e)
                ]
            refl)
          (exit-Settled s schedule m.rx.success h)

    pub check_main-Settled :
        (main : Option ℕ) (s : Instance) (schedule : List Round)
        → length schedule ≤ n
        → Ready s schedule
        → Settled (Left (length schedule)) (λ j. check_main env j main s schedule)
    unfolding check_main
    check_main-Settled none s schedule le h =
        call-Settled (Left (length schedule)) _ (λ j. exit s schedule false) (λ j. refl)
          (exit-Settled s schedule false h)
    check_main-Settled (some id) s schedule le h =
        elim (find id s.requests)
            as (λ c.
              find id s.requests ≡ c
              → Settled (Left (length schedule)) (λ j. check_main env j (some id) s schedule)) [
                | none ↦ λ e.
                    call-Settled (Left (length schedule)) _ (λ j. Run.fault)
                      (λ j. rw (e, check_main) refl) (at_once (Left (length schedule)) Run.fault tt)
                | some m ↦ λ e.
                    call-Settled (Left (length schedule)) _ _ (λ j. rw (e, check_main) refl)
                      (main_found id m s schedule le h)
              ]
          refl

    sent-Settled :
        (main : Option ℕ) (s : Instance) (schedule : List Round)
        → length schedule ≤ n
        → Ready s schedule
        → Settled
            (Got (length schedule) (count_wanting s.requests))
            (λ j. process_requests env j main (start_transfer s) schedule)
    unfolding process_requests
    sent-Settled main s schedule le h =
        elim s.requests
            as (λ l.
              s.requests ≡ l
              → Settled (Got (length schedule) (count_wanting s.requests))
                  (λ j. process_requests env j main (start_transfer s) schedule)) [
                    | [] ↦ λ e.
                        call-Settled (Got (length schedule) (count_wanting s.requests)) _
                          (λ j. finished (start_transfer s) schedule (some 0) false)
                          (λ j. rw (e, process_requests) (rw e refl))
                          (at_once (Got (length schedule) (count_wanting s.requests)) _
                            (h, inr (omega arith, omega arith)))
                    | r ∷ rs ↦ λ e.
                        call-Settled (Got (length schedule) (count_wanting s.requests)) _
                          (λ j. wait_again env j main (start_transfer s) schedule)
                          (λ j. rw (e, process_requests) (rw e refl))
                          (Settled-weaken (Used (length schedule))
                            (Got (length schedule) (count_wanting s.requests)) _
                            (Used-Got (length schedule) (count_wanting s.requests))
                            (waiting-Settled main (start_transfer s) schedule le h (ground arith)))
                  ]
          refl

    pub send_grpc_request-Settled :
        (id : ℕ) (r : Request) (s : Instance) (schedule : List Round)
        → length schedule ≤ n
        → Ready s schedule
        → Settled
            (Got (length schedule) (count_wanting s.requests))
            (λ j. send_grpc_request env j id r s schedule)
    unfolding send_grpc_request
    send_grpc_request-Settled id r s schedule le h =
        let P = Got (length schedule) (count_wanting s.requests) in
        let now = inr (omega arith, omega arith) in
        call-Settled P _ _ (λ j. refl)
          (elim-Settled P (env.can_open id) _ _ (at_once P _ (h, now)) (
            elim-Settled P r.callback _ _ (sent-Settled (some id) s schedule le h)
              (at_once P _ (h, now))))

    pub get_receipt-Settled :
        (id : ℕ) (r : Request) (s : Instance) (schedule : List Round)
        → length schedule ≤ n
        → Ready s schedule
        → Settled
            (Got (length schedule) (count_wanting s.requests))
            (λ j. get_receipt env j (receipt_request id r) s schedule)
    unfolding get_receipt
    get_receipt-Settled id r s schedule le h =
        let P = Got (length schedule) (count_wanting s.requests) in
        let q = receipt_request id r in
        call-Settled P _ _ (λ j. refl)
          (elim-Settled P (env.can_alloc s.next_id) _ _
            (at_once P _ (h, inr (omega arith, omega arith)))
            (Settled-weaken (Got (length schedule) (count_wanting (new_request q s).requests)) P _
              (same_count s q (length schedule) refl)
              (send_grpc_request-Settled s.next_id q (new_request q s) schedule le
                ((new_request-Later s q s (Later-self s h.0)).0, h.1))))
