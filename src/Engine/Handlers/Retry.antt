-- ===== src/Engine/Handlers/Retry.antt =====
-- on_failed_receipt: how often the receipt of a transaction is asked for.
use libaergo.Base.{
  inl, inr, Option, none, some, List, [], ◌∷◌, ◌++◌, leb, if◌then◌else◌, length, All, ℕ, ◌+◌, ◌<◌,
  ◌≡◌, refl, ap, ◌∙◌, arith, true, false, Bool-cases,
}
use libaergo.Base.Text.{strstr}
use libaergo.Engine.{Request, Instance, Notice, called, find, modify, write}
use libaergo.Engine.Store.{find-modify_self, modify-modify, write-find}
use libaergo.Engine.Handlers.{retry_or_give_up, report_failure, failed_receipt, tx_not_found}

-- What loc_check_receipts does to a request before it asks for its receipt.
abbrev pub asked : Request → Request
asked q = record q { processing_receipt = true }

-- A request after its receipt was not found, `n` attempts being counted now.
abbrev pub retried : ℕ → Request → Request
retried n q = record q { receipt_attempts = n; processing_receipt = false }

abbrev pub given_up : ℕ → Request → Request
given_up n q = record q { receipt_attempts = n; need_receipt = false; processing_receipt = true }

abbrev given_up_at : ℕ → Request → Request
given_up_at n q = record q { receipt_attempts = n; need_receipt = false }

abbrev pub refused : Request → Request
refused q = record q { need_receipt = false; processing_receipt = true }

abbrev done_or_none : Option Instance → Option Instance
done_or_none o = elim o [ none ↦ none | some s ↦ some s ]

-- The requests of `s` with that of number `p` changed.
abbrev pub with_parent : ℕ → (Request → Request) → Instance → Instance
with_parent p f s = record s { requests = modify p f s.requests }

-- What the callback of a request is told of a failure, behind what was told before.
abbrev pub failure : ℕ → Request → List ℕ → List Notice → List Notice
failure id r msg notices = if r.callback then notices ++ (called id false msg ∷ []) else notices

module _ (p : ℕ) (msg : List ℕ) where
  -- The receipt of request `p` is asked for and not had, once by each of the requests listed.
  pub fail_each : List (ℕ × Request) → Instance → Option Instance
  fail_each [] s = some s
  fail_each ((id, r) ∷ rs) s = elim (write p asked s) [
    | none ↦ none
    | some s' ↦ elim (failed_receipt id r s' msg) [ none ↦ none | some s'' ↦ fail_each rs s'' ]
  ]

  report_failure_lem :
      (id : ℕ) (r : Request) (s : Instance)
      → report_failure id r msg s ≡ record s { notices = failure id r msg s.notices }
  unfolding report_failure
  report_failure_lem id r s = elim (Bool-cases r.callback) [ inl e ↦ rw e refl | inr e ↦ rw e refl ]

  module _ {i : ℕ} (not_found : strstr msg tx_not_found ≡ some i) where
    -- The parent before an attempt, and the same with the flag that asks set.
    find-asked :
        (s : Instance) {q : Request}
        → find p s.requests ≡ some q
        → find p (with_parent p asked s).requests ≡ some (asked q)
    find-asked s e = find-modify_self p asked s.requests e

    retry_step :
        (id : ℕ) (r : Request) (rs : List (ℕ × Request)) (s : Instance) (q : Request)
        → r.parent ≡ some p
        → find p s.requests ≡ some q
        → q.receipt_attempts + 1 < 10
        → fail_each ((id, r) ∷ rs) s
          ≡ fail_each rs (with_parent p (retried (q.receipt_attempts + 1)) s)
    unfolding fail_each failed_receipt retry_or_give_up
    retry_step id r rs s q child e h =
        let more : leb 10 (q.receipt_attempts + 1) ≡ false = ground arith in
        rw (write-find p asked s e, fail_each)
          (rw (child, failed_receipt, find-asked s e, retry_or_give_up, not_found, more)
            (rw
              (
                write-find p (retried (q.receipt_attempts + 1)) (with_parent p asked s)
                    (find-asked s e),
                fail_each,
              )
              (ap (λ t. fail_each rs (record s { requests = t }))
                (modify-modify p _ asked s.requests))))

    last_step :
        (id : ℕ) (r : Request) (s : Instance) (q : Request)
        → r.parent ≡ some p
        → find p s.requests ≡ some q
        → q.receipt_attempts ≡ 9
        → fail_each ((id, r) ∷ []) s
          ≡ some (record (with_parent p (given_up 10) s) { notices = failure id r msg s.notices })
    unfolding fail_each failed_receipt retry_or_give_up report_failure
    last_step id r s q child e h =
        let last : leb 10 (q.receipt_attempts + 1) ≡ true = ground arith in
        let told : Instance = record (with_parent p asked s) {
          notices = failure id r msg s.notices;
        } in
        let report : report_failure id r msg (with_parent p asked s) ≡ told =
          report_failure_lem id r (with_parent p asked s) in
        rw (write-find p asked s e, fail_each)
          (rw (child, failed_receipt, find-asked s e, retry_or_give_up, not_found, last)
            (ap (λ t. done_or_none (write p (given_up_at (q.receipt_attempts + 1)) t)) report
              ∙ (ap done_or_none
                    (write-find p (given_up_at (q.receipt_attempts + 1)) told (find-asked s e))
                  ∙ ap (λ t. some (record s { requests = t; notices = failure id r msg s.notices }))
                      (modify-modify p (given_up_at (q.receipt_attempts + 1)) asked s.requests)
                  ∙ ap
                      (λ (k : ℕ). some (record (with_parent p (given_up k) s) {
                        notices = failure id r msg s.notices;
                      }))
                      {y = 10} (omega (arith, h)))))

    -- Requests for the receipt of one transaction, at least one, that fail one after the other with
    -- a message that contains "tx not found", fewer than ten attempts being counted with them: each
    -- finds its parent, the parent is left with the attempts counted, its need for a receipt
    -- unchanged and free to ask again, and neither another request is changed nor the user told.
    pub fail_each-retried :
        (c : ℕ × Request) (rs : List (ℕ × Request)) (s : Instance) (q : Request)
        → All (λ e. e.1.parent ≡ some p) (c ∷ rs)
        → find p s.requests ≡ some q
        → q.receipt_attempts + length (c ∷ rs) < 10
        → fail_each (c ∷ rs) s
          ≡ some (with_parent p (retried (q.receipt_attempts + length (c ∷ rs))) s)
    fail_each-retried (id, r) [] s q (child, _) e h =
        retry_step id r [] s q child e (omega arith) ∙ unfold fail_each in refl
    fail_each-retried (id, r) (c ∷ rs) s q (child, hs) e h =
        let n = q.receipt_attempts + 1 in
        let s' : Instance = with_parent p (retried n) s in
        retry_step id r (c ∷ rs) s q child e (omega arith)
        ∙ fail_each-retried c rs s' (retried n q) hs (find-modify_self p (retried n) s.requests e)
            (omega arith)
        ∙ ap (λ t. some (record s { requests = t })) (modify-modify p _ (retried n) s.requests)
        ∙ ap (λ (k : ℕ). some (with_parent p (retried k) s)) (omega arith)

    -- If requests for the receipt of one transaction fail one after the other with a message that
    -- contains "tx not found" until nine attempts are counted, and then one more fails so, the
    -- parent needs no receipt any more, ten attempts are counted, and this last failure, and no
    -- other, is told to the callback if there is one.
    pub fail_each-gives_up :
        (rs : List (ℕ × Request)) (id : ℕ) (r : Request) (s : Instance) (q : Request)
        → All (λ e. e.1.parent ≡ some p) rs
        → r.parent ≡ some p
        → find p s.requests ≡ some q
        → q.receipt_attempts + length rs ≡ 9
        → fail_each (rs ++ ((id, r) ∷ [])) s
          ≡ some (record (with_parent p (given_up 10) s) { notices = failure id r msg s.notices })
    fail_each-gives_up [] id r s q hs child e h = last_step id r s q child e (omega arith)
    fail_each-gives_up ((k, c) ∷ rs) id r s q (hc, hs) child e h =
        let n = q.receipt_attempts + 1 in
        let s' : Instance = with_parent p (retried n) s in
        retry_step k c (rs ++ ((id, r) ∷ [])) s q hc e (omega arith)
        ∙ fail_each-gives_up rs id r s' (retried n q) hs child
            (find-modify_self p (retried n) s.requests e) (omega arith)
        ∙ ap (λ t. some (record s { requests = t; notices = failure id r msg s.notices }))
            (modify-modify p (given_up 10) (retried n) s.requests)

  -- If a request for the receipt of a transaction fails with a message that does not contain "tx
  -- not found", its parent, whatever was tried before, needs no receipt any more with no attempt
  -- counted, and the failure is told to the callback if there is one.
  pub fail_each-other_error :
      (id : ℕ) (r : Request) (s : Instance) (q : Request)
      → strstr msg tx_not_found ≡ none
      → r.parent ≡ some p
      → find p s.requests ≡ some q
      → fail_each ((id, r) ∷ []) s
        ≡ some (record (with_parent p refused s) { notices = failure id r msg s.notices })
  unfolding fail_each failed_receipt retry_or_give_up
  fail_each-other_error id r s q other child e =
      let told : Instance = record (with_parent p asked s) {
        notices = failure id r msg s.notices;
      } in
      let here = find-modify_self p asked s.requests e in
      let report : report_failure id r msg (with_parent p asked s) ≡ told =
        report_failure_lem id r (with_parent p asked s) in
      rw (write-find p asked s e, fail_each)
        (rw (child, failed_receipt, here, retry_or_give_up, other)
          (ap (λ t. done_or_none (write p (λ o. record o { need_receipt = false }) t)) report
            ∙ (ap done_or_none (write-find p (λ o. record o { need_receipt = false }) told here)
                ∙ ap (λ t. some (record s { requests = t; notices = failure id r msg s.notices }))
                    (modify-modify p (λ o. record o { need_receipt = false }) asked s.requests))))
