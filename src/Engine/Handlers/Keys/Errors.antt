-- ===== src/Engine/Handlers/Keys/Errors.antt =====
-- The numbers of the requests in the handlers of errors.
use libaergo.Base.{
  ℕ, ◌+◌, ◌≡◌, refl, Bool, false, Option, none, some, List, ltb, leb, if◌then◌else◌, take, length,
  ◌-◌,
}
use libaergo.Base.Text.{strstr}
use libaergo.Response.Worlds.{Keeps, KeepsSome}
use libaergo.Engine.{
  Request, ErrorHandler, Instance, find, notify, called, on_failed_receipt, handle_query_error,
}
use libaergo.Engine.Handlers.{
  tx_not_found, report_failure, retry_or_give_up, failed_receipt, query_error, error_of,
  process_error, error_handler,
}
use libaergo.Engine.Handlers.Keys.{Same, write-Same, if-some, if-option}

module _ (ks : List ℕ) (n : ℕ) where
  module _ (id : ℕ) where
    report_failure-Same :
        (r : Request) (msg : List ℕ) (s : Instance)
        → Same ks n (some s)
        → Same ks n (some (report_failure id r msg s))
    unfolding report_failure
    report_failure-Same r msg s h = if-some ks n r.callback (notify (called id false msg) s) s h h

    retry-Same :
        (p : ℕ) (parent r : Request) (msg : List ℕ) (s : Instance)
        → Same ks n (some s)
        → Same ks n (retry_or_give_up id p parent r msg s)
    unfolding retry_or_give_up
    retry-Same p parent r msg s h =
        let failed = report_failure id r msg s in
        let told = report_failure-Same r msg s h in
        elim (strstr msg tx_not_found)
            as (λ c.
              strstr msg tx_not_found ≡ c → Same ks n (retry_or_give_up id p parent r msg s)) [
                | none ↦ λ e. rw (e, retry_or_give_up) (write-Same ks n p _ failed told)
                | some i ↦ λ e.
                    rw (e, retry_or_give_up)
                      (if-option ks n (leb 10 (parent.receipt_attempts + 1)) _ _
                        (write-Same ks n p _ failed told) (write-Same ks n p _ s h))
              ]
          refl

    failed_receipt-Same :
        (r : Request) (s : Instance) (msg : List ℕ)
        → Same ks n (some s)
        → Same ks n (failed_receipt id r s msg)
    unfolding failed_receipt
    failed_receipt-Same r s msg h =
        elim r.parent
          as (λ c. Same ks n (elim c [
            | none ↦ some (report_failure id r msg s)
            | some p ↦ elim (find p s.requests) [
              | none ↦ none
              | some parent ↦ retry_or_give_up id p parent r msg s
            ]
          ])) [
            | none ↦ report_failure-Same r msg s h
            | some p ↦
                elim (find p s.requests)
                  as (λ c.
                    Same ks n (elim c [
                      | none ↦ none
                      | some parent ↦ retry_or_give_up id p parent r msg s
                    ])) [ none ↦ tt | some parent ↦ retry-Same p parent r msg s h ]
          ]

    query_error-Same :
        (r : Request) (s : Instance) (msg : List ℕ)
        → Same ks n (some s)
        → Same ks n (query_error id r s msg)
    unfolding query_error
    query_error-Same r s msg h = if-option ks n r.callback _ _ h (
        if-option ks n
          (ltb
            (length (if ltb r.return_size (length msg) then take (r.return_size - 1) msg else msg))
            r.return_size)
          _ none h tt)

    error_of-Same :
        (kind : ErrorHandler) (r : Request) (s : Instance) (msg : List ℕ)
        → Same ks n (some s)
        → Same ks n (error_of id kind r s msg)
    unfolding error_of
    error_of-Same on_failed_receipt r s msg h = failed_receipt-Same r s msg h
    error_of-Same handle_query_error r s msg h = query_error-Same r s msg h

    process_error-Same : (kind : ErrorHandler) → Keeps (Same ks n) (process_error id kind)
    unfolding process_error
    process_error-Same kind none msg h = tt
    process_error-Same kind (some s) msg h =
        elim (find id s.requests)
          as (λ c. Same ks n (
            let o : Option Instance × Bool = elim c [
              | none ↦ (none, false)
              | some r ↦ (error_of id kind r s msg, false)
            ] in
            o.0)) [ none ↦ tt | some r ↦ error_of-Same kind r s msg h ]

    pub error_handler-Same :
        (kind : Option ErrorHandler) → KeepsSome (Same ks n) (error_handler id kind)
    error_handler-Same none = tt
    error_handler-Same (some kind) = process_error-Same kind
