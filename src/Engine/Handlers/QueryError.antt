-- ===== src/Engine/Handlers/QueryError.antt =====
-- handle_query_error on a synchronous query.
use libaergo.Base.{Bool, ◌∙◌, replicate, length-replicate}
use libaergo.Fields.{Target, target, behind}
use libaergo.Fields.Reading.{read_string-short}
use libaergo.Engine.{query}
use libaergo.Engine.Handlers.{
  Decoder, process_response, response_of, handle_query_response, with_buffer, tell, value_of,
}
use libaergo.Base.{
  length-take, lt→ltb, take_all, ℕ, ◌-◌, ◌<◌, ◌≡◌, ◌⊎◌, inl, inr, refl, ap, arith, true, false,
  none, some, ltb, ◌==◌, if◌then◌else◌, length, take, List,
}
use libaergo.Engine.{Request, Instance, filled, handle_query_error, find, notify}
use libaergo.Engine.Handlers.{process_error, error_of, query_error}

trichotomy : (a b : ℕ) → ((a < b) ⊎ (a ≡ b)) ⊎ (b < a)
trichotomy a b = ground arith

module _ (id : ℕ) (s : Instance) (r : Request) (msg : List ℕ) (sync : r.callback ≡ false)
    (room : 0 < r.return_size) where
  cut_message : query_error id r s msg ≡ (
      if length msg == r.return_size
      then none
      else some (notify (filled id false (take (r.return_size - 1) msg)) s))
  unfolding query_error
  cut_message = elim (trichotomy (length msg) r.return_size) [
    | inl (inl less) ↦
        let whole : take (r.return_size - 1) msg ≡ msg =
          take_all (r.return_size - 1) msg (omega (arith, less)) in
        let t1 : ltb r.return_size (length msg) ≡ false = ground (arith, less) in
        let t2 : ltb (length msg) r.return_size ≡ true = ground (arith, less) in
        let t3 : (length msg == r.return_size) ≡ false = ground (arith, less) in
        rw (sync, query_error, t1, t2, t3, whole) refl
    | inl (inr same) ↦
        let t1 : ltb r.return_size (length msg) ≡ false = ground (arith, same) in
        let t2 : ltb (length msg) r.return_size ≡ false = ground (arith, same) in
        let t3 : (length msg == r.return_size) ≡ true = ground (arith, same) in
        rw (sync, query_error, t1, t2, t3) refl
    | inr more ↦
        let t1 : ltb r.return_size (length msg) ≡ true = ground (arith, more) in
        let t2 : ltb (length (take (r.return_size - 1) msg)) r.return_size ≡ true =
          lt→ltb _ _ (omega (arith, length-take (r.return_size - 1) msg, room)) in
        let t3 : (length msg == r.return_size) ≡ false = ground (arith, more) in
        rw (sync, query_error, t1, t2, t3) refl
  ]

  -- The error of a query with no callback and a buffer of at least one byte: as much of the message
  -- as fits in front of a terminator is written; but if the message is exactly as long as the
  -- buffer, the terminator is written outside of it.
  pub process_error-query :
      find id s.requests ≡ some r
      → process_error id handle_query_error (some s) msg ≡ (
        (if length msg == r.return_size
            then none
            else some (notify (filled id false (take (r.return_size - 1) msg)) s)),
        false,
      )
  unfolding process_error error_of
  process_error-query here = rw (here, process_error) (ap (λ o. (o, false)) cut_message)

value_of-fits :
    (size : ℕ) (text : List ℕ) → length text < size → value_of size (some text) ≡ target text true
unfolding value_of
value_of-fits size text h =
    ap (λ o. elim o as (λ _. Target (List ℕ)) [ behind ↦ behind | target b ok ↦ target text ok ])
      (read_string-short text (replicate size 0)
        (omega (arith, length-replicate {A = ℕ} size 0, h)))

-- handle_query_response on a synchronous query.
pub process_response-query :
    (pb : Decoder) (malloc : ℕ → Bool) (id : ℕ) (s : Instance) (r : Request) (bytes : List ℕ)
    {text : List ℕ}
    → find id s.requests ≡ some r
    → r.process_response ≡ query
    → r.callback ≡ false
    → pb.single_bytes bytes ≡ some text
    → length text < r.return_size
    → process_response pb malloc id (some s) bytes ≡ (some (notify (filled id true text) s), true)
unfolding process_response response_of handle_query_response with_buffer tell
process_response-query pb malloc id s r bytes {text} here kind sync decodes fits =
    rw (here, process_response)
      (ap (λ h. response_of pb malloc id h r s bytes) kind
        ∙ rw (sync, handle_query_response, with_buffer)
            (rw (decodes, value_of-fits r.return_size text fits) (rw sync refl)))
