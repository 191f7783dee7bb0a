-- ===== src/Engine/Process/Ends.antt =====
-- What the callbacks of socket.c do to the list of requests in a round.
use libaergo.Base.{ℕ, ◌≡◌, refl, Option, none, some, List, [], ◌∷◌}
use libaergo.Response.{Rx, Outcome, returned, running}
use libaergo.Response.Worlds.{server_response_callback-Kept, server_header_callback-Kept, Kept}
use libaergo.Engine.{Instance, find}
use libaergo.Engine.Handlers.{handlers_of}
use libaergo.Engine.Handlers.Keys.Responses.{process_response-Same}
use libaergo.Engine.Handlers.Keys.Errors.{error_handler-Same}
use libaergo.Engine.Handlers.Keys.{keys, Same, write-Same}
use libaergo.Engine.Process.{
  Env, Event, header, chunk, Run, done, from_option, ◌>>=◌, run_event, run_events, write_back,
}

-- Where a run ends, it ends so.
abbrev pub Ends : {A : Type 0} → (A → Type 0) → Run A → Type 0
Ends P (done a) = P a
Ends P Run.fault = Unit {0}
Ends P Run.blocked = Unit {0}
Ends P Run.no_fuel = Unit {0}
Ends P Run.unfinished = Unit {0}

pub >>=-Ends :
    {A B : Type 0} (P : A → Type 0) (Q : B → Type 0) (m : Run A) (f : A → Run B)
    → Ends P m
    → ((a : A) → P a → Ends Q (f a))
    → Ends Q (m >>= f)
>>=-Ends P Q (done a) f h k = k a h
>>=-Ends P Q Run.fault f h k = tt
>>=-Ends P Q Run.blocked f h k = tt
>>=-Ends P Q Run.no_fuel f h k = tt
>>=-Ends P Q Run.unfinished f h k = tt

pub Ends-weaken :
    {A : Type 0} (P Q : A → Type 0) (m : Run A) → Ends P m → ((a : A) → P a → Q a) → Ends Q m
Ends-weaken P Q (done a) h k = k a h
Ends-weaken P Q Run.fault h k = tt
Ends-weaken P Q Run.blocked h k = tt
Ends-weaken P Q Run.no_fuel h k = tt
Ends-weaken P Q Run.unfinished h k = tt

pub Ends-both :
    {A : Type 0} (P Q : A → Type 0) (m : Run A) → Ends P m → Ends Q m → Ends (λ a. P a × Q a) m
Ends-both P Q (done a) h k = (h, k)
Ends-both P Q Run.fault h k = tt
Ends-both P Q Run.blocked h k = tt
Ends-both P Q Run.no_fuel h k = tt
Ends-both P Q Run.unfinished h k = tt

-- The requests and the next number are these.
abbrev pub Is : List ℕ → ℕ → Instance → Type 0
Is ks n s = (keys s ≡ ks) × (s.next_id ≡ n)

pub from_option-Ends :
    (ks : List ℕ) (n : ℕ) (o : Option Instance) → Same ks n o → Ends (Is ks n) (from_option o)
from_option-Ends ks n none h = tt
from_option-Ends ks n (some s) h = h

module _ (env : Env) (ks : List ℕ) (n : ℕ) where
  write_back-Is :
      (id : ℕ) (rx : Rx) (w : Option Instance)
      → Same ks n w
      → Ends (Is ks n) (write_back env id rx w)
  write_back-Is id rx none h = tt
  write_back-Is id rx (some s) h = from_option-Ends ks n _ (write-Same ks n id _ s h)

  outcome-Is :
      (id : ℕ) (o : Outcome (Option Instance))
      → Kept (Same ks n) o
      → Ends (Is ks n) (elim o [
        | returned rx w n ↦ write_back env id rx w
        | Outcome.fault ↦ Run.fault
        | running ↦ Run.unfinished
      ])
  outcome-Is id (returned rx w k) h = write_back-Is id rx w h
  outcome-Is id Outcome.fault h = tt
  outcome-Is id running h = tt

  run_event-Is : (e : Event) (s : Instance) → Is ks n s → Ends (Is ks n) (run_event env e s)
  unfolding run_event
  run_event-Is (header id line) s h =
      elim (find id s.requests)
          as (λ c. find id s.requests ≡ c → Ends (Is ks n) (run_event env (header id line) s)) [
            | none ↦ λ e. rw (e, run_event) tt
            | some r ↦ λ e.
                rw (e, run_event)
                  (write_back-Is id _ _ (
                    server_header_callback-Kept (Same ks n)
                      (handlers_of env.decoder env.malloc id r)
                      (process_response-Same ks n env.decoder env.malloc id)
                      (error_handler-Same ks n id r.process_error) r.rx (some s) line h))
          ]
        refl
  run_event-Is (chunk id contents) s h =
      elim (find id s.requests)
          as (λ c. find id s.requests ≡ c → Ends (Is ks n) (run_event env (chunk id contents) s)) [
            | none ↦ λ e. rw (e, run_event) tt
            | some r ↦ λ e.
                rw (e, run_event)
                  (outcome-Is id _ (
                    server_response_callback-Kept (Same ks n)
                      (handlers_of env.decoder env.malloc id r)
                      (process_response-Same ks n env.decoder env.malloc id)
                      (error_handler-Same ks n id r.process_error) env.rounds r.rx (some s) contents
                      h))
          ]
        refl

  pub run_events-Is :
      (es : List Event) (s : Instance) → Is ks n s → Ends (Is ks n) (run_events env es s)
  unfolding run_events
  run_events-Is [] s h = h
  run_events-Is (e ∷ es) s h =
      >>=-Ends (Is ks n) (Is ks n) (run_event env e s) (run_events env es) (run_event-Is e s h)
        (run_events-Is es)
