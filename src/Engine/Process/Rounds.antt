-- ===== src/Engine/Process/Rounds.antt =====
-- The callbacks of a round, run_events, and the fuel.
use libaergo.Base.{◌≢◌, refl, ℕ, ◌≡◌, refl, Option, none, some, List, [], ◌∷◌}
use libaergo.Engine.{Instance, find}
use libaergo.Response.{Outcome, returned, running}
use libaergo.Engine.Process.{
  Env, Event, header, chunk, Run, done, Finished, from_option, ◌>>=◌, run_event, run_events,
  write_back,
}
use libaergo.Engine.Process.Ends.{Ends}
use libaergo.Engine.Process.Settled.{Settled, at_once}
use libaergo.Response.{Rx}

-- Not a matter of the fuel of the loops.
abbrev pub Steps : Run Instance → Type 0
Steps (done s) = Unit {0}
Steps Run.fault = Unit {0}
Steps Run.blocked = Unit {0}
Steps Run.unfinished = Unit {0}
Steps Run.no_fuel = ⊥

pub events-Settled :
    (P : Instance → Type 0) (Q : Finished → Type 0) (m : Run Instance)
    (next : ℕ → Instance → Run Finished)
    → Steps m
    → m ≢ Run.unfinished
    → Ends P m
    → ((s : Instance) → P s → Settled Q (λ j. next j s))
    → Settled Q (λ j. m >>= next j)
events-Settled P Q (done s) next h c e k = k s e
events-Settled P Q Run.fault next h c e k = at_once Q Run.fault tt
events-Settled P Q Run.blocked next h c e k = at_once Q Run.blocked tt
events-Settled P Q Run.unfinished next h c e k = absurd (c refl)
events-Settled P Q Run.no_fuel next h c e k = absurd h

>>=-Steps :
    (m : Run Instance) (f : Instance → Run Instance)
    → Steps m
    → ((s : Instance) → Steps (f s))
    → Steps (m >>= f)
>>=-Steps (done s) f h k = k s
>>=-Steps Run.fault f h k = tt
>>=-Steps Run.blocked f h k = tt
>>=-Steps Run.unfinished f h k = tt
>>=-Steps Run.no_fuel f h k = h

from_option-Steps : (o : Option Instance) → Steps (from_option o)
from_option-Steps none = tt
from_option-Steps (some s) = tt

module _ (env : Env) where
  write_back-Steps : (id : ℕ) (rx : Rx) (w : Option Instance) → Steps (write_back env id rx w)
  write_back-Steps id rx none = tt
  write_back-Steps id rx (some s) = from_option-Steps _

  outcome-Steps :
      (id : ℕ) (o : Outcome (Option Instance))
      → Steps (elim o [
        | returned rx w n ↦ write_back env id rx w
        | Outcome.fault ↦ Run.fault
        | running ↦ Run.unfinished
      ])
  outcome-Steps id (returned rx w k) = write_back-Steps id rx w
  outcome-Steps id Outcome.fault = tt
  outcome-Steps id running = tt

  run_event-Steps : (e : Event) (s : Instance) → Steps (run_event env e s)
  unfolding run_event
  run_event-Steps (header id line) s =
      elim (find id s.requests)
          as (λ c. find id s.requests ≡ c → Steps (run_event env (header id line) s)) [
            | none ↦ λ e. rw (e, run_event) tt
            | some r ↦ λ e. rw (e, run_event) (write_back-Steps id _ _)
          ]
        refl
  run_event-Steps (chunk id contents) s =
      elim (find id s.requests)
          as (λ c. find id s.requests ≡ c → Steps (run_event env (chunk id contents) s)) [
            | none ↦ λ e. rw (e, run_event) tt
            | some r ↦ λ e. rw (e, run_event) (outcome-Steps id _)
          ]
        refl

  pub run_events-Steps : (es : List Event) (s : Instance) → Steps (run_events env es s)
  unfolding run_events
  run_events-Steps [] s = tt
  run_events-Steps (e ∷ es) s =
      >>=-Steps (run_event env e s) (run_events env es) (run_event-Steps e s) (run_events-Steps es)

  from_option-ne : (o : Option Instance) → from_option o ≢ Run.unfinished
  from_option-ne none = λ e. cc
  from_option-ne (some s) = λ e. cc

  write_back-ne : (id : ℕ) (rx : Rx) (w : Option Instance) → write_back env id rx w ≢ Run.unfinished
  write_back-ne id rx none = λ e. cc
  write_back-ne id rx (some s) = from_option-ne _

  run_header-ne :
      (id : ℕ) (line : List ℕ) (s : Instance) → run_event env (header id line) s ≢ Run.unfinished
  unfolding run_event
  run_header-ne id line s =
      elim (find id s.requests)
          as (λ c. find id s.requests ≡ c → run_event env (header id line) s ≢ Run.unfinished) [
            | none ↦ λ e. rw (e, run_event) (λ k. cc)
            | some r ↦ λ e. rw (e, run_event) (write_back-ne id _ _)
          ]
        refl

  last_event-ne :
      (m : Run Instance) → m ≢ Run.unfinished → (m >>= run_events env []) ≢ Run.unfinished
  unfolding run_events
  last_event-ne (done s) h = λ e. cc
  last_event-ne Run.fault h = λ e. cc
  last_event-ne Run.blocked h = λ e. cc
  last_event-ne Run.no_fuel h = λ e. cc
  last_event-ne Run.unfinished h = h

  -- The callback for a header line comes to an end.
  pub run_events_header-ne :
      (id : ℕ) (line : List ℕ) (s : Instance)
      → run_events env (header id line ∷ []) s ≢ Run.unfinished
  unfolding run_events
  run_events_header-ne id line s =
      last_event-ne (run_event env (header id line) s) (run_header-ne id line s)
