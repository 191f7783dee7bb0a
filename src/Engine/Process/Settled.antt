-- ===== src/Engine/Process/Settled.antt =====
-- A run whose result does not depend on its fuel, from some fuel on.
use libaergo.Base.{
  ℕ, zero, suc, ◌+◌, ◌≤◌, ◌≡◌, refl, ap, ◌∙◌, arith, Bool, true, false, Option, none, some,
}
use libaergo.Engine.{Instance}
use libaergo.Engine.Process.{Run, done, Finished, from_option, ◌>>=◌}
use libaergo.Engine.Process.Ends.{Ends}

-- Not out of fuel, no callback being left unfinished; and where it is done, it is so.
abbrev pub Over : (Finished → Type 0) → Run Finished → Type 0
Over P (done f) = P f
Over P Run.fault = Unit {0}
Over P Run.blocked = Unit {0}
Over P Run.unfinished = ⊥
Over P Run.no_fuel = ⊥

pub record Settled (P : Finished → Type 0) (run : ℕ → Run Finished) : Type 0 where
  pub fuel : ℕ
  pub result : Run Finished
  pub over : Over P result
  pub stable : (j : ℕ) → fuel ≤ j → run j ≡ result

pub at_once : (P : Finished → Type 0) (m : Run Finished) → Over P m → Settled P (λ j. m)
at_once P m h = record { fuel = 0; result = m; over = h; stable = λ j le. refl }

Over-weaken :
    (P Q : Finished → Type 0) (m : Run Finished)
    → ((f : Finished) → P f → Q f)
    → Over P m
    → Over Q m
Over-weaken P Q (done f) k h = k f h
Over-weaken P Q Run.fault k h = tt
Over-weaken P Q Run.blocked k h = tt
Over-weaken P Q Run.unfinished k h = h
Over-weaken P Q Run.no_fuel k h = h

pub Settled-weaken :
    (P Q : Finished → Type 0) (run : ℕ → Run Finished)
    → ((f : Finished) → P f → Q f)
    → Settled P run
    → Settled Q run
Settled-weaken P Q run k h = record {
  fuel = h.fuel;
  result = h.result;
  over = Over-weaken P Q h.result k h.over;
  stable = h.stable;
}

-- A call takes one unit.
pub call-Settled :
    (P : Finished → Type 0) (run rest : ℕ → Run Finished)
    → ((j : ℕ) → run (suc j) ≡ rest j)
    → Settled P rest
    → Settled P run
call-Settled P run rest e h = record {
  fuel = suc h.fuel;
  result = h.result;
  over = h.over;
  stable = later;
}
  where
    later : (j : ℕ) → suc h.fuel ≤ j → run j ≡ h.result
    later zero le = absurd (omega arith)
    later (suc j) le = e j ∙ h.stable j (omega arith)

bind_result :
    (P Q : Finished → Type 0) (run : ℕ → Run Finished) (next : ℕ → Finished → Run Finished)
    (fuel : ℕ) (m : Run Finished)
    → Over P m
    → ((j : ℕ) → fuel ≤ j → run j ≡ m)
    → ((f : Finished) → P f → Settled Q (λ j. next j f))
    → Settled Q (λ j. run j >>= next j)
bind_result P Q run next fuel (done f) h e k =
    let after = k f h in
    record {
      fuel = fuel + after.fuel;
      result = after.result;
      over = after.over;
      stable = λ j le. ap (λ m. m >>= next j) (e j (omega arith)) ∙ after.stable j (omega arith);
    }
bind_result P Q run next fuel Run.fault h e k = record {
  fuel = fuel;
  result = Run.fault;
  over = tt;
  stable = λ j le. ap (λ m. m >>= next j) (e j le);
}
bind_result P Q run next fuel Run.blocked h e k = record {
  fuel = fuel;
  result = Run.blocked;
  over = tt;
  stable = λ j le. ap (λ m. m >>= next j) (e j le);
}
bind_result P Q run next fuel Run.unfinished h e k = absurd h
bind_result P Q run next fuel Run.no_fuel h e k = absurd h

pub bind-Settled :
    (P Q : Finished → Type 0) (run : ℕ → Run Finished) (next : ℕ → Finished → Run Finished)
    → Settled P run
    → ((f : Finished) → P f → Settled Q (λ j. next j f))
    → Settled Q (λ j. run j >>= next j)
bind-Settled P Q run next h k = bind_result P Q run next h.fuel h.result h.over h.stable k

pub option-Settled :
    (P : Instance → Type 0) (Q : Finished → Type 0) (o : Option Instance)
    (next : ℕ → Instance → Run Finished)
    → Ends P (from_option o)
    → ((s : Instance) → P s → Settled Q (λ j. next j s))
    → Settled Q (λ j. from_option o >>= next j)
option-Settled P Q none next h k = at_once Q Run.fault tt
option-Settled P Q (some s) next h k = k s h

pub elim-Settled :
    (P : Finished → Type 0) (b : Bool) (m n : ℕ → Run Finished)
    → Settled P m
    → Settled P n
    → Settled P (λ j. elim b [ false ↦ m j | true ↦ n j ])
elim-Settled P false m n h k = h
elim-Settled P true m n h k = k
