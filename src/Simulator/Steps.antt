-- ===== src/Simulator/Steps.antt =====
-- The lines of `run_simulation` as one line for each step.
use cosc.Base.{
  ℕ, zero, suc, ◌+◌, ◌≤◌, ◌≡◌, ◌⊎◌, inl, inr, List, [], ◌∷◌, ◌++◌, some, arith, length, get_elem?,
}
use mathlib.Core.Path.{subst}
use cosc.Process.{ProcessInitial}
use cosc.Simulator.{ProcessStats, Line, ran, idle, invalid_pid, scheduled_too_long}
use cosc.Simulator.Invariant.{initials}
use cosc.Simulator.Running.{IsNext}

-- A process with this PID has arrived by step `t`.
abbrev pub HasArrived : ℕ → ℕ → List ProcessInitial → Type 0
HasArrived t pid [] = ⊥
HasArrived t pid (i ∷ is) = ((i.pid ≡ pid) × (i.arrival_time ≤ t)) ⊎ HasArrived t pid is

-- The line of step `t`: a process that has arrived runs, or none does. It is no error message.
abbrev pub IsStep : List ProcessInitial → ℕ → Line → Type 0
IsStep is t (ran time pid) = (time ≡ t) × HasArrived t pid is
IsStep is t (idle time) = time ≡ t
IsStep is t (invalid_pid pid) = ⊥
IsStep is t (scheduled_too_long pid) = ⊥

-- The lines of the steps from `t` on, one for each, in order.
abbrev pub AreSteps : List ProcessInitial → ℕ → List Line → Type 0
AreSteps is t [] = Unit
AreSteps is t (line ∷ lines) = IsStep is t line × AreSteps is (t + 1) lines

pub AreSteps-append :
    (is : List ProcessInitial) (t u : ℕ) (lines : List Line) (line : Line)
    → AreSteps is t lines
    → u ≡ t + length lines
    → IsStep is u line
    → AreSteps is t (lines ++ line ∷ [])
AreSteps-append is t u [] line h e s =
    let at : u ≡ t = omega arith in (subst (λ v. IsStep is v line) at s, tt)
AreSteps-append is t u (x ∷ lines) line h e s =
    (h.0, AreSteps-append is (t + 1) u lines line h.1 (omega arith) s)

pub found-HasArrived :
    (ps : List ProcessStats) (i t : ℕ) (p : ProcessStats)
    → get_elem? ps i ≡ some p
    → p.initial.arrival_time ≤ t
    → HasArrived t p.initial.pid (initials ps)
found-HasArrived [] i t p e h = cc
found-HasArrived (x ∷ ps) zero t p e h = inl (cc, ground arith)
found-HasArrived (x ∷ ps) (suc i) t p e h = inr (found-HasArrived ps i t p e h)

pub next-HasArrived :
    (t pid : ℕ) (ps : List ProcessStats) (i : ℕ) (p : ProcessStats)
    → IsNext t pid ps i p
    → HasArrived t pid (initials ps)
next-HasArrived t pid ps i p n =
    subst (λ q. HasArrived t q (initials ps)) n.same_pid
      (found-HasArrived ps i t p n.found (omega (arith, n.arrived)))
