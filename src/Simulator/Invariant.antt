-- ===== src/Simulator/Invariant.antt =====
-- What the simulation of simulator.c keeps about the array `processes`.
use cosc.Base.{
  ℕ, ◌+◌, ◌-◌, ◌≤◌, ◌<◌, ◌≡◌, ◌≢◌, refl, true, false, List, [], ◌∷◌, ◌&&◌, arith, All, total, ltb,
  ◌==◌, if◌then◌else◌,
}
use cosc.Process.{ProcessInitial, IsAdmissible}
use cosc.Simulator.{
  ProcessStats, Line, ran, idle, invalid_pid, scheduled_too_long, still_running, give_unit,
}

-- Before step `t`: a process has run at most as long as it needs, and only since its arrival; one
-- that is finished ended after it had run for its whole processing time.
pub record IsTracked (t : ℕ) (p : ProcessStats) : Type 0 where
  pub admissible : IsAdmissible p.initial
  pub bounded : p.processed_time ≤ p.initial.processing_time
  pub on_time : 0 < p.processed_time → p.initial.arrival_time + p.processed_time ≤ t
  pub ended :
      p.processed_time ≡ p.initial.processing_time
      → (p.initial.arrival_time + p.initial.processing_time ≤ p.end_time + 1) × (p.end_time < t)

abbrev pub UniquePids : List ProcessStats → Type 0
UniquePids [] = Unit
UniquePids (x ∷ xs) = All (λ y. y.initial.pid ≢ x.initial.pid) xs × UniquePids xs

-- The initial data of the processes.
abbrev pub initials : List ProcessStats → List ProcessInitial
initials [] = []
initials (p ∷ ps) = p.initial ∷ initials ps

-- Processing time that a process with PID `q` that has arrived before `t` still needs.
abbrev pub owed : ℕ → ℕ → ProcessStats → ℕ
owed t q p =
    if p.initial.pid == q && ltb p.initial.arrival_time t
    then p.initial.processing_time - p.processed_time
    else 0

abbrev pub due : ℕ → List ProcessStats → ℕ → ℕ
due t ps q = total (owed t q) ps

-- Processing time that has been given to PID `q`.
abbrev pub spent : ℕ → List ProcessStats → ℕ
spent q ps = total (λ p. if p.initial.pid == q then p.processed_time else 0) ps

-- Processing time that all processes together still need.
abbrev pub work : List ProcessStats → ℕ
work ps = total (λ p. p.initial.processing_time - p.processed_time) ps

-- How often the printed schedule names PID `q`.
abbrev pub named : ℕ → Line → ℕ
named q (ran time pid) = if pid == q then 1 else 0
named q (idle time) = 0
named q (invalid_pid pid) = 0
named q (scheduled_too_long pid) = 0

abbrev pub printed : ℕ → List Line → ℕ
printed q out = total (named q) out

pub IsTracked-later : (t : ℕ) (p : ProcessStats) → IsTracked t p → IsTracked (t + 1) p
IsTracked-later t p h = ground arith

pub All-IsTracked-later :
    (t : ℕ) (ps : List ProcessStats) → All (IsTracked t) ps → All (IsTracked (t + 1)) ps
All-IsTracked-later t [] h = tt
All-IsTracked-later t (p ∷ ps) h = (IsTracked-later t p h.0, All-IsTracked-later t ps h.1)

-- A process that needs no more time.
abbrev pub IsFinished : ProcessStats → Type 0
IsFinished p = p.processed_time ≡ p.initial.processing_time

pub All-IsTracked-until :
    (t bound : ℕ) (ps : List ProcessStats)
    → t ≤ bound
    → All (IsTracked t) ps
    → All (IsTracked bound) ps
All-IsTracked-until t bound [] le h = tt
All-IsTracked-until t bound (p ∷ ps) le h = (ground arith, All-IsTracked-until t bound ps le h.1)

-- A unit of execution for a process that has arrived and is not finished.
pub give_unit-IsTracked :
    (t : ℕ) (p : ProcessStats)
    → IsTracked t p
    → p.initial.arrival_time < t + 1
    → p.processed_time < p.initial.processing_time
    → IsTracked (t + 1) (give_unit t p)
unfolding give_unit
give_unit-IsTracked t p h a u = ground arith

pub give_unit-processed :
    (t : ℕ) (p : ProcessStats)
    → IsTracked t p
    → p.processed_time < p.initial.processing_time
    → (give_unit t p).processed_time ≡ p.processed_time + 1
unfolding give_unit
give_unit-processed t p h u = ground arith

pub give_unit-initial : (t : ℕ) (p : ProcessStats) → (give_unit t p).initial ≡ p.initial
unfolding give_unit
give_unit-initial t p = ground arith

pub still_running-work : (ps : List ProcessStats) → still_running ps ≡ false → work ps ≡ 0
unfolding still_running
still_running-work [] h = refl
still_running-work (p ∷ ps) h = ground (arith, still_running-work ps)

pub work-still_running : (ps : List ProcessStats) → work ps ≡ 0 → still_running ps ≡ false
unfolding still_running
work-still_running [] h = refl
work-still_running (p ∷ ps) h = ground (arith, work-still_running ps)

-- If a process still needs time and none is due, one has yet to arrive.
pub still_running-idle :
    (t latest : ℕ) (ps : List ProcessStats)
    → still_running ps ≡ true
    → ((q : ℕ) → due (t + 1) ps q ≡ 0)
    → All (λ i. i.arrival_time ≤ latest) (initials ps)
    → t + 1 ≤ latest
unfolding still_running
still_running-idle t latest [] h none_due a = cc
still_running-idle t latest (p ∷ ps) h none_due a =
    ground
      (arith, none_due p.initial.pid, still_running-idle t latest ps, λ (q : ℕ). none_due q, rest)
  where
    rest : (q : ℕ) → due (t + 1) ps q ≡ 0
    rest q = omega (arith, none_due q)

-- The array as `main` hands it over: admissible processes with different PIDs, not yet run.
pub record IsLoaded (ps : List ProcessStats) : Type 0 where
  pub fresh : All (λ p. IsAdmissible p.initial × (p.processed_time ≡ 0) × (p.end_time ≡ 0)) ps
  pub unique : UniquePids ps
