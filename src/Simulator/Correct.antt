-- ===== src/Simulator/Correct.antt =====
-- `run_simulation` of simulator.c with a work-conserving algorithm, from the array that `main`
-- hands over.
use Prim.Native.Nat.{max}
use mathlib.Core.Path.{subst}
use native.Mathlib.Nat.{zero-add}
use cosc.Base.{
  ◌^◌, false, not, ℕ, ◌+◌, ◌≤◌, ◌<◌, ◌≡◌, refl, true, List, [], ◌∷◌, arith, All, ◌∙◌, ap,
}
use cosc.Process.{Scheduler, IsWorkConserving, IsAdmissible}
use cosc.Simulator.{
  ProcessStats, Line, returned, still_running, run_simulation, calculate_turnaround_time,
  calculate_wait_time,
}
use cosc.Simulator.Invariant.{IsTracked, IsFinished, IsLoaded, initials, due, spent, work}
use cosc.Simulator.Outcome.{Ends, Simulates, Completes, simulate-Completes}

fresh-IsTracked :
    (ps : List ProcessStats)
    → All (λ p. IsAdmissible p.initial × (p.processed_time ≡ 0) × (p.end_time ≡ 0)) ps
    → All (IsTracked 0) ps
fresh-IsTracked [] h = tt
fresh-IsTracked (p ∷ ps) h = (ground arith, fresh-IsTracked ps h.1)

fresh-due : (ps : List ProcessStats) (q : ℕ) → due 0 ps q ≡ 0
fresh-due [] q = refl
fresh-due (p ∷ ps) q = ground (arith, fresh-due ps q)

fresh-spent :
    (ps : List ProcessStats) (q : ℕ)
    → All (λ p. IsAdmissible p.initial × (p.processed_time ≡ 0) × (p.end_time ≡ 0)) ps
    → spent q ps ≡ 0
fresh-spent [] q h = refl
fresh-spent (p ∷ ps) q h = ground (arith, fresh-spent ps q h.1)

-- The last arrival time.
unfoldable pub latest_arrival : List ProcessStats → ℕ
latest_arrival [] = 0
latest_arrival (p ∷ ps) = max p.initial.arrival_time (latest_arrival ps)

arrival-le :
    (ps : List ProcessStats) (k : ℕ)
    → latest_arrival ps ≤ k
    → All (λ i. i.arrival_time ≤ k) (initials ps)
unfolding latest_arrival
arrival-le [] k h = tt
arrival-le (p ∷ ps) k h = (omega arith, arrival-le ps k (omega arith))

module _ {S : Scheduler} (c : IsWorkConserving S) where
  pub Simulates-start :
      (ps : List ProcessStats)
      → IsLoaded ps
      → Simulates c (latest_arrival ps) (work ps) 0 ps S.start []
  Simulates-start ps l = record {
    tracked = fresh-IsTracked ps l.fresh;
    unique = l.unique;
    valid = c.start-IsValid;
    agrees = λ q. omega (arith, c.remaining-start q, fresh-due ps q);
    schedule = λ q. omega (arith, fresh-spent ps q l.fresh);
    steps = tt;
    count = refl;
    arrivals = arrival-le ps (latest_arrival ps) (omega arith);
    demand_left = omega arith;
    budget = omega arith;
  }

  pub run_simulation-Completes :
      (ps : List ProcessStats) (time_bound : ℕ)
      → IsLoaded ps
      → Completes c (latest_arrival ps) (work ps) time_bound ps (run_simulation S ps time_bound)
  unfolding run_simulation
  run_simulation-Completes ps time_bound l =
      subst (λ b. Completes c (latest_arrival ps) (work ps) b ps (run_simulation S ps time_bound))
        (zero-add time_bound)
        (simulate-Completes c (latest_arrival ps) (work ps) time_bound 0 ps S.start []
          (Simulates-start ps l))

  -- From admissible processes with different PIDs, the simulation of a work-conserving algorithm
  -- returns at the end of its loop: it never indexes outside the array and prints neither error
  -- message, but one line for each step from 0 on, for all steps up to the bound if a process
  -- still needs time at the end. It reports success exactly if none does. The processes keep their
  -- initial data, none ran for longer than it needs, each step is idle or names a process that has
  -- arrived by then, and each PID is named as often as that process was given a unit.
  pub run_simulation_sound :
      (ps : List ProcessStats) (time_bound : ℕ)
      → IsLoaded ps
      → Ends time_bound ps (run_simulation S ps time_bound)
  run_simulation_sound ps time_bound l = (run_simulation-Completes ps time_bound l).0

  pub finished :
      (ps : List ProcessStats) (t : ℕ)
      → All (IsTracked t) ps
      → still_running ps ≡ false
      → All IsFinished ps
  unfolding still_running
  finished [] t h e = tt
  finished (p ∷ ps) t h e = (ground arith, finished ps t h.1 (ground arith))

  -- If the time bound is at least the last arrival time plus the processing time of all processes,
  -- the simulation reports success, with the same processes and each of them finished.
  pub run_simulation_completes :
      (ps : List ProcessStats) (time_bound : ℕ)
      → IsLoaded ps
      → latest_arrival ps + work ps ≤ time_bound
      → (processes : List ProcessStats) × (lines : List Line) × (run_simulation S ps time_bound
          ≡ returned true processes lines)
        × (initials processes ≡ initials ps)
        × All IsFinished processes
  run_simulation_completes ps time_bound l enough =
      let (e, done) = run_simulation-Completes ps time_bound l in
      let stopped = done enough in
      (
        e.processes,
        e.lines,
        e.result ∙ ap (λ b. returned (not b) e.processes e.lines) stopped,
        e.same,
        finished e.processes time_bound e.tracked stopped,
      )

-- The statistics of a process that was tracked up to a time that fits an unsigned int and is
-- finished do not wrap around: its turnaround time is the number of steps from its arrival to its
-- end, and its wait time is the turnaround time less its processing time.
pub turnaround_and_wait :
    (t : ℕ) (p : ProcessStats)
    → IsTracked t p
    → t < 2 ^ 32
    → p.processed_time ≡ p.initial.processing_time
    → (calculate_turnaround_time p + p.initial.arrival_time ≡ p.end_time + 1)
      × (calculate_wait_time p + p.initial.processing_time ≡ calculate_turnaround_time p)
unfolding calculate_turnaround_time calculate_wait_time
turnaround_and_wait t p h small e = ground arith
