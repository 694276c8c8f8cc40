-- ===== src/Simulator/Outcome.antt =====
-- How a simulation with a work-conserving algorithm ends.
use cosc.Base.{
  ℕ, zero, suc, ◌+◌, ◌≤◌, ◌<◌, ◌≡◌, refl, ◌∙◌, true, false, not, List, [], ◌∷◌, ◌++◌, arith, All,
  total-append, Bool-cases, length, length-append, inl, inr, set, eq_cases, le→ltb, lt→ltb,
  ltb-zero,
}
use mathlib.Core.Path.{subst}
use cosc.Process.{Scheduler, IsWorkConserving}
use cosc.Simulator.{
  ProcessStats, Line, ran, idle, Result, returned, still_running, get_pid_index, add_arrivals,
  give_unit, simulate,
}
use cosc.Simulator.Invariant.{
  IsTracked, UniquePids, initials, due, spent, work, printed, named, work-still_running,
  still_running-idle, All-IsTracked-later, All-IsTracked-until,
}
use cosc.Simulator.Arrivals.{add_arrivals-IsValid, remaining-add_arrivals}
use cosc.Simulator.Steps.{AreSteps, AreSteps-append, next-HasArrived}
use cosc.Simulator.Running.{Runs, Runs-found}

-- `run_simulation` returned by the end of its loop, not by one of its two error messages: it has
-- printed one line for each step, and if a process still needs time, for each step up to the bound.
pub record Ends (time_bound : ℕ) (ps : List ProcessStats) (r : Result) : Type 0 where
  pub processes : List ProcessStats
  pub lines : List Line
  pub result : r ≡ returned (not (still_running processes)) processes lines
  pub tracked : All (IsTracked time_bound) processes
  pub unique : UniquePids processes
  pub same : initials processes ≡ initials ps
  pub steps : AreSteps (initials ps) 0 lines
  pub whole : still_running processes ≡ true → length lines ≡ time_bound
  pub schedule : (q : ℕ) → printed q lines ≡ spent q processes

module _ {S : Scheduler} (c : IsWorkConserving S) (latest demand : ℕ) where
  open c use {IsValid, remaining}

  -- The state of the loop before step `t`. `latest` bounds the arrival times, and `demand` the
  -- processing time of all processes.
  pub record Simulates (t : ℕ) (ps : List ProcessStats) (s : S.State) (out : List Line)
      : Type 0 where
    pub tracked : All (IsTracked t) ps
    pub unique : UniquePids ps
    pub valid : IsValid s
    pub agrees : (q : ℕ) → remaining s q ≡ due t ps q
    pub schedule : (q : ℕ) → printed q out ≡ spent q ps
    pub steps : AreSteps (initials ps) 0 out
    pub count : length out ≡ t
    pub arrivals : All (λ i. i.arrival_time ≤ latest) (initials ps)
    pub demand_left : work ps ≤ demand
    pub budget : t + work ps ≤ latest + demand

  -- The loop ends as it should, and with every process finished if there was time for all.
  abbrev pub Completes : ℕ → List ProcessStats → Result → Type 0
  Completes bound ps r =
      (e : Ends bound ps r) × (latest + demand ≤ bound → still_running e.processes ≡ false)

  module _ (t : ℕ) (ps : List ProcessStats) (s : S.State) (out : List Line) where
    abbrev pub arrived : S.State
    arrived = add_arrivals S t ps s

    abbrev pub chosen : ℕ
    chosen = (S.get_next_scheduled_process arrived).0

    abbrev pub after : S.State
    after = (S.get_next_scheduled_process arrived).1

    pub simulate-idle :
        (rounds : ℕ)
        → still_running ps ≡ true
        → chosen ≡ 0
        → simulate S (suc rounds) t ps s out
          ≡ simulate S rounds (t + 1) ps after (out ++ idle t ∷ [])
    unfolding simulate
    simulate-idle rounds run e = rw (simulate, run, e)

    pub simulate-busy :
        (rounds i : ℕ) (p : ProcessStats)
        → still_running ps ≡ true
        → 0 < chosen
        → get_pid_index chosen ps ≡ i
        → Runs t chosen ps i p
        → simulate S (suc rounds) t ps s out
          ≡ simulate S rounds (t + 1) (set ps i (give_unit t p)) after (out ++ ran t chosen ∷ [])
    unfolding simulate
    simulate-busy rounds i p run pos at r =
        rw (simulate, run, lt→ltb 0 chosen pos)
          (rw (at, ltb-zero i) (rw r.next.found (rw (le→ltb _ _ r.kept, at))))

    module _ (sim : Simulates t ps s out) where
      pub agrees' : (q : ℕ) → remaining arrived q ≡ due (t + 1) ps q
      agrees' q = remaining-add_arrivals c t q ps s sim.tracked sim.valid (sim.agrees q)

      pub valid' : IsValid arrived
      valid' = add_arrivals-IsValid c t ps s sim.tracked sim.valid

      nothing_due : chosen ≡ 0 → (q : ℕ) → remaining arrived q ≡ 0
      nothing_due e q = c.idle_only_when_done arrived q valid' e

      pub Simulates-idle :
          still_running ps ≡ true → chosen ≡ 0 → Simulates (t + 1) ps after (out ++ idle t ∷ [])
      Simulates-idle run e = record {
        tracked = All-IsTracked-later t ps sim.tracked;
        unique = sim.unique;
        valid = c.next-IsValid arrived valid';
        agrees = λ q. omega (arith, c.remaining-next arrived q valid', nothing_due e q, agrees' q);
        schedule = λ q. omega (arith, sim.schedule q, total-append (named q) out (idle t ∷ []));
        steps =
            AreSteps-append (initials ps) 0 t out (idle t) sim.steps (omega (arith, sim.count))
              refl;
        count = omega (arith, sim.count, length-append out (idle t ∷ []));
        arrivals = sim.arrivals;
        demand_left = sim.demand_left;
        budget = omega (
          arith,
          still_running-idle t latest ps run (λ q. omega (arith, agrees' q, nothing_due e q))
              sim.arrivals,
          sim.demand_left,
        );
      }

      pub Simulates-busy :
          (i : ℕ) (p : ProcessStats)
          → Runs t chosen ps i p
          → Simulates (t + 1) (set ps i (give_unit t p)) after (out ++ ran t chosen ∷ [])
      Simulates-busy i p r = record {
        tracked = r.tracked';
        unique = r.unique';
        valid = c.next-IsValid arrived valid';
        agrees = λ q. omega (arith, c.remaining-next arrived q valid', agrees' q, r.due' q);
        schedule = λ q.
            omega
              (arith, sim.schedule q, r.spent' q, total-append (named q) out (ran t chosen ∷ []));
        steps = rw r.initials' (
            AreSteps-append (initials ps) 0 t out (ran t chosen) sim.steps
              (omega (arith, sim.count)) (refl, next-HasArrived t chosen ps i p r.next));
        count = omega (arith, sim.count, length-append out (ran t chosen ∷ []));
        arrivals = rw r.initials' sim.arrivals;
        demand_left = omega (arith, r.work', sim.demand_left);
        budget = omega (arith, r.work', sim.budget);
      }

  Completes-stop :
      (rounds t : ℕ) (ps : List ProcessStats) (s : S.State) (out : List Line)
      → Simulates t ps s out
      → (latest + demand ≤ t + rounds → still_running ps ≡ false)
      → (still_running ps ≡ true → length out ≡ t + rounds)
      → Completes (t + rounds) ps (returned (not (still_running ps)) ps out)
  Completes-stop rounds t ps s out sim done whole = (
    record {
      processes = ps;
      lines = out;
      result = refl;
      tracked = All-IsTracked-until t (t + rounds) ps (omega arith) sim.tracked;
      unique = sim.unique;
      same = refl;
      steps = sim.steps;
      whole = whole;
      schedule = sim.schedule;
    },
    done,
  )

  Completes-cong :
      (bound bound' : ℕ) (ps ps' : List ProcessStats) (r r' : Result)
      → bound' ≡ bound
      → initials ps' ≡ initials ps
      → r ≡ r'
      → Completes bound' ps' r'
      → Completes bound ps r
  Completes-cong bound bound' ps ps' r r' eb ei er (e, done) = (
    record {
      processes = e.processes;
      lines = e.lines;
      result = er ∙ e.result;
      tracked = rw (← eb) e.tracked;
      unique = e.unique;
      same = e.same ∙ ei;
      steps = subst (λ is. AreSteps is 0 e.lines) ei e.steps;
      whole = λ h. e.whole h ∙ eb;
      schedule = e.schedule;
    },
    λ h. done (omega arith),
  )

  pub simulate-stop :
      (rounds t : ℕ) (ps : List ProcessStats) (s : S.State) (out : List Line)
      → still_running ps ≡ false
      → simulate S (suc rounds) t ps s out ≡ returned (not (still_running ps)) ps out
  unfolding simulate
  simulate-stop rounds t ps s out e = rw (simulate, e) (rw e)

  -- A round that runs a process.
  simulate-busy_Completes :
      (rounds t : ℕ) (ps : List ProcessStats) (s : S.State) (out : List Line)
      → ((ps' : List ProcessStats) (s' : S.State) (out' : List Line)
          → Simulates (t + 1) ps' s' out'
          → Completes (t + 1 + rounds) ps' (simulate S rounds (t + 1) ps' s' out'))
      → Simulates t ps s out
      → still_running ps ≡ true
      → 0 < chosen t ps s out
      → Completes (t + suc rounds) ps (simulate S (suc rounds) t ps s out)
  unfolding get_pid_index
  simulate-busy_Completes rounds t ps s out ih sim run pos =
      let pid = chosen t ps s out in
      let has = c.next_has_work (arrived t ps s out) (valid' t ps s out sim) pos in
      let (i, p, r, at) =
        Runs-found t pid ps sim.tracked sim.unique
          (omega (arith, has, agrees' t ps s out sim pid)) in
      Completes-cong _ _ ps (set ps i (give_unit t p)) _ _ (omega arith) r.initials'
        (simulate-busy t ps s out rounds i p run pos (omega (arith, at 0)) r)
        (ih _ _ _ (Simulates-busy t ps s out sim i p r))

  pub simulate-Completes :
      (rounds t : ℕ) (ps : List ProcessStats) (s : S.State) (out : List Line)
      → Simulates t ps s out
      → Completes (t + rounds) ps (simulate S rounds t ps s out)
  unfolding simulate
  simulate-Completes zero t ps s out sim =
      Completes-stop 0 t ps s out sim (λ h. work-still_running ps (omega (arith, sim.budget)))
        (λ h. omega (arith, sim.count))
  simulate-Completes (suc rounds) t ps s out sim = elim (Bool-cases (still_running ps)) [
    | inr stop ↦
        Completes-cong _ _ ps ps _ _ refl refl (simulate-stop rounds t ps s out stop)
          (Completes-stop (suc rounds) t ps s out sim (λ _. stop) (λ h. cc))
    | inl run ↦ elim (eq_cases (chosen t ps s out) 0) [
      | inl e ↦
          Completes-cong _ _ ps ps _ _ (omega arith) refl (simulate-idle t ps s out rounds run e)
            (simulate-Completes rounds (t + 1) ps _ _ (Simulates-idle t ps s out sim run e))
      | inr ne ↦
          simulate-busy_Completes rounds t ps s out (simulate-Completes rounds (t + 1)) sim run
            (omega arith)
    ]
  ]
