-- ===== src/Simulator/Running.antt =====
-- A round of the simulation of simulator.c that runs a process.
use cosc.Base.{
  ℕ, zero, suc, ◌+◌, ◌-◌, ◌≤◌, ◌<◌, ◌≡◌, ◌≢◌, refl, ap, List, [], ◌∷◌, some, arith, All, ◌==◌,
  if◌then◌else◌, eq_cases, inl, inr, get_elem?, set,
}
use cosc.Simulator.{ProcessStats, pid_index_from, give_unit}
use cosc.Simulator.Invariant.{
  IsTracked, UniquePids, initials, due, spent, work, All-IsTracked-later, give_unit-IsTracked,
  give_unit-processed, give_unit-initial, IsTracked-later,
}

All-set :
    (P : ProcessStats → Type 0) (ps : List ProcessStats) (i : ℕ) (p : ProcessStats)
    → All P ps
    → P p
    → All P (set ps i p)
All-set P [] i p h hp = tt
All-set P (x ∷ xs) zero p h hp = (hp, h.1)
All-set P (x ∷ xs) (suc i) p h hp = (h.0, All-set P xs i p h.1 hp)

-- No process of the list has this PID: nothing is due or spent for it.
due_absent :
    (t pid : ℕ) (ps : List ProcessStats) → All (λ y. y.initial.pid ≢ pid) ps → due t ps pid ≡ 0
due_absent t pid [] h = refl
due_absent t pid (p ∷ ps) h = ground (arith, due_absent t pid ps h.1)

-- `p`, at index `i`, is the process with PID `pid`, and it may run at step `t`.
pub record IsNext (t pid : ℕ) (ps : List ProcessStats) (i : ℕ) (p : ProcessStats) : Type 0 where
  pub found : get_elem? ps i ≡ some p
  pub same_pid : p.initial.pid ≡ pid
  pub arrived : p.initial.arrival_time < t + 1
  pub unfinished : p.processed_time < p.initial.processing_time
  pub tracked : IsTracked t p

-- What step `t` does to the array when it runs index `i`.
pub record Runs (t pid : ℕ) (ps : List ProcessStats) (i : ℕ) (p : ProcessStats) : Type 0 where
  pub next : IsNext t pid ps i p
  pub kept : (give_unit t p).processed_time ≤ (give_unit t p).initial.processing_time
  pub tracked' : All (IsTracked (t + 1)) (set ps i (give_unit t p))
  pub unique' : UniquePids (set ps i (give_unit t p))
  pub initials' : initials (set ps i (give_unit t p)) ≡ initials ps
  pub work' : work (set ps i (give_unit t p)) + 1 ≡ work ps
  pub due' :
      (q : ℕ)
      → due (t + 1) (set ps i (give_unit t p)) q ≡ due (t + 1) ps q - (if pid == q then 1 else 0)
  pub spent' :
      (q : ℕ) → spent q (set ps i (give_unit t p)) ≡ spent q ps + (if pid == q then 1 else 0)

module _ (t pid : ℕ) where
  Runs-here :
      (x : ProcessStats) (xs : List ProcessStats)
      → All (IsTracked t) (x ∷ xs)
      → UniquePids (x ∷ xs)
      → x.initial.pid ≡ pid
      → 0 < due (t + 1) (x ∷ xs) pid
      → Runs t pid (x ∷ xs) 0 x
  Runs-here x xs h u e d = record {
    next = n;
    kept = ground (arith, processed, give_unit-initial t x, n.unfinished);
    tracked' = (give_unit-IsTracked t x h.0 n.arrived n.unfinished, All-IsTracked-later t xs h.1);
    unique' = rw (give_unit-initial t x) u;
    initials' = rw (give_unit-initial t x);
    work' = ground (arith, processed, give_unit-initial t x, n.unfinished);
    due' = λ q. ground (arith, processed, give_unit-initial t x, absent, n.arrived);
    spent' = λ q. ground (arith, processed, give_unit-initial t x);
  }
    where
      absent : due (t + 1) xs pid ≡ 0
      absent = due_absent (t + 1) pid xs (rw (← e) u.0)

      n : IsNext t pid (x ∷ xs) 0 x
      n = record {
        found = refl;
        same_pid = e;
        arrived = ground (arith, absent);
        unfinished = ground (arith, absent);
        tracked = h.0;
      }

      processed : (give_unit t x).processed_time ≡ x.processed_time + 1
      processed = give_unit-processed t x h.0 n.unfinished

  Runs-later :
      (x : ProcessStats) (xs : List ProcessStats) (i : ℕ) (p : ProcessStats)
      → IsTracked t x
      → All (λ y. y.initial.pid ≢ x.initial.pid) xs
      → x.initial.pid ≢ pid
      → Runs t pid xs i p
      → 0 < due (t + 1) xs pid
      → Runs t pid (x ∷ xs) (suc i) p
  Runs-later x xs i p h u ne r d = record {
    next = record {
      found = r.next.found;
      same_pid = r.next.same_pid;
      arrived = r.next.arrived;
      unfinished = r.next.unfinished;
      tracked = r.next.tracked;
    };
    kept = r.kept;
    tracked' = (IsTracked-later t x h, r.tracked');
    unique' =
        (All-set _ xs i _ u (ground (arith, give_unit-initial t p, r.next.same_pid)), r.unique');
    initials' = ap (λ l. x.initial ∷ l) r.initials';
    work' = omega (arith, r.work');
    due' = λ q. ground (arith, r.due' q);
    spent' = λ q. omega (arith, r.spent' q);
  }

  -- `get_pid_index` finds the process that is to run.
  pub Runs-found :
      (ps : List ProcessStats)
      → All (IsTracked t) ps
      → UniquePids ps
      → 0 < due (t + 1) ps pid
      → (i : ℕ) × (p : ProcessStats) × Runs t pid ps i p
        × ((k : ℕ) → pid_index_from pid k ps ≡ k + i)
  unfolding pid_index_from
  Runs-found [] h u d = absurd (omega arith)
  Runs-found (x ∷ xs) h u d = elim (eq_cases x.initial.pid pid) [
    | inl e ↦ (0, x, Runs-here x xs h u e d, λ k. ground arith)
    | inr ne ↦
        let d' : 0 < due (t + 1) xs pid = ground arith in
        let (i, p, r, at) = Runs-found xs h.1 u.1 d' in
        (suc i, p, Runs-later x xs i p h.0 u.0 ne r d', λ k. ground (arith, at (k + 1)))
  ]
