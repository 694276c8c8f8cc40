-- ===== src/Simulator/Related.antt =====
-- Two algorithms that agree on every call give the same simulation.
use native.Mathlib.Nat.{zero-add}
use mathlib.Core.Path.{subst}
use cosc.Base.{
  ℕ, zero, suc, ◌+◌, ◌≤◌, ◌≡◌, refl, ap, ◌∙◌, true, false, not, List, [], ◌∷◌, ◌++◌, none, some,
  arith, total, leb, ltb, ◌==◌, if◌then◌else◌, Bool-cases, Option-cases, inl, inr, get_elem?, set,
  length,
}
use cosc.Process.{ProcessInitial, Scheduler}
use cosc.Simulator.{
  ProcessStats, Line, ran, idle, invalid_pid, scheduled_too_long, Result, returned, out_of_bounds,
  still_running, get_pid_index, give_unit, add_arrivals, simulate, run_simulation,
}
use cosc.Simulator.Invariant.{initials, give_unit-initial}

-- The states correspond, and go on doing so for `k` more arrivals and any number of calls of
-- `get_next_scheduled_process`, which returns the same PID in both.
pub record Relation (S T : Scheduler) : Type 1 where
  pub Related : ℕ → S.State → T.State → Type 0
  pub add :
      (k : ℕ) (p : ProcessInitial) (s : S.State) (t : T.State)
      → Related (suc k) s t
      → Related k (S.add_to_ready_queue p s) (T.add_to_ready_queue p t)
  pub next :
      (k : ℕ) (s : S.State) (t : T.State)
      → Related k s t
      → ((S.get_next_scheduled_process s).0 ≡ (T.get_next_scheduled_process t).0)
        × Related k (S.get_next_scheduled_process s).1 (T.get_next_scheduled_process t).1

-- A round of the loop, with what follows it as a function of the array and the output.
abbrev round :
    ℕ → List ProcessStats → List Line → ℕ → (List ProcessStats → List Line → Result) → Result
round time processes out pid rest = elim (still_running processes) [
  | false ↦ returned (not (still_running processes)) processes out
  | true ↦ elim (ltb 0 pid) [
    | false ↦ rest processes (out ++ idle time ∷ [])
    | true ↦
        if ltb (get_pid_index pid processes) 0
        then returned false processes (out ++ invalid_pid pid ∷ [])
        else elim (get_elem? processes (get_pid_index pid processes)) [
          | none ↦ out_of_bounds
          | some p ↦
              let p' = give_unit time p in
              let processes' = set processes (get_pid_index pid processes) p' in
              elim (ltb p'.initial.processing_time p'.processed_time) [
                | true ↦ returned false processes' (out ++ scheduled_too_long pid ∷ [])
                | false ↦ rest processes' (out ++ ran time pid ∷ [])
              ]
        ]
  ]
]

initials-set :
    (ps : List ProcessStats) (i : ℕ) (p q : ProcessStats)
    → get_elem? ps i ≡ some p
    → q.initial ≡ p.initial
    → initials (set ps i q) ≡ initials ps
initials-set [] i p q h e = refl
initials-set (x ∷ ps) zero p q h e = ground arith
initials-set (x ∷ ps) (suc i) p q h e = ap (λ l. x.initial ∷ l) (initials-set ps i p q h e)

round_cong :
    (time : ℕ) (ps : List ProcessStats) (out : List Line) (pid : ℕ)
    (f g : List ProcessStats → List Line → Result)
    → ((ps' : List ProcessStats) (out' : List Line)
        → initials ps' ≡ initials ps
        → f ps' out' ≡ g ps' out')
    → round time ps out pid f ≡ round time ps out pid g
round_cong time ps out pid f g h = elim (Bool-cases (still_running ps)) [
  | inr stop ↦ rw (round, stop) refl
  | inl run ↦ elim (Bool-cases (ltb 0 pid)) [
    | inr idles ↦ rw (round, run, idles) (h ps _ refl)
    | inl some_pid ↦ elim (Bool-cases (ltb (get_pid_index pid ps) 0)) [
      | inl bad ↦ rw (round, run, some_pid, bad) refl
      | inr good ↦ elim (Option-cases (get_elem? ps (get_pid_index pid ps))) [
        | inl out_of ↦ rw (round, run, some_pid, good, out_of) refl
        | inr (p, at) ↦
            elim (Bool-cases
              (ltb (give_unit time p).initial.processing_time (give_unit time p).processed_time)) [
                | inl long ↦ rw (round, run, some_pid, good) (rw at (rw long refl))
                | inr fits ↦
                    rw (round, run, some_pid, good)
                      (rw at (
                        rw fits (
                          h _ _ (
                            initials-set ps (get_pid_index pid ps) p (give_unit time p) at
                              (give_unit-initial time p)))))
              ]
      ]
    ]
  ]
]

-- How many processes arrive at time `t` or later.
abbrev coming : ℕ → List ProcessInitial → ℕ
coming t ps = total (λ p. if leb t p.arrival_time then 1 else 0) ps

module _ {S T : Scheduler} (r : Relation S T) where
  open r use {Related}

  add_arrivals-Related :
      (t k : ℕ) (ps : List ProcessStats) (s : S.State) (s' : T.State)
      → Related (total (λ p. if p.initial.arrival_time == t then 1 else 0) ps + k) s s'
      → Related k (add_arrivals S t ps s) (add_arrivals T t ps s')
  unfolding add_arrivals
  add_arrivals-Related t k [] s s' h = rw (zero-add k) at h
  add_arrivals-Related t k (p ∷ ps) s s' h = elim (Bool-cases (p.initial.arrival_time == t)) [
    | inl e ↦ rw e (
        add_arrivals-Related t k ps _ _
          (r.add _ p.initial s s' (subst (λ n. Related n s s') (ground arith) h)))
    | inr e ↦ rw e (add_arrivals-Related t k ps s s' (subst (λ n. Related n s s') (ground arith) h))
  ]

  coming-suc :
      (t : ℕ) (ps : List ProcessStats)
      → coming t (initials ps)
        ≡ total (λ p. if p.initial.arrival_time == t then 1 else 0) ps
          + coming (t + 1) (initials ps)
  coming-suc t [] = refl
  coming-suc t (p ∷ ps) = ground (arith, coming-suc t ps)

  simulate-Related :
      (rounds t : ℕ) (ps : List ProcessStats) (s : S.State) (s' : T.State) (out : List Line)
      → Related (coming t (initials ps)) s s'
      → simulate S rounds t ps s out ≡ simulate T rounds t ps s' out
  unfolding simulate
  simulate-Related zero t ps s s' out h = refl
  simulate-Related (suc rounds) t ps s s' out h =
      let arrived =
        add_arrivals-Related t (coming (t + 1) (initials ps)) ps s s'
          (subst (λ n. Related n s s') (coming-suc t ps) h) in
      let (same_pid, left) = r.next _ _ _ arrived in
      round_cong t ps out _ _ _ (λ ps' out' e.
        simulate-Related rounds (t + 1) ps' (S.get_next_scheduled_process (add_arrivals S t ps s)).1
          (T.get_next_scheduled_process (add_arrivals T t ps s')).1 out' (rw e left))
      ∙ ap
          (λ pid. round t ps out pid (λ ps' out'.
            simulate T rounds (t + 1) ps' (T.get_next_scheduled_process (add_arrivals T t ps s')).1
              out'))
          same_pid

  coming-le-length : (t : ℕ) (ps : List ProcessStats) → coming t (initials ps) ≤ length ps
  coming-le-length t [] = omega arith
  coming-le-length t (p ∷ ps) = ground (arith, coming-le-length t ps)

  -- If the states at the start correspond for as many arrivals as there are processes, the two
  -- simulations give the same result.
  pub run_simulation-Related :
      (ps : List ProcessStats) (time_bound : ℕ)
      → ((k : ℕ) → k ≤ length ps → Related k S.start T.start)
      → run_simulation S ps time_bound ≡ run_simulation T ps time_bound
  unfolding run_simulation
  run_simulation-Related ps time_bound h =
      simulate-Related time_bound 0 ps S.start T.start [] (h _ (coming-le-length 0 ps))
