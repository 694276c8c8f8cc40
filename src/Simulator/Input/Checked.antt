-- ===== src/Simulator/Input/Checked.antt =====
-- What the checks of `main` establish about the array that it hands to `run_simulation`.
use native.Mathlib.Nat.{zero-add}
use mathlib.Core.Path.{subst}
use mathlib.Core.List.{append-nil, append_assoc}
use cosc.Base.{
  ap, ℕ, zero, suc, ◌+◌, ◌<◌, ◌≡◌, ◌≢◌, ◌↔◌, refl, sym, ◌∙◌, false, List, [], ◌∷◌, ◌++◌, Option,
  none, some, arith, All, All-append, length, length-append, Option-cases, inl, inr,
}
use cosc.Process.{ProcessInitial, Scheduler, IsWorkConserving}
use cosc.Simulator.{ProcessStats, timeout, run_simulation}
use cosc.Simulator.Invariant.{UniquePids, IsLoaded}
use cosc.Simulator.Outcome.{Ends}
use cosc.Simulator.Correct.{run_simulation_sound}
use cosc.Simulator.Input.{max_pid, has_pid, check_process, Loaded, loaded, load, load_processes}

-- What the input format asks of a process, given the processes before it.
pub record IsAcceptable (initial : ProcessInitial) (processes : List ProcessStats) : Type 0 where
  pub pid_range : (0 < initial.pid) × (initial.pid < max_pid)
  pub arrival_range : initial.arrival_time < timeout
  pub time_range : (0 < initial.processing_time) × (initial.processing_time < timeout)
  pub new_pid : All (λ p. p.initial.pid ≢ initial.pid) processes

has_pid→absent :
    (pid : ℕ) (ps : List ProcessStats) → has_pid pid ps ≡ false → All (λ p. p.initial.pid ≢ pid) ps
unfolding has_pid
has_pid→absent pid [] h = tt
has_pid→absent pid (p ∷ ps) h = (ground arith, has_pid→absent pid ps (ground arith))

absent→has_pid :
    (pid : ℕ) (ps : List ProcessStats) → All (λ p. p.initial.pid ≢ pid) ps → has_pid pid ps ≡ false
unfolding has_pid
absent→has_pid pid [] h = refl
absent→has_pid pid (p ∷ ps) h = ground (arith, absent→has_pid pid ps h.1)

-- A process passes the checks of `main` exactly if its PID is above 0 and below 999999, its arrival
-- time below 1000000, its processing time above 0 and below 1000000, and its PID is that of no
-- process before it.
pub check_process_iff :
    (initial : ProcessInitial) (processes : List ProcessStats)
    → (check_process initial processes ≡ none) ↔ IsAcceptable initial processes
unfolding check_process
check_process_iff initial processes =
    (accept, λ a. ground (arith, absent→has_pid initial.pid processes a.new_pid))
  where
    accept : check_process initial processes ≡ none → IsAcceptable initial processes
    accept h =
        let absent : has_pid initial.pid processes ≡ false = ground arith in
        record {
          pid_range = ground arith;
          arrival_range = ground arith;
          time_range = ground arith;
          new_pid = has_pid→absent initial.pid processes absent;
        }

UniquePids-last :
    (p : ProcessStats) (ps : List ProcessStats)
    → All (λ y. y.initial.pid ≢ p.initial.pid) ps
    → UniquePids ps
    → UniquePids (ps ++ p ∷ [])
UniquePids-last p [] h u = (tt, tt)
UniquePids-last p (x ∷ xs) h u =
    (All-append _ xs (p ∷ []) u.0 (λ e. h.0 (sym e), tt), UniquePids-last p xs h.1 u.1)

abbrev fresh : ProcessInitial → ProcessStats
fresh initial = record { initial = initial; processed_time = 0; end_time = 0 }

IsLoaded-last :
    (initial : ProcessInitial) (ps : List ProcessStats)
    → IsAcceptable initial ps
    → IsLoaded ps
    → IsLoaded (ps ++ fresh initial ∷ [])
IsLoaded-last initial ps a l = record {
  fresh = All-append _ ps (fresh initial ∷ []) l.fresh (ground arith, tt);
  unique = UniquePids-last (fresh initial) ps a.new_pid l.unique;
}

-- If the loop fills the array, the array has the processes that it had and one for each line left.
abbrev Fills : ℕ → Loaded → Type 0
Fills n (loaded ps) = IsLoaded ps × (length ps ≡ n)
Fills n _ = Unit

module _ {File : Type 0} (read : File → Option ProcessInitial × File) where
  load-Fills :
      (left : ℕ) (ps : List ProcessStats) (file : File)
      → IsLoaded ps
      → Fills (length ps + left) (load read left ps file)
  unfolding load
  load-Fills zero ps file l = (l, omega arith)
  load-Fills (suc left) ps file l = elim (Option-cases (read file).0) [
    | inl e ↦ rw (load, e) tt
    | inr (initial, e) ↦ elim (Option-cases (check_process initial ps)) [
      | inr (err, e') ↦ rw (load, e, e') tt
      | inl e' ↦
          rw (load, e, e')
            (subst (λ n. Fills n (load read left (ps ++ fresh initial ∷ []) (read file).1))
              (omega (arith, length-append ps (fresh initial ∷ [])))
              (load-Fills left (ps ++ fresh initial ∷ []) (read file).1
                (IsLoaded-last initial ps ((check_process_iff initial ps).0 e') l)))
    ]
  ]

  -- The lines that the next reads give, and that each passes the checks after those before it.
  abbrev pub Gives : File → List ProcessInitial → List ProcessStats → Type 0
  Gives file [] ps = Unit
  Gives file (initial ∷ rest) ps =
      ((read file).0 ≡ some initial)
      × IsAcceptable initial ps
      × Gives (read file).1 rest (ps ++ fresh initial ∷ [])

  abbrev pub all_fresh : List ProcessInitial → List ProcessStats
  all_fresh [] = []
  all_fresh (initial ∷ rest) = fresh initial ∷ all_fresh rest

  load-Gives :
      (lines : List ProcessInitial) (file : File) (ps : List ProcessStats)
      → Gives file lines ps
      → load read (length lines) ps file ≡ loaded (ps ++ all_fresh lines)
  unfolding load
  load-Gives [] file ps g = rw append-nil
  load-Gives (initial ∷ rest) file ps g =
      rw (load, g.0, (check_process_iff initial ps).1 g.1)
        (load-Gives rest (read file).1 (ps ++ fresh initial ∷ []) g.2
          ∙ ap loaded (append_assoc ps (fresh initial ∷ []) (all_fresh rest)))

  -- If the file gives as many lines as it announces, between 1 and 999999, and each passes the
  -- checks after those before it, `main` fills the array with them, in order and not yet run.
  pub load_processes_accepts :
      (lines : List ProcessInitial) (file : File)
      → 0 < length lines
      → length lines < timeout
      → Gives file lines []
      → load_processes read (length lines) file ≡ some (loaded (all_fresh lines))
  unfolding load_processes
  load_processes_accepts lines file pos small g = ground (arith, load-Gives lines file [] g)

  -- What `main` hands over.
  pub load_processes-IsLoaded :
      (num_processes : ℕ) (file : File) (ps : List ProcessStats)
      → load_processes read num_processes file ≡ some (loaded ps)
      → IsLoaded ps × (length ps ≡ num_processes)
  unfolding load_processes
  load_processes-IsLoaded num_processes file ps e =
      let whole : Fills num_processes (load read num_processes [] file) =
        subst (λ n. Fills n (load read num_processes [] file)) (zero-add num_processes)
          (load-Fills num_processes [] file start) in
      let at : load read num_processes [] file ≡ loaded ps = ground arith in
      subst (Fills num_processes) at whole
    where
      start : IsLoaded []
      start = record { fresh = tt; unique = tt }

  -- Whenever `main` goes on to the simulation, the array has as many processes as the file
  -- announced, and the simulation of a work-conserving algorithm over it ends without an error
  -- message and without reading outside the array.
  pub main_simulation_sound :
      {S : Scheduler} (c : IsWorkConserving S) (num_processes : ℕ) (file : File)
      (ps : List ProcessStats)
      → load_processes read num_processes file ≡ some (loaded ps)
      → (length ps ≡ num_processes) × Ends timeout ps (run_simulation S ps timeout)
  main_simulation_sound c num_processes file ps e =
      let filled = load_processes-IsLoaded num_processes file ps e in
      (filled.1, run_simulation_sound c ps timeout filled.0)
