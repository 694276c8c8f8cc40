-- ===== src/Simulator/Faults.antt =====
-- What `run_simulation` does if an algorithm returns a PID that is not in the array.
use cosc.Base.{
  ℕ, zero, suc, ◌+◌, ◌-◌, ◌≤◌, ◌<◌, ◌^◌, ◌≡◌, ◌≢◌, refl, true, none, List, [], ◌∷◌, arith, All,
  length, get_elem?, lt→ltb,
}
use cosc.Process.{Scheduler}
use cosc.Simulator.{
  ProcessStats, Line, out_of_bounds, still_running, pid_index_from, get_pid_index, add_arrivals,
  simulate,
}

absent-index :
    (pid i : ℕ) (ps : List ProcessStats)
    → All (λ p. p.initial.pid ≢ pid) ps
    → pid_index_from pid i ps ≡ 2 ^ 32 - 1
unfolding pid_index_from
absent-index pid i [] h = refl
absent-index pid i (p ∷ ps) h = ground (arith, absent-index pid (i + 1) ps h.1)

get_elem?-past {ℓ} : {A : Type ℓ} (xs : List A) (i : ℕ) → length xs ≤ i → get_elem? xs i ≡ none
get_elem?-past [] i h = refl
get_elem?-past (x ∷ xs) zero h = absurd (omega arith)
get_elem?-past (x ∷ xs) (suc i) h = get_elem?-past xs i (omega arith)

-- If, while a process still needs time, the algorithm returns a PID above 0 that no process of the
-- array has, the simulation does not stop with its message about an invalid PID: the index -1 is
-- converted to an unsigned int, the test below 0 never holds, and the code reads behind the array.
pub unknown_pid_reads_past_array :
    (S : Scheduler) (rounds time : ℕ) (ps : List ProcessStats) (s : S.State) (out : List Line)
    → still_running ps ≡ true
    → 0 < (S.get_next_scheduled_process (add_arrivals S time ps s)).0
    → All (λ p. p.initial.pid ≢ (S.get_next_scheduled_process (add_arrivals S time ps s)).0) ps
    → length ps < 2 ^ 32
    → simulate S (suc rounds) time ps s out ≡ out_of_bounds
unfolding simulate get_pid_index
unknown_pid_reads_past_array S rounds time ps s out run pos absent small =
    let pid = (S.get_next_scheduled_process (add_arrivals S time ps s)).0 in
    rw (simulate, run, lt→ltb 0 pid pos)
      (rw (absent-index pid 0 ps absent) (rw (get_elem?-past ps (2 ^ 32 - 1) (omega arith))))
