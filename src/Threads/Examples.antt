-- ===== src/Threads/Examples.antt =====
-- A run of thread.c up to a state with two threads, and the theorems at it.
use cosc.Base.{◌+◌, ◌≤◌, ◌≡◌, refl, [], ◌∷◌, true, arith}
use cosc.Threads.{
  values, results, calculate_value, run_loop, created, entered, creating, printed, State, initial,
  init, create, calculate, lock, Reaches, here, later,
}
use cosc.Threads.Sum.{holding}
use cosc.Threads.Safety.{printed-eq-loop, mutual_exclusion}
use cosc.Threads.Finish.{steps, every_run_ends, can_finish}

loop_prints : run_loop values 0 ≡ 454
unfolding run_loop calculate_value
loop_prints = refl

-- Two threads have been created; the second one has the mutex.
abbrev two_threads : State
two_threads = record {
  main = creating 2;
  threads = created 0 ∷ entered 70 ∷ [];
  locked = true;
  total = 0;
}

two_threads-Reaches : Reaches results initial two_threads
unfolding calculate_value
two_threads-Reaches =
    let s1 = later here (init refl) in
    let s2 = later s1 (create 0 refl (omega arith)) in
    let s3 = later s2 (create 1 refl (omega arith)) in
    let s4 = later s3 (calculate (created 0 ∷ []) [] 1 70 tt refl refl) in
    later s4 (lock (created 0 ∷ []) [] 70 tt refl refl)

mutual_exclusion_example : holding (created 0) + holding (entered 70) ≤ 1
mutual_exclusion_example =
    mutual_exclusion two_threads [] [] [] (created 0) (entered 70) two_threads-Reaches refl

every_run_ends_example : steps two_threads-Reaches ≤ 76
every_run_ends_example = every_run_ends two_threads two_threads-Reaches

can_finish_example :
    (t : State) × Reaches results two_threads t × (t.main ≡ printed (run_loop values 0))
can_finish_example = can_finish two_threads two_threads-Reaches tt

-- A run to the end, as `can_finish` gives it.
abbrev ended : (t : State) × Reaches results initial t × (t.main ≡ printed (run_loop values 0))
ended = can_finish initial here tt

printed-eq-loop_example : 454 ≡ run_loop values 0
unfolding run_loop calculate_value
printed-eq-loop_example = printed-eq-loop ended.0 454 ended.1 ended.2
