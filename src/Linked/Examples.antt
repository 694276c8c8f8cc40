-- ===== src/Linked/Examples.antt =====
-- Calls with nodes in memory, where `malloc` gives the address that follows the sum of all others.
use cosc.Base.{
  ℕ, ◌+◌, ◌<◌, ◌≡◌, refl, true, false, List, [], ◌∷◌, some, none, Option, arith, total, length,
}
use cosc.Process.{ProcessInitial}
use cosc.Linked.Nodes.{Memory, member, IsAllocator, load, store, malloc, free, print}
use cosc.Linked.{
  set_next_process, pid_after, print_list, add_next, remove_next, skip_arrivals, skip_pids, insert,
  report, add_to_ready_queue, finish_turn, schedule_from, get_next_scheduled_process, Call, arrive,
  schedule, run_calls, initial,
}
use cosc.Linked.Calls.{run_on_list, run_calls-refines}
use cosc.Linked.Refines.{Represents}
use cosc.Linked.Scheduler.{linked}
use cosc.Linked.Simulated.{simulation_refines}
use cosc.Fcfs.{new_process, fcfs}
use cosc.Simulator.{ProcessStats, run_simulation}

abbrev sum_of : List ℕ → ℕ
sum_of used = total (λ p. p) used

abbrev next_address : List ℕ → ℕ
next_address used = sum_of used + 1

member-above : (used : List ℕ) (p : ℕ) → sum_of used < p → member p used ≡ false
member-above [] p h = refl
member-above (q ∷ used) p h = ground (arith, member-above used p)

next_address-IsAllocator : IsAllocator next_address
next_address-IsAllocator = record {
  not_null = λ used. omega arith;
  fresh = λ used. member-above used (next_address used) (omega arith);
}

process : ℕ → ℕ → ℕ → ProcessInitial
process pid processing_time arrival_time = record {
  pid = pid;
  processing_time = processing_time;
  arrival_time = arrival_time;
}

-- Two processes, the one with the lower PID added last; the first one finishes.
abbrev calls : List Call
calls =
    arrive (process 5 2 0) ∷ arrive (process 3 1 0) ∷ schedule ∷ schedule ∷ schedule ∷ schedule ∷ []

abbrev pids_of : Option (List ℕ × Memory) → List ℕ
pids_of none = []
pids_of (some (pids, m)) = pids

abbrev lines_of : Option (List ℕ × Memory) → ℕ
lines_of none = 0
lines_of (some (pids, m)) = length m.printed

scheduled : pids_of (run_calls next_address true 9 calls initial) ≡ 3 ∷ 5 ∷ 5 ∷ 0 ∷ []
unfolding run_calls process load store malloc free print set_next_process pid_after print_list
    add_next remove_next skip_arrivals skip_pids insert report add_to_ready_queue finish_turn
    schedule_from get_next_scheduled_process new_process
scheduled = refl

reported : lines_of (run_calls next_address true 9 calls initial) ≡ 8
unfolding run_calls process load store malloc free print set_next_process pid_after print_list
    add_next remove_next skip_arrivals skip_pids insert report add_to_ready_queue finish_turn
    schedule_from get_next_scheduled_process new_process
reported = refl

run_calls-refines_example :
    (m : Memory) × (run_calls next_address true 9 calls initial
      ≡ some ((run_on_list calls []).0, m))
    × Represents m (run_on_list calls []).1
run_calls-refines_example =
    run_calls-refines next_address true 9 calls next_address-IsAllocator (omega arith)

-- Two processes in a simulation.
abbrev stats : ℕ → ℕ → ℕ → ProcessStats
stats pid processing_time arrival_time = record {
  initial = process pid processing_time arrival_time;
  processed_time = 0;
  end_time = 0;
}

simulation_refines_example :
    run_simulation (linked next_address true 4) (stats 5 2 0 ∷ stats 3 1 0 ∷ []) 30
    ≡ run_simulation fcfs (stats 5 2 0 ∷ stats 3 1 0 ∷ []) 30
simulation_refines_example =
    simulation_refines next_address true 4 (stats 5 2 0 ∷ stats 3 1 0 ∷ []) 30
      next_address-IsAllocator (omega arith)
