-- ===== src/Simulator.antt =====
-- The simulation of assignments/assignment4/simulator/simulator.c, over any scheduling algorithm.
pub mod Invariant
pub mod Steps
pub mod Arrivals
pub mod Running
pub mod Outcome
pub mod Correct
pub mod Input
pub mod Faults
pub mod Related
pub mod Main
mod Examples
use cosc.Base.{
  ℕ, zero, suc, ◌+◌, ◌-◌, ◌^◌, Bool, true, false, not, List, [], ◌∷◌, ◌++◌, Option, none, some, ltb,
  ◌==◌, if◌then◌else◌, u32, length, get_elem?, set,
}
use cosc.Process.{ProcessInitial, Scheduler}

-- `process_stats`.
pub record ProcessStats : Type 0 where
  pub initial : ProcessInitial
  pub processed_time : ℕ
  pub end_time : ℕ

-- `TIMEOUT`.
abbrev pub timeout : ℕ
timeout = 1000000

unfoldable pub still_running : List ProcessStats → Bool
still_running [] = false
still_running (p ∷ ps) =
    if ltb p.processed_time p.initial.processing_time then true else still_running ps

-- The loop of `get_pid_index` from index `i` on; `-1` as an unsigned int is `2 ^ 32 - 1`.
unfoldable pub pid_index_from : ℕ → ℕ → List ProcessStats → ℕ
pid_index_from pid i [] = 2 ^ 32 - 1
pid_index_from pid i (p ∷ ps) = if p.initial.pid == pid then i else pid_index_from pid (i + 1) ps

unfoldable pub get_pid_index : ℕ → List ProcessStats → ℕ
unfolding pid_index_from
get_pid_index pid processes = pid_index_from pid 0 processes

-- What the simulation prints.
pub data Line : Type 0 where
  ran : (time pid : ℕ) → Line
  idle : (time : ℕ) → Line
  invalid_pid : (pid : ℕ) → Line
  scheduled_too_long : (pid : ℕ) → Line

-- How `run_simulation` ends: it returns, with the contents of `processes` and the lines printed,
-- or it reads outside `processes`, which is undefined behaviour.
pub data Result : Type 0 where
  returned : Bool → List ProcessStats → List Line → Result
  out_of_bounds : Result

-- Lines 201 to 218: one unit of execution for `processes[index]`.
unfoldable pub give_unit : ℕ → ProcessStats → ProcessStats
give_unit time p =
    let p' = record p { processed_time = u32 (p.processed_time + 1) } in
    if p'.processed_time == p'.initial.processing_time then record p' { end_time = time } else p'

module _ (S : Scheduler) where
  open S use {State, add_to_ready_queue as add, get_next_scheduled_process as next}

  -- "Add any new processes to the queue".
  unfoldable pub add_arrivals : ℕ → List ProcessStats → State → State
  add_arrivals time [] s = s
  add_arrivals time (p ∷ ps) s =
      add_arrivals time ps (if p.initial.arrival_time == time then add p.initial s else s)

  -- The loop over `time`, with the rounds left until `time_bound`. `time` stays below `time_bound`,
  -- so `time++` does not wrap.
  unfoldable pub simulate : ℕ → ℕ → List ProcessStats → State → List Line → Result
  simulate zero time processes s out = returned (not (still_running processes)) processes out
  simulate (suc rounds) time processes s out = elim (still_running processes) [
    | false ↦ returned (not (still_running processes)) processes out
    | true ↦
        let (pid, s') = next (add_arrivals time processes s) in
        let index = get_pid_index pid processes in
        elim (ltb 0 pid) [
          | false ↦ simulate rounds (time + 1) processes s' (out ++ idle time ∷ [])
          | true ↦
              if ltb index 0
              then returned false processes (out ++ invalid_pid pid ∷ [])
              else elim (get_elem? processes index) [
                | none ↦ out_of_bounds
                | some p ↦
                    let p' = give_unit time p in
                    let processes' = set processes index p' in
                    elim (ltb p'.initial.processing_time p'.processed_time) [
                      | true ↦ returned false processes' (out ++ scheduled_too_long pid ∷ [])
                      | false ↦ simulate rounds (time + 1) processes' s' (out ++ ran time pid ∷ [])
                    ]
              ]
        ]
  ]

  unfoldable pub run_simulation : List ProcessStats → ℕ → Result
  run_simulation processes time_bound = simulate time_bound 0 processes S.start []

unfoldable pub calculate_turnaround_time : ProcessStats → ℕ
calculate_turnaround_time process =
    u32 (u32 (process.end_time + 2 ^ 32 - process.initial.arrival_time) + 1)

unfoldable pub calculate_wait_time : ProcessStats → ℕ
unfolding calculate_turnaround_time
calculate_wait_time process =
    u32 (calculate_turnaround_time process + 2 ^ 32 - process.processed_time)
