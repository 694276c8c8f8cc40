-- ===== src/Simulator/Examples.antt =====
-- Runs of the simulator on the example of assignments/assignment4/simulator/readme.md, and its
-- theorems at that example.
use cosc.Base.{
  ℕ, ◌+◌, ◌≡◌, ◌↔◌, refl, true, none, some, Option, List, [], ◌∷◌, ◌++◌, arith, All, length, ◌&&◌,
  ◌*◌, ◌-◌, leb, if◌then◌else◌, false,
}
use cosc.Process.{ProcessInitial, Scheduler}
use cosc.ReadyList.{add_sorted, skip_pids}
use cosc.Fcfs.{add_to_ready_queue, get_next_scheduled_process, fcfs}
use cosc.RoundRobin.{round_robin}
use cosc.RoundRobin.Work.{round_robin-IsWorkConserving}
use cosc.Feedback.{constant, exponential, constant_quantum, exponential_quantum}
use cosc.Feedback.Work.{feedback-IsWorkConserving}
use cosc.Simulator.{
  ProcessStats, Line, ran, returned, out_of_bounds, timeout, still_running, pid_index_from,
  get_pid_index, give_unit, add_arrivals, simulate, run_simulation, calculate_turnaround_time,
  calculate_wait_time,
}
use cosc.Simulator.Invariant.{IsFinished, IsLoaded, initials}
use cosc.Simulator.Outcome.{Ends}
use cosc.Simulator.Correct.{
  run_simulation_sound, run_simulation_completes, turnaround_and_wait, latest_arrival,
}
use cosc.Simulator.Faults.{unknown_pid_reads_past_array}
use cosc.Simulator.Input.{check_process, load, load_processes, Number, parse_line, has_pid}
use cosc.Simulator.Input.Checked.{IsAcceptable, check_process_iff, main_simulation_sound}
use cosc.Simulator.Input.Parsed.{parse_line_format}

abbrev process : ℕ → ℕ → ℕ → ProcessInitial
process pid arrival_time processing_time = record {
  pid = pid;
  processing_time = processing_time;
  arrival_time = arrival_time;
}

abbrev stats : ProcessInitial → ProcessStats
stats initial = record { initial = initial; processed_time = 0; end_time = 0 }

abbrev lines : List ProcessInitial
lines = process 1 0 10 ∷ process 2 2 1 ∷ process 3 6 2 ∷ []

abbrev sample : List ProcessStats
sample = stats (process 1 0 10) ∷ stats (process 2 2 1) ∷ stats (process 3 6 2) ∷ []

sample-IsLoaded : IsLoaded sample
sample-IsLoaded = record { fresh = omega arith; unique = omega arith }

-- The schedule that the readme prints for FCFS.
sample_schedule :
    (ps : List ProcessStats) × (run_simulation fcfs sample timeout
      ≡ returned true ps (
          ran 0 1
          ∷ ran 1 1
          ∷ ran 2 1
          ∷ ran 3 1
          ∷ ran 4 1
          ∷ ran 5 1
          ∷ ran 6 1
          ∷ ran 7 1
          ∷ ran 8 1
          ∷ ran 9 1
          ∷ ran 10 2
          ∷ ran 11 3
          ∷ ran 12 3
          ∷ []))
unfolding run_simulation simulate still_running get_pid_index pid_index_from give_unit add_arrivals
    add_to_ready_queue get_next_scheduled_process add_sorted skip_pids
sample_schedule = (_, refl)

run_simulation_sound_example : Ends 40 sample (run_simulation round_robin sample 40)
run_simulation_sound_example =
    run_simulation_sound round_robin-IsWorkConserving sample 40 sample-IsLoaded

run_simulation_completes_example :
    (processes : List ProcessStats) × (lines : List Line) × (run_simulation constant sample 40
      ≡ returned true processes lines)
    × (initials processes ≡ initials sample)
    × All IsFinished processes
unfolding latest_arrival
run_simulation_completes_example =
    run_simulation_completes (feedback-IsWorkConserving constant_quantum) sample 40 sample-IsLoaded
      (omega arith)

-- Process 2 of the sample after the run: it waited from time 2 to time 9.
abbrev second : ProcessStats
second = record { initial = process 2 2 1; processed_time = 1; end_time = 10 }

turnaround_and_wait_example :
    (calculate_turnaround_time second + 2 ≡ 11)
    × (calculate_wait_time second + 1 ≡ calculate_turnaround_time second)
turnaround_and_wait_example = turnaround_and_wait 13 second (omega arith) (omega arith) refl

-- An algorithm that always returns PID 9.
abbrev stray : Scheduler
stray = record {
  State = Unit {0};
  start = tt;
  add_to_ready_queue = λ p s. s;
  get_next_scheduled_process = λ s. (9, s);
}

unknown_pid_reads_past_array_example : simulate stray 6 0 sample tt [] ≡ out_of_bounds
unfolding still_running
unknown_pid_reads_past_array_example =
    unknown_pid_reads_past_array stray 5 0 sample tt [] refl (omega arith) (omega arith)
      (omega arith)

check_process_iff_example :
    (check_process (process 2 2 1) (stats (process 1 0 10) ∷ []) ≡ none)
    ↔ IsAcceptable (process 2 2 1) (stats (process 1 0 10) ∷ [])
check_process_iff_example = check_process_iff (process 2 2 1) (stats (process 1 0 10) ∷ [])

-- A file whose lines are given as a list; at its end a read gives PID 0.
abbrev read_list : List ProcessInitial → Option ProcessInitial × List ProcessInitial
read_list [] = (some (process 0 0 0), [])
read_list (p ∷ ps) = (some p, ps)

main_simulation_sound_example :
    (length sample ≡ 3) × Ends timeout sample (run_simulation exponential sample timeout)
unfolding load_processes load check_process has_pid
main_simulation_sound_example =
    main_simulation_sound read_list (feedback-IsWorkConserving exponential_quantum) 3 lines sample
      refl

-- `strtoul` for texts that begin with a digit, by the value read so far.
abbrev strtoul_from : ℕ → List ℕ → Number
strtoul_from n [] = record { value = n; rest = []; errno = false }
strtoul_from n (c ∷ cs) =
    if leb b'0' c && leb c b'9'
    then strtoul_from (n * 10 + (c - b'0')) cs
    else record { value = n; rest = c ∷ cs; errno = false }

parse_line_format_example :
    parse_line
      (strtoul_from 0)
      ((b'1' ∷ b'2' ∷ []) ++ (b',' ∷ ((b'4' ∷ []) ++ (b',' ∷ ((b'3' ∷ []) ++ (b'\n' ∷ []))))))
    ≡ some (process 12 4 3)
parse_line_format_example =
    parse_line_format (strtoul_from 0) (b'1' ∷ b'2' ∷ []) (b'4' ∷ []) (b'3' ∷ []) (process 12 4 3)
      ((λ rest. refl), (λ rest. refl)) ((λ rest. refl), (λ rest. refl))
      ((λ rest. refl), (λ rest. refl)) (omega arith) []
