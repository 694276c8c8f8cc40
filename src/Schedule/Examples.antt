-- ===== src/Schedule/Examples.antt =====
-- The schedule of the example of assignments/assignment4/simulator/readme.md, with its lines in
-- another order and a gap before the last process.
use mathlib.Core.List.{Perm}
use cosc.Base.{ℕ, ◌≡◌, refl, true, List, [], ◌∷◌, arith}
use cosc.Process.{ProcessInitial}
use cosc.ReadyList.Order.{IsSorted}
use cosc.Fcfs.{fcfs}
use cosc.Simulator.{ProcessStats, ran, idle, returned, run_simulation}
use cosc.Simulator.Correct.{latest_arrival}
use cosc.Schedule.{serve}
use cosc.Schedule.Run.{fcfs_prints}

abbrev process : ℕ → ℕ → ℕ → ProcessInitial
process pid arrival_time processing_time = record {
  pid = pid;
  processing_time = processing_time;
  arrival_time = arrival_time;
}

abbrev stats : ProcessInitial → ProcessStats
stats initial = record { initial = initial; processed_time = 0; end_time = 0 }

abbrev lines : List ProcessInitial
lines = process 3 6 2 ∷ process 1 0 2 ∷ process 2 0 1 ∷ []

abbrev sample : List ProcessStats
sample = stats (process 3 6 2) ∷ stats (process 1 0 2) ∷ stats (process 2 0 1) ∷ []

gap :
    serve 0 (process 1 0 2 ∷ process 2 0 1 ∷ process 3 6 2 ∷ [])
    ≡ ran 0 1 ∷ ran 1 1 ∷ ran 2 2 ∷ idle 3 ∷ idle 4 ∷ idle 5 ∷ ran 6 3 ∷ ran 7 3 ∷ []
gap = refl

fcfs_prints_example :
    (order : List ProcessInitial) × (processes : List ProcessStats) × Perm order lines
    × IsSorted (λ x. x.arrival_time) (λ x. x.pid) order
    × (run_simulation fcfs sample 20 ≡ returned true processes (serve 0 order))
unfolding latest_arrival
fcfs_prints_example =
    fcfs_prints sample 20 (record { fresh = omega arith; unique = omega arith }) (omega arith)
