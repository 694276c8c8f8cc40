-- ===== src/Fcfs/Examples.antt =====
-- Runs of FCFS, and its theorems at concrete lists.
use cosc.Base.{ℕ, ◌≡◌, refl, List, [], ◌∷◌}
use cosc.ReadyList.{add_sorted, skip_pids}
use cosc.Fcfs.{FcfsProcess, add_to_ready_queue}

abbrev node : ℕ → ℕ → ℕ → ℕ → FcfsProcess
node pid arrival_time processing_time processed_time = record {
  pid = pid;
  processing_time = processing_time;
  arrival_time = arrival_time;
  processed_time = processed_time;
}

abbrev waiting : List FcfsProcess
waiting = node 7 1 4 2 ∷ node 3 5 1 0 ∷ node 8 5 2 0 ∷ []

-- An arrival at the same time goes before the greater PID.
add_sample :
    add_to_ready_queue (record { pid = 5; processing_time = 6; arrival_time = 5 }) waiting
    ≡ node 7 1 4 2 ∷ node 3 5 1 0 ∷ node 5 5 6 0 ∷ node 8 5 2 0 ∷ []
unfolding add_to_ready_queue add_sorted skip_pids
add_sample = refl
