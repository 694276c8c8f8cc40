-- ===== src/RoundRobin.antt =====
-- assignments/assignment4/simulator/submissions/submission/rr.c: round robin with a quantum of 3.
-- The state is what follows `process_list`. The debug output is left out.
pub mod Work
pub mod Turns
pub mod Rounds
mod Examples
use cosc.Base.{ℕ, List, [], ◌∷◌, ◌==◌, if◌then◌else◌}
use cosc.Process.{ProcessInitial, Scheduler}
use cosc.QuantumProcess.{QuantumProcess, new_process, execute}
use cosc.ReadyList.{remove_next, add_sorted, add_last}

-- `QUANTUM`.
abbrev pub quantum : ℕ
quantum = 3

unfoldable pub add_to_ready_queue : ProcessInitial → List QuantumProcess → List QuantumProcess
add_to_ready_queue process process_list =
    add_sorted (λ x. x.arrival_time) (λ x. x.pid) (new_process process) process_list

unfoldable pub get_next_scheduled_process : List QuantumProcess → ℕ × List QuantumProcess
unfolding remove_next execute
get_next_scheduled_process [] = (0, [])
get_next_scheduled_process (node ∷ rest) =
    let current = execute node in
    let removed = (remove_next (current ∷ rest)).1 in
    (
      current.pid,
      if current.processed_time == current.processing_time
          then removed
          else if current.quantum_used == quantum
          then add_last current removed
          else current ∷ rest,
    )

abbrev pub round_robin : Scheduler
round_robin = record {
  State = List QuantumProcess;
  start = [];
  add_to_ready_queue = add_to_ready_queue;
  get_next_scheduled_process = get_next_scheduled_process;
}
