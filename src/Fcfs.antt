-- ===== src/Fcfs.antt =====
-- assignments/assignment4/simulator/submissions/submission/fcfs.c (the same text as
-- algorithms/fcfs.c): first come, first served. The debug output is left out.
pub mod Work
pub mod Order
mod Examples
use cosc.Base.{ℕ, ◌+◌, List, [], ◌∷◌, ltb, ◌==◌, if◌then◌else◌, u32}
use cosc.Process.{ProcessInitial, Scheduler}
use cosc.ReadyList.{remove_next, add_sorted}

-- `fcfs_process`, less the link.
pub record FcfsProcess : Type 0 where
  pub pid : ℕ
  pub processing_time : ℕ
  pub arrival_time : ℕ
  pub processed_time : ℕ

-- The node that `add_to_ready_queue` allocates.
unfoldable pub new_process : ProcessInitial → FcfsProcess
new_process process = record {
  pid = process.pid;
  processing_time = process.processing_time;
  arrival_time = process.arrival_time;
  processed_time = 0;
}

-- The state is what follows `process_list`.
unfoldable pub add_to_ready_queue : ProcessInitial → List FcfsProcess → List FcfsProcess
unfolding new_process
add_to_ready_queue process process_list =
    add_sorted (λ x. x.arrival_time) (λ x. x.pid) (new_process process) process_list

unfoldable pub get_next_scheduled_process : List FcfsProcess → ℕ × List FcfsProcess
unfolding remove_next
get_next_scheduled_process [] = (0, [])
get_next_scheduled_process (next ∷ rest) =
    let next' = record next { processed_time = u32 (next.processed_time + 1) } in
    let (pid, rest') = get_next_scheduled_process rest in
    if ltb next.processed_time next.processing_time
    then (
      next.pid,
      if next'.processed_time == next'.processing_time
          then (remove_next (next' ∷ rest)).1
          else next' ∷ rest,
    )
    else (pid, next ∷ rest')

abbrev pub fcfs : Scheduler
fcfs = record {
  State = List FcfsProcess;
  start = [];
  add_to_ready_queue = add_to_ready_queue;
  get_next_scheduled_process = get_next_scheduled_process;
}
