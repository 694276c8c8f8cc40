-- ===== src/Feedback.antt =====
-- The multi-level feedback queue of assignments/assignment4/simulator/submissions/submission/
-- constant.c and exponential.c, which differ in the quantum alone. The debug output is left out.
pub mod Queues
pub mod Priority
pub mod Work
pub mod Turns
mod Examples
use cosc.Base.{
  ℕ, zero, suc, ◌+◌, ◌-◌, ◌*◌, List, [], ◌∷◌, Option, none, some, ◌==◌, if◌then◌else◌, u32,
}
use Prim.Native.Nat.{min}
use cosc.Process.{ProcessInitial, Scheduler}
use cosc.QuantumProcess.{QuantumProcess, new_process, execute}
use cosc.ReadyList.{remove_next, add_sorted, add_last}

-- `NUM_PRIORITY_QUEUES`.
abbrev pub num_priority_queues : ℕ
num_priority_queues = 4

-- The file-level variables: what follows each entry of `priority_queues`, `current` and
-- `priority_level`.
pub record Feedback : Type 0 where
  pub priority_queues : List (List QuantumProcess)
  pub current : Option QuantumProcess
  pub priority_level : ℕ

abbrev pub start : Feedback
start = record { priority_queues = [] ∷ [] ∷ [] ∷ [] ∷ []; current = none; priority_level = 0 }

-- A change of the queue at an index of `priority_queues`.
unfoldable pub update_queue :
    ℕ
    → (List QuantumProcess → List QuantumProcess)
    → List (List QuantumProcess)
    → List (List QuantumProcess)
update_queue i f [] = []
update_queue zero f (l ∷ ls) = f l ∷ ls
update_queue (suc i) f (l ∷ ls) = l ∷ update_queue i f ls

unfoldable pub add_to_ready_queue : ProcessInitial → Feedback → Feedback
add_to_ready_queue process s = record s {
  priority_queues =
      update_queue 0 (add_sorted (λ x. x.arrival_time) (λ x. x.pid) (new_process process))
        s.priority_queues;
}

-- The search for the first queue that is not empty, from index `i` on, which sets `current` and
-- `priority_level` and takes the node out of its queue.
unfoldable pub pick :
    ℕ → List (List QuantumProcess) → Option (QuantumProcess × ℕ × List (List QuantumProcess))
unfolding remove_next
pick i [] = none
pick i ([] ∷ ls) = elim (pick (i + 1) ls) [
  | none ↦ none
  | some (p, level, ls') ↦ some (p, level, [] ∷ ls')
]
pick i ((p ∷ l) ∷ ls) = some (p, i, (remove_next (p ∷ l)).1 ∷ ls)

-- The result of the search is stored in the file-level variables.
unfoldable pub take_picked :
    Feedback → Option (QuantumProcess × ℕ × List (List QuantumProcess)) → Feedback
take_picked s none = s
take_picked s (some (p, level, ls)) = record {
  priority_queues = ls;
  current = some p;
  priority_level = level;
}

-- "Find the next process to schedule": nothing is done while a process is current.
unfoldable pub choose_if : Option QuantumProcess → Feedback → Feedback
unfolding take_picked
choose_if none s = take_picked s (pick 0 s.priority_queues)
choose_if (some p) s = s

unfoldable pub choose : Feedback → Feedback
choose s = choose_if s.current s

-- The quantum of a priority level, in units of time.
module _ (quantum : ℕ → ℕ) where
  -- The rest of `get_next_scheduled_process`, for the current process.
  unfoldable pub run_current : QuantumProcess → Feedback → ℕ × Feedback
  run_current p s =
      let current = execute p in
      let new_priority_level = min (s.priority_level + 1) (num_priority_queues - 1) in
      (
        current.pid,
        if current.processed_time == current.processing_time
            then record s { current = none }
            else if current.quantum_used == quantum s.priority_level
            then record s {
              priority_queues =
                  update_queue new_priority_level (add_last (record current { quantum_used = 0 }))
                    s.priority_queues;
              current = none;
            }
            else record s { current = some current },
      )

  unfoldable pub run_if : Option QuantumProcess → Feedback → ℕ × Feedback
  run_if none s = (0, s)
  run_if (some p) s = run_current p s

  unfoldable pub get_next_scheduled_process : Feedback → ℕ × Feedback
  get_next_scheduled_process s = run_if (choose s).current (choose s)

  abbrev pub feedback : Scheduler
  feedback = record {
    State = Feedback;
    start = start;
    add_to_ready_queue = add_to_ready_queue;
    get_next_scheduled_process = get_next_scheduled_process;
  }

-- `QUANTUM * (priority_level + 1)` of constant.c.
unfoldable pub constant_quantum : ℕ → ℕ
constant_quantum priority_level = u32 (3 * (priority_level + 1))

-- `2 * ((priority_level + 1) * (priority_level + 1))` of exponential.c.
unfoldable pub exponential_quantum : ℕ → ℕ
exponential_quantum priority_level = u32 (2 * ((priority_level + 1) * (priority_level + 1)))

-- The algorithm of constant.c.
abbrev pub constant : Scheduler
constant = feedback constant_quantum

-- The algorithm of exponential.c.
abbrev pub exponential : Scheduler
exponential = feedback exponential_quantum
