-- ===== src/Linked/Scheduler.antt =====
-- The functions on nodes in memory as an algorithm of the simulator. A state is the memory, or
-- `none` after an access to memory that is not allocated or without fuel. What the C code then does
-- is not defined; here the PID is one that no unsigned int has, so that the simulation does not
-- return either.
use cosc.Base.{ℕ, ◌^◌, Bool, List, Option, none, some}
use cosc.Process.{Scheduler}
use cosc.Linked.Nodes.{Memory}
use cosc.Linked.{add_to_ready_queue, get_next_scheduled_process, initial}

abbrev pub linked : (List ℕ → ℕ) → Bool → ℕ → Scheduler
linked pick debug fuel = record {
  State = Option Memory;
  start = some initial;
  add_to_ready_queue = λ process state. elim state [
    | none ↦ none
    | some m ↦ elim (add_to_ready_queue pick debug fuel process m) [
      | none ↦ none
      | some (unit, m') ↦ some m'
    ]
  ];
  get_next_scheduled_process = λ state. elim state [
    | none ↦ (2 ^ 32, none)
    | some m ↦ elim (get_next_scheduled_process debug fuel m) [
      | none ↦ (2 ^ 32, none)
      | some (pid, m') ↦ (pid, some m')
    ]
  ];
}
