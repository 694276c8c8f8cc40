-- ===== src/Linked.antt =====
-- assignments/assignment4/simulator/algorithms/fcfs.c with its pointers: nodes in memory, `malloc`
-- and `free`, and the debug output. `malloc` is a parameter, which sees the addresses in use.
pub mod Nodes
pub mod Chain
pub mod Insert
pub mod Place
pub mod Turn
pub mod Loop
pub mod Refines
pub mod Adding
pub mod Calls
pub mod Scheduler
pub mod Simulated
mod Examples
use cosc.Base.{
  ℕ, zero, suc, ◌+◌, Bool, true, false, List, [], ◌∷◌, ◌++◌, Option, none, some, ltb, ◌==◌, ◌&&◌,
  if◌then◌else◌, u32,
}
use cosc.Process.{ProcessInitial}
use cosc.Fcfs.{FcfsProcess, new_process}
use cosc.Linked.Nodes.{
  Node, Line, after_adding, after_completed, node_line, Memory, M, pure, ◌>>=◌, ◌>>◌, load, store,
  malloc, free, print,
}

-- Where the static `process_list` stands.
abbrev pub process_list : ℕ
process_list = 1

-- `{0, 0, 0, 0, NULL}`, less the link.
abbrev pub no_process : FcfsProcess
no_process = record { pid = 0; processing_time = 0; arrival_time = 0; processed_time = 0 }

-- `p->next_process = q`.
unfoldable pub set_next_process : ℕ → ℕ → M (Unit {0})
unfolding load store
set_next_process p q = do n ← load p; store p (record n { next_process = q })

-- The PID after `next`, or 0.
unfoldable pub pid_after : ℕ → M ℕ
unfolding load
pid_after next_process = elim (next_process == 0) [
  | true ↦ pure 0
  | false ↦ do n ← load next_process; pure n.process.pid
]

-- The loop of `print_list`, on fuel.
unfoldable pub print_list : ℕ → ℕ → M (Unit {0})
unfolding load pid_after print
print_list zero node = λ m. none
print_list (suc fuel) node = do
  a ← load node
  elim (a.next_process == 0) [
    | true ↦ pure tt
    | false ↦ do
      next ← load a.next_process
      pid ← pid_after next.next_process
      print (node_line next.process pid)
      print_list fuel a.next_process
  ]

unfoldable pub add_next : ℕ → ℕ → M (Unit {0})
unfolding load set_next_process
add_next node next = do
  a ← load node
  set_next_process next a.next_process
  set_next_process node next

-- The node removed, or NULL.
unfoldable pub remove_next : ℕ → M ℕ
unfolding load set_next_process
remove_next node = do
  a ← load node
  elim (a.next_process == 0) [
    | true ↦ pure 0
    | false ↦ do
      next ← load a.next_process
      set_next_process node next.next_process
      pure a.next_process
  ]

-- "Skip past processes with an earlier arrival time": where `end` stands then. On fuel.
unfoldable pub skip_arrivals : ℕ → ℕ → ℕ → M ℕ
unfolding load
skip_arrivals zero end new = λ m. none
skip_arrivals (suc fuel) end new = do
  a ← load end
  elim (a.next_process == 0) [
    | true ↦ pure end
    | false ↦ do
      next ← load a.next_process
      n ← load new
      elim (ltb next.process.arrival_time n.process.arrival_time) [
        | true ↦ skip_arrivals fuel a.next_process new
        | false ↦ pure end
      ]
  ]

-- "Skip past processes with the same arrival time but an earlier PID". On fuel.
unfoldable pub skip_pids : ℕ → ℕ → ℕ → M ℕ
unfolding load
skip_pids zero end new = λ m. none
skip_pids (suc fuel) end new = do
  a ← load end
  elim (a.next_process == 0) [
    | true ↦ pure end
    | false ↦ do
      next ← load a.next_process
      n ← load new
      elim (next.process.arrival_time == n.process.arrival_time
          && ltb next.process.pid n.process.pid) [
            | true ↦ skip_pids fuel a.next_process new
            | false ↦ pure end
          ]
  ]

-- "Determine where in the queue it should be added", and add it there.
unfoldable pub insert : ℕ → ℕ → ℕ → ℕ → M (Unit {0})
unfolding skip_arrivals skip_pids add_next
insert rounds fuel start new = do
  end ← skip_arrivals rounds start new
  end' ← skip_pids fuel end new
  add_next end' new

-- What follows the list in debug mode.
unfoldable pub report : Bool → ℕ → Line → M (Unit {0})
unfolding print print_list
report debug fuel line = if debug then (do print line; print_list fuel process_list) else pure tt

unfoldable pub add_to_ready_queue : (List ℕ → ℕ) → Bool → ℕ → ProcessInitial → M (Unit {0})
unfolding malloc store insert report new_process
add_to_ready_queue pick debug fuel process = do
  new ← malloc pick
  store new (record { process = new_process process; next_process = 0 })
  insert fuel fuel process_list new
  report debug fuel (after_adding process.pid)

-- The end of a turn: "check if the process has finished".
unfoldable pub finish_turn : Bool → ℕ → ℕ → ℕ → M (Unit {0})
unfolding load remove_next free report
finish_turn debug fuel node next = do
  n ← load next
  elim (n.process.processed_time == n.process.processing_time) [
    | true ↦ do _ ← remove_next node; free next; report debug fuel (after_completed n.process.pid)
    | false ↦ pure tt
  ]

-- The loop of `get_next_scheduled_process`, on the rounds `left`.
unfoldable pub schedule_from : Bool → ℕ → ℕ → ℕ → M ℕ
unfolding load store finish_turn
schedule_from debug fuel zero node = λ m. none
schedule_from debug fuel (suc left) node = do
  a ← load node
  elim (a.next_process == 0) [
    | true ↦ pure 0
    | false ↦ do
      n ← load a.next_process
      elim (ltb n.process.processed_time n.process.processing_time) [
        | true ↦ do
          store a.next_process (record n {
            process = record n.process { processed_time = u32 (n.process.processed_time + 1) };
          })
          finish_turn debug fuel node a.next_process
          pure n.process.pid
        | false ↦ schedule_from debug fuel left a.next_process
      ]
  ]

unfoldable pub get_next_scheduled_process : Bool → ℕ → M ℕ
unfolding schedule_from
get_next_scheduled_process debug fuel = schedule_from debug fuel fuel process_list

-- The calls that the simulator makes: of `add_to_ready_queue`, and of `get_next_scheduled_process`.
pub data Call : Type 0 where
  arrive : ProcessInitial → Call
  schedule : Call

-- The PIDs that the calls return.
unfoldable pub run_calls : (List ℕ → ℕ) → Bool → ℕ → List Call → M (List ℕ)
unfolding add_to_ready_queue get_next_scheduled_process
run_calls pick debug fuel [] = pure []
run_calls pick debug fuel (arrive process ∷ calls) = do
  add_to_ready_queue pick debug fuel process
  run_calls pick debug fuel calls
run_calls pick debug fuel (schedule ∷ calls) = do
  pid ← get_next_scheduled_process debug fuel
  pids ← run_calls pick debug fuel calls
  pure (pid ∷ pids)

-- Memory when the program starts: `process_list` alone.
abbrev pub initial : Memory
initial = record {
  cell = λ p. record { process = no_process; next_process = 0 };
  allocated = process_list ∷ [];
  printed = [];
}
