-- ===== src/Feedback/Examples.antt =====
-- Turns of the feedback queue at concrete states.
use cosc.Base.{ℕ, ◌≡◌, refl, [], ◌∷◌, none, arith}
use cosc.Process.Calls.{calls}
use cosc.QuantumProcess.{QuantumProcess, execute}
use cosc.ReadyList.{add_last}
use cosc.Feedback.{
  Feedback, update_queue, pick, take_picked, choose_if, choose, run_current, run_if,
  get_next_scheduled_process, constant, exponential, constant_quantum, exponential_quantum,
}
use cosc.Process.{IsWorkConserving}
use cosc.Feedback.Work.{feedback-IsWorkConserving}
use cosc.Feedback.Queues.{Queues}
use cosc.Feedback.Turns.{with_current, demoted, turn_lem}
use cosc.Feedback.Priority.{Chosen, choose_highest}

abbrev node : ℕ → ℕ → ℕ → ℕ → QuantumProcess
node pid processing_time processed_time quantum_used = record {
  pid = pid;
  processing_time = processing_time;
  arrival_time = 0;
  processed_time = processed_time;
  quantum_used = quantum_used;
}

abbrev queues : Queues
queues = [] ∷ (node 4 9 3 0 ∷ node 5 8 3 0 ∷ []) ∷ (node 6 30 9 0 ∷ []) ∷ [] ∷ []

abbrev no_current : Feedback
no_current = record { priority_queues = queues; current = none; priority_level = 0 }

-- Two processes of 5 units: 3 units each on the highest level, then the rest on the next.
schedule :
    (calls constant 11 (record {
      priority_queues = (node 1 5 0 0 ∷ node 2 5 0 0 ∷ []) ∷ [] ∷ [] ∷ [] ∷ [];
      current = none;
      priority_level = 0;
    })).0
    ≡ 1 ∷ 1 ∷ 1 ∷ 2 ∷ 2 ∷ 2 ∷ 1 ∷ 1 ∷ 2 ∷ 2 ∷ 0 ∷ []
unfolding calls update_queue pick take_picked choose_if choose run_current run_if
    get_next_scheduled_process constant_quantum add_last execute
schedule = refl

choose_highest_example : Chosen no_current (choose no_current)
choose_highest_example = choose_highest no_current refl

turn_lem_example :
    calls exponential 7 (with_current exponential_quantum queues 1 (node 7 40 3 1))
    ≡ (7 ∷ 7 ∷ 7 ∷ 7 ∷ 7 ∷ 7 ∷ 7 ∷ [], demoted exponential_quantum queues 1 (node 7 40 10 0))
unfolding exponential_quantum
turn_lem_example =
    turn_lem exponential_quantum queues 1 6 36 (node 7 40 3 1) (omega arith) refl refl (omega arith)

feedback-IsWorkConserving_example : IsWorkConserving exponential
feedback-IsWorkConserving_example = feedback-IsWorkConserving exponential_quantum
