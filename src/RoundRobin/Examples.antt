-- ===== src/RoundRobin/Examples.antt =====
-- The schedule of round robin at concrete lists.
use cosc.Base.{ℕ, ◌≡◌, refl, [], ◌∷◌, arith}
use cosc.Process.Calls.{calls}
use cosc.QuantumProcess.{QuantumProcess}
use cosc.ReadyList.{add_last}
use cosc.RoundRobin.{get_next_scheduled_process, round_robin}
use cosc.RoundRobin.Rounds.{rounds_lem}

abbrev node : ℕ → ℕ → ℕ → ℕ → QuantumProcess
node pid processing_time processed_time quantum_used = record {
  pid = pid;
  processing_time = processing_time;
  arrival_time = 0;
  processed_time = processed_time;
  quantum_used = quantum_used;
}

-- Two processes of 9 units each: after one turn of 3 units each, the first runs for 6.
schedule :
    (calls round_robin 18 (node 1 9 0 0 ∷ node 2 9 0 0 ∷ [])).0
    ≡ 1 ∷ 1 ∷ 1 ∷ 2 ∷ 2 ∷ 2 ∷ 1 ∷ 1 ∷ 1 ∷ 1 ∷ 1 ∷ 1 ∷ 2 ∷ 2 ∷ 2 ∷ 2 ∷ 2 ∷ 2 ∷ []
unfolding calls get_next_scheduled_process add_last
schedule = refl

rounds_lem_example :
    calls round_robin 15 (node 1 9 0 0 ∷ node 2 2 0 0 ∷ node 3 4 0 0 ∷ [])
    ≡ (1 ∷ 1 ∷ 1 ∷ 2 ∷ 2 ∷ 3 ∷ 3 ∷ 3 ∷ 1 ∷ 1 ∷ 1 ∷ 1 ∷ 1 ∷ 1 ∷ 3 ∷ [], [])
rounds_lem_example =
    rounds_lem (node 1 9 0 0 ∷ node 2 2 0 0 ∷ node 3 4 0 0 ∷ [])
      ((omega arith, refl), ((omega arith, refl), ((omega arith, refl), tt)))
