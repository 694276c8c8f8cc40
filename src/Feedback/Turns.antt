-- ===== src/Feedback/Turns.antt =====
-- Turns of the feedback queue: which process is picked, for how long it runs, and where it goes.
use cosc.Base.{
  ℕ, zero, suc, ◌+◌, ◌-◌, ◌≤◌, ◌<◌, ◌^◌, ◌≡◌, ◌≢◌, ap, ◌∙◌, List, ◌∷◌, none, some, arith, replicate,
  ltb, lt_cases, lt→ltb, le→ltb, inl, inr, if◌then◌else◌,
}
use Prim.Native.Nat.{min}
use cosc.Process.Calls.{calls, calls-suc}
use cosc.QuantumProcess.{QuantumProcess, execute, IsWaiting}
use cosc.ReadyList.{add_last}
use cosc.Feedback.{
  Feedback, num_priority_queues, update_queue, choose_if, choose, run_if, run_current,
  get_next_scheduled_process, feedback,
}
use cosc.Feedback.Queues.{Queues}

module _ (quantum : ℕ → ℕ) (ls : Queues) (level : ℕ) where
  -- The state while `p` is current.
  abbrev pub with_current : QuantumProcess → Feedback
  with_current p = record { priority_queues = ls; current = some p; priority_level = level }

  -- The state when the current process has finished.
  abbrev pub released : Feedback
  released = record { priority_queues = ls; current = none; priority_level = level }

  -- The state when the current process has been moved down and its quantum reset.
  abbrev pub demoted : QuantumProcess → Feedback
  demoted p = record {
    priority_queues = update_queue (min (level + 1) (num_priority_queues - 1)) (add_last p) ls;
    current = none;
    priority_level = level;
  }

  next-stay :
      (p : QuantumProcess)
      → IsWaiting p
      → p.processed_time + 1 < p.processing_time
      → p.quantum_used + 1 < 2 ^ 32
      → p.quantum_used + 1 ≢ quantum level
      → get_next_scheduled_process quantum (with_current p) ≡ (
        p.pid,
        with_current
            (record p { processed_time = p.processed_time + 1; quantum_used = p.quantum_used + 1 }),
      )
  unfolding get_next_scheduled_process run_if choose choose_if run_current execute
  next-stay p w more fits other = ground arith

  next-demote :
      (p : QuantumProcess)
      → IsWaiting p
      → p.processed_time + 1 < p.processing_time
      → p.quantum_used + 1 < 2 ^ 32
      → p.quantum_used + 1 ≡ quantum level
      → get_next_scheduled_process quantum (with_current p)
        ≡ (p.pid, demoted (record p { processed_time = p.processed_time + 1; quantum_used = 0 }))
  unfolding get_next_scheduled_process run_if choose choose_if run_current execute
  next-demote p w more fits e = ground arith

  next-finish :
      (p : QuantumProcess)
      → IsWaiting p
      → p.processing_time ≡ p.processed_time + 1
      → get_next_scheduled_process quantum (with_current p) ≡ (p.pid, released)
  unfolding get_next_scheduled_process run_if choose choose_if run_current execute
  next-finish p w e = ground arith

  -- A current process that has left `k + 1` units of its quantum, and needs more than these, runs
  -- for exactly that many units and no other process in between. Then it stands at the end of the
  -- next queue below, of the last queue if there is none below, with its used quantum reset.
  full_turn :
      (k : ℕ) (p : QuantumProcess)
      → IsWaiting p
      → p.processed_time + suc k < p.processing_time
      → p.quantum_used + suc k ≡ quantum level
      → quantum level < 2 ^ 32
      → calls (feedback quantum) (suc k) (with_current p) ≡ (
        replicate (suc k) p.pid,
        demoted (record p { processed_time = p.processed_time + suc k; quantum_used = 0 }),
      )
  unfolding calls
  full_turn zero p w more e fits =
      calls-suc (feedback quantum) 0 p.pid (with_current p) _
        (next-demote p w (omega arith) (omega arith) (omega arith))
  full_turn (suc k) p w more e fits =
      let p' : QuantumProcess = record p {
        processed_time = p.processed_time + 1;
        quantum_used = p.quantum_used + 1;
      } in
      calls-suc (feedback quantum) (suc k) p.pid (with_current p) (with_current p')
        (next-stay p w (omega arith) (omega arith) (omega arith))
      ∙ ap {B = List ℕ × Feedback} (λ r. (p.pid ∷ r.0, r.1))
          (full_turn k p' (omega arith) (omega arith) (omega arith) fits)
      ∙ ap {B = List ℕ × Feedback}
          (λ (m : ℕ). (
            replicate (suc (suc k)) p.pid,
            demoted (record p { processed_time = m; quantum_used = 0 }),
          ))
          (omega arith)

  -- A current process that needs `k + 1` more units, and has at least that many left of its
  -- quantum, runs for these units and is then gone, the queues as they were.
  last_turn :
      (k : ℕ) (p : QuantumProcess)
      → IsWaiting p
      → p.processing_time ≡ p.processed_time + suc k
      → p.quantum_used + suc k ≤ quantum level
      → quantum level < 2 ^ 32
      → calls (feedback quantum) (suc k) (with_current p) ≡ (replicate (suc k) p.pid, released)
  unfolding calls
  last_turn zero p w e room fits =
      calls-suc (feedback quantum) 0 p.pid (with_current p) released (next-finish p w (omega arith))
  last_turn (suc k) p w e room fits =
      let p' : QuantumProcess = record p {
        processed_time = p.processed_time + 1;
        quantum_used = p.quantum_used + 1;
      } in
      calls-suc (feedback quantum) (suc k) p.pid (with_current p) (with_current p')
        (next-stay p w (omega arith) (omega arith) (omega arith))
      ∙ ap {B = List ℕ × Feedback} (λ r. (p.pid ∷ r.0, r.1))
          (last_turn k p' (omega arith) (omega arith) (omega arith) fits)

  -- A current process that has `k + 1` units of its quantum left and needs `n + 1` more units runs
  -- for the smaller number of units and no other process in between. If it needs more than it has
  -- left, it then stands at the end of the next queue below, of the last queue if there is none
  -- below, with its used quantum reset; otherwise it is gone, the queues as they were.
  pub turn_lem :
      (k n : ℕ) (p : QuantumProcess)
      → IsWaiting p
      → p.processing_time ≡ p.processed_time + suc n
      → p.quantum_used + suc k ≡ quantum level
      → quantum level < 2 ^ 32
      → calls (feedback quantum) (suc (if ltb k n then k else n)) (with_current p) ≡ (
        replicate (suc (if ltb k n then k else n)) p.pid,
        if ltb k n
            then demoted (record p { processed_time = p.processed_time + suc k; quantum_used = 0 })
            else released,
      )
  turn_lem k n p w needs left fits = elim (lt_cases k n) [
    | inl h ↦ rw (lt→ltb k n h) (full_turn k p w (omega arith) left fits)
    | inr h ↦ rw (le→ltb n k h) (last_turn n p w needs (omega arith) fits)
  ]
