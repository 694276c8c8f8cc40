-- ===== src/RoundRobin/Turns.antt =====
-- Turns of round robin, and `quantum_used`.
use cosc.Base.{
  ℕ, zero, suc, ◌+◌, ◌≤◌, ◌<◌, ◌^◌, ◌≡◌, ◌≢◌, ap, ◌∙◌, List, [], ◌∷◌, ◌++◌, arith, replicate,
}
use cosc.Process.Calls.{calls, calls-suc}
use cosc.QuantumProcess.{QuantumProcess, IsWaiting}
use cosc.ReadyList.{add_last, add_last-eq-append}
use cosc.RoundRobin.{quantum, get_next_scheduled_process, round_robin}

-- `p` after `n` units of execution.
abbrev pub advance : ℕ → QuantumProcess → QuantumProcess
advance n p = record p { processed_time = p.processed_time + n; quantum_used = p.quantum_used + n }

pub next-stay :
    (p : QuantumProcess) (l : List QuantumProcess)
    → IsWaiting p
    → p.processed_time + 1 < p.processing_time
    → p.quantum_used + 1 ≢ quantum
    → p.quantum_used + 1 < 2 ^ 32
    → get_next_scheduled_process (p ∷ l) ≡ (p.pid, advance 1 p ∷ l)
unfolding get_next_scheduled_process
next-stay p l w more other fits = ground arith

next-rotate :
    (p : QuantumProcess) (l : List QuantumProcess)
    → IsWaiting p
    → p.processed_time + 1 < p.processing_time
    → p.quantum_used + 1 ≡ quantum
    → get_next_scheduled_process (p ∷ l) ≡ (p.pid, add_last (advance 1 p) l)
unfolding get_next_scheduled_process
next-rotate p l w more e = ground arith

pub next-finish :
    (p : QuantumProcess) (l : List QuantumProcess)
    → IsWaiting p
    → p.processing_time ≡ p.processed_time + 1
    → get_next_scheduled_process (p ∷ l) ≡ (p.pid, l)
unfolding get_next_scheduled_process
next-finish p l w e = ground arith

-- A process at the head whose quantum is used up, and that needs `k + 1` more units, is given all
-- of them at once: however many others wait behind it, none is run before it has finished.
pub never_preempted_again :
    (k : ℕ) (p : QuantumProcess) (l : List QuantumProcess)
    → IsWaiting p
    → p.processing_time ≡ p.processed_time + suc k
    → quantum ≤ p.quantum_used
    → p.quantum_used + suc k < 2 ^ 32
    → calls round_robin (suc k) (p ∷ l) ≡ (replicate (suc k) p.pid, l)
unfolding calls
never_preempted_again zero p l w e used fits =
    calls-suc round_robin 0 p.pid (p ∷ l) l (next-finish p l w (omega arith))
never_preempted_again (suc k) p l w e used fits =
    calls-suc round_robin (suc k) p.pid (p ∷ l) (advance 1 p ∷ l)
      (next-stay p l w (omega arith) (omega arith) (omega arith))
    ∙ ap {B = List ℕ × List QuantumProcess} (λ r. (p.pid ∷ r.0, r.1))
        (never_preempted_again k (advance 1 p) l (omega arith) (omega arith) (omega arith)
          (omega arith))

-- A process at the head that has not run yet and needs more than the quantum runs for three units
-- and then stands behind all others, its used quantum as it is.
pub first_turn :
    (p : QuantumProcess) (l : List QuantumProcess)
    → IsWaiting p
    → p.quantum_used ≡ 0
    → p.processed_time + quantum < p.processing_time
    → calls round_robin quantum (p ∷ l) ≡ (
      p.pid ∷ p.pid ∷ p.pid ∷ [],
      l ++ record p { processed_time = p.processed_time + quantum; quantum_used = quantum } ∷ [],
    )
unfolding calls
first_turn p l w e more =
    rw
      (
        next-stay p l w (omega arith) (omega arith) (omega arith),
        next-stay (advance 1 p) l (omega arith) (omega arith) (omega arith) (omega arith),
        next-rotate (advance 1 (advance 1 p)) l (omega arith) (omega arith) (omega arith),
        add_last-eq-append (advance 1 (advance 1 (advance 1 p))) l,
      )
      (ground arith)
