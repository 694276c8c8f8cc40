-- ===== src/Fcfs/Order.antt =====
-- The order in which FCFS serves processes.
use cosc.Base.{
  ℕ, zero, suc, ◌+◌, ◌-◌, ◌≡◌, refl, ap, ◌∙◌, List, [], ◌∷◌, ◌++◌, arith, All, length, replicate,
}
use cosc.Process.{ProcessInitial}
use cosc.Process.Calls.{calls, calls-suc}
use cosc.ReadyList.Order.{IsSorted, add_sorted-IsSorted}
use cosc.Fcfs.{FcfsProcess, new_process, add_to_ready_queue, get_next_scheduled_process, fcfs}
use cosc.Fcfs.Work.{IsWaiting}

abbrev pub InOrder : List FcfsProcess → Type 0
InOrder l = IsSorted (λ x. x.arrival_time) (λ x. x.pid) l

-- An arrival keeps the list sorted by arrival time, then by PID.
add-InOrder :
    (p : ProcessInitial) (l : List FcfsProcess) → InOrder l → InOrder (add_to_ready_queue p l)
unfolding add_to_ready_queue
add-InOrder p l s = add_sorted-IsSorted (λ x. x.arrival_time) (λ x. x.pid) (new_process p) l s

-- The schedule that first come, first served stands for: each process in turn, for all the time
-- that it still needs.
abbrev pub served : List FcfsProcess → List ℕ
served [] = []
served (p ∷ l) = replicate (p.processing_time - p.processed_time) p.pid ++ served l

pub next-more :
    (k : ℕ) (p : FcfsProcess) (l : List FcfsProcess)
    → IsWaiting p
    → p.processing_time ≡ p.processed_time + suc (suc k)
    → get_next_scheduled_process (p ∷ l)
      ≡ (p.pid, record p { processed_time = p.processed_time + 1 } ∷ l)
unfolding get_next_scheduled_process
next-more k p l w e = ground arith

pub next-last :
    (p : FcfsProcess) (l : List FcfsProcess)
    → IsWaiting p
    → p.processing_time ≡ p.processed_time + 1
    → get_next_scheduled_process (p ∷ l) ≡ (p.pid, l)
unfolding get_next_scheduled_process
next-last p l w e = ground arith

calls-head :
    (k : ℕ) (p : FcfsProcess) (l : List FcfsProcess) (rest : List ℕ)
    → IsWaiting p
    → p.processing_time ≡ p.processed_time + suc k
    → calls fcfs (length (replicate (suc k) p.pid ++ rest)) (p ∷ l)
      ≡ (replicate (suc k) p.pid ++ (calls fcfs (length rest) l).0, (calls fcfs (length rest) l).1)
calls-head zero p l rest w e =
    calls-suc fcfs (length rest) p.pid (p ∷ l) l (next-last p l w (omega arith))
calls-head (suc k) p l rest w e =
    let p' : FcfsProcess = record p { processed_time = p.processed_time + 1 } in
    calls-suc fcfs _ p.pid (p ∷ l) (p' ∷ l) (next-more k p l w e)
    ∙ ap {B = List ℕ × List FcfsProcess} (λ r. (p.pid ∷ r.0, r.1))
        (calls-head k p' l rest (omega arith) (omega arith))

-- With as many calls as there is processing time left, and no arrivals, FCFS returns the PIDs of
-- its list in order, each as often as its process still needs time, and ends with an empty list.
calls-served :
    (l : List FcfsProcess) → All IsWaiting l → calls fcfs (length (served l)) l ≡ (served l, [])
unfolding calls
calls-served [] h = refl
calls-served (p ∷ l) h =
    let k : ℕ = p.processing_time - p.processed_time - 1 in
    let e : p.processing_time - p.processed_time ≡ suc k = omega arith in
    rw e (
      calls-head k p l (served l) h.0 (omega arith)
      ∙ ap {B = List ℕ × List FcfsProcess} (λ r. (replicate (suc k) p.pid ++ r.0, r.1))
          (calls-served l h.1))
