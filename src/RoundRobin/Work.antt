-- ===== src/RoundRobin/Work.antt =====
-- The processing time that round robin gives out, as the contract of a scheduler asks.
use cosc.Base.{
  ℕ, ◌+◌, ◌-◌, ◌<◌, ◌≡◌, refl, List, [], ◌∷◌, arith, All, ◌==◌, if◌then◌else◌, Bool-cases, inl, inr,
}
use cosc.Process.{ProcessInitial, IsAdmissible, IsWorkConserving}
use cosc.QuantumProcess.{QuantumProcess, new_process, execute, IsWaiting, left, remaining}
use cosc.ReadyList.Laws.{total-add_sorted, All-add_sorted, total-add_last, All-add_last}
use cosc.RoundRobin.{quantum, add_to_ready_queue, get_next_scheduled_process, round_robin}

remaining-add :
    (p : ProcessInitial) (l : List QuantumProcess) (q : ℕ)
    → All IsWaiting l
    → remaining (add_to_ready_queue p l) q
      ≡ remaining l q + (if p.pid == q then p.processing_time else 0)
unfolding add_to_ready_queue new_process
remaining-add p l q h =
    ground (arith, total-add_sorted (λ x. x.arrival_time) (λ x. x.pid) (left q) (new_process p) l)

add-IsWaiting :
    (p : ProcessInitial) (l : List QuantumProcess)
    → IsAdmissible p
    → All IsWaiting l
    → All IsWaiting (add_to_ready_queue p l)
unfolding add_to_ready_queue new_process
add-IsWaiting p l a h =
    All-add_sorted (λ x. x.arrival_time) (λ x. x.pid) IsWaiting (new_process p) l (omega arith) h

next-IsWaiting :
    (l : List QuantumProcess) → All IsWaiting l → All IsWaiting (get_next_scheduled_process l).1
unfolding get_next_scheduled_process
next-IsWaiting [] h = tt
next-IsWaiting (x ∷ l) h = elim (Bool-cases ((execute x).processed_time == x.processing_time)) [
  | inl e ↦ rw e h.1
  | inr e ↦ elim (Bool-cases ((execute x).quantum_used == quantum)) [
    | inl e' ↦ rw (e, e') (All-add_last IsWaiting (execute x) l (ground arith) h.1)
    | inr e' ↦ rw (e, e') (ground arith, h.1)
  ]
]

remaining-next :
    (l : List QuantumProcess) (q : ℕ)
    → All IsWaiting l
    → remaining (get_next_scheduled_process l).1 q
      ≡ remaining l q - (if (get_next_scheduled_process l).0 == q then 1 else 0)
unfolding get_next_scheduled_process
remaining-next [] q h = omega arith
remaining-next (x ∷ l) q h = ground (arith, total-add_last (left q) (execute x) l)

next_has_work :
    (l : List QuantumProcess)
    → All IsWaiting l
    → 0 < (get_next_scheduled_process l).0
    → 0 < remaining l (get_next_scheduled_process l).0
unfolding get_next_scheduled_process
next_has_work [] h p = p
next_has_work (x ∷ l) h p = ground arith

idle_only_when_done :
    (l : List QuantumProcess) (q : ℕ)
    → All IsWaiting l
    → (get_next_scheduled_process l).0 ≡ 0
    → remaining l q ≡ 0
unfolding get_next_scheduled_process
idle_only_when_done [] q h e = refl
idle_only_when_done (x ∷ l) q h e = ground arith

-- Round robin keeps the contract of a scheduler.
pub round_robin-IsWorkConserving : IsWorkConserving round_robin
round_robin-IsWorkConserving = record {
  IsValid = All IsWaiting;
  remaining = remaining;
  start-IsValid = tt;
  remaining-start = λ q. refl;
  add-IsValid = add-IsWaiting;
  remaining-add = remaining-add;
  next-IsValid = next-IsWaiting;
  remaining-next = remaining-next;
  next_has_work = next_has_work;
  idle_only_when_done = idle_only_when_done;
}
