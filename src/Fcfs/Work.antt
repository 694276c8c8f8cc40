-- ===== src/Fcfs/Work.antt =====
-- The processing time that FCFS gives out, as the contract of a scheduler asks.
use cosc.Base.{
  ℕ, ◌+◌, ◌-◌, ◌^◌, ◌<◌, ◌≡◌, refl, List, [], ◌∷◌, arith, total, All, ◌==◌, if◌then◌else◌,
}
use cosc.Process.{ProcessInitial, IsAdmissible, IsWorkConserving}
use cosc.ReadyList.Laws.{total-add_sorted, All-add_sorted}
use cosc.Fcfs.{FcfsProcess, new_process, add_to_ready_queue, get_next_scheduled_process, fcfs}

-- A process that waits has a PID and is not finished.
pub record IsWaiting (p : FcfsProcess) : Type 0 where
  pub pid_pos : 0 < p.pid
  pub unfinished : p.processed_time < p.processing_time
  pub fits : p.processing_time < 2 ^ 32

abbrev left : ℕ → FcfsProcess → ℕ
left q p = if p.pid == q then p.processing_time - p.processed_time else 0

abbrev pub remaining : List FcfsProcess → ℕ → ℕ
remaining l q = total (left q) l

pub remaining-add :
    (p : ProcessInitial) (l : List FcfsProcess) (q : ℕ)
    → All IsWaiting l
    → remaining (add_to_ready_queue p l) q
      ≡ remaining l q + (if p.pid == q then p.processing_time else 0)
unfolding add_to_ready_queue
remaining-add p l q h =
    ground (arith, total-add_sorted (λ x. x.arrival_time) (λ x. x.pid) (left q) (new_process p) l)

pub add-IsWaiting :
    (p : ProcessInitial) (l : List FcfsProcess)
    → IsAdmissible p
    → All IsWaiting l
    → All IsWaiting (add_to_ready_queue p l)
unfolding add_to_ready_queue
add-IsWaiting p l a h =
    All-add_sorted (λ x. x.arrival_time) (λ x. x.pid) IsWaiting (new_process p) l (omega arith) h

pub next-IsWaiting :
    (l : List FcfsProcess) → All IsWaiting l → All IsWaiting (get_next_scheduled_process l).1
unfolding get_next_scheduled_process
next-IsWaiting [] h = tt
next-IsWaiting (x ∷ l) h = ground arith

pub remaining-next :
    (l : List FcfsProcess) (q : ℕ)
    → All IsWaiting l
    → remaining (get_next_scheduled_process l).1 q
      ≡ remaining l q - (if (get_next_scheduled_process l).0 == q then 1 else 0)
unfolding get_next_scheduled_process
remaining-next [] q h = omega arith
remaining-next (x ∷ l) q h = ground arith

pub next_has_work :
    (l : List FcfsProcess)
    → All IsWaiting l
    → 0 < (get_next_scheduled_process l).0
    → 0 < remaining l (get_next_scheduled_process l).0
unfolding get_next_scheduled_process
next_has_work [] h p = p
next_has_work (x ∷ l) h p = ground arith

pub idle_only_when_done :
    (l : List FcfsProcess) (q : ℕ)
    → All IsWaiting l
    → (get_next_scheduled_process l).0 ≡ 0
    → remaining l q ≡ 0
unfolding get_next_scheduled_process
idle_only_when_done [] q h e = refl
idle_only_when_done (x ∷ l) q h e = ground arith

-- The parts of the contract, for proofs that look into it.
abbrev pub contract : IsWorkConserving fcfs
contract = record {
  IsValid = All IsWaiting;
  remaining = remaining;
  start-IsValid = tt;
  remaining-start = λ q. refl;
  add-IsValid = add-IsWaiting;
  remaining-add = remaining-add;
  next-IsValid = next-IsWaiting;
  remaining-next = remaining-next;
  next_has_work = next_has_work;
  idle_only_when_done = idle_only_when_done;
}

-- FCFS keeps the contract of a scheduler.
pub fcfs-IsWorkConserving : IsWorkConserving fcfs
fcfs-IsWorkConserving = contract
