-- ===== src/Schedule/Waiting.antt =====
-- The list of FCFS with the processes that are still to come put in already.
use mathlib.Core.List.{Perm, map, perm_middle}
use mathlib.Core.List.Perm
use cosc.Base.{
  ℕ, ◌+◌, ◌≤◌, ◌<◌, ◌≡◌, refl, sym, ap, ◌∙◌, true, List, [], ◌∷◌, ◌++◌, arith, All, total, leb,
  ◌==◌, if◌then◌else◌, Bool-cases, inl, inr,
}
use cosc.Process.{ProcessInitial}
use cosc.ReadyList.{add_sorted}
use cosc.ReadyList.Laws.{All-add_sorted, total-add_sorted, add_sorted-perm}
use cosc.ReadyList.Order.{IsSorted, add_sorted-IsSorted}
use cosc.Fcfs.{FcfsProcess, new_process, add_to_ready_queue, fcfs}
use cosc.Simulator.{ProcessStats, add_arrivals}
use cosc.Simulator.Invariant.{initials}
use cosc.Schedule.Insertion.{add_sorted_comm, add_sorted_later, map-add_sorted}

-- The processes that arrive at time `t` or later are inserted.
pub await : ℕ → List ProcessInitial → List FcfsProcess → List FcfsProcess
await t [] l = l
await t (p ∷ ps) l = await t ps (if leb t p.arrival_time then add_to_ready_queue p l else l)

add-add :
    (a b : ProcessInitial) (l : List FcfsProcess)
    → a.arrival_time < b.arrival_time
    → add_to_ready_queue b (add_to_ready_queue a l) ≡ add_to_ready_queue a (add_to_ready_queue b l)
unfolding add_to_ready_queue new_process
add-add a b l h =
    add_sorted_comm (λ x. x.arrival_time) (λ x. x.pid) (new_process a) (new_process b) l h

add_arrivals-add :
    (t : ℕ) (p : ProcessInitial) (ps : List ProcessStats) (l : List FcfsProcess)
    → t < p.arrival_time
    → add_arrivals fcfs t ps (add_to_ready_queue p l)
      ≡ add_to_ready_queue p (add_arrivals fcfs t ps l)
unfolding add_arrivals
add_arrivals-add t p [] l h = refl
add_arrivals-add t p (q ∷ ps) l h = elim (Bool-cases (q.initial.arrival_time == t)) [
  | inl e ↦
      let before : q.initial.arrival_time < p.arrival_time = ground arith in
      rw e (
        ap (add_arrivals fcfs t ps) (sym (add-add q.initial p l before))
        ∙ add_arrivals-add t p ps (add_to_ready_queue q.initial l) h)
  | inr e ↦ rw e (add_arrivals-add t p ps l h)
]

-- The arrivals of step `t` may be inserted first.
pub await-add_arrivals :
    (t : ℕ) (ps : List ProcessStats) (l : List FcfsProcess)
    → await t (initials ps) l ≡ await (t + 1) (initials ps) (add_arrivals fcfs t ps l)
unfolding await add_arrivals
await-add_arrivals t [] l = refl
await-add_arrivals t (p ∷ ps) l = ground (
  arith,
  await-add_arrivals t ps l,
  await-add_arrivals t ps (add_to_ready_queue p.initial l),
  add_arrivals-add t p.initial ps l,
)

-- A process that has arrived stays in front.
pub await-head :
    (t : ℕ) (ps : List ProcessInitial) (x : FcfsProcess) (l : List FcfsProcess)
    → x.arrival_time < t
    → await t ps (x ∷ l) ≡ x ∷ await t ps l
unfolding await
await-head t [] x l h = refl
await-head t (p ∷ ps) x l h = elim (Bool-cases (leb t p.arrival_time)) [
  | inl e ↦
      let after : x.arrival_time < p.arrival_time = ground arith in
      rw e (ap (await t ps) (add-behind after) ∙ await-head t ps x (add_to_ready_queue p l) h)
  | inr e ↦ rw e (await-head t ps x l h)
]
  where
    add-behind :
        x.arrival_time < p.arrival_time → add_to_ready_queue p (x ∷ l) ≡ x ∷ add_to_ready_queue p l
    add-behind after =
        unfold add_to_ready_queue new_process in
        add_sorted_later (λ y. y.arrival_time) (λ y. y.pid) (new_process p) x l after

pub await-later :
    (t : ℕ) (ps : List ProcessInitial) (l : List FcfsProcess)
    → All (λ x. t ≤ x.arrival_time) l
    → All (λ x. t ≤ x.arrival_time) (await t ps l)
unfolding await
await-later t [] l h = h
await-later t (p ∷ ps) l h = elim (Bool-cases (leb t p.arrival_time)) [
  | inl e ↦
      let late : t ≤ p.arrival_time = ground arith in
      rw e (await-later t ps (add_to_ready_queue p l) (add-later late))
  | inr e ↦ rw e (await-later t ps l h)
]
  where
    add-later : t ≤ p.arrival_time → All (λ x. t ≤ x.arrival_time) (add_to_ready_queue p l)
    add-later late =
        unfold add_to_ready_queue new_process in
        All-add_sorted (λ y. y.arrival_time) (λ y. y.pid) (λ y. t ≤ y.arrival_time) (new_process p)
          l late h

-- The arrivals of step `t` have arrived by the next.
pub add_arrivals-arrived :
    (t : ℕ) (ps : List ProcessStats) (l : List FcfsProcess)
    → All (λ x. x.arrival_time ≤ t) l
    → All (λ x. x.arrival_time ≤ t) (add_arrivals fcfs t ps l)
unfolding add_arrivals
add_arrivals-arrived t [] l h = h
add_arrivals-arrived t (p ∷ ps) l h = elim (Bool-cases (p.initial.arrival_time == t)) [
  | inl e ↦
      let now : p.initial.arrival_time ≤ t = ground arith in
      rw e (add_arrivals-arrived t ps (add_to_ready_queue p.initial l) (add-arrived now))
  | inr e ↦ rw e (add_arrivals-arrived t ps l h)
]
  where
    add-arrived :
        p.initial.arrival_time ≤ t → All (λ x. x.arrival_time ≤ t) (add_to_ready_queue p.initial l)
    add-arrived now =
        unfold add_to_ready_queue new_process in
        All-add_sorted (λ y. y.arrival_time) (λ y. y.pid) (λ y. y.arrival_time ≤ t)
          (new_process p.initial) l now h

length-add :
    (p : ProcessInitial) (l : List FcfsProcess)
    → total (λ x. 1) (add_to_ready_queue p l) ≡ 1 + total (λ x. 1) l
unfolding add_to_ready_queue
length-add p l = total-add_sorted (λ x. x.arrival_time) (λ x. x.pid) (λ x. 1) (new_process p) l

-- The list does not get shorter, and it is longer if some process is still to come.
pub await-nonempty :
    (t : ℕ) (ps : List ProcessInitial) (l : List FcfsProcess)
    → total (λ x. 1) l + total (λ p. if leb t p.arrival_time then 1 else 0) ps
      ≡ total (λ x. 1) (await t ps l)
unfolding await
await-nonempty t [] l = omega arith
await-nonempty t (p ∷ ps) l =
    ground
      (arith, await-nonempty t ps l, await-nonempty t ps (add_to_ready_queue p l), length-add p l)

-- The processes in the order of FCFS.
pub in_order_from : List ProcessInitial → List ProcessInitial → List ProcessInitial
in_order_from [] l = l
in_order_from (p ∷ ps) l = in_order_from ps (add_sorted (λ x. x.arrival_time) (λ x. x.pid) p l)

pub in_order_from-perm : (ps l : List ProcessInitial) → Perm (in_order_from ps l) (ps ++ l)
unfolding in_order_from
in_order_from-perm [] l = Perm.refl l
in_order_from-perm (p ∷ ps) l =
    Perm.trans (in_order_from-perm ps (add_sorted (λ x. x.arrival_time) (λ x. x.pid) p l)) (
      Perm.trans (Perm.append_left ps (add_sorted-perm (λ x. x.arrival_time) (λ x. x.pid) p l))
        (perm_middle ps l))

pub in_order_from-IsSorted :
    (ps l : List ProcessInitial)
    → IsSorted (λ x. x.arrival_time) (λ x. x.pid) l
    → IsSorted (λ x. x.arrival_time) (λ x. x.pid) (in_order_from ps l)
unfolding in_order_from
in_order_from-IsSorted [] l h = h
in_order_from-IsSorted (p ∷ ps) l h =
    in_order_from-IsSorted ps _ (add_sorted-IsSorted (λ x. x.arrival_time) (λ x. x.pid) p l h)

-- At the start, what the list of FCFS will be.
pub await-in_order :
    (ps l : List ProcessInitial)
    → await 0 ps (map new_process l) ≡ map new_process (in_order_from ps l)
unfolding await in_order_from add_to_ready_queue new_process
await-in_order [] l = refl
await-in_order (p ∷ ps) l =
    let late : leb 0 p.arrival_time ≡ true = ground arith in
    rw late (
      ap (await 0 ps) (sym (map-add_sorted (λ x. x.arrival_time) (λ x. x.pid) new_process p l))
      ∙ await-in_order ps (add_sorted (λ x. x.arrival_time) (λ x. x.pid) p l))
