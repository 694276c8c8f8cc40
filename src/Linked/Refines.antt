-- ===== src/Linked/Refines.antt =====
-- The list of Fcfs as the abstract view of the nodes in memory.
use cosc.Base.{
  ℕ, zero, suc, ◌<◌, ◌≡◌, refl, Bool, true, false, List, [], ◌∷◌, ◌++◌, some, ◌==◌, ◌&&◌, ltb,
  arith, length, Bool-cases, inl, inr, ap,
}
use cosc.ReadyList.{add_sorted, skip_pids as list_skip_pids}
use cosc.ReadyList
use cosc.Fcfs.{FcfsProcess, new_process}
use cosc.Fcfs
use cosc.Linked.Nodes.{Node, Line, Memory, member, load, print, load-some, bind}
use cosc.Linked.{process_list, no_process, report, schedule_from}
use cosc.Linked.Chain.{Cells, owns, processes, IsChain, AreAllocated, print_list_lem}
use cosc.Linked.Insert.{arrival_at, pid_at}
use cosc.Linked.Turn.{Turned, run}
use cosc.Linked.Loop.{turn_done, turn_more, passed}

-- The nodes behind `process_list` hold the processes of the list, in order, and no other node is
-- allocated.
pub record Represents (m : Memory) (l : List FcfsProcess) : Type 0 where
  pub cells : Cells
  pub same : processes cells ≡ l
  pub chain : IsChain m.cell ((process_list, no_process) ∷ cells)
  pub exact : (p : ℕ) → member p m.allocated ≡ owns ((process_list, no_process) ∷ cells) p

pub owned-AreAllocated :
    (l : List ℕ) (cell : ℕ → Node) (zs : Cells)
    → ((p : ℕ) → owns zs p ≡ true → member p l ≡ true)
    → AreAllocated l zs
owned-AreAllocated l cell [] h = tt
owned-AreAllocated l cell ((a, x) ∷ zs) h =
    (h a (ground arith), owned-AreAllocated l cell zs (λ p o. h p (ground arith)))

pub length-processes : (xs : Cells) → length (processes xs) ≡ length xs
length-processes [] = refl
length-processes ((a, x) ∷ xs) = omega (arith, length-processes xs)

processes-skip_pids :
    (q : ℕ) (n : FcfsProcess) (xs : Cells)
    → processes (list_skip_pids arrival_at pid_at (q, n) xs)
      ≡ list_skip_pids (λ y. y.arrival_time) (λ y. y.pid) n (processes xs)
unfolding list_skip_pids ReadyList.add_next
processes-skip_pids q n [] = refl
processes-skip_pids q n ((a, x) ∷ xs) =
    elim (Bool-cases (x.arrival_time == n.arrival_time && ltb x.pid n.pid)) [
      | inl e ↦ rw e (ap (λ l. x ∷ l) (processes-skip_pids q n xs))
      | inr e ↦ rw e refl
    ]

pub processes-add_sorted :
    (q : ℕ) (n : FcfsProcess) (xs : Cells)
    → processes (add_sorted arrival_at pid_at (q, n) xs)
      ≡ add_sorted (λ y. y.arrival_time) (λ y. y.pid) n (processes xs)
unfolding add_sorted
processes-add_sorted q n [] = processes-skip_pids q n []
processes-add_sorted q n ((a, x) ∷ xs) = elim (Bool-cases (ltb x.arrival_time n.arrival_time)) [
  | inl e ↦ rw e (ap (λ l. x ∷ l) (processes-add_sorted q n xs))
  | inr e ↦ rw e (processes-skip_pids q n ((a, x) ∷ xs))
]

length-skip_pids :
    (q : ℕ × FcfsProcess) (xs : Cells)
    → length (list_skip_pids arrival_at pid_at q xs) ≡ suc (length xs)
unfolding list_skip_pids ReadyList.add_next
length-skip_pids q [] = refl
length-skip_pids q (y ∷ xs) = ground (arith, length-skip_pids q xs)

pub length-add_sorted :
    (q : ℕ × FcfsProcess) (xs : Cells)
    → length (add_sorted arrival_at pid_at q xs) ≡ suc (length xs)
unfolding add_sorted
length-add_sorted q [] = length-skip_pids q []
length-add_sorted q (y ∷ xs) = ground (arith, length-add_sorted q xs, length-skip_pids q (y ∷ xs))

-- The report changes the output alone.
pub report_lem :
    (debug : Bool) (fuel : ℕ) (line : Line) (xs : Cells) (m : Memory)
    → length xs < fuel
    → IsChain m.cell ((process_list, no_process) ∷ xs)
    → AreAllocated m.allocated ((process_list, no_process) ∷ xs)
    → (out : List Line) × (report debug fuel line m ≡ some (tt, record m { printed = out }))
unfolding report print
report_lem false fuel line xs m h c al = (m.printed, refl)
report_lem true fuel line xs m h c al = (
  _,
  print_list_lem fuel process_list no_process xs (record m { printed = m.printed ++ (line ∷ []) }) h
      c al,
)

pub schedule_from-Turned :
    (debug : Bool) (fuel left : ℕ) (m : Memory) (a : ℕ) (x : FcfsProcess) (xs : Cells)
    → length xs < left
    → IsChain m.cell ((a, x) ∷ xs)
    → AreAllocated m.allocated ((a, x) ∷ xs)
    → Turned debug fuel m a x xs (schedule_from debug fuel left a m)
unfolding schedule_from Fcfs.get_next_scheduled_process
schedule_from-Turned debug fuel zero m a x xs h c al = absurd (omega arith)
schedule_from-Turned debug fuel (suc left) m a x [] h c al = record {
  after = m;
  cells = [];
  finished = false;
  returned = bind (load a) _ m (load-some a m al.0 c.1) refl;
  same = refl;
  shorter = omega arith;
  chain = c;
  smaller = λ p h. h;
  members = λ p. refl;
  elsewhere = λ p h. refl;
}
schedule_from-Turned debug fuel (suc left) m a x ((b, y) ∷ ys) h c al =
    elim (Bool-cases (ltb y.processed_time y.processing_time)) [
      | inl t ↦ elim (Bool-cases ((run y).processed_time == y.processing_time)) [
        | inl e ↦ turn_done debug fuel m a x b y ys c al t e left
        | inr e ↦ turn_more debug fuel m a x b y ys c al t e left
      ]
      | inr t ↦
          passed debug fuel m a x b y ys c al t left
            (schedule_from-Turned debug fuel left m b y ys (omega arith) c.3 al.1)
    ]
