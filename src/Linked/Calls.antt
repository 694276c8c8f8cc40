-- ===== src/Linked/Calls.antt =====
-- Calls of the two functions in any order, on nodes in memory and on the list of Fcfs.
use cosc.Base.{
  ℕ, ◌+◌, ◌<◌, ◌≡◌, ◌≢◌, refl, Bool, true, false, List, [], ◌∷◌, some, ◌==◌, if◌then◌else◌, arith,
  length, Bool-cases, inl, inr, ap, sym, ◌∙◌,
}
use cosc.Fcfs.{FcfsProcess, new_process}
use cosc.Fcfs
use cosc.Linked.Nodes.{Line, after_completed, Memory, member, IsAllocator, bind}
use cosc.Linked.{
  process_list, no_process, report, add_to_ready_queue, get_next_scheduled_process, initial, Call,
  arrive, schedule, run_calls,
}
use cosc.Linked.Chain.{Cells, owns, processes, IsChain, AreAllocated, apart}
use cosc.Linked.Turn.{ending}
use cosc.Linked.Refines.{Represents, owned-AreAllocated, report_lem, schedule_from-Turned}
use cosc.Linked.Adding.{Implements, all_live, add-Implements}

-- The same calls on the list.
unfoldable pub run_on_list : List Call → List FcfsProcess → List ℕ × List FcfsProcess
run_on_list [] l = ([], l)
run_on_list (arrive process ∷ calls) l = run_on_list calls (Fcfs.add_to_ready_queue process l)
run_on_list (schedule ∷ calls) l =
    let (pid, l') = Fcfs.get_next_scheduled_process l in
    let (pids, l'') = run_on_list calls l' in (pid ∷ pids, l'')

not_equal : (p q : ℕ) → p ≢ q → (p == q) ≡ false
not_equal p q h = ground arith

ending_lem :
    (debug : Bool) (fuel : ℕ) (finished : Bool) (pid : ℕ) (xs : Cells) (m : Memory)
    → length xs < fuel
    → IsChain m.cell ((process_list, no_process) ∷ xs)
    → AreAllocated m.allocated ((process_list, no_process) ∷ xs)
    → (out : List Line) × (ending debug fuel finished pid m
        ≡ some (pid, record m { printed = out }))
ending_lem debug fuel false pid xs m h c al = (m.printed, refl)
ending_lem debug fuel true pid xs m h c al =
    let (out, e) = report_lem debug fuel (after_completed pid) xs m h c al in
    (out, bind (report debug fuel (after_completed pid)) _ m e refl)

exact_turn :
    (l l' : List ℕ) (xs cells : Cells)
    → ((p : ℕ) → member p l ≡ owns ((process_list, no_process) ∷ xs) p)
    → ((p : ℕ) → member p l' ≡ (if owns xs p then owns cells p else member p l))
    → ((p : ℕ) → owns xs p ≡ false → owns cells p ≡ false)
    → owns xs process_list ≡ false
    → (p : ℕ) → member p l' ≡ owns ((process_list, no_process) ∷ cells) p
exact_turn l l' xs cells h k smaller head p = elim (Bool-cases (owns xs p)) [
  | inl o ↦
      let ne = apart xs process_list p head o in
      let other : (process_list == p) ≡ false = not_equal process_list p ne in
      k p ∙ rw (o, other) refl
  | inr o ↦
      k p
      ∙ ap (λ t. if t then owns cells p else member p l) o
      ∙ h p
      ∙ ap (λ t. if process_list == p then true else t) (o ∙ sym (smaller p o))
]

pub next-Implements :
    (debug : Bool) (fuel : ℕ) (m : Memory) (l : List FcfsProcess) (v : Represents m l)
    → length v.cells < fuel
    → Implements
        (get_next_scheduled_process debug fuel m)
        (Fcfs.get_next_scheduled_process l).0
        (Fcfs.get_next_scheduled_process l).1
        (length v.cells)
unfolding get_next_scheduled_process
next-Implements debug fuel m l v enough =
    let d =
      schedule_from-Turned debug fuel fuel m process_list no_process v.cells enough v.chain
        (all_live m l v) in
    let exact =
      exact_turn m.allocated d.after.allocated v.cells d.cells v.exact d.members d.smaller
        v.chain.2 in
    let called = ap (λ k. (Fcfs.get_next_scheduled_process k).0) v.same in
    let left = ap (λ k. (Fcfs.get_next_scheduled_process k).1) v.same in
    let (out, ended) =
      ending_lem debug fuel d.finished (Fcfs.get_next_scheduled_process (processes v.cells)).0
        d.cells d.after (omega (arith, d.shorter)) d.chain
        (owned-AreAllocated d.after.allocated m.cell ((process_list, no_process) ∷ d.cells)
          (λ p o. exact p ∙ o)) in
    record {
      after = record d.after { printed = out };
      returned = d.returned ∙ ended ∙ ap (λ k. some (k, record d.after { printed = out })) called;
      represents = record { cells = d.cells; same = d.same ∙ left; chain = d.chain; exact = exact };
      bounded = omega (arith, d.shorter);
    }

run_calls-Implements :
    (pick : List ℕ → ℕ)
    → IsAllocator pick
    → (debug : Bool) (fuel : ℕ) (calls : List Call) (m : Memory) (l : List FcfsProcess)
      (v : Represents m l)
    → length v.cells + length calls < fuel
    → Implements
        (run_calls pick debug fuel calls m)
        (run_on_list calls l).0
        (run_on_list calls l).1
        (length v.cells + length calls)
unfolding run_calls run_on_list
run_calls-Implements pick alloc debug fuel [] m l v enough = record {
  after = m;
  returned = refl;
  represents = v;
  bounded = omega arith;
}
run_calls-Implements pick alloc debug fuel (arrive process ∷ calls) m l v enough =
    let d = add-Implements pick alloc process m l v debug fuel (omega arith) in
    let e =
      run_calls-Implements pick alloc debug fuel calls d.after (Fcfs.add_to_ready_queue process l)
        d.represents (omega (arith, d.bounded)) in
    record {
      after = e.after;
      returned = bind (add_to_ready_queue pick debug fuel process) _ m d.returned e.returned;
      represents = e.represents;
      bounded = omega (arith, e.bounded, d.bounded);
    }
run_calls-Implements pick alloc debug fuel (schedule ∷ calls) m l v enough =
    let d = next-Implements debug fuel m l v (omega arith) in
    let e =
      run_calls-Implements pick alloc debug fuel calls d.after (Fcfs.get_next_scheduled_process l).1
        d.represents (omega (arith, d.bounded)) in
    record {
      after = e.after;
      returned =
          bind (get_next_scheduled_process debug fuel) _ m d.returned
            (bind (run_calls pick debug fuel calls) _ d.after e.returned refl);
      represents = e.represents;
      bounded = omega (arith, e.bounded, d.bounded);
    }

pub initial-Represents : Represents initial []
initial-Represents = record {
  cells = [];
  same = refl;
  chain = (omega arith, refl, refl, tt);
  exact = λ p. refl;
}

pub initial-empty : length initial-Represents.cells ≡ 0
unfolding initial-Represents
initial-empty = refl

-- From the start of the program, with an allocator that does not fail and fuel above the number of
-- calls, any calls of the two functions return, in debug mode or not, with the PIDs that they
-- return on the list; no access is outside of what is allocated, and at the end exactly the nodes
-- of the processes that are left are allocated, linked in the order of the list.
pub run_calls-refines :
    (pick : List ℕ → ℕ) (debug : Bool) (fuel : ℕ) (calls : List Call)
    → IsAllocator pick
    → length calls < fuel
    → (m : Memory) × (run_calls pick debug fuel calls initial ≡ some ((run_on_list calls []).0, m))
      × Represents m (run_on_list calls []).1
unfolding initial-Represents
run_calls-refines pick debug fuel calls alloc enough =
    let d =
      run_calls-Implements pick alloc debug fuel calls initial [] initial-Represents
        (omega arith) in
    (d.after, d.returned, d.represents)
