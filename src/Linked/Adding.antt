-- ===== src/Linked/Adding.antt =====
-- `add_to_ready_queue` on nodes in memory and on the list of Fcfs.
use cosc.Base.{
  ℕ, suc, ◌<◌, ◌≤◌, ◌≡◌, refl, Bool, true, false, List, ◌∷◌, Option, some, ◌==◌, if◌then◌else◌,
  arith, length, ==_iff, Bool-cases, inl, inr, ap, sym, ◌∙◌,
}
use cosc.Process.{ProcessInitial}
use cosc.ReadyList.{add_sorted}
use cosc.Fcfs.{FcfsProcess, new_process}
use cosc.Fcfs
use cosc.Linked.Nodes.{
  after_adding, Memory, ◌>>◌, member, put, store, malloc, IsAllocator, store-some, bind, put-at,
  put_elsewhere,
}
use cosc.Linked.{process_list, no_process, report, insert, add_to_ready_queue}
use cosc.Linked.Chain.{Cells, owns, node, AreAllocated, IsChain-frame, apart}
use cosc.Linked.Insert.{Ready, arrival_at, pid_at, owns-add_sorted}
use cosc.Linked.Place.{insert-Placed}
use cosc.Linked.Refines.{
  Represents, owned-AreAllocated, processes-add_sorted, length-add_sorted, report_lem,
}

-- What a command does, if it keeps to the abstract view: it returns `a` and leaves `l`.
pub record Implements {A : Type 0} (r : Option (A × Memory)) (a : A) (l : List FcfsProcess)
    (bound : ℕ) : Type 0 where
  pub after : Memory
  pub returned : r ≡ some (a, after)
  pub represents : Represents after l
  pub bounded : length represents.cells ≤ bound

pub all_live :
    (m : Memory) (l : List FcfsProcess) (v : Represents m l)
    → AreAllocated m.allocated ((process_list, no_process) ∷ v.cells)
all_live m l v =
    owned-AreAllocated m.allocated m.cell ((process_list, no_process) ∷ v.cells)
      (λ p o. v.exact p ∙ o)

swap_tests :
    (s t u : Bool)
    → (if s then true else if t then true else u) ≡ (if t then true else if s then true else u)
swap_tests true true u = refl
swap_tests true false u = refl
swap_tests false true u = refl
swap_tests false false u = refl

exact_insert :
    (l : List ℕ) (q : ℕ) (n : FcfsProcess) (xs : Cells)
    → ((p : ℕ) → member p l ≡ owns ((process_list, no_process) ∷ xs) p)
    → (p : ℕ)
    → member p (q ∷ l)
      ≡ owns ((process_list, no_process) ∷ add_sorted arrival_at pid_at (q, n) xs) p
exact_insert l q n xs h p =
    ap (λ t. if q == p then true else t) (h p)
    ∙ swap_tests (q == p) (process_list == p) (owns xs p)
    ∙ ap (λ t. if process_list == p then true else t) (sym (owns-add_sorted q n xs p))

module _ (pick : List ℕ → ℕ) (alloc : IsAllocator pick) (process : ProcessInitial) (m : Memory)
    (l : List FcfsProcess) (v : Represents m l) where
  new : ℕ
  new = pick m.allocated

  -- Memory with the new node.
  with_new : Memory
  unfolding new
  with_new = put new (node (new_process process) 0) (record m { allocated = new ∷ m.allocated })

  new_free : owns ((process_list, no_process) ∷ v.cells) new ≡ false
  unfolding new
  new_free = sym (v.exact new) ∙ alloc.fresh m.allocated

  with_new-Ready : Ready with_new process_list no_process v.cells new (new_process process)
  unfolding with_new new
  with_new-Ready = record {
    chain =
        IsChain-frame m.cell with_new.cell ((process_list, no_process) ∷ v.cells)
          (λ p o.
            put_elsewhere new p (node (new_process process) 0)
              (record m { allocated = new ∷ m.allocated })
              (apart ((process_list, no_process) ∷ v.cells) new p new_free o))
          v.chain;
    live =
        owned-AreAllocated with_new.allocated m.cell ((process_list, no_process) ∷ v.cells) (λ p o.
          let has = v.exact p ∙ o in
          elim (Bool-cases (new == p)) [ inl e ↦ rw e refl | inr e ↦ rw e has ]);
    new_live = rw ((==_iff new new).1 refl) refl;
    new_pos = let h = alloc.not_null m.allocated in ground arith;
    new_cell =
        put-at new (node (new_process process) 0) (record m { allocated = new ∷ m.allocated });
    new_free = new_free;
  }

  pub add-Implements :
      (debug : Bool) (fuel : ℕ)
      → suc (length v.cells) < fuel
      → Implements
          (add_to_ready_queue pick debug fuel process m)
          tt
          (Fcfs.add_to_ready_queue process l)
          (suc (length v.cells))
  unfolding add_to_ready_queue malloc with_new new Fcfs.add_to_ready_queue
  add-Implements debug fuel enough =
      let n = new_process process in
      let cells = add_sorted arrival_at pid_at (new, n) v.cells in
      let d =
        insert-Placed fuel fuel with_new process_list no_process v.cells new n with_new-Ready
          (omega arith) (omega arith) in
      let exact : (p : ℕ)
          → member p d.after.allocated ≡ owns ((process_list, no_process) ∷ cells) p =
        λ p. ap (member p) d.allocated ∙ exact_insert m.allocated new n v.cells v.exact p in
      let (out, reported) =
        report_lem debug fuel (after_adding process.pid) cells d.after
          (omega (arith, length-add_sorted (new, n) v.cells)) d.chain
          (owned-AreAllocated d.after.allocated m.cell ((process_list, no_process) ∷ cells)
            (λ p o. exact p ∙ o)) in
      record {
        after = record d.after { printed = out };
        returned =
            bind (store new (node n 0))
              (λ _.
                insert fuel fuel process_list new >> report debug fuel (after_adding process.pid))
              (record m { allocated = new ∷ m.allocated })
              (store-some new (node n 0) (record m { allocated = new ∷ m.allocated })
                with_new-Ready.new_live)
              (bind (insert fuel fuel process_list new)
                (λ _. report debug fuel (after_adding process.pid)) with_new d.returned reported);
        represents = record {
          cells = cells;
          same =
              processes-add_sorted new n v.cells
              ∙ ap (add_sorted (λ y. y.arrival_time) (λ y. y.pid) n) v.same;
          chain = d.chain;
          exact = exact;
        };
        bounded = omega (arith, length-add_sorted (new, n) v.cells);
      }
