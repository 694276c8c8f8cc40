-- ===== src/Linked/Loop.antt =====
-- The rounds of the loop of `get_next_scheduled_process` on nodes in memory.
use cosc.Base.{
  ℕ, suc, ◌≡◌, refl, Bool, true, false, ◌∷◌, ◌==◌, ltb, if◌then◌else◌, arith, ==_iff, Bool-cases,
  inl, inr, ap, sym, ◌∙◌,
}
use cosc.Fcfs.{FcfsProcess}
use cosc.Fcfs
use cosc.ReadyList
use cosc.Linked.Nodes.{
  after_completed, Memory, pure, member, load, store, load-some, store-some, bind, bind_cong,
}
use cosc.Linked.{report, finish_turn, schedule_from}
use cosc.Linked.Chain.{Cells, owns, IsChain, AreAllocated, IsChain-frame, not_owned, free_of, apart}
use cosc.Linked.Turn.{
  Turned, run, allocated_of, ne, b_live, ran, ran-next, ran-node, removed, freed, finish_turn_done,
  finish_turn_more, ran_elsewhere, removed_elsewhere, removed-node, freed-members,
}

module _ (debug : Bool) (fuel : ℕ) (m : Memory) (a : ℕ) (x : FcfsProcess) (b : ℕ) (y : FcfsProcess)
    (ys : Cells) (c : IsChain m.cell ((a, x) ∷ (b, y) ∷ ys))
    (live : AreAllocated m.allocated ((a, x) ∷ (b, y) ∷ ys)) where
  -- A turn that ends the process.
  pub turn_done :
      ltb y.processed_time y.processing_time ≡ true
      → ((run y).processed_time == y.processing_time) ≡ true
      → (left : ℕ) → Turned debug fuel m a x ((b, y) ∷ ys) (schedule_from debug fuel (suc left) a m)
  unfolding schedule_from Fcfs.get_next_scheduled_process ReadyList.remove_next ran removed freed
  turn_done t e left = record {
    after = (freed debug fuel m a x b y ys c live);
    cells = ys;
    finished = true;
    returned = bind (load a) _ m (load-some a m live.0 c.1) (
        rw (b_live debug fuel m a x b y ys c live) (
          bind (load b) _ m (load-some b m live.1.0 c.3.1) (
            rw t (
              bind (store b _) _ m (store-some b _ m live.1.0) (
                bind_cong (finish_turn debug fuel a b) (report debug fuel (after_completed y.pid))
                  (λ _. pure y.pid) (ran debug fuel m a x b y ys c live)
                  (freed debug fuel m a x b y ys c live)
                  ((finish_turn_done debug fuel m a x b y ys c live) e))))));
    same = rw (t, e) refl;
    shorter = omega arith;
    chain = (
      c.0,
      (removed-node debug fuel m a x b y ys c live),
      (not_owned b y ys a c.2).1,
      IsChain-frame m.cell (freed debug fuel m a x b y ys c live).cell ys
          (λ p h.
            (removed_elsewhere debug fuel m a x b y ys c live) p
              (apart ys a p (not_owned b y ys a c.2).1 h) (apart ys b p c.3.2 h))
          c.3.3,
    );
    smaller = λ p h. (not_owned b y ys p h).1;
    members = (freed-members debug fuel m a x b y ys c live);
    elsewhere = λ p h.
        (removed_elsewhere debug fuel m a x b y ys c live) p (not_owned a x ((b, y) ∷ ys) p h).0
          (not_owned b y ys p (not_owned a x ((b, y) ∷ ys) p h).1).0;
  }

  -- A turn after which the process needs more time.
  pub turn_more :
      ltb y.processed_time y.processing_time ≡ true
      → ((run y).processed_time == y.processing_time) ≡ false
      → (left : ℕ) → Turned debug fuel m a x ((b, y) ∷ ys) (schedule_from debug fuel (suc left) a m)
  unfolding schedule_from Fcfs.get_next_scheduled_process ran
  turn_more t e left = record {
    after = (ran debug fuel m a x b y ys c live);
    cells = (b, run y) ∷ ys;
    finished = false;
    returned = bind (load a) _ m (load-some a m live.0 c.1) (
        rw (b_live debug fuel m a x b y ys c live) (
          bind (load b) _ m (load-some b m live.1.0 c.3.1) (
            rw t (
              bind (store b _) _ m (store-some b _ m live.1.0) (
                bind (finish_turn debug fuel a b) _ (ran debug fuel m a x b y ys c live)
                  ((finish_turn_more debug fuel m a x b y ys c live) e) refl)))));
    same = rw (t, e) refl;
    shorter = omega arith;
    chain = (
      c.0,
      (ran-node debug fuel m a x b y ys c live),
      c.2,
      (
        c.3.0,
        (ran-next debug fuel m a x b y ys c live),
        c.3.2,
        IsChain-frame m.cell (ran debug fuel m a x b y ys c live).cell ys
            (λ p h. (ran_elsewhere debug fuel m a x b y ys c live) p (apart ys b p c.3.2 h)) c.3.3,
      ),
    );
    smaller = λ p h. h;
    members = λ p. elim (Bool-cases (owns ((b, y) ∷ ys) p)) [
      | inl o ↦ rw o (allocated_of m.allocated ((b, y) ∷ ys) p live.1 o)
      | inr o ↦ rw o refl
    ];
    elsewhere = λ p h.
        (ran_elsewhere debug fuel m a x b y ys c live) p
          (not_owned b y ys p (not_owned a x ((b, y) ∷ ys) p h).1).0;
  }

  -- A node whose process needs no time is passed over.
  pub passed :
      ltb y.processed_time y.processing_time ≡ false
      → (left : ℕ) → Turned debug fuel m b y ys (schedule_from debug fuel left b m)
      → Turned debug fuel m a x ((b, y) ∷ ys) (schedule_from debug fuel (suc left) a m)
  unfolding schedule_from Fcfs.get_next_scheduled_process
  passed t left d = record {
    after = d.after;
    cells = (b, y) ∷ d.cells;
    finished = d.finished;
    returned = bind (load a) _ m (load-some a m live.0 c.1) (
        rw (b_live debug fuel m a x b y ys c live)
          (bind (load b) _ m (load-some b m live.1.0 c.3.1) (rw t d.returned)));
    same = rw t (ap (λ l. y ∷ l) d.same);
    shorter = omega (arith, d.shorter);
    chain = (
      c.0,
      d.elsewhere a c.2 ∙ c.1,
      free_of b y d.cells a (ne debug fuel m a x b y ys c live)
          (d.smaller a (not_owned b y ys a c.2).1),
      d.chain,
    );
    smaller = λ p h. let (k, l) = not_owned b y ys p h in free_of b y d.cells p k (d.smaller p l);
    members = λ p. elim (Bool-cases (b == p)) [
      | inl e ↦
          let same = (==_iff b p).0 e in
          rw e (
            d.members p
            ∙ ap (λ t. if t then owns d.cells p else member p m.allocated)
                (ap (owns ys) (sym same) ∙ c.3.2)
            ∙ ap (λ q. member q m.allocated) (sym same)
            ∙ live.1.0)
      | inr e ↦ rw e (d.members p)
    ];
    elsewhere = λ p h. d.elsewhere p (not_owned a x ((b, y) ∷ ys) p h).1;
  }
