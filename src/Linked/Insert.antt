-- ===== src/Linked/Insert.antt =====
-- The two loops of `add_to_ready_queue` and `add_next`, on a list of nodes in memory.
use cosc.Base.{
  ℕ, suc, ◌<◌, ◌≡◌, ◌≢◌, refl, true, false, [], ◌∷◌, ◌&&◌, Option, some, ◌==◌, ltb, if◌then◌else◌,
  arith, sym, ◌∙◌,
}
use cosc.ReadyList.{skip_pids as list_skip_pids, add_sorted}
use cosc.Fcfs.{FcfsProcess}
use cosc.Linked.Nodes.{
  Memory, pure, member, put, load, load-some, store-some, bind, by_test, put-at, put_elsewhere,
}
use cosc.Linked.{set_next_process, add_next, skip_pids, skip_arrivals}
use cosc.Linked.Chain.{
  Cells, first, owns, node, IsChain, AreAllocated, IsChain-frame, not_owned, free_of, apart,
}

-- What the insertion relies on: a list from the node at `a` on, and a new node outside of it.
pub record Ready (m : Memory) (a : ℕ) (x : FcfsProcess) (xs : Cells) (new : ℕ) (n : FcfsProcess)
    : Type 0 where
  pub chain : IsChain m.cell ((a, x) ∷ xs)
  pub live : AreAllocated m.allocated ((a, x) ∷ xs)
  pub new_live : member new m.allocated ≡ true
  pub new_pos : 0 < new
  pub new_cell : m.cell new ≡ node n 0
  pub new_free : owns ((a, x) ∷ xs) new ≡ false

-- What it leaves: the list `ys` from the node at `a` on, and the rest of memory as it was.
pub record Placed (m : Memory) (a : ℕ) (x : FcfsProcess) (ys : Cells)
    (r : Option (Unit {0} × Memory)) : Type 0 where
  pub after : Memory
  pub returned : r ≡ some (tt, after)
  pub allocated : after.allocated ≡ m.allocated
  pub printed : after.printed ≡ m.printed
  pub chain : IsChain after.cell ((a, x) ∷ ys)
  pub elsewhere : (p : ℕ) → owns ((a, x) ∷ ys) p ≡ false → after.cell p ≡ m.cell p

pub set_next_process_lem :
    (p q : ℕ) {x : FcfsProcess} {r : ℕ} (m : Memory)
    → member p m.allocated ≡ true
    → m.cell p ≡ node x r
    → set_next_process p q m ≡ some (tt, put p (node x q) m)
unfolding set_next_process
set_next_process_lem p q m al here = bind (load p) _ m (load-some p m al here) (store-some p _ m al)

pub Ready-rest :
    (m : Memory) (a : ℕ) (x : FcfsProcess) (b : ℕ) (y : FcfsProcess) (xs : Cells) (new : ℕ)
    (n : FcfsProcess)
    → Ready m a x ((b, y) ∷ xs) new n
    → Ready m b y xs new n
Ready-rest m a x b y xs new n r = record {
  chain = r.chain.3;
  live = r.live.1;
  new_live = r.new_live;
  new_pos = r.new_pos;
  new_cell = r.new_cell;
  new_free = ground (arith, r.new_free);
}

pub add_next-Placed :
    (m : Memory) (a : ℕ) (x : FcfsProcess) (xs : Cells) (new : ℕ) (n : FcfsProcess)
    → Ready m a x xs new n
    → Placed m a x ((new, n) ∷ xs) (add_next a new m)
unfolding add_next
add_next-Placed m a x xs new n r =
    let (pos, here, once, c) = r.chain in
    let (ne, new_free) = not_owned a x xs new r.new_free in
    let m1 : Memory = put new (node n (first xs)) m in
    let m2 : Memory = put a (node x new) m1 in
    let away : (p : ℕ) → a ≢ p → new ≢ p → m2.cell p ≡ m.cell p =
      λ p h k. put_elsewhere a p (node x new) m1 h ∙ put_elsewhere new p (node n (first xs)) m k in
    record {
      after = m2;
      returned = bind (load a) _ m (load-some a m r.live.0 here) (
          bind (set_next_process new (first xs)) _ m
            (set_next_process_lem new (first xs) m r.new_live r.new_cell)
            (set_next_process_lem a new m1 r.live.0
              (put_elsewhere new a (node n (first xs)) m (λ e. ne (sym e)) ∙ here)));
      allocated = refl;
      printed = refl;
      chain = (
        pos,
        put-at a (node x new) m1,
        free_of new n xs a (λ e. ne (sym e)) once,
        (
          r.new_pos,
          put_elsewhere a new (node x new) m1 ne ∙ put-at new (node n (first xs)) m,
          new_free,
          IsChain-frame m.cell m2.cell xs
              (λ p h. away p (apart xs a p once h) (apart xs new p new_free h)) c,
        ),
      );
      elsewhere = λ p h.
          let (h1, h2) = not_owned a x ((new, n) ∷ xs) p h in away p h1 (not_owned new n xs p h2).0;
    }

abbrev pub arrival_at : ℕ × FcfsProcess → ℕ
arrival_at y = y.1.arrival_time

abbrev pub pid_at : ℕ × FcfsProcess → ℕ
pid_at y = y.1.pid

pub owns-skip_pids :
    (q : ℕ) (n : FcfsProcess) (xs : Cells) (p : ℕ)
    → owns (list_skip_pids arrival_at pid_at (q, n) xs) p ≡ (if q == p then true else owns xs p)
unfolding list_skip_pids
owns-skip_pids q n [] p = refl
owns-skip_pids q n ((a, x) ∷ xs) p = ground (arith, owns-skip_pids q n xs p)

pub owns-add_sorted :
    (q : ℕ) (n : FcfsProcess) (xs : Cells) (p : ℕ)
    → owns (add_sorted arrival_at pid_at (q, n) xs) p ≡ (if q == p then true else owns xs p)
unfolding add_sorted
owns-add_sorted q n [] p = owns-skip_pids q n [] p
owns-add_sorted q n ((a, x) ∷ xs) p =
    ground (arith, owns-add_sorted q n xs p, owns-skip_pids q n ((a, x) ∷ xs) p)

-- A loop that has moved on from the node at `a` to the next one.
pub Placed-behind :
    (m : Memory) (a : ℕ) (x : FcfsProcess) (b : ℕ) (y : FcfsProcess) (xs ys : Cells)
    (r s : Option (Unit {0} × Memory))
    → IsChain m.cell ((a, x) ∷ (b, y) ∷ xs)
    → owns ys a ≡ false
    → r ≡ s
    → Placed m b y ys s
    → Placed m a x ((b, y) ∷ ys) r
Placed-behind m a x b y xs ys r s (pos, here, once, c) free e d =
    let ne = (not_owned b y xs a once).0 in
    let free' : owns ((b, y) ∷ ys) a ≡ false = free_of b y ys a ne free in
    record {
      after = d.after;
      returned = e ∙ d.returned;
      allocated = d.allocated;
      printed = d.printed;
      chain = (pos, d.elsewhere a free' ∙ here, free', d.chain);
      elsewhere = λ p h. d.elsewhere p (not_owned a x ((b, y) ∷ ys) p h).1;
    }

module _ (m : Memory) (a : ℕ) (x : FcfsProcess) (b : ℕ) (y : FcfsProcess) (xs : Cells) (new : ℕ)
    (n : FcfsProcess) (r : Ready m a x ((b, y) ∷ xs) new n) (fuel : ℕ) where
  b_live : (b == 0) ≡ false
  b_live = let pos = r.chain.3.0 in ground arith

  pub skip_pids_step : skip_pids (suc fuel) a new m ≡ (
      if y.arrival_time == n.arrival_time && ltb y.pid n.pid
      then skip_pids fuel b new m
      else some (a, m))
  unfolding skip_pids
  skip_pids_step = bind (load a) _ m (load-some a m r.live.0 r.chain.1) (
      rw b_live (
        bind (load b) _ m (load-some b m r.live.1.0 r.chain.3.1) (
          bind (load new) _ m (load-some new m r.new_live r.new_cell) (
            by_test (y.arrival_time == n.arrival_time && ltb y.pid n.pid) (skip_pids fuel b new)
              (pure a) m))))

  pub skip_arrivals_step :
      skip_arrivals (suc fuel) a new m
      ≡ (if ltb y.arrival_time n.arrival_time then skip_arrivals fuel b new m else some (a, m))
  unfolding skip_arrivals
  skip_arrivals_step = bind (load a) _ m (load-some a m r.live.0 r.chain.1) (
      rw b_live (
        bind (load b) _ m (load-some b m r.live.1.0 r.chain.3.1) (
          bind (load new) _ m (load-some new m r.new_live r.new_cell)
            (by_test (ltb y.arrival_time n.arrival_time) (skip_arrivals fuel b new) (pure a) m))))

  pub free_behind :
      (ys : Cells) → owns ys a ≡ (if new == a then true else owns xs a) → owns ys a ≡ false
  free_behind ys e =
      let h = (not_owned a x ((b, y) ∷ xs) new r.new_free).0 in
      let k = (not_owned b y xs a r.chain.2).1 in e ∙ ground arith
