-- ===== src/Linked/Place.antt =====
-- The insertion of a new node: the loops move on to its place, and `add_next` links it there.
use cosc.Base.{
  ℕ, zero, suc, ◌<◌, ◌≡◌, refl, [], ◌∷◌, ◌&&◌, Option, some, ◌==◌, ltb, arith, length, Bool-cases,
  inl, inr, ◌∙◌,
}
use cosc.ReadyList.{skip_pids as list_skip_pids, add_sorted}
use cosc.Fcfs.{FcfsProcess}
use cosc.Linked.Nodes.{Memory, M, ◌>>=◌, load, load-some, bind, bind_cong}
use cosc.Linked.{add_next, skip_pids, skip_arrivals, insert}
use cosc.Linked.Chain.{Cells}
use cosc.Linked.Insert.{
  Ready, Placed, arrival_at, pid_at, Ready-rest, add_next-Placed, Placed-behind, owns-skip_pids,
  owns-add_sorted, skip_pids_step, skip_arrivals_step, free_behind,
}

Placed-eq :
    (m : Memory) (a : ℕ) (x : FcfsProcess) (ys : Cells) {r s : Option (Unit {0} × Memory)}
    → r ≡ s
    → Placed m a x ys s
    → Placed m a x ys r
Placed-eq m a x ys e d = record {
  after = d.after;
  returned = e ∙ d.returned;
  allocated = d.allocated;
  printed = d.printed;
  chain = d.chain;
  elsewhere = d.elsewhere;
}

-- At the end of the list both loops stop.
skip_pids_end :
    (fuel : ℕ) (m : Memory) (a : ℕ) (x : FcfsProcess) (new : ℕ) (n : FcfsProcess)
    → Ready m a x [] new n
    → skip_pids (suc fuel) a new m ≡ some (a, m)
unfolding skip_pids
skip_pids_end fuel m a x new n r = bind (load a) _ m (load-some a m r.live.0 r.chain.1) refl

skip_arrivals_end :
    (fuel : ℕ) (m : Memory) (a : ℕ) (x : FcfsProcess) (new : ℕ) (n : FcfsProcess)
    → Ready m a x [] new n
    → skip_arrivals (suc fuel) a new m ≡ some (a, m)
unfolding skip_arrivals
skip_arrivals_end fuel m a x new n r = bind (load a) _ m (load-some a m r.live.0 r.chain.1) refl

place_pid :
    (fuel : ℕ) (m : Memory) (a : ℕ) (x : FcfsProcess) (xs : Cells) (new : ℕ) (n : FcfsProcess)
    → Ready m a x xs new n
    → length xs < fuel
    → Placed m a x
        (list_skip_pids arrival_at pid_at (new, n) xs)
        ((skip_pids fuel a new >>= λ end. add_next end new) m)
unfolding list_skip_pids
place_pid zero m a x xs new n r h = absurd (omega arith)
place_pid (suc fuel) m a x [] new n r h =
    Placed-eq m a x ((new, n) ∷ [])
      (bind (skip_pids (suc fuel) a new) _ m (skip_pids_end fuel m a x new n r) refl)
      (add_next-Placed m a x [] new n r)
place_pid (suc fuel) m a x ((b, y) ∷ xs) new n r h =
    let step = skip_pids_step m a x b y xs new n r fuel in
    elim (Bool-cases (y.arrival_time == n.arrival_time && ltb y.pid n.pid)) [
      | inl e ↦ rw e (
          Placed-behind m a x b y xs (list_skip_pids arrival_at pid_at (new, n) xs) _ _ r.chain
            (free_behind m a x b y xs new n r fuel _ (owns-skip_pids new n xs a))
            (bind_cong (skip_pids (suc fuel) a new) (skip_pids fuel b new) (λ end. add_next end new)
              m m (step ∙ rw e))
            (place_pid fuel m b y xs new n (Ready-rest m a x b y xs new n r) (omega arith)))
      | inr e ↦ rw e (
          Placed-eq m a x ((new, n) ∷ (b, y) ∷ xs)
            (bind (skip_pids (suc fuel) a new) (λ end. add_next end new) m (step ∙ rw e) refl)
            (add_next-Placed m a x ((b, y) ∷ xs) new n r))
    ]

pub insert-Placed :
    (rounds fuel : ℕ) (m : Memory) (a : ℕ) (x : FcfsProcess) (xs : Cells) (new : ℕ)
    (n : FcfsProcess)
    → Ready m a x xs new n
    → length xs < rounds
    → length xs < fuel
    → Placed m a x (add_sorted arrival_at pid_at (new, n) xs) (insert rounds fuel a new m)
unfolding add_sorted insert
insert-Placed zero fuel m a x xs new n r h k = absurd (omega arith)
insert-Placed (suc rounds) fuel m a x [] new n r h k =
    Placed-eq m a x _
      (bind (skip_arrivals (suc rounds) a new) _ m (skip_arrivals_end rounds m a x new n r) refl)
      (place_pid fuel m a x [] new n r k)
insert-Placed (suc rounds) fuel m a x ((b, y) ∷ xs) new n r h k =
    let step = skip_arrivals_step m a x b y xs new n r rounds in
    let rest : ℕ → M (Unit {0}) = λ end. skip_pids fuel end new >>= λ end'. add_next end' new in
    elim (Bool-cases (ltb y.arrival_time n.arrival_time)) [
      | inl e ↦ rw e (
          Placed-behind m a x b y xs (add_sorted arrival_at pid_at (new, n) xs) _ _ r.chain
            (free_behind m a x b y xs new n r fuel _ (owns-add_sorted new n xs a))
            (bind_cong (skip_arrivals (suc rounds) a new) (skip_arrivals rounds b new) rest m m
              (step ∙ rw e))
            (insert-Placed rounds fuel m b y xs new n (Ready-rest m a x b y xs new n r)
              (omega arith) (omega arith)))
      | inr e ↦ rw e (
          Placed-eq m a x _ (bind (skip_arrivals (suc rounds) a new) rest m (step ∙ rw e) refl)
            (place_pid fuel m a x ((b, y) ∷ xs) new n r k))
    ]
