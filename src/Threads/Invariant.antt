-- ===== src/Threads/Invariant.antt =====
-- The invariant of all interleavings of thread.c.
use cosc.Base.{
  ℕ, suc, ◌+◌, ◌<◌, ◌≤◌, ◌≡◌, refl, Bool, true, false, List, [], ◌∷◌, ◌++◌, length, total, arith,
  total-append, All, All-append, if◌then◌else◌, length-append, ap,
}
use mathlib.Core.Path.{subst}
use cosc.Threads.{
  Stage, created, calculated, entered, loaded, stored, finished, Phase, starting, creating, joining,
  printed, exited, IsAlive, State, initial, Step, init, init_fails, create, create_fails,
  all_created, join, join_fails, print, calculate, lock, lock_fails, load, store, unlock,
  unlock_fails, Reaches, here, later,
}
use cosc.Threads.Sum.{
  sum, sum_first, sum_first-length, sum_first-suc, result_at-get_elem?, pending, holding,
  steps_left, Agrees, All-Agrees-free, Joined, Joined-suc, Joined-move, Joined-pending, total-move,
  All-split,
}

-- What `main` has done of the threads, for values `vs`.
abbrev pub Follows : List ℕ → List Stage → Phase → Type 0
Follows vs ts starting = length ts ≡ 0
Follows vs ts (creating i) = (length ts ≡ i) × (i ≤ length vs)
Follows vs ts (joining i) = (length ts ≡ length vs) × (i ≤ length vs) × Joined i ts
Follows vs ts (printed n) = n ≡ sum vs
Follows vs ts (exited code) = Unit

pub record IsSound (vs : List ℕ) (s : State) : Type 0 where
  pub accounted : s.total + total (pending vs) s.threads ≡ sum_first (length s.threads) vs
  pub exclusive : total holding s.threads ≡ (if s.locked then 1 else 0)
  pub agreed : All (Agrees vs s.total) s.threads
  pub follows : Follows vs s.threads s.main

pub initial-IsSound : (vs : List ℕ) → IsSound vs initial
initial-IsSound vs = record { accounted = refl; exclusive = refl; agreed = tt; follows = refl }

-- A change of `main` alone.
with_main :
    (vs : List ℕ) (s : State) (m : Phase)
    → IsSound vs s
    → Follows vs s.threads m
    → IsSound vs (record s { main = m })
with_main vs s m v f = record {
  accounted = v.accounted;
  exclusive = v.exclusive;
  agreed = v.agreed;
  follows = f;
}

length-move {ℓ} :
    {A : Type ℓ} (before after : List A) (a b : A)
    → length (before ++ a ∷ after) ≡ length (before ++ b ∷ after)
length-move before after a b =
    omega (arith, length-append before (a ∷ after), length-append before (b ∷ after))

Follows-move :
    (vs : List ℕ) (m : Phase) (before after : List Stage) (a b : Stage)
    → 0 < steps_left a
    → IsAlive m
    → Follows vs (before ++ a ∷ after) m
    → Follows vs (before ++ b ∷ after) m
Follows-move vs starting before after a b h _ f = omega (arith, length-move before after a b)
Follows-move vs (creating i) before after a b h _ f =
    (omega (arith, length-move before after a b, f.0), f.1)
Follows-move vs (joining i) before after a b h _ (e, le, j) =
    (omega (arith, length-move before after a b), le, Joined-move i before after a b h j)
Follows-move vs (printed n) before after a b h alive f = absurd alive
Follows-move vs (exited c) before after a b h alive f = absurd alive

-- The invariant, where the threads are written out around one of them.
module _ (vs : List ℕ) (s : State) (before after : List Stage) (a b : Stage) where
  -- A move of that thread, which may lock or unlock the mutex and change `total`.
  moved :
      (k : Bool) (t : ℕ)
      → s.threads ≡ before ++ a ∷ after
      → IsAlive s.main
      → 0 < steps_left a
      → IsSound vs s
      → t + pending vs b ≡ s.total + pending vs a
      → holding b + (if s.locked then 1 else 0) ≡ holding a + (if k then 1 else 0)
      → All (Agrees vs t) before × Agrees vs t b × All (Agrees vs t) after
      → IsSound vs (record s { threads = before ++ b ∷ after; locked = k; total = t })
  moved k t e alive busy v same lock_same (x, y, z) = record {
    accounted = omega (
      arith,
      v.accounted,
      ap (total (pending vs)) e,
      ap (λ ts. sum_first (length ts) vs) e,
      ap (λ n. sum_first n vs) (length-move before after a b),
      total-move (pending vs) before after a,
      total-move (pending vs) before after b,
    );
    exclusive = omega (
      arith,
      v.exclusive,
      ap (total holding) e,
      total-move holding before after a,
      total-move holding before after b,
    );
    agreed = All-append (Agrees vs t) before (b ∷ after) x (y, z);
    follows =
        Follows-move vs s.main before after a b busy alive
          (subst (λ ts. Follows vs ts s.main) e v.follows);
  }

  -- A move that leaves `total` as it is.
  moved_only :
      (k : Bool)
      → s.threads ≡ before ++ a ∷ after
      → IsAlive s.main
      → 0 < steps_left a
      → IsSound vs s
      → pending vs b ≡ pending vs a
      → holding b + (if s.locked then 1 else 0) ≡ holding a + (if k then 1 else 0)
      → Agrees vs s.total b
      → IsSound vs (record s { threads = before ++ b ∷ after; locked = k })
  moved_only k e alive busy v same lock_same agrees =
      let (x, y, z) =
        All-split (Agrees vs s.total) before after a (subst (All (Agrees vs s.total)) e v.agreed) in
      moved k s.total e alive busy v (omega arith) lock_same (x, agrees, z)

  -- The thread that holds the mutex is the only one.
  others_free :
      s.threads ≡ before ++ a ∷ after
      → holding a ≡ 1
      → IsSound vs s
      → (total holding before ≡ 0) × (total holding after ≡ 0) × (s.locked ≡ true)
  others_free e h v =
      let counted : total holding before + 1 + total holding after ≡ (if s.locked then 1 else 0) =
        omega (arith, v.exclusive, ap (total holding) e, total-move holding before after a) in
      (ground arith, ground arith, ground arith)

pub Step-IsSound : {vs : List ℕ} {s s' : State} → Step vs s s' → IsSound vs s → IsSound vs s'
Step-IsSound {vs} {s} (init e) v =
    with_main vs s _ v (subst (Follows vs s.threads) e v.follows, omega arith)
Step-IsSound {vs} {s} (init_fails e) v = with_main vs s _ v tt
Step-IsSound {vs} {s} (create_fails i e h) v = with_main vs s _ v tt
Step-IsSound {vs} {s} (join_fails i e h) v = with_main vs s _ v tt
Step-IsSound {vs} {s} (lock_fails before after value alive e) v = with_main vs s _ v tt
Step-IsSound {vs} {s} (unlock_fails before after alive e) v = with_main vs s _ v tt
Step-IsSound {vs} {s} (create i e h) v =
    let (len, le) = subst (Follows vs s.threads) e v.follows in
    let longer : length (s.threads ++ created i ∷ []) ≡ suc i =
      omega (arith, length-append s.threads (created i ∷ [])) in
    record {
      accounted = omega (
        arith,
        v.accounted,
        total-append (pending vs) s.threads (created i ∷ []),
        ap (λ n. sum_first n vs) len,
        ap (λ n. sum_first n vs) longer,
        sum_first-suc i vs,
      );
      exclusive = omega (arith, v.exclusive, total-append holding s.threads (created i ∷ []));
      agreed = All-append (Agrees vs s.total) s.threads (created i ∷ []) v.agreed (h, tt);
      follows = (omega arith, omega arith);
    }
Step-IsSound {vs} {s} (all_created e) v =
    let (len, le) = subst (Follows vs s.threads) e v.follows in
    with_main vs s _ v (len, omega arith, tt)
Step-IsSound {vs} {s} (join i e h done) v =
    let (len, le, j) = subst (Follows vs s.threads) e v.follows in
    with_main vs s _ v (
      len,
      omega arith,
      subst (λ k. Joined k s.threads) {x = suc i} (omega arith) (Joined-suc i s.threads j done),
    )
Step-IsSound {vs} {s} (print e) v =
    let (len, le, j) = subst (Follows vs s.threads) e v.follows in
    let (none_pending, free) =
      Joined-pending vs s.threads (subst (λ k. Joined k s.threads) (omega arith) j) in
    with_main vs s _ v
      (omega (arith, v.accounted, ap (λ n. sum_first n vs) len, sum_first-length vs))
Step-IsSound {vs} {s} (calculate before after index value alive e found) v =
    moved_only vs s before after (created index) (calculated _) s.locked e alive (omega arith) v
      (omega (arith, result_at-get_elem? vs index value found)) (omega arith) tt
Step-IsSound {vs} {s} (lock before after value alive e free) v =
    moved_only vs s before after (calculated value) (entered value) true e alive (omega arith) v
      refl (ground arith) tt
Step-IsSound {vs} {s} (load before after value alive e) v =
    moved_only vs s before after (entered value) (loaded value s.total) s.locked e alive
      (omega arith) v refl (omega arith) refl
Step-IsSound {vs} {s} (store before after value t alive e) v =
    let (x, y, held) = others_free vs s before after (loaded value t) stored e refl v in
    let (x', same, y') =
      All-split (Agrees vs s.total) before after (loaded value t)
        (subst (All (Agrees vs s.total)) e v.agreed) in
    moved vs s before after (loaded value t) stored s.locked (t + value) e alive (omega arith) v
      (omega arith) (omega arith)
      (All-Agrees-free vs s.total _ before x' x, tt, All-Agrees-free vs s.total _ after y' y)
Step-IsSound {vs} {s} (unlock before after alive e) v =
    let (x, y, held) = others_free vs s before after stored finished e refl v in
    moved_only vs s before after stored finished false e alive (omega arith) v refl
      (ground (arith, held)) tt

pub Reaches-IsSound : {vs : List ℕ} {s s' : State} → Reaches vs s s' → IsSound vs s → IsSound vs s'
Reaches-IsSound here v = v
Reaches-IsSound (later r st) v = Step-IsSound st (Reaches-IsSound r v)
