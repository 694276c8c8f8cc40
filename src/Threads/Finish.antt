-- ===== src/Threads/Finish.antt =====
-- How the runs of thread.c end.
use cosc.Base.{
  ◌∙◌, ℕ, zero, suc, ◌+◌, ◌<◌, ◌≤◌, ◌≡◌, refl, List, [], ◌∷◌, ◌++◌, total, arith, ap, inl, inr,
  total-append,
}
use mathlib.Core.Path.{subst}
use cosc.Threads.{
  init_fails, create_fails, join_fails, lock_fails, unlock_fails, values, results, Stage, created,
  calculated, entered, loaded, stored, finished, Phase, starting, creating, joining, printed,
  exited, IsAlive, State, initial, Step, init, create, all_created, join, print, calculate, lock,
  load, store, unlock, Reaches, here, later, run_loop,
}
use cosc.Threads.Sum.{run_loop-eq-sum, steps_left, total-move}
use cosc.Threads.Invariant.{Follows, IsSound, initial-IsSound, Step-IsSound, Reaches-IsSound}
use cosc.Threads.Progress.{main_left, left, HasPrinted, main_advances}

module _ (vs : List ℕ) (s : State) where
  -- A move of a thread leaves the program nearer to its end.
  moved-nearer :
      (before after : List Stage) (a b : Stage)
      → s.threads ≡ before ++ a ∷ after
      → steps_left b < steps_left a
      → main_left vs s.main + total steps_left (before ++ b ∷ after) < left vs s
  moved-nearer before after a b e h = omega (
    arith,
    ap (total steps_left) e,
    total-move steps_left before after a,
    total-move steps_left before after b,
  )

  alive_left : IsAlive s.main → 0 < main_left vs s.main
  alive_left alive = go s.main alive
    where
      go : (m : Phase) → IsAlive m → 0 < main_left vs m
      go starting a = omega arith
      go (creating i) a = omega arith
      go (joining i) a = omega arith
      go (printed n) a = absurd a
      go (exited c) a = absurd a

-- Each step leaves fewer steps, those of a call that fails too.
Step-nearer : {vs : List ℕ} {s s' : State} → Step vs s s' → left vs s' < left vs s
Step-nearer {vs} {s} (init e) = omega (arith, ap (main_left vs) e)
Step-nearer {vs} {s} (init_fails e) = omega (arith, ap (main_left vs) e)
Step-nearer {vs} {s} (create i e h) =
    omega (arith, ap (main_left vs) e, total-append steps_left s.threads (created i ∷ []))
Step-nearer {vs} {s} (create_fails i e h) = omega (arith, ap (main_left vs) e)
Step-nearer {vs} {s} (all_created e) = omega (arith, ap (main_left vs) e)
Step-nearer {vs} {s} (join i e h f) = omega (arith, ap (main_left vs) e)
Step-nearer {vs} {s} (join_fails i e h) = omega (arith, ap (main_left vs) e)
Step-nearer {vs} {s} (print e) = omega (arith, ap (main_left vs) e)
Step-nearer {vs} {s} (calculate before after i value alive e f) =
    moved-nearer vs s before after (created i) (calculated _) e (omega arith)
Step-nearer {vs} {s} (lock before after value alive e f) =
    moved-nearer vs s before after (calculated value) (entered value) e (omega arith)
Step-nearer {vs} {s} (lock_fails before after value alive e) = omega (arith, alive_left vs s alive)
Step-nearer {vs} {s} (load before after value alive e) =
    moved-nearer vs s before after (entered value) (loaded value s.total) e (omega arith)
Step-nearer {vs} {s} (store before after value t alive e) =
    moved-nearer vs s before after (loaded value t) stored e (omega arith)
Step-nearer {vs} {s} (unlock before after alive e) =
    moved-nearer vs s before after stored finished e (omega arith)
Step-nearer {vs} {s} (unlock_fails before after alive e) = omega (arith, alive_left vs s alive)

-- The steps of a run.
abbrev pub steps : {vs : List ℕ} {s t : State} → Reaches vs s t → ℕ
steps here = 0
steps (later r st) = steps r + 1

steps-left : {vs : List ℕ} {s t : State} (r : Reaches vs s t) → steps r + left vs t ≤ left vs s
steps-left here = omega arith
steps-left (later r st) = omega (arith, steps-left r, Step-nearer st)

-- Every interleaving of the threads ends: no run of the program has more than 76 steps.
pub every_run_ends : (s : State) (r : Reaches results initial s) → steps r ≤ 76
every_run_ends s r = omega (arith, steps-left r)

finishes :
    {vs : List ℕ} (n : ℕ) (s t : State)
    → left vs t < n
    → IsSound vs t
    → IsAlive t.main
    → Reaches vs s t
    → (u : State) × Reaches vs s u × HasPrinted u.main
finishes zero s t h v alive r = absurd (omega arith)
finishes {vs} (suc n) s t h v alive r =
    let a = main_advances vs t alive v t.main refl alive (ground arith) in
    let near = Step-nearer a.step in
    elim a.onwards [
      | inl alive' ↦
          finishes n s a.next (omega arith) (Step-IsSound a.step v) alive' (later r a.step)
      | inr done ↦ (a.next, later r a.step, done)
    ]

-- There is no deadlock: from every state that is reached before the process has ended, the program
-- can go on until it prints the number that the program without threads prints.
pub can_finish :
    (s : State)
    → Reaches results initial s
    → IsAlive s.main
    → (t : State) × Reaches results s t × (t.main ≡ printed (run_loop values 0))
can_finish s r alive =
    let v = Reaches-IsSound r (initial-IsSound results) in
    let (t, after, (n, e)) = finishes (suc (left results s)) s s (omega arith) v alive here in
    (
      t,
      after,
      e
          ∙ ap printed (
              omega (
                arith,
                subst (Follows results t.threads) e (Reaches-IsSound after v).follows,
                run_loop-eq-sum values 0,
              )),
    )
