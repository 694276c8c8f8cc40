-- ===== src/Threads/Safety.antt =====
-- The output and the mutex of thread.c, over all interleavings.
use cosc.Base.{ℕ, ◌+◌, ◌≤◌, ◌≡◌, List, ◌∷◌, ◌++◌, total, arith, ap}
use mathlib.Core.Path.{subst}
use cosc.Threads.{values, results, run_loop, printed, State, initial, Reaches, Stage}
use cosc.Threads.Sum.{run_loop-eq-sum, holding, total-move}
use cosc.Threads.Invariant.{Follows, initial-IsSound, Reaches-IsSound}

-- Whatever the interleaving, if the program with threads prints a number, it is the number that the
-- program without threads prints.
pub printed-eq-loop :
    (s : State) (n : ℕ) → Reaches results initial s → s.main ≡ printed n → n ≡ run_loop values 0
printed-eq-loop s n r e = omega (
  arith,
  subst (Follows results s.threads) e (Reaches-IsSound r (initial-IsSound results)).follows,
  run_loop-eq-sum values 0,
)

-- Two threads at different places do not both have the mutex, whatever the results `vs`.
pub one_holder :
    (vs : List ℕ) (s : State) (before between after : List Stage) (a b : Stage)
    → Reaches vs initial s
    → s.threads ≡ before ++ (a ∷ (between ++ (b ∷ after)))
    → holding a + holding b ≤ 1
one_holder vs s before between after a b r e =
    let v = Reaches-IsSound r (initial-IsSound vs) in
    ground (
      arith,
      v.exclusive,
      ap (total holding) e,
      total-move holding before (between ++ (b ∷ after)) a,
      total-move holding between after b,
    )

-- No interleaving has two threads between `pthread_mutex_lock` and the end of
-- `pthread_mutex_unlock`.
pub mutual_exclusion :
    (s : State) (before between after : List Stage) (a b : Stage)
    → Reaches results initial s
    → s.threads ≡ before ++ (a ∷ (between ++ (b ∷ after)))
    → holding a + holding b ≤ 1
mutual_exclusion s before between after a b r e = one_holder results s before between after a b r e
