-- ===== src/Mutex/Safety.antt =====
-- The output and the mutex of pthread_mutex_intro.c, by what thread.c does.
use cosc.Base.{ℕ, ◌+◌, ◌≤◌, ◌≡◌, refl, List, ◌∷◌, ◌++◌, ap, ◌∙◌, map, arith, inl, inr}
use mathlib.Core.Path.{subst}
use mathlib.Core.List.{map-append}
use cosc.Mutex.{
  values, Stage, created, entered, converted, loaded, stored, finished, printed, State, initial,
  IsAlive, Reaches,
}
use cosc.Threads.Sum.{holding}
use cosc.Threads.Invariant.{Follows, initial-IsSound, Reaches-IsSound}
use cosc.Threads.Safety.{one_holder}
use cosc.Mutex.Simulates.{stage, phase, seen, threads_seen, Reaches-IsSeen}

-- 1 from behind `pthread_mutex_lock` to the end of `pthread_mutex_unlock`.
abbrev pub inside : Stage → ℕ
inside (created index) = 0
inside (entered index) = 1
inside (converted val) = 1
inside (loaded val total) = 1
inside stored = 1
inside finished = 0

inside-holding : (x : Stage) → holding (stage x) ≡ inside x
inside-holding (created index) = refl
inside-holding (entered index) = refl
inside-holding (converted val) = refl
inside-holding (loaded val total) = refl
inside-holding stored = refl
inside-holding finished = refl

printed_sum : (s : State) (n : ℕ) → Reaches initial s → s.main ≡ printed n → n ≡ 5
printed_sum s n r e = elim (Reaches-IsSeen r) [
  | inl (code, x) ↦ cc
  | inr r' ↦ omega (
    arith,
    subst (Follows values (map stage s.threads)) (ap phase e)
        (Reaches-IsSound r' (initial-IsSound values)).follows,
  )
]

one_inside :
    (s : State) (before between after : List Stage) (a b : Stage)
    → Reaches initial s
    → IsAlive s.main
    → s.threads ≡ before ++ (a ∷ (between ++ (b ∷ after)))
    → inside a + inside b ≤ 1
one_inside s before between after a b r alive e = elim (Reaches-IsSeen r) [
  | inl (code, x) ↦ absurd (subst IsAlive x alive)
  | inr r' ↦
      let places : map stage s.threads
          ≡ map stage before ++ (stage a ∷ (map stage between ++ (stage b ∷ map stage after))) =
        threads_seen s before (between ++ (b ∷ after)) a e
        ∙ ap (λ l. map stage before ++ stage a ∷ l) (map-append stage between (b ∷ after)) in
      omega (
        arith,
        one_holder values (seen s) (map stage before) (map stage between) (map stage after)
            (stage a) (stage b) r' places,
        inside-holding a,
        inside-holding b,
      )
]

-- Whatever the interleaving, if pthread_mutex_intro.c prints a number it is the sum 2 + 3 of the
-- values, and while the process has not ended no two threads are between `pthread_mutex_lock` and
-- the end of `pthread_mutex_unlock`.
pub mutex_safe :
    (s : State)
    → Reaches initial s
    → ((n : ℕ) → s.main ≡ printed n → n ≡ 2 + 3)
      × ((before between after : List Stage) (a b : Stage)
          → IsAlive s.main
          → s.threads ≡ before ++ (a ∷ (between ++ (b ∷ after)))
          → inside a + inside b ≤ 1)
mutex_safe s r = (
  λ n e. printed_sum s n r e,
  λ before between after a b alive e. one_inside s before between after a b r alive e,
)
