-- ===== src/Mutex/Examples.antt =====
-- A run up to a state where the second thread has the mutex.
use cosc.Base.{ℕ, ◌+◌, ◌≤◌, ◌≡◌, refl, true, List, [], ◌∷◌, ◌++◌, arith}
use cosc.Mutex.{
  Stage, created, converted, printed, creating, joining, State, initial, IsAlive, init, create,
  all_created, lock, convert, Reaches, here, later,
}
use cosc.Mutex.Safety.{inside, mutex_safe}

abbrev second_inside : State
second_inside = record {
  main = joining 0;
  threads = created 0 ∷ converted 3 ∷ [];
  locked = true;
  total = 0;
}

second_inside-Reaches : Reaches initial second_inside
second_inside-Reaches =
    let run : Reaches initial (record initial { main = creating 0 }) = later here (init refl) in
    let run : Reaches initial (record initial { main = creating 1; threads = created 0 ∷ [] }) =
      later run (create 0 refl (omega arith)) in
    let run : Reaches initial
        (record initial { main = creating 2; threads = created 0 ∷ created 1 ∷ [] }) =
      later run (create 1 refl (omega arith)) in
    later (later (later run (all_created refl)) (lock (created 0 ∷ []) [] 1 tt refl refl))
      (convert (created 0 ∷ []) [] 1 3 tt refl refl)

mutex_safe_example :
    ((n : ℕ) → joining 0 ≡ printed n → n ≡ 5)
    × ((before between after : List Stage) (a b : Stage)
        → IsAlive (joining 0)
        → second_inside.threads ≡ before ++ (a ∷ (between ++ (b ∷ after)))
        → inside a + inside b ≤ 1)
mutex_safe_example = mutex_safe second_inside second_inside-Reaches
