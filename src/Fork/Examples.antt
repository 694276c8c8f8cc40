-- ===== src/Fork/Examples.antt =====
-- fork.c with children from PID 100 on, the one with index 3 killed.
use cosc.Base.{
  ℕ, ◌+◌, ◌*◌, ◌-◌, ◌≡◌, refl, Bool, false, Option, some, ◌==◌, if◌then◌else◌, get_elem?, none,
}
use cosc.Threads.{values, calculate_value, run_loop}
use cosc.Fork.{Status, exited, signalled, child, printed, main}
use cosc.Fork.Total.{main-eq-loop}

abbrev fork : ℕ → Option ℕ
fork i = some (100 + i)

abbrev killed : ℕ → Bool
killed i = i == 3

abbrev waitpid : ℕ → Status
waitpid pid = elim (get_elem? values (pid - 100)) [
  | none ↦ signalled
  | some value ↦ if killed (pid - 100) then signalled else exited (8 * value + 6)
]

main-eq-loop_example :
    (main fork waitpid ≡ printed 1 (8 * 42 + 48))
    × (((i : ℕ) → killed i ≡ false) → main fork waitpid ≡ printed 0 (run_loop values 0))
unfolding child calculate_value
main-eq-loop_example = main-eq-loop fork waitpid killed (
  (100, refl, refl),
  (
    (101, refl, refl),
    (
      (102, refl, refl),
      (
        (103, refl, refl),
        (
          (104, refl, refl),
          ((105, refl, refl), ((106, refl, refl), ((107, refl, refl), ((108, refl, refl), tt)))),
        ),
      ),
    ),
  ),
)
