-- ===== src/Fork/Total.antt =====
-- What the parent of fork.c prints.
use native.Mathlib.Nat.{zero-add}
use cosc.Base.{
  map, ℕ, ◌+◌, ◌%◌, ◌^◌, ◌<◌, ◌≡◌, ◌∙◌, sym, refl, Bool, false, List, [], ◌∷◌, Option, some,
  Bool-cases, inl, inr, if◌then◌else◌, arith, All,
}
use cosc.Threads.{values, calculate_value, run_loop}
use cosc.Threads.Sum.{sum, run_loop-eq-sum}
use cosc.Fork.{Status, exited, signalled, child, printed, fork_children, wait_children, main}

printed_cong : {a b m n : ℕ} → a ≡ b → m ≡ n → printed a m ≡ printed b n
printed_cong e f = rw (e, f) refl

values-small : All (λ v. calculate_value v < 2 ^ 8) values
unfolding calculate_value
values-small = omega arith

module _ (fork : ℕ → Option ℕ) (waitpid : ℕ → Status) (killed : ℕ → Bool) where
  -- No call of `fork` fails, and `waitpid` tells of the child for index `i` that a signal has
  -- killed it, or the low 8 bits of what it gave to `exit`, as its documentation has it.
  abbrev pub Children : List ℕ → ℕ → Type 0
  Children [] i = Unit
  Children (value ∷ rest) i =
      ((pid : ℕ) × (fork i ≡ some pid)
        × (waitpid pid ≡ (if killed i then signalled else exited (child value % 2 ^ 8))))
      × Children rest (i + 1)

  -- The children that are killed, and the results of the others.
  abbrev pub killed_from : List ℕ → ℕ → ℕ
  killed_from [] i = 0
  killed_from (value ∷ rest) i = (if killed i then 1 else 0) + killed_from rest (i + 1)

  abbrev pub results_from : List ℕ → ℕ → ℕ
  results_from [] i = 0
  results_from (value ∷ rest) i =
      (if killed i then 0 else calculate_value value) + results_from rest (i + 1)

  wait_children_lem :
      (vs : List ℕ) (i errors total : ℕ)
      → All (λ v. calculate_value v < 2 ^ 8) vs
      → Children vs i
      → (pids : List ℕ) × (fork_children fork waitpid vs i ≡ some pids)
        × (wait_children fork waitpid pids errors total
            ≡ printed (errors + killed_from vs i) (total + results_from vs i))
  unfolding fork_children wait_children child
  wait_children_lem [] i errors total small c = ([], refl, printed_cong (omega arith) (omega arith))
  wait_children_lem (v ∷ vs) i errors total small ((pid, forked, waited), c) =
      elim (Bool-cases (killed i)) [
        | inl e ↦
            let (pids, all, rest) = wait_children_lem vs (i + 1) (errors + 1) total small.1 c in
            (
              pid ∷ pids,
              rw (fork_children, forked, all) refl,
              rw (wait_children, waited, e) (rest ∙ printed_cong (omega arith) (omega arith)),
            )
        | inr e ↦
            let (pids, all, rest) =
              wait_children_lem vs (i + 1) errors (total + child v % 2 ^ 8) small.1 c in
            (
              pid ∷ pids,
              rw (fork_children, forked, all) refl,
              rw (wait_children, waited, e) (rest ∙ printed_cong (omega arith) (omega arith)),
            )
      ]

  results-values :
      ((i : ℕ) → killed i ≡ false)
      → (vs : List ℕ) (i : ℕ)
      → (killed_from vs i ≡ 0) × (results_from vs i ≡ sum (map calculate_value vs))
  results-values alive [] i = (refl, refl)
  results-values alive (v ∷ vs) i =
      let rest = results-values alive vs (i + 1) in
      rw (alive i) (omega (arith, rest.0), omega (arith, rest.1))

  -- If no call of `fork` fails, fork.c prints the sum of the results of the children that are not
  -- killed, after one error message for each that is; the 8 bits of an exit status lose nothing.
  -- If none is killed, this is the number that loop.c prints.
  pub main-eq-loop :
      Children values 0
      → (main fork waitpid ≡ printed (killed_from values 0) (results_from values 0))
        × (((i : ℕ) → killed i ≡ false) → main fork waitpid ≡ printed 0 (run_loop values 0))
  unfolding main
  main-eq-loop c =
      let (pids, all, waited) = wait_children_lem values 0 0 0 values-small c in
      let result : main fork waitpid ≡ printed (killed_from values 0) (results_from values 0) =
        rw (main, all) (waited ∙ printed_cong (zero-add _) (zero-add _)) in
      (
        result,
        λ alive.
            let sums = results-values alive values 0 in
            result
            ∙ printed_cong sums.0 (sums.1 ∙ sym (zero-add _) ∙ sym (run_loop-eq-sum values 0)),
      )
