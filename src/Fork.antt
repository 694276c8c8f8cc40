-- ===== src/Fork.antt =====
-- assignments/assignment2/fork.c, where each value is processed by a child process that hands its
-- result over as exit status. `values` and `calculate_value` have the text of loop.c. The calls of
-- the operating system are parameters: the PID that the `i`-th `fork` returns to the parent, or
-- `none` for an error, and the status that `waitpid` stores for a PID. A child makes no call but
-- `exit`.
pub mod Total
mod Examples
use cosc.Base.{ℕ, zero, suc, ◌+◌, List, [], ◌∷◌, Option, none, some}
use cosc.Threads.{values, calculate_value}

-- What `WIFEXITED` and `WEXITSTATUS` tell of a status.
pub data Status : Type 0 where
  exited : (code : ℕ) → Status
  signalled : Status

-- The argument of `exit` in the child.
unfoldable pub child : ℕ → ℕ
child value = calculate_value value

-- How the parent ends: it exits after an error of `fork`, or it prints `total` after one error
-- message for each child that did not exit.
pub data Outcome : Type 0 where
  fork_failed : Outcome
  printed : (errors total : ℕ) → Outcome

module _ (fork : ℕ → Option ℕ) (waitpid : ℕ → Status) where
  -- The first loop of the parent, over the values left: `children` from index `i` on.
  unfoldable pub fork_children : List ℕ → ℕ → Option (List ℕ)
  fork_children [] i = some []
  fork_children (value ∷ rest) i = elim (fork i) [
    | none ↦ none
    | some pid ↦ elim (fork_children rest (i + 1)) [
      | none ↦ none
      | some children ↦ some (pid ∷ children)
    ]
  ]

  -- The second loop, with the error messages so far and `total`.
  unfoldable pub wait_children : List ℕ → ℕ → ℕ → Outcome
  wait_children [] errors total = printed errors total
  wait_children (pid ∷ children) errors total = elim (waitpid pid) [
    | exited code ↦ wait_children children errors (total + code)
    | signalled ↦ wait_children children (errors + 1) total
  ]

  unfoldable pub main : Outcome
  unfolding fork_children wait_children
  main = elim (fork_children values 0) [
    | none ↦ fork_failed
    | some children ↦ wait_children children 0 0
  ]
