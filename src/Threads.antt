-- ===== src/Threads.antt =====
-- assignments/assignment2/thread.c, where each value is processed by a thread of its own, as a step
-- relation over all interleavings; and assignments/assignment2/loop.c, which computes the same
-- without threads. `total += value` is a load and a store, any call of the pthread library may
-- fail, and only a free mutex is locked. The steps take what `calculate_value` gives for each value
-- as the list `results`, an argument, so that Mutex can use them for other values. The sum of all
-- results is far below `INT_MAX`.
pub mod Sum
pub mod Invariant
pub mod Safety
pub mod Progress
pub mod Finish
mod Examples
use cosc.Base.{
  ℕ, zero, suc, ◌+◌, ◌*◌, ◌<◌, ◌≡◌, Bool, true, false, List, [], ◌∷◌, ◌++◌, map, some, length,
  get_elem?,
}

abbrev pub values : List ℕ
values = 1 ∷ 8 ∷ 7 ∷ 8 ∷ 5 ∷ 1 ∷ 7 ∷ 9 ∷ 4 ∷ []

unfoldable pub calculate_value : ℕ → ℕ
calculate_value value = 8 * value + 6

-- What `calculate_value` gives for each value.
abbrev pub results : List ℕ
results = map calculate_value values

-- The loop of loop.c, over the values left, from the total so far.
unfoldable pub run_loop : List ℕ → ℕ → ℕ
run_loop [] total = total
run_loop (value ∷ rest) total = run_loop rest (total + calculate_value value)

-- Where a thread stands in `thread_function`: created with its index, with its value calculated,
-- behind `pthread_mutex_lock`, with `total` loaded, with the sum stored, and at its end.
pub data Stage : Type 0 where
  created : (index : ℕ) → Stage
  calculated : (value : ℕ) → Stage
  entered : (value : ℕ) → Stage
  loaded : (value total : ℕ) → Stage
  stored : Stage
  finished : Stage

-- Where `main` stands: before `pthread_mutex_init`, in round `i` of one of its loops, or behind the
-- output; or the process has exited with a code.
pub data Phase : Type 0 where
  starting : Phase
  creating : (i : ℕ) → Phase
  joining : (i : ℕ) → Phase
  printed : (n : ℕ) → Phase
  exited : (code : ℕ) → Phase

pub record State : Type 0 where
  pub main : Phase
  pub threads : List Stage
  pub locked : Bool
  pub total : ℕ

abbrev pub initial : State
initial = record { main = starting; threads = []; locked = false; total = 0 }

-- The process has not ended.
abbrev pub IsAlive : Phase → Type 0
IsAlive (printed n) = ⊥
IsAlive (exited code) = ⊥
IsAlive starting = Unit
IsAlive (creating i) = Unit
IsAlive (joining i) = Unit

-- One step of `main`, or of the thread that stands between `before` and `after`. The result of
-- `calculate_value` for each index is in `vs`.
pub data Step (vs : List ℕ) (s : State) : State → Type 0 where
  init : s.main ≡ starting → Step vs s (record s { main = creating 0 })
  init_fails : s.main ≡ starting → Step vs s (record s { main = exited 1 })
  create :
      (i : ℕ)
      → s.main ≡ creating i
      → i < length vs
      → Step vs s (record s { main = creating (i + 1); threads = s.threads ++ created i ∷ [] })
  create_fails :
      (i : ℕ) → s.main ≡ creating i → i < length vs → Step vs s (record s { main = exited 255 })
  all_created : s.main ≡ creating (length vs) → Step vs s (record s { main = joining 0 })
  join :
      (i : ℕ)
      → s.main ≡ joining i
      → i < length vs
      → get_elem? s.threads i ≡ some finished
      → Step vs s (record s { main = joining (i + 1) })
  join_fails :
      (i : ℕ) → s.main ≡ joining i → i < length vs → Step vs s (record s { main = exited 254 })
  print : s.main ≡ joining (length vs) → Step vs s (record s { main = printed s.total })
  calculate :
      (before after : List Stage) (index value : ℕ)
      → IsAlive s.main
      → s.threads ≡ before ++ created index ∷ after
      → get_elem? vs index ≡ some value
      → Step vs s (record s { threads = before ++ calculated value ∷ after })
  lock :
      (before after : List Stage) (value : ℕ)
      → IsAlive s.main
      → s.threads ≡ before ++ calculated value ∷ after
      → s.locked ≡ false
      → Step vs s (record s { threads = before ++ entered value ∷ after; locked = true })
  lock_fails :
      (before after : List Stage) (value : ℕ)
      → IsAlive s.main
      → s.threads ≡ before ++ calculated value ∷ after
      → Step vs s (record s { main = exited 2 })
  load :
      (before after : List Stage) (value : ℕ)
      → IsAlive s.main
      → s.threads ≡ before ++ entered value ∷ after
      → Step vs s (record s { threads = before ++ loaded value s.total ∷ after })
  store :
      (before after : List Stage) (value total : ℕ)
      → IsAlive s.main
      → s.threads ≡ before ++ loaded value total ∷ after
      → Step vs s (record s { threads = before ++ stored ∷ after; total = total + value })
  unlock :
      (before after : List Stage)
      → IsAlive s.main
      → s.threads ≡ before ++ stored ∷ after
      → Step vs s (record s { threads = before ++ finished ∷ after; locked = false })
  unlock_fails :
      (before after : List Stage)
      → IsAlive s.main
      → s.threads ≡ before ++ stored ∷ after
      → Step vs s (record s { main = exited 2 })

-- The states that a run from `s` can reach.
pub data Reaches (vs : List ℕ) (s : State) : State → Type 0 where
  here : Reaches vs s s
  later : {t u : State} → Reaches vs s t → Step vs t u → Reaches vs s u
