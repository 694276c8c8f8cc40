-- ===== src/Mutex.antt =====
-- assignments/a2prepquiz/pthread_mutex_intro.c: threads that add a value each to `total` under a
-- mutex, as a step relation over all interleavings. As in the model of thread.c, `total += val` is
-- a load and a store, any call of the pthread library may fail, and only a free mutex is locked.
pub mod Simulates
pub mod Safety
mod Examples
use cosc.Base.{ℕ, ◌+◌, ◌<◌, ◌≡◌, Bool, true, false, List, [], ◌∷◌, ◌++◌, some, length, get_elem?}

-- `VALUE1` and `VALUE2`, by the index of the thread that gets the address.
abbrev pub values : List ℕ
values = 2 ∷ 3 ∷ []

-- Where a thread stands in `calculate_value`: before `pthread_mutex_lock`, behind it, with `val`,
-- with `total` loaded, with the sum stored, and at its end.
pub data Stage : Type 0 where
  created : (index : ℕ) → Stage
  entered : (index : ℕ) → Stage
  converted : (val : ℕ) → Stage
  loaded : (val total : ℕ) → Stage
  stored : Stage
  finished : Stage

-- Where `main` stands; `destroyed` is behind `pthread_mutex_destroy`.
pub data Phase : Type 0 where
  starting : Phase
  creating : (i : ℕ) → Phase
  joining : (i : ℕ) → Phase
  destroyed : Phase
  printed : (n : ℕ) → Phase
  exited : (code : ℕ) → Phase

pub record State : Type 0 where
  pub main : Phase
  pub threads : List Stage
  pub locked : Bool
  pub total : ℕ

abbrev pub initial : State
initial = record { main = starting; threads = []; locked = false; total = 0 }

-- The process has not ended.
abbrev pub IsAlive : Phase → Type 0
IsAlive (printed n) = ⊥
IsAlive (exited code) = ⊥
IsAlive starting = Unit
IsAlive (creating i) = Unit
IsAlive (joining i) = Unit
IsAlive destroyed = Unit

-- One step of `main`, or of the thread that stands between `before` and `after`.
pub data Step (s : State) : State → Type 0 where
  init : s.main ≡ starting → Step s (record s { main = creating 0 })
  init_fails : s.main ≡ starting → Step s (record s { main = exited 1 })
  create :
      (i : ℕ)
      → s.main ≡ creating i
      → i < length values
      → Step s (record s { main = creating (i + 1); threads = s.threads ++ created i ∷ [] })
  create_fails :
      (i : ℕ) → s.main ≡ creating i → i < length values → Step s (record s { main = exited 255 })
  all_created : s.main ≡ creating (length values) → Step s (record s { main = joining 0 })
  join :
      (i : ℕ)
      → s.main ≡ joining i
      → i < length values
      → get_elem? s.threads i ≡ some finished
      → Step s (record s { main = joining (i + 1) })
  join_fails :
      (i : ℕ) → s.main ≡ joining i → i < length values → Step s (record s { main = exited 254 })
  destroy : s.main ≡ joining (length values) → Step s (record s { main = destroyed })
  destroy_fails : s.main ≡ joining (length values) → Step s (record s { main = exited 2 })
  print : s.main ≡ destroyed → Step s (record s { main = printed s.total })
  lock :
      (before after : List Stage) (index : ℕ)
      → IsAlive s.main
      → s.threads ≡ before ++ created index ∷ after
      → s.locked ≡ false
      → Step s (record s { threads = before ++ entered index ∷ after; locked = true })
  lock_fails :
      (before after : List Stage) (index : ℕ)
      → IsAlive s.main
      → s.threads ≡ before ++ created index ∷ after
      → Step s (record s { main = exited 2 })
  convert :
      (before after : List Stage) (index val : ℕ)
      → IsAlive s.main
      → s.threads ≡ before ++ entered index ∷ after
      → get_elem? values index ≡ some val
      → Step s (record s { threads = before ++ converted val ∷ after })
  load :
      (before after : List Stage) (val : ℕ)
      → IsAlive s.main
      → s.threads ≡ before ++ converted val ∷ after
      → Step s (record s { threads = before ++ loaded val s.total ∷ after })
  store :
      (before after : List Stage) (val total : ℕ)
      → IsAlive s.main
      → s.threads ≡ before ++ loaded val total ∷ after
      → Step s (record s { threads = before ++ stored ∷ after; total = total + val })
  unlock :
      (before after : List Stage)
      → IsAlive s.main
      → s.threads ≡ before ++ stored ∷ after
      → Step s (record s { threads = before ++ finished ∷ after; locked = false })
  unlock_fails :
      (before after : List Stage)
      → IsAlive s.main
      → s.threads ≡ before ++ stored ∷ after
      → Step s (record s { main = exited 2 })

-- The states that a run from `s` can reach.
pub data Reaches (s : State) : State → Type 0 where
  here : Reaches s s
  later : {t u : State} → Reaches s t → Step t u → Reaches s u
