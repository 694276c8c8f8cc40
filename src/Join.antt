-- ===== src/Join.antt =====
-- assignments/a2prepquiz/pthread_create_intro.c and pthread_join_intro.c: a thread that copies
-- `input` to `output`, and a `main` that prints `output`, as step relations over all interleavings.
-- The two programs differ in `pthread_join`, which the first one does not call.
pub mod Output
use cosc.Base.{ℕ, ◌≡◌, Bool, true, false, Option, none, some, if◌then◌else◌}

-- `VALUE`.
abbrev pub value : ℕ
value = 2

-- Where `main` stands: before `pthread_create`, behind it, behind `pthread_join`, behind the output
-- of what it found in `output`; or the process has exited with a code.
pub data Phase : Type 0 where
  starting running joined : Phase
  printed : (found : Option ℕ) → Phase
  exited : (code : ℕ) → Phase

-- The thread is not there yet, it is at its start, or at its end.
pub data Thread : Type 0 where
  absent created finished : Thread

-- `output` is `none` as long as nothing has been stored in it.
pub record State : Type 0 where
  pub main : Phase
  pub thread : Thread
  pub output : Option ℕ

abbrev pub initial : State
initial = record { main = starting; thread = absent; output = none }

abbrev pub IsAlive : Phase → Type 0
IsAlive (printed found) = ⊥
IsAlive (exited code) = ⊥
IsAlive starting = Unit
IsAlive running = Unit
IsAlive joined = Unit

-- One step, of the program that joins the thread or of the one that does not.
pub data Step (joins : Bool) (s : State) : State → Type 0 where
  create : s.main ≡ starting → Step joins s (record s { main = running; thread = created })
  create_fails : s.main ≡ starting → Step joins s (record s { main = exited 255 })
  calculate :
      IsAlive s.main
      → s.thread ≡ created
      → Step joins s (record s { thread = finished; output = some value })
  join :
      joins ≡ true
      → s.main ≡ running
      → s.thread ≡ finished
      → Step joins s (record s { main = joined })
  join_fails : joins ≡ true → s.main ≡ running → Step joins s (record s { main = exited 254 })
  print :
      s.main ≡ (if joins then joined else running)
      → Step joins s (record s { main = printed s.output })

-- The states that a run from `s` can reach.
pub data Reaches (joins : Bool) (s : State) : State → Type 0 where
  here : Reaches joins s s
  later : {t u : State} → Reaches joins s t → Step joins t u → Reaches joins s u
