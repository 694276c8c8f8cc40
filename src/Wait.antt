-- ===== src/Wait.antt =====
-- assignments/a2prepquiz/fork_intro.c, wait_intro.c and waitpid_intro.c: a process and its child
-- that both print what they see, as step relations over all interleavings. wait_intro.c and
-- waitpid_intro.c do the same, since the process has one child at most; fork_intro.c does not wait.
-- Standard output is a terminal, so each line is written as a whole. No signal is handled, so
-- waiting for a child fails only if there is none; the child may be killed.
pub mod Expected
pub mod Output
use cosc.Base.{ℕ, ◌≡◌, Bool, true, false, List, [], ◌∷◌, ◌++◌, Option, none, some, if◌then◌else◌}

-- What `printf` writes; `none` is the -1 of a `fork` that failed.
pub data Printed : Type 0 where
  child_id : (child : Option ℕ) → Printed
  in_child : Printed
  no_child : Printed
  child_exited : (status : ℕ) → Printed
  child_abnormal : Printed
  value_of_x : (x : ℕ) → Printed

-- Where the parent stands: before `fork`, behind it, behind the output of what it returned, behind
-- the output of how the child ended; or it has returned `x`.
pub data Parent : Type 0 where
  starting : Parent
  forked : (child : Option ℕ) → Parent
  identified : (child : Option ℕ) → Parent
  reported : Parent
  returned : (x : ℕ) → Parent

-- The child is not there, at its start, behind its first line; it has returned `x`, or it was
-- killed.
pub data Child : Type 0 where
  absent started spoken : Child
  ended : (x : ℕ) → Child
  killed : Child

pub record State : Type 0 where
  pub parent : Parent
  pub child : Child
  pub output : List Printed

abbrev pub initial : State
initial = record { parent = starting; child = absent; output = [] }

-- One step, of the programs that wait or of the one that does not.
pub data Step (waits : Bool) (s : State) : State → Type 0 where
  fork :
      (pid : ℕ)
      → s.parent ≡ starting
      → Step waits s (record s { parent = forked (some pid); child = started })
  fork_fails : s.parent ≡ starting → Step waits s (record s { parent = forked none })
  identify :
      (child : Option ℕ)
      → s.parent ≡ forked child
      → Step waits s
          (record s { parent = identified child; output = s.output ++ child_id child ∷ [] })
  wait :
      (child : Option ℕ) (status : ℕ)
      → waits ≡ true
      → s.parent ≡ identified child
      → s.child ≡ ended status
      → Step waits s (record s { parent = reported; output = s.output ++ child_exited status ∷ [] })
  wait_killed :
      (child : Option ℕ)
      → waits ≡ true
      → s.parent ≡ identified child
      → s.child ≡ killed
      → Step waits s (record s { parent = reported; output = s.output ++ child_abnormal ∷ [] })
  wait_fails :
      (child : Option ℕ)
      → waits ≡ true
      → s.parent ≡ identified child
      → s.child ≡ absent
      → Step waits s (record s { parent = reported; output = s.output ++ no_child ∷ [] })
  return :
      (child : Option ℕ)
      → s.parent ≡ (if waits then reported else identified child)
      → Step waits s (record s { parent = returned 0; output = s.output ++ value_of_x 0 ∷ [] })
  speak :
      s.child ≡ started
      → Step waits s (record s { child = spoken; output = s.output ++ in_child ∷ [] })
  end :
      s.child ≡ spoken
      → Step waits s (record s { child = ended 1; output = s.output ++ value_of_x 1 ∷ [] })
  kill_started : s.child ≡ started → Step waits s (record s { child = killed })
  kill_spoken : s.child ≡ spoken → Step waits s (record s { child = killed })

-- The states that a run from `s` can reach.
pub data Reaches (waits : Bool) (s : State) : State → Type 0 where
  here : Reaches waits s s
  later : {t u : State} → Reaches waits s t → Step waits t u → Reaches waits s u
