-- ===== src/Wait/Output.antt =====
-- What a process and its child print.
use cosc.Base.{ℕ, List, [], ◌∷◌, ◌++◌, some}
use cosc.Wait.{Printed, child_id, value_of_x, Parent, returned, Child, started, State}
use cosc.Wait.Expected.{Expects}

-- A step of the child that keeps what the parent expects of the output.
abbrev Keeps : Child → Child → List Printed → Type 0
Keeps c d line =
    (p : Parent) (output : List Printed) → Expects p c output → Expects p d (output ++ line)

abbrev IsSound : State → Type 0
IsSound s = Expects s.parent s.child s.output

-- Where fork_intro.c can be: its parent has returned, its child has not printed.
abbrev child_left : ℕ → State
child_left pid = record {
  parent = returned 0;
  child = started;
  output = child_id (some pid) ∷ value_of_x 0 ∷ [];
}
