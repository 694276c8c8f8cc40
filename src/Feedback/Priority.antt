-- ===== src/Feedback/Priority.antt =====
-- The search of the feedback queue for the next process.
use native.Mathlib.Nat.{zero-add}
use cosc.Base.{
  ℕ, zero, suc, ◌+◌, ◌<◌, ◌≡◌, refl, List, [], ◌∷◌, Option, none, some, arith, All, get_elem?, set,
}
use cosc.QuantumProcess.{QuantumProcess}
use cosc.Feedback.{Feedback, pick, take_picked, choose_if, choose}
use cosc.Feedback.Queues.{Queues}

-- `p` is at the front of queue `level`, all queues before it are empty, and `ls'` is what is left.
pub record IsHighest (ls : Queues) (p : QuantumProcess) (level : ℕ) (ls' : Queues) : Type 0 where
  pub behind : List QuantumProcess
  pub front : get_elem? ls level ≡ some (p ∷ behind)
  pub empty_above : (j : ℕ) → j < level → get_elem? ls j ≡ some []
  pub rest : ls' ≡ set ls level behind

-- What a search that started at index `i` has found.
abbrev Found : ℕ → Queues → Option (QuantumProcess × ℕ × Queues) → Type 0
Found i ls none = All (λ l. l ≡ []) ls
Found i ls (some (p, level, ls')) = (k : ℕ) × (level ≡ i + k) × IsHighest ls p k ls'

Found-skip :
    (i : ℕ) (ls : Queues) (r : Option (QuantumProcess × ℕ × Queues))
    → Found (i + 1) ls r
    → Found i ([] ∷ ls) (elim r [ none ↦ none | some (p, level, ls') ↦ some (p, level, [] ∷ ls') ])
Found-skip i ls none h = (refl, h)
Found-skip i ls (some (p, level, ls')) (k, e, h) = (
  suc k,
  omega arith,
  record { behind = h.behind; front = h.front; empty_above = above; rest = rw h.rest },
)
  where
    above : (j : ℕ) → j < suc k → get_elem? ([] ∷ ls) j ≡ some []
    above zero lt = refl
    above (suc j) lt = h.empty_above j (omega arith)

pick-Found : (i : ℕ) (ls : Queues) → Found i ls (pick i ls)
unfolding pick
pick-Found i [] = tt
pick-Found i ([] ∷ ls) = Found-skip i ls (pick (i + 1) ls) (pick-Found (i + 1) ls)
pick-Found i ((p ∷ l) ∷ ls) = (
  0,
  omega arith,
  record { behind = l; front = refl; empty_above = λ j lt. absurd (omega arith); rest = refl },
)

-- What `choose` does with no current process: it leaves the state as it is, and then every queue
-- is empty, or it takes the process of the highest priority.
pub data Chosen (s : Feedback) : Feedback → Type 0 where
  nothing : All (λ l. l ≡ []) s.priority_queues → Chosen s s
  highest :
      (p : QuantumProcess) (level : ℕ) (ls : Queues)
      → IsHighest s.priority_queues p level ls
      → Chosen s (record { priority_queues = ls; current = some p; priority_level = level })

Chosen-picked :
    (s : Feedback) (r : Option (QuantumProcess × ℕ × Queues))
    → Found 0 s.priority_queues r
    → Chosen s (take_picked s r)
unfolding take_picked
Chosen-picked s none h = nothing h
Chosen-picked s (some (p, level, ls)) (k, e, h) = highest p level ls (rw (e, zero-add) h)

Chosen-if : (c : Option QuantumProcess) (s : Feedback) → c ≡ none → Chosen s (choose_if c s)
unfolding choose_if
Chosen-if none s e = Chosen-picked s (pick 0 s.priority_queues) (pick-Found 0 s.priority_queues)
Chosen-if (some p) s e = cc

-- With no current process, `get_next_scheduled_process` first makes the process at the front of
-- the first queue that is not empty the current one, at that queue's priority, and leaves every
-- other queue and the rest of this one; if all queues are empty the state stays as it is.
pub choose_highest : (s : Feedback) → s.current ≡ none → Chosen s (choose s)
unfolding choose
choose_highest s e = Chosen-if s.current s e
