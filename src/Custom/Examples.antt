-- ===== src/Custom/Examples.antt =====
-- The scoring algorithm over differences of natural numbers, where products and quotients are their
-- first operand, and its theorem for them.
use cosc.Base.{ℕ, ◌+◌, ◌≡◌, refl, Bool, true, false, List, [], ◌∷◌, ◌++◌, some, ltb, arith}
use cosc.Process.{IsWorkConserving}
use cosc.Process.Calls.{calls}
use cosc.QuantumProcess.{QuantumProcess, execute}
use cosc.ReadyList.{add_last, remove_next}
use cosc.Custom.{
  Arithmetic, History, Custom, start, init_process_history, get_process_history, update_history,
  take_at, take_best, free_process_history, calculate_new_score, update_queue_wait_times,
  update_wait_times, best_from, dereference, make_current, select_best_process_from_smart_queue,
  choose_from, choose_if, run_current, run_if, get_next_scheduled_process, custom,
}
use cosc.Custom.Selection.{ScoresAreFinite}
use cosc.Custom.Choice.{one, sum, IsValid}
use cosc.Custom.Histories.{held}
use cosc.Custom.Scores.{ComparesNumbers, IsBest, score_of}
use cosc.Custom.Best.{highest_score_runs}
use cosc.Custom.Work.{IsReached, custom_lem}

-- A difference of two numbers, or the lowest value.
data Difference : Type 0 where
  bottom : Difference
  difference : ℕ → ℕ → Difference

abbrev lift : (ℕ → ℕ → Difference) → Difference → Difference → Difference
lift f bottom y = difference 0 0
lift f (difference a b) bottom = difference 0 0
lift f (difference a b) (difference c d) = f (a + d) (b + c)

abbrev plus : Difference → Difference → Difference
plus (difference a b) (difference c d) = difference (a + c) (b + d)
plus x y = difference 0 0

abbrev less_than : Difference → Difference → Bool
less_than bottom bottom = false
less_than bottom (difference c d) = true
less_than (difference a b) bottom = false
less_than (difference a b) (difference c d) = ltb (a + d) (c + b)

-- Products and quotients are their first operand.
abbrev differences : Arithmetic
differences = record {
  Double = Difference;
  of_unsigned = λ n. difference n 0;
  add = plus;
  sub = lift difference;
  mul = λ x y. x;
  div = λ x y. x;
  less = less_than;
  lowest = bottom;
  remaining_time_weight = difference 1 0;
  reschedule_weight = difference 1 0;
}

less_than_trans :
    (x y z : Difference) → less_than x y ≡ true → less_than y z ≡ true → less_than x z ≡ true
less_than_trans x bottom bottom e f = cc
less_than_trans bottom bottom (difference a b) e f = refl
less_than_trans (difference a b) bottom z e f = cc
less_than_trans x (difference a b) bottom e f = cc
less_than_trans bottom (difference a b) (difference c d) e f = refl
less_than_trans (difference a b) (difference c d) (difference m n) e f = ground arith

less_than_cotrans :
    (x y z : Difference)
    → less_than bottom z ≡ true
    → less_than x y ≡ true
    → less_than x z ≡ false
    → less_than z y ≡ true
less_than_cotrans x y bottom number e f = cc
less_than_cotrans bottom y (difference a b) number e f = cc
less_than_cotrans (difference a b) bottom (difference c d) number e f = cc
less_than_cotrans (difference a b) (difference c d) (difference m n) number e f = ground arith

abbrev waiting : ℕ → ℕ → QuantumProcess
waiting pid time = record {
  pid = pid;
  processing_time = time;
  arrival_time = 0;
  processed_time = 0;
  quantum_used = 0;
}

abbrev entry : ℕ → History differences
entry pid = record { pid = pid; wait_time = 0; reschedule_count = 0; score = difference 0 0 }

-- Process 1 runs for two units on the fast queue, then the two others do; then the scores decide.
schedule :
    (calls (custom differences) 11 (record (start differences) {
      fast = waiting 1 3 ∷ waiting 2 6 ∷ waiting 3 2 ∷ [];
      histories = entry 1 ∷ entry 2 ∷ entry 3 ∷ [];
    })).0
    ≡ 1 ∷ 1 ∷ 2 ∷ 2 ∷ 3 ∷ 3 ∷ 2 ∷ 2 ∷ 2 ∷ 2 ∷ 1 ∷ []
unfolding calls init_process_history get_process_history update_history take_at take_best
    free_process_history calculate_new_score update_queue_wait_times update_wait_times best_from
    make_current dereference select_best_process_from_smart_queue choose_from choose_if run_current
    run_if get_next_scheduled_process add_last execute remove_next
schedule = refl

finite_scores : ScoresAreFinite differences
unfolding calculate_new_score
finite_scores h p run = refl

custom_lem_example :
    IsWorkConserving (custom differences)
    × ((s : Custom differences)
        → IsReached differences s
        → (s.null_dereferenced ≡ false) × ((q : ℕ) → held q s.histories ≡ sum (one q) s))
custom_lem_example = custom_lem differences finite_scores

differences-ComparesNumbers : ComparesNumbers differences
differences-ComparesNumbers = record {
  trans = λ x y z. less_than_trans x y z;
  cotrans = λ x y z. less_than_cotrans x y z;
}

-- Two processes that wait in the smart queue; the second one has waited for longer.
abbrev two_smart : Custom differences
two_smart = record (start differences) {
  smart =
      record (waiting 1 9) { processed_time = 2 }
      ∷ record (waiting 2 9) { processed_time = 2 }
      ∷ [];
  histories = record (entry 2) { wait_time = 5 } ∷ entry 1 ∷ [];
}

two_smart-IsValid : IsValid two_smart
two_smart-IsValid = record {
  fast = tt;
  smart = (
    record { waits = omega arith; has_run = omega arith },
    (record { waits = omega arith; has_run = omega arith }, tt),
  );
  current = tt;
  histories = λ q. ground arith;
  no_null = refl;
}

highest_score_runs_example :
    (before : List QuantumProcess) × (best : QuantumProcess) × (after : List QuantumProcess)
    × (two_smart.smart ≡ before ++ best ∷ after)
    × IsBest differences (score_of two_smart.histories) before best after
    × ((select_best_process_from_smart_queue differences two_smart).current ≡ some best)
    × ((select_best_process_from_smart_queue differences two_smart).smart ≡ before ++ after)
    × ((get_next_scheduled_process differences two_smart).0 ≡ best.pid)
highest_score_runs_example =
    highest_score_runs differences two_smart finite_scores differences-ComparesNumbers
      two_smart-IsValid refl refl (omega arith)
