-- ===== src/Simulator/Main/Average.antt =====
-- The averages that `print_statistics` prints, in terms of the times of the processes.
use native.Mathlib.Nat.{add-zero, zero-add}
use mathlib.Core.List.{append_assoc}
use cosc.Base.{
  ℕ, ◌+◌, ◌*◌, ◌^◌, ◌<◌, ◌≤◌, ◌≡◌, refl, sym, lt→ltb, List, [], ◌∷◌, ◌++◌, some, arith, All, total,
  length, length-append, get_elem?,
}
use cosc.Simulator.{ProcessStats, timeout, calculate_turnaround_time, calculate_wait_time}
use cosc.Simulator.Invariant.{IsTracked, IsFinished}
use cosc.Simulator.Correct.{turnaround_and_wait}
use cosc.Simulator.Main.{
  Double, Message, sum_times, average, average_turnaround_time, average_wait_time, print_statistics,
  calculate_average_turnaround_time, calculate_average_wait_time,
}

-- A `double` represents every natural number below `2 ^ 53`, and a sum below that bound is exact,
-- as IEEE 754 has it for double precision.
pub record IsExact (D : Double) : Type 0 where
  pub value : ℕ → D.Carrier
  pub zero : D.zero ≡ value 0
  pub add : (m n : ℕ) → m + n < 2 ^ 53 → D.add_unsigned (value m) n ≡ value (m + n)

get_elem?-middle :
    (before : List ProcessStats) (p : ProcessStats) (after : List ProcessStats)
    → get_elem? (before ++ p ∷ after) (length before) ≡ some p
get_elem?-middle [] p after = refl
get_elem?-middle (q ∷ before) p after = get_elem?-middle before p after

module _ (D : Double) (exact : IsExact D) (time : ProcessStats → ℕ) where
  sum_times_lem :
      (before after : List ProcessStats) (m : ℕ)
      → m + total time after < 2 ^ 53
      → sum_times D time (length after) (length before) (before ++ after) (exact.value m)
        ≡ some (exact.value (m + total time after))
  unfolding sum_times
  sum_times_lem before [] m h = rw (add-zero m) refl
  sum_times_lem before (p ∷ after) m h =
      let at : length before + 1 ≡ length (before ++ p ∷ []) =
        omega (arith, length-append before (p ∷ [])) in
      let same : before ++ p ∷ after ≡ (before ++ p ∷ []) ++ after =
        sym (append_assoc before (p ∷ []) after) in
      let sum : m + (time p + total time after) ≡ m + time p + total time after = omega arith in
      rw (sum_times, get_elem?-middle before p after, exact.add m (time p) (omega arith))
        (rw (at, same, sum) (sum_times_lem (before ++ p ∷ []) after (m + time p) (omega arith)))

  average_lem :
      (ps : List ProcessStats)
      → 0 < length ps
      → total time ps < 2 ^ 53
      → average D time ps (length ps)
        ≡ some (D.divide_unsigned (exact.value (total time ps)) (length ps))
  unfolding average
  average_lem ps h small =
      rw (average, lt→ltb 0 (length ps) h)
        (rw (exact.zero, sum_times_lem [] ps 0 (omega arith)) (rw (zero-add (total time ps)) refl))

-- The sums of the times of processes that have run to their end.
pub record HasTimes (ps : List ProcessStats) : Type 0 where
  pub turnaround :
      total calculate_turnaround_time ps + total (λ p. p.initial.arrival_time) ps
      ≡ total (λ p. p.end_time + 1) ps
  pub wait :
      total calculate_wait_time ps + total (λ p. p.initial.processing_time) ps
      ≡ total calculate_turnaround_time ps

pub finished-HasTimes :
    (ps : List ProcessStats) → All (IsTracked timeout) ps → All IsFinished ps → HasTimes ps
finished-HasTimes [] t f = record { turnaround = refl; wait = refl }
finished-HasTimes (p ∷ ps) t f =
    let times = turnaround_and_wait timeout p t.0 (omega arith) f.0 in
    let rest = finished-HasTimes ps t.1 f.1 in
    record {
      turnaround = omega (arith, times.0, rest.turnaround);
      wait = omega (arith, times.1, rest.wait);
    }

finished-small :
    (ps : List ProcessStats)
    → All (IsTracked timeout) ps
    → All IsFinished ps
    → total calculate_turnaround_time ps ≤ length ps * timeout
finished-small [] t f = omega arith
finished-small (p ∷ ps) t f =
    omega (arith, turnaround_and_wait timeout p t.0 (omega arith) f.0, finished-small ps t.1 f.1)

module _ (D : Double) (exact : IsExact D) where
  -- The two lines that `print_statistics` prints for processes that have run to their end.
  abbrev pub statistics : List ProcessStats → List (Message D)
  statistics ps =
      average_turnaround_time
        (D.divide_unsigned (exact.value (total calculate_turnaround_time ps)) (length ps))
      ∷ average_wait_time
          (D.divide_unsigned (exact.value (total calculate_wait_time ps)) (length ps))
      ∷ []

  pub print_statistics_lem :
      (ps : List ProcessStats)
      → All (IsTracked timeout) ps
      → All IsFinished ps
      → 0 < length ps
      → length ps < timeout
      → print_statistics D ps (length ps) ≡ some (statistics ps)
  unfolding print_statistics calculate_average_turnaround_time calculate_average_wait_time
  print_statistics_lem ps t f pos small =
      let times = finished-HasTimes ps t f in
      let le = finished-small ps t f in
      rw (print_statistics, average_lem D exact calculate_turnaround_time ps pos (omega arith))
        (rw (average_lem D exact calculate_wait_time ps pos (omega (arith, times.wait))) refl)
