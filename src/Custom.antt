-- ===== src/Custom.antt =====
-- assignments/assignment4/simulator/submissions/submission/custom.c: a fast and a smart queue, the
-- smart one by a score. Numbers of type `double` are a parameter. The pointer `total_time_run` of a
-- history is to the processed time of the process with that PID, which the model reads from the
-- process itself: PIDs are different, as `main` of simulator.c checks. Memory does not run out, and
-- the debug output and the messages on missing histories are left out.
pub mod Histories
pub mod Selection
pub mod Choice
pub mod Work
pub mod Scores
pub mod Best
mod Examples
use cosc.Base.{
  ℕ, zero, suc, ◌+◌, ◌-◌, ◌*◌, ◌^◌, Bool, true, false, List, [], ◌∷◌, Option, none, some, ltb, leb,
  ◌==◌, if◌then◌else◌, u32,
}
use cosc.Process.{ProcessInitial, Scheduler}
use cosc.QuantumProcess.{QuantumProcess, new_process, execute}
use cosc.ReadyList.{remove_next, add_sorted, add_last}

-- The operations on `double` that the code uses; `lowest` is `-DBL_MAX`.
pub record Arithmetic : Type 1 where
  pub Double : Type 0
  pub of_unsigned : ℕ → Double
  pub add : Double → Double → Double
  pub sub : Double → Double → Double
  pub mul : Double → Double → Double
  pub div : Double → Double → Double
  pub less : Double → Double → Bool
  pub lowest : Double
  pub remaining_time_weight : Double
  pub reschedule_weight : Double

-- "Remove the best process from the smart queue".
unfoldable pub take_at : ℕ → List QuantumProcess → Option (QuantumProcess × List QuantumProcess)
take_at i [] = none
take_at zero (p ∷ l) = some (p, l)
take_at (suc i) (p ∷ l) = elim (take_at i l) [ none ↦ none | some (q, l') ↦ some (q, p ∷ l') ]

unfoldable pub take_best :
    Option ℕ → List QuantumProcess → Option (QuantumProcess × List QuantumProcess)
take_best none l = none
take_best (some i) l = take_at i l

module _ (D : Arithmetic) where
  open D use {Double, of_unsigned, add, sub, mul, div, less, lowest}

  -- `process_history`, less the link.
  pub record History : Type 0 where
    pub pid : ℕ
    pub wait_time : ℕ
    pub reschedule_count : ℕ
    pub score : Double

  -- The file-level variables: what follows the two entries of `priority_queues`, `current`,
  -- `priority_level`, and what follows the sentinel of `process_histories`; and whether a NULL
  -- pointer has been dereferenced, behind which nothing is known of a run.
  pub record Custom : Type 0 where
    pub fast : List QuantumProcess
    pub smart : List QuantumProcess
    pub current : Option QuantumProcess
    pub priority_level : ℕ
    pub histories : List History
    pub null_dereferenced : Bool

  abbrev pub start : Custom
  start = record {
    fast = [];
    smart = [];
    current = none;
    priority_level = 0;
    histories = [];
    null_dereferenced = false;
  }

  unfoldable pub init_process_history : QuantumProcess → List History → List History
  init_process_history process histories =
      record { pid = process.pid; wait_time = 0; reschedule_count = 0; score = of_unsigned 0 }
      ∷ histories

  unfoldable pub get_process_history : ℕ → List History → Option History
  get_process_history pid [] = none
  get_process_history pid (h ∷ hs) = if h.pid == pid then some h else get_process_history pid hs

  -- A write through the pointer that `get_process_history` returns, if it is not NULL.
  unfoldable pub update_history : ℕ → (History → History) → List History → List History
  update_history pid f [] = []
  update_history pid f (h ∷ hs) = if h.pid == pid then f h ∷ hs else h ∷ update_history pid f hs

  unfoldable pub free_process_history : ℕ → List History → List History
  free_process_history pid [] = []
  free_process_history pid (h ∷ hs) = if h.pid == pid then hs else h ∷ free_process_history pid hs

  -- The value that `calculate_new_score` stores and returns. All sums before the conversion to
  -- `double` are of unsigned ints.
  unfoldable pub calculate_new_score : History → QuantumProcess → Double
  calculate_new_score history process =
      let waiting_factor = of_unsigned (u32 (history.wait_time + 1)) in
      let running_factor = of_unsigned (u32 (process.processed_time + 1)) in
      let reschedule_penalty = of_unsigned (u32 (history.reschedule_count + 1)) in
      let remaining_time_factor =
        div (of_unsigned (u32 (process.processing_time + 1))) (
          of_unsigned
            (u32 (u32 (process.processing_time + 2 ^ 32 - process.processed_time) + 1))) in
      sub
        (add (div waiting_factor running_factor)
          (mul remaining_time_factor D.remaining_time_weight))
        (mul reschedule_penalty D.reschedule_weight)

  unfoldable pub add_to_ready_queue : ProcessInitial → Custom → Custom
  add_to_ready_queue process s = record s {
    fast = add_sorted (λ x. x.arrival_time) (λ x. x.pid) (new_process process) s.fast;
    histories = init_process_history (new_process process) s.histories;
  }

  unfoldable pub update_queue_wait_times : List QuantumProcess → List History → List History
  update_queue_wait_times [] histories = histories
  update_queue_wait_times (next ∷ rest) histories =
      update_queue_wait_times rest
        (update_history next.pid (λ h. record h { wait_time = u32 (h.wait_time + 1) }) histories)

  unfoldable pub update_wait_times : Custom → List History
  update_wait_times s = update_queue_wait_times s.smart (update_queue_wait_times s.fast s.histories)

  -- The loop over the smart queue: the position of the best process so far, if there is one, and
  -- the histories with their new scores. A missing history ends the loop.
  unfoldable pub best_from :
      ℕ → List QuantumProcess → List History → Double → Option ℕ → Option ℕ × List History
  best_from i [] histories best_score best = (best, histories)
  best_from i (node ∷ rest) histories best_score best =
      let found = get_process_history node.pid histories in
      elim found [
        | none ↦ (best, histories)
        | some h ↦
            let score = calculate_new_score h node in
            let better = less best_score score in
            best_from (i + 1) rest
              (update_history node.pid (λ h'. record h' { score = score }) histories)
              (if better then score else best_score) (if better then some i else best)
      ]

  -- The process taken becomes the current one, of the priority of the smart queue.
  unfoldable pub make_current :
      Option (QuantumProcess × List QuantumProcess) → List History → Custom → Custom
  make_current none histories s = record s { priority_level = 1; histories = histories }
  make_current (some (p, smart)) histories s = record s {
    smart = smart;
    current = some p;
    priority_level = 1;
    histories = histories;
  }

  -- `select_best_process_from_smart_queue`, with the assignments that follow its call.
  unfoldable pub select_best_process_from_smart_queue : Custom → Custom
  select_best_process_from_smart_queue s =
      let (best, histories) = best_from 0 s.smart s.histories lowest none in
      make_current (take_best best s.smart) histories s

  unfoldable pub choose_from : List QuantumProcess → List QuantumProcess → Custom → Custom
  choose_from (p ∷ fast) smart s = record s {
    fast = (remove_next (p ∷ fast)).1;
    current = some p;
    priority_level = 0;
  }
  choose_from [] (p ∷ smart) s = select_best_process_from_smart_queue s
  choose_from [] [] s = s

  unfoldable pub choose_if : Option QuantumProcess → Custom → Custom
  choose_if none s = choose_from s.fast s.smart s
  choose_if (some p) s = s

  -- `history->reschedule_count++`, whose history may be NULL, after what has been dereferenced
  -- before.
  unfoldable pub dereference : Option History → Bool → Bool
  dereference none before = true
  dereference (some h) before = before

  -- The rest of `get_next_scheduled_process`, for the current process.
  unfoldable pub run_current : QuantumProcess → Custom → ℕ × Custom
  run_current p s =
      let histories = update_wait_times s in
      let current = execute p in
      let history = get_process_history current.pid histories in
      (
        current.pid,
        if current.processed_time == current.processing_time
            then record s { current = none; histories = free_process_history current.pid histories }
            else if leb (u32 ((s.priority_level + 1) * 2)) current.quantum_used
            then record s {
              smart = add_last (record current { quantum_used = 0 }) s.smart;
              current = none;
              histories =
                  update_history current.pid
                    (λ h. record h { reschedule_count = u32 (h.reschedule_count + 1) }) histories;
              null_dereferenced = dereference history s.null_dereferenced;
            }
            else record s { current = some current; histories = histories },
      )

  unfoldable pub run_if : Option QuantumProcess → Custom → ℕ × Custom
  run_if none s = (0, s)
  run_if (some p) s = run_current p s

  unfoldable pub get_next_scheduled_process : Custom → ℕ × Custom
  get_next_scheduled_process s = let s' = choose_if s.current s in run_if s'.current s'

  abbrev pub custom : Scheduler
  custom = record {
    State = Custom;
    start = start;
    add_to_ready_queue = add_to_ready_queue;
    get_next_scheduled_process = get_next_scheduled_process;
  }
