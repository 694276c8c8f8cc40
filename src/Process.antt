-- ===== src/Process.antt =====
-- The declarations of assignments/assignment4/simulator/simulator.c that the simulator shares with
-- a scheduling algorithm: `process_initial`, and the two functions that `scheduler.c` defines.
pub mod Calls
use cosc.Base.{ℕ, ◌+◌, ◌-◌, ◌^◌, ◌<◌, ◌≡◌, ◌==◌, if◌then◌else◌}

-- `process_initial`: what the simulator reads for a process.
pub record ProcessInitial : Type 0 where
  pub pid : ℕ
  pub processing_time : ℕ
  pub arrival_time : ℕ

-- What `main` has checked of each process before the simulation starts, as far as a scheduler
-- relies on it.
pub record IsAdmissible (p : ProcessInitial) : Type 0 where
  pub pid_pos : 0 < p.pid
  pub time_pos : 0 < p.processing_time
  pub time_fits : p.processing_time < 2 ^ 32

-- A scheduling algorithm: the file-level variables of `scheduler.c` as a state, and its two
-- functions. `get_next_scheduled_process` returns the PID to run, or 0, and the new state.
pub record Scheduler : Type 1 where
  pub State : Type 0
  pub start : State
  pub add_to_ready_queue : ProcessInitial → State → State
  pub get_next_scheduled_process : State → ℕ × State

-- What the simulator needs of an algorithm: `remaining s q` is the processing time that the
-- algorithm still intends to give to PID `q`. An arrival adds to it, each call of
-- `get_next_scheduled_process` takes one unit from the PID that it returns, and 0 is returned only
-- if nothing is left to run.
pub record IsWorkConserving (S : Scheduler) : Type 1 where
  pub IsValid : S.State → Type 0
  pub remaining : S.State → ℕ → ℕ
  pub start-IsValid : IsValid S.start
  pub remaining-start : (q : ℕ) → remaining S.start q ≡ 0
  pub add-IsValid :
      (p : ProcessInitial) (s : S.State)
      → IsAdmissible p
      → IsValid s
      → IsValid (S.add_to_ready_queue p s)
  pub remaining-add :
      (p : ProcessInitial) (s : S.State) (q : ℕ)
      → IsValid s
      → remaining (S.add_to_ready_queue p s) q
        ≡ remaining s q + (if p.pid == q then p.processing_time else 0)
  pub next-IsValid : (s : S.State) → IsValid s → IsValid (S.get_next_scheduled_process s).1
  pub remaining-next :
      (s : S.State) (q : ℕ)
      → IsValid s
      → remaining (S.get_next_scheduled_process s).1 q
        ≡ remaining s q - (if (S.get_next_scheduled_process s).0 == q then 1 else 0)
  pub next_has_work :
      (s : S.State)
      → IsValid s
      → 0 < (S.get_next_scheduled_process s).0
      → 0 < remaining s (S.get_next_scheduled_process s).0
  pub idle_only_when_done :
      (s : S.State) (q : ℕ) → IsValid s → (S.get_next_scheduled_process s).0 ≡ 0 → remaining s q ≡ 0
