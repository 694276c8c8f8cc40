-- ===== src/Simulator/Main.antt =====
-- The statistics, `usage` and `main` of assignments/assignment4/simulator/simulator.c. The files,
-- `fopen`, `fscanf`, `fgets`, `strtoul` and `strcmp` of the C library and the type `double` are
-- parameters. `fclose` is left out, and so is what an algorithm prints in debug mode.
pub mod Average
pub mod Finish
mod Examples
use cosc.Base.{
  ℕ, zero, suc, ◌+◌, ◌-◌, ◌^◌, Bool, true, false, List, [], ◌∷◌, ◌++◌, Option, none, some, ltb,
  ◌==◌, if◌then◌else◌, length, get_elem?,
}
use cosc.Process.{ProcessInitial, Scheduler}
use cosc.Simulator.{
  ProcessStats, timeout, Line, returned, out_of_bounds, run_simulation, calculate_turnaround_time,
  calculate_wait_time,
}
use cosc.Simulator.Input.{
  InputError, Number, read_process_initial, loaded, refused, read_past_end, load_processes,
}

-- `double`, as far as the code computes with it: 0, `+=` and `/=` with an unsigned int.
pub record Double : Type 1 where
  pub Carrier : Type 0
  pub zero : Carrier
  pub add_unsigned : Carrier → ℕ → Carrier
  pub divide_unsigned : Carrier → ℕ → Carrier

module _ (D : Double) where
  -- The sum of the loops below, from index `i` on. `none` is a read outside of `processes`.
  unfoldable pub sum_times :
      (ProcessStats → ℕ) → ℕ → ℕ → List ProcessStats → D.Carrier → Option D.Carrier
  sum_times time zero i processes acc = some acc
  sum_times time (suc left) i processes acc = elim (get_elem? processes i) [
    | none ↦ none
    | some p ↦ sum_times time left (i + 1) processes (D.add_unsigned acc (time p))
  ]

  unfoldable pub average : (ProcessStats → ℕ) → List ProcessStats → ℕ → Option D.Carrier
  unfolding sum_times
  average time processes num_processes =
      if ltb 0 num_processes
      then elim (sum_times time num_processes 0 processes D.zero) [
        | none ↦ none
        | some sum ↦ some (D.divide_unsigned sum num_processes)
      ]
      else some D.zero

  unfoldable pub calculate_average_turnaround_time : List ProcessStats → ℕ → Option D.Carrier
  unfolding average
  calculate_average_turnaround_time processes num_processes =
      average calculate_turnaround_time processes num_processes

  unfoldable pub calculate_average_wait_time : List ProcessStats → ℕ → Option D.Carrier
  unfolding average
  calculate_average_wait_time processes num_processes =
      average calculate_wait_time processes num_processes

  -- What the program prints, one constructor for each call or block of calls of `printf`.
  pub data Message : Type 0 where
    invalid_arguments : Message
    usage_of : (cmd : List ℕ) → Message
    unable_to_read : (filename : List ℕ) → Message
    no_number_of_processes number_out_of_range : Message
    process_error : (line : ℕ) → InputError → Message
    heading : Message
    step : Line → Message
    average_turnaround_time average_wait_time : D.Carrier → Message

  unfoldable pub print_statistics : List ProcessStats → ℕ → Option (List Message)
  unfolding calculate_average_turnaround_time calculate_average_wait_time
  print_statistics processes num_processes =
      elim (calculate_average_turnaround_time processes num_processes) [
        | none ↦ none
        | some turnaround ↦ elim (calculate_average_wait_time processes num_processes) [
          | none ↦ none
          | some wait ↦ some (average_turnaround_time turnaround ∷ average_wait_time wait ∷ [])
        ]
      ]

  -- `error` is `none` for `NULL`.
  unfoldable pub usage : List ℕ → Option Message → List Message
  usage cmd none = usage_of cmd ∷ []
  usage cmd (some error) = error ∷ usage_of cmd ∷ []

  -- How the program ends: with the value that `main` returns and what was printed, or by reading
  -- outside an array or a text.
  pub data Exit : Type 0 where
    exited : (status : ℕ) → List Message → Exit
    undefined : Exit

  abbrev pub steps : List Line → List Message
  steps [] = []
  steps (line ∷ lines) = step line ∷ steps lines

  -- The end of `main`, from the call of `run_simulation` on. The flow off the end of `main` returns
  -- 0.
  unfoldable pub run_and_report : Scheduler → List ProcessStats → ℕ → Exit
  unfolding print_statistics
  run_and_report S processes num_processes = elim (run_simulation S processes timeout) [
    | out_of_bounds ↦ undefined
    | returned success ran lines ↦
        let printed = heading ∷ steps lines in
        elim success [
          | false ↦ exited 0 printed
          | true ↦ elim (print_statistics ran num_processes) [
            | none ↦ undefined
            | some statistics ↦ exited 0 (printed ++ statistics)
          ]
        ]
  ]

-- What `fscanf` with "%u\n" does: `EOF`, 0 without a value, or 1 with one.
pub data Scanned : Type 0 where
  end_of_file no_match : Scanned
  matched : (value : ℕ) → Scanned

-- The C library. The fields `indeterminate` and `stale` are the contents of `num_processes` and of
-- the array `line` before anything is stored in them; those of `line` may be others for every line.
pub record CLibrary : Type 1 where
  pub File : Type 0
  pub strcmp : List ℕ → List ℕ → ℕ
  pub fopen : List ℕ → Option File
  pub fscanf : File → Scanned × File
  pub fgets : File → Option (List ℕ) × File
  pub strtoul : List ℕ → Number
  pub indeterminate : ℕ
  pub stale : File → List ℕ

module _ (L : CLibrary) where
  -- The first lines of `main`: `debug` and `filename`.
  unfoldable pub check_arguments : List (List ℕ) → Option (Bool × List ℕ)
  check_arguments (cmd ∷ filename ∷ []) = some (false, filename)
  check_arguments (cmd ∷ flag ∷ filename ∷ []) =
      if L.strcmp flag (b'-' ∷ b'd' ∷ []) == 0 then some (true, filename) else none
  check_arguments argv = none

  abbrev pub read : L.File → Option ProcessInitial × L.File
  read file = read_process_initial L.strtoul L.fgets (L.stale file) file

  module _ (D : Double) (algorithm : Bool → Scheduler) where
    -- `main` from the check of `num_processes` on.
    unfoldable pub main_counted : Bool → ℕ → L.File → Exit D
    unfolding run_and_report
    main_counted debug num_processes file = elim (load_processes read num_processes file) [
      | none ↦ exited 1 (number_out_of_range ∷ [])
      | some (refused line e) ↦ exited 1 (process_error line e ∷ [])
      | some read_past_end ↦ undefined
      | some (loaded processes) ↦ run_and_report D (algorithm debug) processes num_processes
    ]

    -- `main` from the call of `fscanf` on: without a match `num_processes` keeps what it was.
    unfoldable pub main_opened : Bool → L.File → Exit D
    unfolding main_counted
    main_opened debug file =
        let (scanned, file') = L.fscanf file in
        elim scanned [
          | end_of_file ↦ exited 1 (no_number_of_processes ∷ [])
          | no_match ↦ main_counted debug L.indeterminate file'
          | matched num_processes ↦ main_counted debug num_processes file'
        ]

    -- `argv` has `argc` elements; without one, `usage` prints through a null pointer. -1 is
    -- `2 ^ 32 - 1` as a word.
    unfoldable pub main : List (List ℕ) → Exit D
    unfolding check_arguments usage main_opened
    main [] = undefined
    main (cmd ∷ rest) = elim (check_arguments (cmd ∷ rest)) [
      | none ↦ exited (2 ^ 32 - 1) (usage D cmd (some invalid_arguments))
      | some (debug, filename) ↦ elim (L.fopen filename) [
        | none ↦ exited 1 (unable_to_read filename ∷ [])
        | some file ↦ main_opened debug file
      ]
    ]
