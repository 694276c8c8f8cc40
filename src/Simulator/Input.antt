-- ===== src/Simulator/Input.antt =====
-- Reading and checking the processes: `strtoui`, `read_process_initial` and the loop of `main` in
-- assignments/assignment4/simulator/simulator.c. `fgets` and `strtoul` are the C library's, and
-- enter as parameters. `fgets` may fail with any old contents in its array.
pub mod Checked
pub mod Parsed
use cosc.Base.{
  ℕ, zero, suc, ◌-◌, ◌^◌, Bool, true, false, not, ◌&&◌, ◌||◌, List, [], ◌∷◌, ◌++◌, Option, none,
  some, ltb, leb, ◌==◌, if◌then◌else◌, u32, length, ◌+◌,
}
use cosc.Process.{ProcessInitial}
use cosc.Simulator.{ProcessStats, timeout}

-- `MAX_PID`.
abbrev pub max_pid : ℕ
max_pid = 999999

-- `INT_MAX`.
abbrev pub int_max : ℕ
int_max = 2 ^ 31 - 1

-- What `strtoul` gives: the value, the text from `endptr` on, and whether it set `errno`. A C
-- string is the list of its characters before the terminating NUL.
pub record Number : Type 0 where
  pub value : ℕ
  pub rest : List ℕ
  pub errno : Bool

-- The character at `end`.
unfoldable pub char_at_end : List ℕ → ℕ
char_at_end [] = 0
char_at_end (c ∷ cs) = c

-- `end + 1`; past the terminating NUL nothing has been read from the file.
unfoldable pub after_end : List ℕ → Option (List ℕ)
after_end [] = none
after_end (c ∷ cs) = some cs

module _ (strtoul : List ℕ → Number) where
  -- `strtoui`: an error if the value is above `INT_MAX`, and a cast.
  unfoldable pub strtoui : List ℕ → Number
  strtoui s =
      let n = strtoul s in
      record { value = u32 n.value; rest = n.rest; errno = n.errno || ltb int_max n.value }

  -- The three fields of a line. `errno` is cleared once, before the first, so an error stays. The
  -- result is `none` where the code would look behind the end of the text.
  unfoldable pub parse_line : List ℕ → Option ProcessInitial
  unfolding char_at_end after_end
  parse_line line =
      let p = strtoui line in
      let bad_p = p.errno || not (char_at_end p.rest == b',') in
      elim (after_end p.rest) [
        | none ↦ none
        | some from_arrival ↦
            let a = strtoui from_arrival in
            let errno_a = p.errno || a.errno in
            let bad_a = errno_a || not (char_at_end a.rest == b',') in
            elim (after_end a.rest) [
              | none ↦ none
              | some from_processing ↦
                  let t = strtoui from_processing in
                  let bad_t = (errno_a || t.errno) || not (char_at_end t.rest == b'\n') in
                  some (record {
                    pid = if bad_t then 0 else if bad_a then 0 else if bad_p then 0 else p.value;
                    processing_time = t.value;
                    arrival_time = a.value;
                  })
            ]
      ]

  module _ {File : Type 0} (fgets : File → Option (List ℕ) × File) where
    -- `stale` is what the array `line` holds before the call. If `fgets` fails, `pid = 0` is
    -- overwritten by the PID that is read from it.
    unfoldable pub read_process_initial : List ℕ → File → Option ProcessInitial × File
    unfolding parse_line
    read_process_initial stale file =
        let (text, file') = fgets file in
        (elim text [ none ↦ parse_line stale | some line ↦ parse_line line ], file')

-- The messages with which `main` gives up on a line.
pub data InputError : Type 0 where
  bad_line pid_too_large bad_arrival_time bad_processing_time duplicate_pid : InputError

unfoldable pub has_pid : ℕ → List ProcessStats → Bool
has_pid pid [] = false
has_pid pid (p ∷ ps) = if pid == p.initial.pid then true else has_pid pid ps

-- The checks of one process against the processes before it, in their order.
unfoldable pub check_process : ProcessInitial → List ProcessStats → Option InputError
unfolding has_pid
check_process initial processes =
    if initial.pid == 0
    then some bad_line
    else if leb max_pid initial.pid
    then some pid_too_large
    else if ltb initial.arrival_time 0 || leb timeout initial.arrival_time
    then some bad_arrival_time
    else if leb initial.processing_time 0 || leb timeout initial.processing_time
    then some bad_processing_time
    else if has_pid initial.pid processes
    then some duplicate_pid
    else none

-- How the loop over the lines ends: with the array filled, with a message for a line, which are
-- numbered from 1, or by looking behind the end of a line.
pub data Loaded : Type 0 where
  loaded : List ProcessStats → Loaded
  refused : (line : ℕ) → InputError → Loaded
  read_past_end : Loaded

module _ {File : Type 0} (read : File → Option ProcessInitial × File) where
  -- The loop with the lines left to read; `processes` is filled from the front, so that its length
  -- is `i`.
  unfoldable pub load : ℕ → List ProcessStats → File → Loaded
  unfolding check_process
  load zero processes file = loaded processes
  load (suc left) processes file =
      let (line, file') = read file in
      elim line [
        | none ↦ read_past_end
        | some initial ↦ elim (check_process initial processes) [
          | some e ↦ refused (length processes + 1) e
          | none ↦
              load left
                (processes ++ record { initial = initial; processed_time = 0; end_time = 0 } ∷ [])
                file'
        ]
      ]

  -- The part of `main` between reading `num_processes` and closing the file.
  unfoldable pub load_processes : ℕ → File → Option Loaded
  unfolding load
  load_processes num_processes file =
      if ltb num_processes 1 || leb timeout num_processes
      then none
      else some (load num_processes [] file)
