-- ===== src/Simulator/Input/Parsed.antt =====
-- The format of a line that `read_process_initial` reads.
use cosc.Base.{ℕ, ◌≤◌, ◌≡◌, false, some, List, ◌∷◌, ◌++◌, arith, le→ltb}
use cosc.Process.{ProcessInitial}
use cosc.Simulator.Input.{Number, int_max, strtoui, parse_line}

module _ (strtoul : List ℕ → Number) where
  -- `text` denotes `n`: before a comma or a newline `strtoul` reads it as `n`, sets no error, and
  -- stops at that character. The documentation of `strtoul` promises this of the decimal digits of
  -- a number that fits.
  abbrev pub Denotes : List ℕ → ℕ → Type 0
  Denotes text n =
      ((rest : List ℕ)
        → strtoul (text ++ b',' ∷ rest) ≡ record { value = n; rest = b',' ∷ rest; errno = false })
      × ((rest : List ℕ)
          → strtoul (text ++ b'\n' ∷ rest)
            ≡ record { value = n; rest = b'\n' ∷ rest; errno = false })

  strtoui_small :
      (s rest : List ℕ) (n : ℕ)
      → strtoul s ≡ record { value = n; rest = rest; errno = false }
      → n ≤ int_max
      → strtoui strtoul s ≡ record { value = n; rest = rest; errno = false }
  unfolding strtoui
  strtoui_small s rest n e small = rw (e, le→ltb n int_max small) (ground arith)

  module _ (pid_text arrival_text time_text : List ℕ) (initial : ProcessInitial)
      (pid_read : Denotes pid_text initial.pid)
      (arrival_read : Denotes arrival_text initial.arrival_time)
      (time_read : Denotes time_text initial.processing_time)
      (small : (initial.pid ≤ int_max)
        × (initial.arrival_time ≤ int_max)
        × (initial.processing_time ≤ int_max)) where
    -- A line "pid,arrival time,processing time" with a newline at its end, whose numbers are at
    -- most `INT_MAX`, is read as the process with these three values.
    pub parse_line_format :
        (rest : List ℕ)
        → parse_line strtoul
            (pid_text ++ (b',' ∷ (arrival_text ++ (b',' ∷ (time_text ++ (b'\n' ∷ rest))))))
          ≡ some initial
    unfolding parse_line
    parse_line_format rest =
        let from_time : List ℕ = time_text ++ (b'\n' ∷ rest) in
        let from_arrival : List ℕ = arrival_text ++ (b',' ∷ from_time) in
        let p = strtoui_small _ _ _ (pid_read.0 from_arrival) small.0 in
        let a = strtoui_small _ _ _ (arrival_read.0 from_time) small.1 in
        let t = strtoui_small _ _ _ (time_read.1 rest) small.2 in
        rw (parse_line, p) (rw a (rw t (rw (p, a))))
