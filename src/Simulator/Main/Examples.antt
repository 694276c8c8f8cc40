-- ===== src/Simulator/Main/Examples.antt =====
-- A run of the program on the example of assignments/assignment4/simulator/readme.md, with a C
-- library and natural numbers in place of doubles that are given here.
use cosc.Base.{
  ℕ, ◌+◌, ◌*◌, ◌-◌, false, List, [], ◌∷◌, Option, none, some, leb, ◌&&◌, ◌==◌, if◌then◌else◌,
}
use cosc.Process.{ProcessInitial}
use cosc.Simulator.Input.{Number}
use cosc.Simulator.Main.{Double, CLibrary, Scanned, matched, end_of_file, no_match}

abbrev doubles : Double
doubles = record { Carrier = ℕ; zero = 0; add_unsigned = λ m n. m + n; divide_unsigned = λ m n. m }

-- `strtoul` for texts that begin with a digit.
abbrev strtoul_from : ℕ → List ℕ → Number
strtoul_from n [] = record { value = n; rest = []; errno = false }
strtoul_from n (c ∷ cs) =
    if leb b'0' c && leb c b'9'
    then strtoul_from (n * 10 + (c - b'0')) cs
    else record { value = n; rest = c ∷ cs; errno = false }

-- A file is the list of its lines; the first has one digit.
abbrev scan : List (List ℕ) → Scanned × List (List ℕ)
scan [] = (end_of_file, [])
scan ([] ∷ ls) = (no_match, ls)
scan ((d ∷ l) ∷ ls) = (matched (d - b'0'), ls)

abbrev gets : List (List ℕ) → Option (List ℕ) × List (List ℕ)
gets [] = (none, [])
gets (l ∷ ls) = (some l, ls)

abbrev same_text : List ℕ → List ℕ → ℕ
same_text [] [] = 0
same_text (c ∷ cs) (d ∷ ds) = if c == d then same_text cs ds else 1
same_text cs ds = 1

abbrev process_lines : List (List ℕ)
process_lines =
    (b'1' ∷ b',' ∷ b'0' ∷ b',' ∷ b'9' ∷ b'\n' ∷ [])
    ∷ (b'2' ∷ b',' ∷ b'2' ∷ b',' ∷ b'1' ∷ b'\n' ∷ [])
    ∷ (b'3' ∷ b',' ∷ b'6' ∷ b',' ∷ b'2' ∷ b'\n' ∷ [])
    ∷ []

abbrev c_library : CLibrary
c_library = record {
  File = List (List ℕ);
  strcmp = same_text;
  fopen = λ filename. some ((b'3' ∷ b'\n' ∷ []) ∷ process_lines);
  fscanf = scan;
  fgets = gets;
  strtoul = strtoul_from 0;
  indeterminate = 77;
  stale = λ file. [];
}

abbrev processes : List ProcessInitial
processes =
    record { pid = 1; arrival_time = 0; processing_time = 9 }
    ∷ record { pid = 2; arrival_time = 2; processing_time = 1 }
    ∷ record { pid = 3; arrival_time = 6; processing_time = 2 }
    ∷ []
