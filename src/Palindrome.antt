-- ===== src/Palindrome.antt =====
-- tutorials/tutorial5/palindrome.c. A word is the list of its characters before
-- the terminating NUL; `tolower` is the C library's, and its result is cut to a `char`.
pub mod Mirror
pub mod Written
mod Examples
use cosc.Base.{
  ℕ, zero, suc, ◌-◌, ◌%◌, Bool, true, false, List, [], ◌∷◌, Option, none, some, length, leb, ◌==◌,
  if◌then◌else◌,
}

-- `word[i]`: behind the characters stands NUL.
abbrev pub char_at : List ℕ → ℕ → ℕ
char_at [] i = 0
char_at (c ∷ word) zero = c
char_at (c ∷ word) (suc i) = char_at word i

-- What `strncpy` copies of at most `n` characters.
abbrev pub first_chars : ℕ → List ℕ → List ℕ
first_chars zero word = []
first_chars (suc n) [] = []
first_chars (suc n) (c ∷ word) = c ∷ first_chars n word

abbrev pub substring : List ℕ → List ℕ
substring [] = []
substring (c ∷ word) = first_chars (length word - 1) word

-- The recursion, on fuel.
unfoldable pub is_palindrome : (ℕ → ℕ) → ℕ → List ℕ → Option Bool
is_palindrome tolower zero word = none
is_palindrome tolower (suc fuel) word =
    let len = length word in
    let inside = is_palindrome tolower fuel (substring word) in
    if leb len 1
    then some true
    else if tolower (char_at word 0) % 256 == tolower (char_at word (len - 1)) % 256
    then (if len == 2 then some true else inside)
    else some false

-- `word[strcspn(word, "\n")] = 0`.
unfoldable pub remove_newline : List ℕ → List ℕ
remove_newline [] = []
remove_newline (c ∷ word) = if c == b'\n' then [] else c ∷ remove_newline word

-- The loop of `main` over the texts that `fgets` puts into `word` before it fails: the lines
-- written to palindromes.txt. An array of 256 characters is why the fuel is enough.
unfoldable pub write_palindromes : (ℕ → ℕ) → List (List ℕ) → Option (List (List ℕ))
unfolding remove_newline
write_palindromes tolower [] = some []
write_palindromes tolower (text ∷ texts) =
    let word = remove_newline text in
    let rest = write_palindromes tolower texts in
    elim (is_palindrome tolower 256 word) [
      | none ↦ none
      | some b ↦ elim rest [ none ↦ none | some lines ↦ some (if b then word ∷ lines else lines) ]
    ]

-- The value that `main` returns, with its message if a file cannot be opened, and with what it has
-- written otherwise.
pub data Exit : Type 0 where
  no_dictionary no_output : Exit
  done : (written : List (List ℕ)) → Exit

-- `dict` has the texts of the dictionary, if it can be opened, and `pals` tells whether the output
-- can be. `none` is a word longer than the array.
unfoldable pub main : (ℕ → ℕ) → Option (List (List ℕ)) → Bool → Option Exit
unfolding write_palindromes
main tolower none pals = some no_dictionary
main tolower (some texts) false = some no_output
main tolower (some texts) true = elim (write_palindromes tolower texts) [
  | none ↦ none
  | some written ↦ some (done written)
]
