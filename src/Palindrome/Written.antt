-- ===== src/Palindrome/Written.antt =====
-- What `main` of palindrome.c writes.
use cosc.Base.{
  ℕ, ◌≤◌, ◌<◌, ◌≡◌, refl, Bool, true, false, List, [], ◌∷◌, none, some, arith, All, length,
  Bool-cases, inl, inr,
}
use cosc.Palindrome.{remove_newline, write_palindromes, no_dictionary, no_output, done, main}
use cosc.Palindrome.Mirror.{IsMirrored, folded, is_palindrome_iff}

-- A word that reads the same from both ends, in lower case.
abbrev pub IsPalindrome : (ℕ → ℕ) → List ℕ → Type 0
IsPalindrome tolower word = IsMirrored (folded tolower word) (length word)

-- The lines are the palindromes among the words of the texts, in order.
pub data Selects (tolower : ℕ → ℕ) : List (List ℕ) → List (List ℕ) → Type 0 where
  nothing : Selects tolower [] []
  taken :
      (text : List ℕ) (texts lines : List (List ℕ))
      → IsPalindrome tolower (remove_newline text)
      → Selects tolower texts lines
      → Selects tolower (text ∷ texts) (remove_newline text ∷ lines)
  skipped :
      (text : List ℕ) (texts lines : List (List ℕ))
      → ¬ IsPalindrome tolower (remove_newline text)
      → Selects tolower texts lines
      → Selects tolower (text ∷ texts) lines

length-remove_newline : (word : List ℕ) → length (remove_newline word) ≤ length word
unfolding remove_newline
length-remove_newline [] = omega arith
length-remove_newline (c ∷ word) = ground (arith, length-remove_newline word)

write_palindromes-Selects :
    (tolower : ℕ → ℕ) (texts : List (List ℕ))
    → All (λ text. length text < 256) texts
    → (lines : List (List ℕ)) × (write_palindromes tolower texts ≡ some lines)
      × Selects tolower texts lines
unfolding write_palindromes
write_palindromes-Selects tolower [] h = ([], refl, nothing)
write_palindromes-Selects tolower (text ∷ texts) h =
    let (lines, written, rest) = write_palindromes-Selects tolower texts h.1 in
    let (b, answer, means) =
      is_palindrome_iff tolower (remove_newline text) 256
        (omega (arith, h.0, length-remove_newline text)) in
    elim (Bool-cases b) [
      | inl e ↦ (
        remove_newline text ∷ lines,
        rw (write_palindromes, answer, written, e) refl,
        taken text texts lines (means.0 e) rest,
      )
      | inr e ↦ (
        lines,
        rw (write_palindromes, answer, written, e) refl,
        skipped text texts lines (λ p. let t = means.1 p in ground arith) rest,
      )
    ]

-- If both files open and no text that `fgets` gives is longer than the array allows, `main` writes
-- the palindromes among the words, in order and nothing else; if a file does not open it writes
-- nothing.
pub main-Selects :
    (tolower : ℕ → ℕ) (texts : List (List ℕ))
    → All (λ text. length text < 256) texts
    → ((lines : List (List ℕ)) × (main tolower (some texts) true ≡ some (done lines))
        × Selects tolower texts lines)
      × (main tolower (some texts) false ≡ some no_output)
      × ((pals : Bool) → main tolower none pals ≡ some no_dictionary)
unfolding main
main-Selects tolower texts h =
    let (lines, written, selects) = write_palindromes-Selects tolower texts h in
    ((lines, rw (main, written) refl, selects), refl, λ pals. refl)
