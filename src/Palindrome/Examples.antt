-- ===== src/Palindrome/Examples.antt =====
-- Words with capital letters, lowered as in the C locale.
use cosc.Base.{
  ℕ, ◌+◌, ◌≡◌, ◌&&◌, refl, Bool, true, false, List, [], ◌∷◌, none, some, leb, if◌then◌else◌, arith,
}
use cosc.Palindrome.{is_palindrome, no_dictionary, no_output, done, main}
use cosc.Palindrome.Written.{Selects, main-Selects}

abbrev ascii_lower : ℕ → ℕ
ascii_lower c = if leb b'A' c && leb c b'Z' then c + 32 else c

abbrev level : List ℕ
level = b'L' ∷ b'e' ∷ b'v' ∷ b'e' ∷ b'l' ∷ []

level_reads : is_palindrome ascii_lower 6 level ≡ some true
unfolding is_palindrome
level_reads = refl

clevel_does_not : is_palindrome ascii_lower 7 (b'c' ∷ level) ≡ some false
unfolding is_palindrome
clevel_does_not = refl

abbrev dictionary : List (List ℕ)
dictionary = (b'A' ∷ b'n' ∷ b'n' ∷ b'a' ∷ b'\n' ∷ []) ∷ (b'B' ∷ b'e' ∷ b'n' ∷ []) ∷ []

main-Selects_example :
    ((lines : List (List ℕ)) × (main ascii_lower (some dictionary) true ≡ some (done lines))
      × Selects ascii_lower dictionary lines)
    × (main ascii_lower (some dictionary) false ≡ some no_output)
    × ((pals : Bool) → main ascii_lower none pals ≡ some no_dictionary)
main-Selects_example = main-Selects ascii_lower dictionary (omega arith)
