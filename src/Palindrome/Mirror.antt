-- ===== src/Palindrome/Mirror.antt =====
-- The characters that `is_palindrome` compares.
use cosc.Base.{
  ℕ, zero, suc, ◌+◌, ◌-◌, ◌%◌, ◌<◌, ◌≤◌, ◌≡◌, ◌↔◌, refl, sym, ap, ◌∙◌, Bool, true, false, List, [],
  ◌∷◌, some, length, leb, ◌==◌, arith, Bool-cases, inl, inr, lt_cases,
}
use mathlib.Core.Path.{subst}
use cosc.Palindrome.{char_at, first_chars, substring, is_palindrome}

-- The first `n` values of `f` read the same from both ends.
abbrev pub IsMirrored : (ℕ → ℕ) → ℕ → Type 0
IsMirrored f n = (i : ℕ) → i < n → f i ≡ f (n - 1 - i)

wrap :
    (f g : ℕ → ℕ) (n : ℕ)
    → 2 ≤ n
    → ((i : ℕ) → i < n - 2 → g i ≡ f (i + 1))
    → f 0 ≡ f (n - 1)
    → IsMirrored g (n - 2)
    → IsMirrored f n
wrap f g n h inner ends m zero lt = ends ∙ ap f {x = n - 1} {y = n - 1 - 0} (omega arith)
wrap f g n h inner ends m (suc i) lt = elim (lt_cases i (n - 2)) [
  | inl inside ↦
      ap f {x = suc i} {y = i + 1} (omega arith)
      ∙ sym (inner i inside)
      ∙ m i inside
      ∙ inner (n - 2 - 1 - i) (omega arith)
      ∙ ap f {x = n - 2 - 1 - i + 1} {y = n - 1 - suc i} (omega arith)
  | inr last ↦
      ap f {x = suc i} {y = n - 1} (omega arith)
      ∙ sym ends
      ∙ ap f {x = 0} {y = n - 1 - suc i} (omega arith)
]

unwrap :
    (f g : ℕ → ℕ) (n : ℕ)
    → 2 ≤ n
    → ((i : ℕ) → i < n - 2 → g i ≡ f (i + 1))
    → IsMirrored f n
    → IsMirrored g (n - 2)
unwrap f g n h inner m i lt =
    inner i lt
    ∙ m (i + 1) (omega arith)
    ∙ ap f {x = n - 1 - (i + 1)} {y = n - 2 - 1 - i + 1} (omega arith)
    ∙ sym (inner (n - 2 - 1 - i) (omega arith))

length-first_chars : (n : ℕ) (word : List ℕ) → n ≤ length word → length (first_chars n word) ≡ n
length-first_chars zero word h = refl
length-first_chars (suc n) [] h = absurd (omega arith)
length-first_chars (suc n) (c ∷ word) h = omega (arith, length-first_chars n word (omega arith))

char_at-first_chars :
    (n : ℕ) (word : List ℕ) (i : ℕ) → i < n → char_at (first_chars n word) i ≡ char_at word i
char_at-first_chars zero word i h = absurd (omega arith)
char_at-first_chars (suc n) [] i h = refl
char_at-first_chars (suc n) (c ∷ word) zero h = refl
char_at-first_chars (suc n) (c ∷ word) (suc i) h = char_at-first_chars n word i (omega arith)

char_at-suc : (c : ℕ) (word : List ℕ) (i : ℕ) → char_at (c ∷ word) (i + 1) ≡ char_at word i
char_at-suc c word i = ap (char_at (c ∷ word)) {x = i + 1} {y = suc i} (omega arith)

substring-char_at :
    (word : List ℕ) (i : ℕ)
    → i < length word - 2
    → char_at (substring word) i ≡ char_at word (i + 1)
substring-char_at [] i h = absurd (omega arith)
substring-char_at (c ∷ word) i h =
    char_at-first_chars (length word - 1) word i (omega arith) ∙ sym (char_at-suc c word i)

length-substring : (word : List ℕ) → length (substring word) ≡ length word - 2
length-substring [] = refl
length-substring (c ∷ word) = omega (arith, length-first_chars (length word - 1) word (omega arith))

module _ (tolower : ℕ → ℕ) where
  -- The characters as they are compared.
  abbrev pub folded : List ℕ → ℕ → ℕ
  folded word i = tolower (char_at word i) % 256

  folded-substring :
      (word : List ℕ) (i : ℕ)
      → i < length word - 2
      → folded (substring word) i ≡ folded word (i + 1)
  folded-substring word i h = ap (λ c. tolower c % 256) (substring-char_at word i h)

  decides :
      (fuel : ℕ) (word : List ℕ)
      → length word < fuel
      → (b : Bool) × (is_palindrome tolower fuel word ≡ some b)
        × ((b ≡ true) ↔ IsMirrored (folded word) (length word))
  unfolding is_palindrome
  decides zero word h = absurd (omega arith)
  decides (suc fuel) word h = elim (Bool-cases (leb (length word) 1)) [
    | inl short ↦ (
      true,
      rw (is_palindrome, short) refl,
      (λ _ i lt. ap (folded word) {x = i} {y = length word - 1 - i} (ground arith), λ _. refl),
    )
    | inr long ↦
        let two : 2 ≤ length word = ground arith in
        elim (Bool-cases (folded word 0 == folded word (length word - 1))) [
          | inr differ ↦ (
            false,
            rw (is_palindrome, long, differ) refl,
            (λ e. cc, λ m. absurd (ground (arith, m 0 (omega arith)))),
          )
          | inl ends ↦
              let same : folded word 0 ≡ folded word (length word - 1) = ground arith in
              elim (Bool-cases (length word == 2)) [
                | inl pair ↦ (
                  true,
                  rw (is_palindrome, long, ends, pair) refl,
                  (
                    λ _.
                        wrap (folded word) (folded (substring word)) (length word) two
                          (folded-substring word) same (λ i lt. absurd (ground arith)),
                    λ _. refl,
                  ),
                )
                | inr more ↦
                    let (b, found, right) =
                      decides fuel (substring word) (omega (arith, length-substring word)) in
                    (
                      b,
                      rw (is_palindrome, long, ends, more) found,
                      (
                        λ e.
                            wrap (folded word) (folded (substring word)) (length word) two
                              (folded-substring word) same
                              (subst (IsMirrored (folded (substring word))) (length-substring word)
                                (right.0 e)),
                        λ m. right.1 (
                            subst (IsMirrored (folded (substring word)))
                              (sym (length-substring word))
                              (unwrap (folded word) (folded (substring word)) (length word) two
                                (folded-substring word) m)),
                      ),
                    )
              ]
        ]
  ]

-- With more fuel than the word has characters `is_palindrome` returns, and it returns true exactly
-- if each character, in lower case, is the one at the same distance from the other end.
pub is_palindrome_iff :
    (tolower : ℕ → ℕ) (word : List ℕ) (fuel : ℕ)
    → length word < fuel
    → (b : Bool) × (is_palindrome tolower fuel word ≡ some b)
      × ((b ≡ true) ↔ IsMirrored (folded tolower word) (length word))
is_palindrome_iff tolower word fuel h = decides tolower fuel word h
