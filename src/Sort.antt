-- ===== src/Sort.antt =====
-- tutorials/tutorial5/sort.c: `sort`, `sortById` and `sortByValue`, which have the same two loops
-- over arrays of other elements. An access outside the array gives `none`.
pub mod Passes
pub mod Sorted
mod Examples
use cosc.Base.{
  ℕ, zero, suc, ◌+◌, ◌-◌, Bool, true, false, List, Option, none, some, ltb, if◌then◌else◌,
  get_elem?, set,
}

-- The body of the inner loop, where `greater` is the test that the three functions differ in.
unfoldable pub exchange : {A : Type 0} → (A → A → Bool) → ℕ → ℕ → List A → Option (List A)
exchange greater i j arr = elim (get_elem? arr i) [
  | none ↦ none
  | some x ↦ elim (get_elem? arr j) [
    | none ↦ none
    | some y ↦ some (if greater x y then set (set arr i y) j x else arr)
  ]
]

-- The loop over `j`, with the rounds left.
unfoldable pub inner_loop : {A : Type 0} → (A → A → Bool) → ℕ → ℕ → ℕ → List A → Option (List A)
inner_loop greater zero i j arr = some arr
inner_loop greater (suc rounds) i j arr = elim (exchange greater i j arr) [
  | none ↦ none
  | some arr' ↦ inner_loop greater rounds i (j + 1) arr'
]

-- The loop over `i`, with the rounds left.
unfoldable pub outer_loop : {A : Type 0} → (A → A → Bool) → ℕ → ℕ → ℕ → List A → Option (List A)
outer_loop greater zero i n arr = some arr
outer_loop greater (suc rounds) i n arr = elim (inner_loop greater (n - (i + 1)) i (i + 1) arr) [
  | none ↦ none
  | some arr' ↦ outer_loop greater rounds (i + 1) n arr'
]

unfoldable pub sort_with : {A : Type 0} → (A → A → Bool) → List A → ℕ → Option (List A)
sort_with greater arr n = outer_loop greater n 0 n arr

-- An int: `pos n` is `n`, and `negsuc n` is `-(n + 1)`.
pub data ℤ : Type 0 where
  pos : ℕ → ℤ
  negsuc : ℕ → ℤ

abbrev pub greater_int : ℤ → ℤ → Bool
greater_int (pos a) (pos b) = ltb b a
greater_int (pos a) (negsuc b) = true
greater_int (negsuc a) (pos b) = false
greater_int (negsuc a) (negsuc b) = ltb a b

-- `struct Measurement`, over the values of type `double`.
pub record Measurement (Double : Type 0) : Type 0 where
  pub id : ℤ
  pub value : Double

-- `sort`.
abbrev pub sort : List ℤ → ℕ → Option (List ℤ)
sort arr n = sort_with greater_int arr n

-- `sortById`.
abbrev pub sort_by_id :
    {Double : Type 0} → List (Measurement Double) → ℕ → Option (List (Measurement Double))
sort_by_id arr n = sort_with (λ x y. greater_int x.id y.id) arr n

-- `sortByValue`, where `greater` is the test `>` on `double`.
abbrev pub sort_by_value :
    {Double : Type 0}
    → (Double → Double → Bool)
    → List (Measurement Double)
    → ℕ
    → Option (List (Measurement Double))
sort_by_value greater arr n = sort_with (λ x y. greater x.value y.value) arr n
