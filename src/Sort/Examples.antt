-- ===== src/Sort/Examples.antt =====
-- The arrays that `main` of sort.c sorts; values are in tenths.
use cosc.Base.{ℕ, ◌≡◌, refl, Bool, List, [], ◌∷◌, some, ltb, arith}
use cosc.Sort.{
  exchange, inner_loop, outer_loop, sort_with, ℤ, pos, negsuc, greater_int, Measurement, sort,
  sort_by_id, sort_by_value,
}
use cosc.Sort.Passes.{IsOrder}
use cosc.Sort.Sorted.{Sorts, functions-Sorts}

abbrev arr : List ℤ
arr = pos 5 ∷ pos 3 ∷ pos 2 ∷ pos 1 ∷ pos 4 ∷ []

abbrev measurement : ℕ → ℕ → Measurement ℕ
measurement id value = record { id = pos id; value = value }

abbrev measurements : List (Measurement ℕ)
measurements = measurement 2 54 ∷ measurement 1 23 ∷ measurement 3 45 ∷ []

sorted_arr : sort (negsuc 0 ∷ arr) 6 ≡ some (negsuc 0 ∷ pos 1 ∷ pos 2 ∷ pos 3 ∷ pos 4 ∷ pos 5 ∷ [])
unfolding exchange inner_loop outer_loop sort_with
sorted_arr = refl

abbrev tenths_greater : ℕ → ℕ → Bool
tenths_greater a b = ltb b a

tenths_greater-IsOrder : IsOrder tenths_greater
tenths_greater-IsOrder = record { asym = λ x y h. ground arith; trans = λ x y z h k. ground arith }

functions-Sorts_example :
    Sorts greater_int arr (sort arr 5)
    × Sorts (λ x y. greater_int x.id y.id) measurements (sort_by_id measurements 3)
    × Sorts
        (λ x y. tenths_greater x.value y.value)
        measurements
        (sort_by_value tenths_greater measurements 3)
functions-Sorts_example = functions-Sorts tenths_greater arr measurements tenths_greater-IsOrder
