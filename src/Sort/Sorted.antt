-- ===== src/Sort/Sorted.antt =====
-- The order that `sort`, `sortById` and `sortByValue` of tutorials/tutorial5/sort.c leave.
use cosc.Base.{
  ℕ, zero, suc, ◌+◌, ◌-◌, ◌≡◌, refl, Bool, true, false, List, [], ◌∷◌, ◌++◌, Option, some,
  if◌then◌else◌, length, total, All, arith, ap, ◌∙◌, sym, length-append,
}
use cosc.Sort.{
  inner_loop, outer_loop, sort_with, ℤ, pos, negsuc, greater_int, Measurement, sort, sort_by_id,
  sort_by_value,
}
use cosc.Sort.Passes.{IsOrder, pass, inner_loop_lem, pass-Selects, append-cons}

-- No element is greater than a later one.
abbrev pub IsSorted : {A : Type 0} → (A → A → Bool) → List A → Type 0
IsSorted greater [] = Unit
IsSorted greater (x ∷ xs) = All (λ y. greater x y ≡ false) xs × IsSorted greater xs

-- The same elements, each as often: every weight has the same sum.
abbrev pub SameElements : {A : Type 0} → List A → List A → Type 0
SameElements {A} xs ys = (w : A → ℕ) → total w xs ≡ total w ys

-- What a sort of `arr` gives.
pub record Sorts {A : Type 0} (greater : A → A → Bool) (arr : List A) (r : Option (List A))
    : Type 0 where
  pub sorted : List A
  pub returned : r ≡ some sorted
  pub ordered : IsSorted greater sorted
  pub same : SameElements sorted arr

module _ {A : Type 0} (greater : A → A → Bool) where
  over : A → A → ℕ
  over m z = if greater m z then 1 else 0

  total-over : (m : A) (l : List A) → All (λ z. greater m z ≡ false) l → total (over m) l ≡ 0
  unfolding over
  total-over m [] a = refl
  total-over m (z ∷ l) a = rw a.0 (omega (arith, total-over m l a.1))

  All-over : (m : A) (l : List A) → total (over m) l ≡ 0 → All (λ z. greater m z ≡ false) l
  unfolding over
  All-over m [] e = tt
  All-over m (z ∷ l) e = (ground arith, All-over m l (omega arith))

  outer_loop_lem :
      (o : IsOrder greater) (before xs : List A) (k i n : ℕ)
      → k ≡ length xs
      → i ≡ length before
      → n ≡ length before + length xs
      → (out : List A) × (outer_loop greater k i n (before ++ xs) ≡ some (before ++ out))
        × IsSorted greater out
        × SameElements out xs
  unfolding outer_loop
  outer_loop_lem o before [] zero i n ek ei en = ([], refl, tt, λ w. refl)
  outer_loop_lem o before [] (suc k) i n ek ei en = absurd (omega arith)
  outer_loop_lem o before (x ∷ xs) zero i n ek ei en = absurd (omega arith)
  outer_loop_lem o before (x ∷ xs) (suc k) i n ek ei en =
      let p = pass-Selects greater o x xs in
      let first : inner_loop greater (n - (i + 1)) i (i + 1) (before ++ x ∷ xs)
          ≡ some (before ++ (pass greater x xs).0 ∷ (pass greater x xs).1) =
        ap (λ r. inner_loop greater r i (i + 1) (before ++ x ∷ xs)) {x = n - (i + 1)}
          {y = length xs} (omega arith)
        ∙ inner_loop_lem greater before [] xs x i (i + 1) ei (omega arith) in
      let (out, found, ordered, same) =
        outer_loop_lem o (before ++ (pass greater x xs).0 ∷ []) (pass greater x xs).1 k (i + 1) n
          (omega (arith, p.count))
          (omega (arith, length-append before ((pass greater x xs).0 ∷ [])))
          (omega (arith, p.count, length-append before ((pass greater x xs).0 ∷ []))) in
      (
        (pass greater x xs).0 ∷ out,
        rw (outer_loop, first)
            (ap (outer_loop greater k (i + 1) n)
                (sym (append-cons before (pass greater x xs).1 (pass greater x xs).0))
              ∙ found
              ∙ ap some (append-cons before out (pass greater x xs).0)),
        (
          All-over (pass greater x xs).0 out
              (same (over (pass greater x xs).0) ∙ total-over (pass greater x xs).0 _ p.least),
          ordered,
        ),
        λ w. omega (arith, p.same w, same w),
      )

  -- With the length of the array, for a total order the two loops stay inside the array and sort
  -- it.
  pub sort_with_lem :
      (arr : List A) → IsOrder greater → Sorts greater arr (sort_with greater arr (length arr))
  unfolding sort_with
  sort_with_lem arr o =
      let (out, found, ordered, same) =
        outer_loop_lem o [] arr (length arr) 0 (length arr) refl refl (omega arith) in
      record { sorted = out; returned = found; ordered = ordered; same = same }

greater_int-IsOrder : IsOrder greater_int
greater_int-IsOrder = record { asym = asym; trans = trans }
  where
    asym : (x y : ℤ) → greater_int x y ≡ true → greater_int y x ≡ false
    asym (pos a) (pos b) h = ground arith
    asym (pos a) (negsuc b) h = refl
    asym (negsuc a) (pos b) h = cc
    asym (negsuc a) (negsuc b) h = ground arith

    trans :
        (x y z : ℤ) → greater_int x y ≡ false → greater_int y z ≡ false → greater_int x z ≡ false
    trans (pos a) (pos b) (pos c) h k = ground arith
    trans (pos a) (pos b) (negsuc c) h k = cc
    trans (pos a) (negsuc b) z h k = cc
    trans (negsuc a) y (pos c) h k = refl
    trans (negsuc a) (pos b) (negsuc c) h k = cc
    trans (negsuc a) (negsuc b) (negsuc c) h k = ground arith

-- `sort` sorts every array of ints.
sort-Sorts : (arr : List ℤ) → Sorts greater_int arr (sort arr (length arr))
sort-Sorts arr = sort_with_lem greater_int arr greater_int-IsOrder

-- `sortById` sorts every array of measurements by their ids.
sort_by_id-Sorts :
    {Double : Type 0} (arr : List (Measurement Double))
    → Sorts (λ x y. greater_int x.id y.id) arr (sort_by_id arr (length arr))
sort_by_id-Sorts arr =
    sort_with_lem (λ x y. greater_int x.id y.id) arr
      (record {
        asym = λ x y. greater_int-IsOrder.asym x.id y.id;
        trans = λ x y z. greater_int-IsOrder.trans x.id y.id z.id;
      })

-- `sortByValue` sorts an array by the values, if `>` on them is the test of a total order, as it is
-- without NaNs.
sort_by_value-Sorts :
    {Double : Type 0} (greater : Double → Double → Bool) (arr : List (Measurement Double))
    → IsOrder greater
    → Sorts (λ x y. greater x.value y.value) arr (sort_by_value greater arr (length arr))
sort_by_value-Sorts greater arr o =
    sort_with_lem (λ x y. greater x.value y.value) arr
      (record {
        asym = λ x y. o.asym x.value y.value;
        trans = λ x y z. o.trans x.value y.value z.value;
      })

-- `sort`, `sortById` and `sortByValue` stay inside every array and leave the same elements, in
-- order: ints by size, measurements by their ids, and by their values, if `>` on the values is the
-- test of a total order, as it is without NaNs.
pub functions-Sorts :
    {Double : Type 0} (greater : Double → Double → Bool) (ints : List ℤ)
    (arr : List (Measurement Double))
    → IsOrder greater
    → Sorts greater_int ints (sort ints (length ints))
      × Sorts (λ x y. greater_int x.id y.id) arr (sort_by_id arr (length arr))
      × Sorts (λ x y. greater x.value y.value) arr (sort_by_value greater arr (length arr))
functions-Sorts greater ints arr o =
    (sort-Sorts ints, sort_by_id-Sorts arr, sort_by_value-Sorts greater arr o)
