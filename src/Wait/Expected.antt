-- ===== src/Wait/Expected.antt =====
-- What the output of a process that waits for its child is, wherever the two stand.
use cosc.Base.{ℕ, ◌≡◌, List, [], ◌∷◌, ◌++◌, ◌⊎◌, none, some}
use cosc.Wait.{
  Printed, child_id, in_child, no_child, child_exited, child_abnormal, value_of_x, Parent, starting,
  forked, identified, reported, returned, Child, absent, started, spoken, ended, killed,
}

-- The third list has the elements of the other two, those of each in their order.
pub data Merge {ℓ} {A : Type ℓ} : List A → List A → List A → Type ℓ where
  done : Merge [] [] []
  left : {x : A} {xs ys zs : List A} → Merge xs ys zs → Merge (x ∷ xs) ys (x ∷ zs)
  right : {y : A} {xs ys zs : List A} → Merge xs ys zs → Merge xs (y ∷ ys) (y ∷ zs)

pub left_last {ℓ} :
    {A : Type ℓ} (x : A) {xs ys zs : List A}
    → Merge xs ys zs
    → Merge (xs ++ x ∷ []) ys (zs ++ x ∷ [])
left_last x done = left done
left_last x (left m) = left (left_last x m)
left_last x (right m) = right (left_last x m)

pub right_last {ℓ} :
    {A : Type ℓ} (y : A) {xs ys zs : List A}
    → Merge xs ys zs
    → Merge xs (ys ++ y ∷ []) (zs ++ y ∷ [])
right_last y done = right done
right_last y (left m) = left (right_last y m)
right_last y (right m) = right (right_last y m)

-- The lines `l` of the parent and those of a child that has come this far make up the output.
abbrev pub Mixes : Child → List Printed → List Printed → Type 0
Mixes absent l output = ⊥
Mixes started l output = Merge l [] output
Mixes spoken l output = Merge l (in_child ∷ []) output
Mixes (ended x) l output = (x ≡ 1) × Merge l (in_child ∷ value_of_x 1 ∷ []) output
Mixes killed l output = Merge l [] output ⊎ Merge l (in_child ∷ []) output

-- The output when the parent has reported how its child ended: all lines of a child that has ended
-- are before the report, and those that one has printed before it was killed. Only where no child
-- was made, the parent reports that there is none.
abbrev pub Reports : Child → List Printed → Type 0
Reports absent output = output ≡ child_id none ∷ no_child ∷ []
Reports started output = ⊥
Reports spoken output = ⊥
Reports (ended x) output =
    (x ≡ 1)
    × (pid : ℕ) × (before : List Printed) × Merge (child_id (some pid) ∷ [])
        (in_child ∷ value_of_x 1 ∷ []) before
    × (output ≡ before ++ child_exited 1 ∷ [])
Reports killed output =
    (pid : ℕ) × (before : List Printed) × Mixes killed (child_id (some pid) ∷ []) before
    × (output ≡ before ++ child_abnormal ∷ [])

abbrev pub Expects : Parent → Child → List Printed → Type 0
Expects starting c output = (c ≡ absent) × (output ≡ [])
Expects (forked none) c output = (c ≡ absent) × (output ≡ [])
Expects (forked (some pid)) c output = Mixes c [] output
Expects (identified none) c output = (c ≡ absent) × (output ≡ child_id none ∷ [])
Expects (identified (some pid)) c output = Mixes c (child_id (some pid) ∷ []) output
Expects reported c output = Reports c output
Expects (returned x) c output =
    (x ≡ 0) × (before : List Printed) × Reports c before × (output ≡ before ++ value_of_x 0 ∷ [])
