-- ===== src/ReadyList/Laws.antt =====
-- What a scheduler may know of the list operations without looking into their loops: which nodes
-- are in the list afterwards, for a sum over the nodes and for a property of each.
use mathlib.Core.List.{Perm}
use mathlib.Core.List.Perm
use cosc.Base.{
  ℕ, ◌+◌, ◌≡◌, refl, List, [], ◌∷◌, arith, total, All, All-append, Bool-cases, inl, inr, ltb, ◌==◌,
  ◌&&◌,
}
use cosc.ReadyList.{add_last, add_last-eq-append, skip_pids, add_sorted}

module _ {A : Type 0} where
  pub total-add_last :
      (w : A → ℕ) (process : A) (xs : List A)
      → total w (add_last process xs) ≡ total w xs + w process
  unfolding add_last
  total-add_last w process [] = omega arith
  total-add_last w process (x ∷ xs) = omega (arith, total-add_last w process xs)

  pub All-add_last :
      (P : A → Type 0) (process : A) (xs : List A)
      → P process
      → All P xs
      → All P (add_last process xs)
  All-add_last P process xs h hs =
      rw (add_last-eq-append process xs) (All-append P xs (process ∷ []) hs (h, tt))

module _ {A : Type 0} (arrival_time pid : A → ℕ) where
  skip_pids-perm : (new : A) (xs : List A) → Perm (skip_pids arrival_time pid new xs) (new ∷ xs)
  unfolding skip_pids
  skip_pids-perm new [] = Perm.refl (new ∷ [])
  skip_pids-perm new (x ∷ xs) =
      elim (Bool-cases (arrival_time x == arrival_time new && ltb (pid x) (pid new))) [
        | inl e ↦ rw e (Perm.trans (Perm.cons x (skip_pids-perm new xs)) (Perm.swap new x xs))
        | inr e ↦ rw e (Perm.refl (new ∷ x ∷ xs))
      ]

  -- The insertion adds the new node and keeps all others, each as often.
  pub add_sorted-perm :
      (new : A) (xs : List A) → Perm (add_sorted arrival_time pid new xs) (new ∷ xs)
  unfolding add_sorted
  add_sorted-perm new [] = skip_pids-perm new []
  add_sorted-perm new (x ∷ xs) = elim (Bool-cases (ltb (arrival_time x) (arrival_time new))) [
    | inl e ↦ rw e (Perm.trans (Perm.cons x (add_sorted-perm new xs)) (Perm.swap new x xs))
    | inr e ↦ rw e (skip_pids-perm new (x ∷ xs))
  ]

  total-skip_pids :
      (w : A → ℕ) (new : A) (xs : List A)
      → total w (skip_pids arrival_time pid new xs) ≡ w new + total w xs
  unfolding skip_pids
  total-skip_pids w new [] = refl
  total-skip_pids w new (x ∷ xs) = ground (arith, total-skip_pids w new xs)

  pub total-add_sorted :
      (w : A → ℕ) (new : A) (xs : List A)
      → total w (add_sorted arrival_time pid new xs) ≡ w new + total w xs
  unfolding add_sorted
  total-add_sorted w new [] = total-skip_pids w new []
  total-add_sorted w new (x ∷ xs) =
      ground (arith, total-add_sorted w new xs, total-skip_pids w new (x ∷ xs))

  pub All-skip_pids :
      (P : A → Type 0) (new : A) (xs : List A)
      → P new
      → All P xs
      → All P (skip_pids arrival_time pid new xs)
  unfolding skip_pids
  All-skip_pids P new [] h hs = (h, tt)
  All-skip_pids P new (x ∷ xs) h hs =
      elim (Bool-cases (arrival_time x == arrival_time new && ltb (pid x) (pid new))) [
        | inl e ↦ rw e (hs.0, All-skip_pids P new xs h hs.1)
        | inr e ↦ rw e (h, hs)
      ]

  pub All-add_sorted :
      (P : A → Type 0) (new : A) (xs : List A)
      → P new
      → All P xs
      → All P (add_sorted arrival_time pid new xs)
  unfolding add_sorted
  All-add_sorted P new [] h hs = All-skip_pids P new [] h hs
  All-add_sorted P new (x ∷ xs) h hs = elim (Bool-cases (ltb (arrival_time x) (arrival_time new))) [
    | inl e ↦ rw e (hs.0, All-add_sorted P new xs h hs.1)
    | inr e ↦ rw e (All-skip_pids P new (x ∷ xs) h hs)
  ]
