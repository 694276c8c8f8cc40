-- ===== src/ReadyList/Order.antt =====
-- The order that `add_to_ready_queue` keeps: by arrival time, then by PID.
use cosc.Base.{
  ℕ, ◌≤◌, ◌<◌, ◌≡◌, ◌⊎◌, List, [], ◌∷◌, arith, All, Bool-cases, inl, inr, ltb, ◌==◌, ◌&&◌,
}
use cosc.ReadyList.{skip_pids, add_sorted}
use cosc.ReadyList.Laws.{All-skip_pids, All-add_sorted}

module _ {A : Type 0} (arrival_time pid : A → ℕ) where
  abbrev pub Before : A → A → Type 0
  Before x y =
      (arrival_time x < arrival_time y) ⊎ ((arrival_time x ≡ arrival_time y) × (pid x ≤ pid y))

  -- Every node comes before all that follow it.
  abbrev pub IsSorted : List A → Type 0
  IsSorted [] = Unit
  IsSorted (x ∷ xs) = All (λ y. Before x y) xs × IsSorted xs

  Before-All :
      (x y : A) (xs : List A) → Before x y → All (λ z. Before y z) xs → All (λ z. Before x z) xs
  Before-All x y [] h a = tt
  Before-All x y (z ∷ xs) h a = (ground (arith, a.0), Before-All x y xs h a.1)

  skip_pids-IsSorted :
      (new : A) (xs : List A)
      → All (λ y. arrival_time new ≤ arrival_time y) xs
      → IsSorted xs
      → IsSorted (skip_pids arrival_time pid new xs)
  unfolding skip_pids
  skip_pids-IsSorted new [] h s = (tt, tt)
  skip_pids-IsSorted new (x ∷ xs) h s =
      elim (Bool-cases (arrival_time x == arrival_time new && ltb (pid x) (pid new))) [
        | inl e ↦ rw e (
          All-skip_pids arrival_time pid (λ y. Before x y) new xs (ground arith) s.0,
          skip_pids-IsSorted new xs h.1 s.1,
        )
        | inr e ↦ let b : Before new x = ground arith in rw e ((b, Before-All new x xs b s.0), s)
      ]

  arrivals_from :
      (k : ℕ) (x : A) (xs : List A)
      → k ≤ arrival_time x
      → All (λ z. Before x z) xs
      → All (λ y. k ≤ arrival_time y) xs
  arrivals_from k x [] h a = tt
  arrivals_from k x (z ∷ xs) h a = (ground (arith, a.0), arrivals_from k x xs h a.1)

  pub add_sorted-IsSorted :
      (new : A) (xs : List A) → IsSorted xs → IsSorted (add_sorted arrival_time pid new xs)
  unfolding add_sorted
  add_sorted-IsSorted new [] s = skip_pids-IsSorted new [] tt tt
  add_sorted-IsSorted new (x ∷ xs) s = elim (Bool-cases (ltb (arrival_time x) (arrival_time new))) [
    | inl e ↦ rw e (
      All-add_sorted arrival_time pid (λ y. Before x y) new xs (ground arith) s.0,
      add_sorted-IsSorted new xs s.1,
    )
    | inr e ↦
        let le : arrival_time new ≤ arrival_time x = ground arith in
        rw e (skip_pids-IsSorted new (x ∷ xs) (le, arrivals_from _ x xs le s.0) s)
  ]
