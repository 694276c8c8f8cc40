-- ===== src/Schedule/Insertion.antt =====
-- Insertions of `add_to_ready_queue` that can be exchanged, and one behind the first process.
use cosc.Base.{ℕ, ◌<◌, ◌≡◌, refl, List, [], ◌∷◌, arith, lt→ltb}
use mathlib.Core.List.{map}
use cosc.ReadyList.{skip_pids, add_sorted}

module _ {A : Type 0} (arrival_time pid : A → ℕ) where
  skip_pids-behind :
      (a b : A) (xs : List A)
      → arrival_time a < arrival_time b
      → add_sorted arrival_time pid b (skip_pids arrival_time pid a xs)
        ≡ skip_pids arrival_time pid a (add_sorted arrival_time pid b xs)
  unfolding skip_pids add_sorted
  skip_pids-behind a b [] h = ground arith
  skip_pids-behind a b (x ∷ xs) h = ground (arith, skip_pids-behind a b xs h)

  -- Processes with different arrival times can be inserted in either order.
  pub add_sorted_comm :
      (a b : A) (xs : List A)
      → arrival_time a < arrival_time b
      → add_sorted arrival_time pid b (add_sorted arrival_time pid a xs)
        ≡ add_sorted arrival_time pid a (add_sorted arrival_time pid b xs)
  unfolding add_sorted
  add_sorted_comm a b [] h = ground arith
  add_sorted_comm a b (x ∷ xs) h =
      ground (arith, add_sorted_comm a b xs h, skip_pids-behind a b (x ∷ xs) h)

  -- A process that arrived later goes behind the first one.
  pub add_sorted_later :
      (new x : A) (xs : List A)
      → arrival_time x < arrival_time new
      → add_sorted arrival_time pid new (x ∷ xs) ≡ x ∷ add_sorted arrival_time pid new xs
  unfolding add_sorted
  add_sorted_later new x xs h = rw (lt→ltb _ _ h)

  map-skip_pids :
      {B : Type 0} (f : B → A) (new : B) (xs : List B)
      → map f (skip_pids (λ x. arrival_time (f x)) (λ x. pid (f x)) new xs)
        ≡ skip_pids arrival_time pid (f new) (map f xs)
  unfolding skip_pids
  map-skip_pids f new [] = refl
  map-skip_pids f new (x ∷ xs) = ground (arith, map-skip_pids f new xs)

  pub map-add_sorted :
      {B : Type 0} (f : B → A) (new : B) (xs : List B)
      → map f (add_sorted (λ x. arrival_time (f x)) (λ x. pid (f x)) new xs)
        ≡ add_sorted arrival_time pid (f new) (map f xs)
  unfolding add_sorted
  map-add_sorted f new [] = map-skip_pids f new []
  map-add_sorted f new (x ∷ xs) =
      ground (arith, map-add_sorted f new xs, map-skip_pids f new (x ∷ xs))
