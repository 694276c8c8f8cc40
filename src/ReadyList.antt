-- ===== src/ReadyList.antt =====
-- The singly linked lists of the schedulers under assignments/assignment4/simulator. A list is what
-- follows the static head node (`process_list`, or an entry of `priority_queues`), in order; the
-- pointer that a loop moves along is the place in the list where the recursion stands.
pub mod Laws
pub mod Order
use cosc.Base.{
  ℕ, ◌≡◌, refl, List, [], ◌∷◌, ◌++◌, ◌&&◌, Option, none, some, ltb, ◌==◌, if◌then◌else◌,
}

module _ {A : Type 0} where
  -- `add_next`: `rest` is what follows `node`.
  unfoldable pub add_next : A → List A → List A
  add_next next rest = next ∷ rest

  -- `remove_next`: the node removed, if there is one, and what then follows `node`.
  unfoldable pub remove_next : List A → Option A × List A
  remove_next [] = (none, [])
  remove_next (next ∷ rest) = (some next, rest)

  -- `while (end->next_process) end = end->next_process; add_next(end, process);`
  unfoldable pub add_last : A → List A → List A
  unfolding add_next
  add_last process [] = add_next process []
  add_last process (next ∷ rest) = next ∷ add_last process rest

  pub add_last-eq-append : (process : A) (xs : List A) → add_last process xs ≡ xs ++ process ∷ []
  unfolding add_last
  add_last-eq-append process [] = refl
  add_last-eq-append process (x ∷ xs) = rw (add_last-eq-append process xs)

-- The two loops of `add_to_ready_queue`, over a node type with these two fields.
module _ {A : Type 0} (arrival_time pid : A → ℕ) where
  -- The second loop, "skip past processes with the same arrival time but an earlier PID".
  unfoldable pub skip_pids : A → List A → List A
  unfolding add_next
  skip_pids new [] = add_next new []
  skip_pids new (x ∷ xs) =
      if arrival_time x == arrival_time new && ltb (pid x) (pid new)
      then x ∷ skip_pids new xs
      else add_next new (x ∷ xs)

  -- The first loop, "skip past processes with an earlier arrival time", and what follows it.
  unfoldable pub add_sorted : A → List A → List A
  unfolding skip_pids
  add_sorted new [] = skip_pids new []
  add_sorted new (x ∷ xs) =
      if ltb (arrival_time x) (arrival_time new)
      then x ∷ add_sorted new xs
      else skip_pids new (x ∷ xs)
