-- ===== src/Feedback/Queues.antt =====
-- What the operations on `priority_queues` do to the processes that wait.
use cosc.Base.{
  ℕ, zero, suc, ◌+◌, ◌<◌, ◌≡◌, refl, List, [], ◌∷◌, Option, none, some, arith, All, total, length,
}
use cosc.QuantumProcess.{QuantumProcess, IsWaiting, left, remaining}
use cosc.Feedback.{update_queue, pick}

abbrev pub Queues : Type 0
Queues = List (List QuantumProcess)

abbrev pub waiting : ℕ → Queues → ℕ
waiting q ls = total (λ l. remaining l q) ls

abbrev pub running : ℕ → Option QuantumProcess → ℕ
running q none = 0
running q (some p) = left q p

abbrev pub IsRunnable : Option QuantumProcess → Type 0
IsRunnable none = Unit
IsRunnable (some p) = IsWaiting p

module _ (f : List QuantumProcess → List QuantumProcess) where
  pub length-update_queue : (i : ℕ) (ls : Queues) → length (update_queue i f ls) ≡ length ls
  unfolding update_queue
  length-update_queue zero [] = refl
  length-update_queue (suc i) [] = refl
  length-update_queue zero (l ∷ ls) = refl
  length-update_queue (suc i) (l ∷ ls) = omega (arith, length-update_queue i ls)

  pub waiting-update_queue :
      (q k i : ℕ) (ls : Queues)
      → ((l : List QuantumProcess) → remaining (f l) q ≡ remaining l q + k)
      → i < length ls
      → waiting q (update_queue i f ls) ≡ waiting q ls + k
  unfolding update_queue
  waiting-update_queue q k i [] h lt = absurd (omega arith)
  waiting-update_queue q k zero (l ∷ ls) h lt = omega (arith, h l)
  waiting-update_queue q k (suc i) (l ∷ ls) h lt =
      omega (arith, waiting-update_queue q k i ls h (omega arith))

  pub All-update_queue :
      (P : List QuantumProcess → Type 0) (i : ℕ) (ls : Queues)
      → ((l : List QuantumProcess) → P l → P (f l))
      → All P ls
      → All P (update_queue i f ls)
  unfolding update_queue
  All-update_queue P i [] h a = tt
  All-update_queue P zero (l ∷ ls) h a = (h l a.0, a.1)
  All-update_queue P (suc i) (l ∷ ls) h a = (a.0, All-update_queue P i ls h a.1)

-- What a pick takes out, and what it leaves.
abbrev pub Picks : Queues → Option (QuantumProcess × ℕ × Queues) → Type 0
Picks ls none = (q : ℕ) → waiting q ls ≡ 0
Picks ls (some (p, level, ls')) =
    ((q : ℕ) → waiting q ls ≡ waiting q ls' + left q p)
    × (length ls' ≡ length ls)
    × (All (All IsWaiting) ls → IsWaiting p × All (All IsWaiting) ls')

Picks-skip :
    (ls : Queues) (r : Option (QuantumProcess × ℕ × Queues))
    → Picks ls r
    → Picks ([] ∷ ls) (elim r [ none ↦ none | some (p, level, ls') ↦ some (p, level, [] ∷ ls') ])
Picks-skip ls none h = λ q. omega (arith, h q)
Picks-skip ls (some (p, level, ls')) h =
    (λ q. omega (arith, h.0 q), omega (arith, h.1), λ a. let (w, ws) = h.2 a.1 in (w, (tt, ws)))

pub pick-Picks : (i : ℕ) (ls : Queues) → Picks ls (pick i ls)
unfolding pick
pick-Picks i [] = λ q. refl
pick-Picks i ([] ∷ ls) = Picks-skip ls (pick (i + 1) ls) (pick-Picks (i + 1) ls)
pick-Picks i ((p ∷ l) ∷ ls) = (λ q. omega arith, refl, λ a. (a.0.0, (a.0.1, a.1)))
