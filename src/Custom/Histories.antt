-- ===== src/Custom/Histories.antt =====
-- The histories of custom.c, counted by PID.
use cosc.Base.{
  ℕ, ◌+◌, ◌<◌, ◌≡◌, refl, ◌∙◌, List, [], ◌∷◌, Option, some, arith, total, ◌==◌, if◌then◌else◌,
  Bool-cases, Option-cases, inl, inr,
}
use cosc.QuantumProcess.{QuantumProcess}
use cosc.Custom.{
  Arithmetic, History, get_process_history, update_history, free_process_history,
  update_queue_wait_times, best_from,
}

module _ {D : Arithmetic} where
  -- How many histories there are for PID `q`.
  abbrev pub held : ℕ → List (History D) → ℕ
  held q hs = total (λ h. if h.pid == q then 1 else 0) hs

  pub held-update_history :
      (q pid : ℕ) (f : History D → History D) (hs : List (History D))
      → ((h : History D) → (f h).pid ≡ h.pid)
      → held q (update_history D pid f hs) ≡ held q hs
  unfolding update_history
  held-update_history q pid f [] same = refl
  held-update_history q pid f (h ∷ hs) same =
      ground (arith, same h, held-update_history q pid f hs same)

  pub held-free_process_history :
      (q pid : ℕ) (hs : List (History D))
      → 0 < held pid hs
      → held q (free_process_history D pid hs) + (if pid == q then 1 else 0) ≡ held q hs
  unfolding free_process_history
  held-free_process_history q pid [] p = absurd (omega arith)
  held-free_process_history q pid (h ∷ hs) p = ground (arith, held-free_process_history q pid hs)

  pub get_process_history-held :
      (pid : ℕ) (hs : List (History D))
      → 0 < held pid hs
      → (h : History D) × (get_process_history D pid hs ≡ some h)
  unfolding get_process_history
  get_process_history-held pid [] p = absurd (omega arith)
  get_process_history-held pid (h ∷ hs) p = elim (Bool-cases (h.pid == pid)) [
    | inl e ↦ (h, rw e)
    | inr e ↦ rw e (get_process_history-held pid hs (ground arith))
  ]

  pub held-update_queue_wait_times :
      (q : ℕ) (l : List QuantumProcess) (hs : List (History D))
      → held q (update_queue_wait_times D l hs) ≡ held q hs
  unfolding update_queue_wait_times
  held-update_queue_wait_times q [] hs = refl
  held-update_queue_wait_times q (p ∷ l) hs =
      held-update_queue_wait_times q l _ ∙ held-update_history q p.pid _ hs (λ h. refl)

  pub held-best_from :
      (q i : ℕ) (l : List QuantumProcess) (hs : List (History D)) (score : D.Double)
      (best : Option ℕ)
      → held q (best_from D i l hs score best).1 ≡ held q hs
  unfolding best_from
  held-best_from q i [] hs score best = refl
  held-best_from q i (p ∷ l) hs score best = elim (Option-cases (get_process_history D p.pid hs)) [
    | inl e ↦ rw (best_from, e) refl
    | inr (h, e) ↦
        rw (best_from, e)
          (held-best_from q (i + 1) l _ _ _ ∙ held-update_history q p.pid _ hs (λ h'. refl))
  ]
