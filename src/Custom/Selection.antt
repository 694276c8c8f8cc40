-- ===== src/Custom/Selection.antt =====
-- The search of `select_best_process_from_smart_queue`.
use cosc.Base.{
  ℕ, zero, suc, ◌+◌, ◌<◌, ◌≡◌, refl, true, List, [], ◌∷◌, none, some, arith, total, All, length,
  Bool-cases, Option-cases, inl, inr,
}
use cosc.QuantumProcess.{QuantumProcess, IsWaiting}
use cosc.Custom.{
  Arithmetic, History, get_process_history, update_history, best_from, take_at, calculate_new_score,
}
use cosc.Custom.Histories.{held, get_process_history-held}

-- A process that waits and has run before, as all in the smart queue have.
pub record HasRun (p : QuantumProcess) : Type 0 where
  pub waits : IsWaiting p
  pub has_run : 0 < p.processed_time

-- The score of such a process is a number above `-DBL_MAX`: no divisor in it is zero.
abbrev pub ScoresAreFinite : Arithmetic → Type 0
ScoresAreFinite D =
    (h : History D) (p : QuantumProcess)
    → HasRun p
    → D.less D.lowest (calculate_new_score D h p) ≡ true

module _ {D : Arithmetic} where
  -- Once a process has been found, a process is found.
  best_from-some :
      (i j : ℕ) (l : List QuantumProcess) (hs : List (History D)) (score : D.Double)
      → j < i
      → (k : ℕ) × ((best_from D i l hs score (some j)).0 ≡ some k) × (k < i + length l)
  unfolding best_from
  best_from-some i j [] hs score lt = (j, refl, omega arith)
  best_from-some i j (p ∷ l) hs score lt = elim (Option-cases (get_process_history D p.pid hs)) [
    | inl e ↦ (j, rw (best_from, e) refl, omega arith)
    | inr (h, e) ↦ elim (Bool-cases (D.less score (calculate_new_score D h p))) [
      | inl b ↦
          let (k, found, below) =
            best_from-some (i + 1) i l
              (update_history D p.pid (λ h'. record h' { score = calculate_new_score D h p }) hs)
              (calculate_new_score D h p) (omega arith) in
          (k, rw (best_from, e) (rw b found), omega arith)
      | inr b ↦
          let (k, found, below) =
            best_from-some (i + 1) j l
              (update_history D p.pid (λ h'. record h' { score = calculate_new_score D h p }) hs)
              score (omega arith) in
          (k, rw (best_from, e) (rw b found), omega arith)
    ]
  ]

  pub best_from-found :
      (finite : ScoresAreFinite D) (p : QuantumProcess) (l : List QuantumProcess)
      (hs : List (History D))
      → HasRun p
      → 0 < held p.pid hs
      → (k : ℕ) × ((best_from D 0 (p ∷ l) hs D.lowest none).0 ≡ some k) × (k < length (p ∷ l))
  unfolding best_from
  best_from-found finite p l hs run has =
      let (h, e) = get_process_history-held p.pid hs has in
      let (k, found, below) =
        best_from-some 1 0 l
          (update_history D p.pid (λ h'. record h' { score = calculate_new_score D h p }) hs)
          (calculate_new_score D h p) (omega arith) in
      (k, rw (best_from, e) (rw (finite h p run) found), omega arith)

-- What taking a process out of a list leaves.
pub record Takes (l : List QuantumProcess) (p : QuantumProcess) (rest : List QuantumProcess)
    : Type 1 where
  pub weight : (w : QuantumProcess → ℕ) → total w l ≡ total w rest + w p
  pub all : (P : QuantumProcess → Type 0) → All P l → P p × All P rest

pub take_at-Takes :
    (i : ℕ) (l : List QuantumProcess)
    → i < length l
    → (p : QuantumProcess) × (rest : List QuantumProcess) × (take_at i l ≡ some (p, rest))
      × Takes l p rest
unfolding take_at
take_at-Takes i [] lt = absurd (omega arith)
take_at-Takes zero (p ∷ l) lt = (p, l, refl, record { weight = λ w. omega arith; all = λ P a. a })
take_at-Takes (suc i) (p ∷ l) lt =
    let (q, rest, e, t) = take_at-Takes i l (omega arith) in
    (
      q,
      p ∷ rest,
      rw (take_at, e) refl,
      record {
        weight = λ w. omega (arith, t.weight w);
        all = λ P a. let (b, c) = t.all P a.1 in (b, (a.0, c));
      },
    )
