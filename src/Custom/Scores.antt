-- ===== src/Custom/Scores.antt =====
-- Scores of custom.c, and what it is to be the first process of the highest score.
use mathlib.Core.Path.{subst}
use cosc.Base.{
  ℕ, ◌<◌, ◌≡◌, refl, sym, true, false, List, [], ◌∷◌, ◌++◌, Option, none, some, All, All-append,
  Bool-cases, inl, inr, ◌==◌,
}
use cosc.QuantumProcess.{QuantumProcess}
use cosc.Custom.{Arithmetic, History, get_process_history, update_history, calculate_new_score}
use cosc.Custom.Histories.{held, held-update_history}

-- `<` on `double`: transitive, and a number `z` that is not above `x` is below all that `x` is
-- below.
pub record ComparesNumbers (D : Arithmetic) : Type 0 where
  pub trans : (x y z : D.Double) → D.less x y ≡ true → D.less y z ≡ true → D.less x z ≡ true
  pub cotrans :
      (x y z : D.Double)
      → D.less D.lowest z ≡ true
      → D.less x y ≡ true
      → D.less x z ≡ false
      → D.less z y ≡ true

-- `best` is the first process of the highest score between `before` and `after`; none of the scores
-- behind it is NaN.
pub record IsBest (D : Arithmetic) (score : QuantumProcess → D.Double)
    (before : List QuantumProcess) (best : QuantumProcess) (after : List QuantumProcess)
    : Type 0 where
  pub lower : All (λ q. D.less (score q) (score best) ≡ true) before
  pub not_higher :
      All (λ q. (D.less D.lowest (score q) ≡ true) × (D.less (score best) (score q) ≡ false)) after

pub All-imp :
    {A : Type 0} (P Q : A → Type 0) (f : (x : A) → P x → Q x) (l : List A) → All P l → All Q l
All-imp P Q f [] h = tt
All-imp P Q f (x ∷ l) h = (f x h.0, All-imp P Q f l h.1)

module _ {D : Arithmetic} where
  -- The score by the history of the process.
  abbrev pub score_with : Option (History D) → QuantumProcess → D.Double
  score_with none p = D.lowest
  score_with (some h) p = calculate_new_score D h p

  abbrev pub score_of : List (History D) → QuantumProcess → D.Double
  score_of hs p = score_with (get_process_history D p.pid hs) p

  -- To store a score changes no score.
  pub score_of-update_history :
      (pid : ℕ) (x : D.Double) (hs : List (History D)) (p : QuantumProcess)
      → score_of (update_history D pid (λ h. record h { score = x }) hs) p ≡ score_of hs p
  unfolding get_process_history update_history calculate_new_score
  score_of-update_history pid x [] p = refl
  score_of-update_history pid x (h ∷ hs) p = elim (Bool-cases (h.pid == pid)) [
    | inl same ↦ elim (Bool-cases (h.pid == p.pid)) [
      | inl e ↦ rw (same, e) refl
      | inr e ↦ rw (same, e) refl
    ]
    | inr other ↦ elim (Bool-cases (h.pid == p.pid)) [
      | inl e ↦ rw (other, e) refl
      | inr e ↦ rw (other, e) (score_of-update_history pid x hs p)
    ]
  ]

  -- Each process keeps its history when a score is stored.
  pub update_history-All :
      (pid : ℕ) (x : D.Double) (hs : List (History D)) (l : List QuantumProcess)
      → All (λ q. 0 < held q.pid hs) l
      → All (λ q. 0 < held q.pid (update_history D pid (λ h. record h { score = x }) hs)) l
  update_history-All pid x hs l has =
      All-imp _ _
        (λ q f. subst (λ n. 0 < n) (sym (held-update_history q.pid pid _ hs (λ h. refl))) f) l has

  module _ (order : ComparesNumbers D) (score : QuantumProcess → D.Double) where
    -- A process of a higher score is the best one of those up to it.
    pub higher-IsBest :
        (p : QuantumProcess) (before : List QuantumProcess) (best : QuantumProcess)
        (after : List QuantumProcess)
        → IsBest D score before best after
        → D.less (score best) (score p) ≡ true
        → IsBest D score (before ++ best ∷ after) p []
    higher-IsBest p before best after b h = record {
      lower =
          All-append _ before (best ∷ after)
            (All-imp _ _ (λ q e. order.trans (score q) (score best) (score p) e h) before b.lower)
            (
              h,
              All-imp _ _ (λ q e. order.cotrans (score best) (score p) (score q) e.0 h e.1) after
                  b.not_higher,
            );
      not_higher = tt;
    }
