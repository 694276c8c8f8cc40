-- ===== src/Custom/Best.antt =====
-- Which process `select_best_process_from_smart_queue` takes.
use mathlib.Core.List.{append-nil, append_assoc}
use mathlib.Core.Path.{subst}
use cosc.Base.{
  ℕ, suc, ◌+◌, ◌<◌, ◌≡◌, refl, sym, ap, ◌∙◌, true, List, [], ◌∷◌, ◌++◌, none, some, arith, All,
  total, All-append, length, length-append, Bool-cases, inl, inr,
}
use cosc.QuantumProcess.{QuantumProcess, execute}
use cosc.Custom.{
  Arithmetic, History, Custom, update_history, best_from, take_at, take_best, make_current,
  calculate_new_score, select_best_process_from_smart_queue, choose_from, choose_if, run_current,
  run_if, get_next_scheduled_process,
}
use cosc.Custom.Histories.{held, held-update_history, get_process_history-held}
use cosc.Custom.Selection.{HasRun, ScoresAreFinite}
use cosc.Custom.Scores.{
  ComparesNumbers, IsBest, All-imp, score_with, score_of, score_of-update_history,
  update_history-All, higher-IsBest,
}
use cosc.Custom.Choice.{one, IsValid}

-- The element at the end of `before` is taken out.
take_at-length :
    (before : List QuantumProcess) (p : QuantumProcess) (after : List QuantumProcess)
    → take_at (length before) (before ++ p ∷ after) ≡ some (p, before ++ after)
unfolding take_at
take_at-length [] p after = refl
take_at-length (q ∷ before) p after = rw (take_at-length before p after) refl

-- Each process of a list is counted under its PID.
counted-All : (l : List QuantumProcess) → All (λ q. 0 < total (one q.pid) l) l
counted-All [] = tt
counted-All (p ∷ l) = (ground arith, All-imp _ _ (λ q h. omega (arith, h)) l (counted-All l))

module _ {D : Arithmetic} where
  module _ (finite : ScoresAreFinite D) (order : ComparesNumbers D)
      (score : QuantumProcess → D.Double) where
    -- The loop over the rest `l`, when `best` is the best of what has been seen.
    best_from-IsBest :
        (l before : List QuantumProcess) (best : QuantumProcess) (after : List QuantumProcess)
        (i : ℕ) (hs : List (History D))
        → ((q : QuantumProcess) → score_of hs q ≡ score q)
        → All HasRun l
        → All (λ q. 0 < held q.pid hs) l
        → IsBest D score before best after
        → i ≡ length before + suc (length after)
        → (before' : List QuantumProcess) × (best' : QuantumProcess) × (after' : List
            QuantumProcess)
          × (before ++ best ∷ (after ++ l) ≡ before' ++ best' ∷ after')
          × ((best_from D i l hs (score best) (some (length before))).0 ≡ some (length before'))
          × IsBest D score before' best' after'
    unfolding best_from
    best_from-IsBest [] before best after i hs same run has b e =
        (before, best, after, rw append-nil refl, refl, b)
    best_from-IsBest (p ∷ l) before best after i hs same run has b e =
        let (h, found) = get_process_history-held p.pid hs has.0 in
        let x : calculate_new_score D h p ≡ score p =
          subst (λ o. score_with o p ≡ score p) found (same p) in
        let hs' : List (History D) =
          update_history D p.pid (λ h'. record h' { score = score p }) hs in
        let same' : (q : QuantumProcess) → score_of hs' q ≡ score q =
          λ q. score_of-update_history p.pid (score p) hs q ∙ same q in
        let has' : All (λ q. 0 < held q.pid hs') l =
          update_history-All p.pid (score p) hs l has.1 in
        elim (Bool-cases (D.less (score best) (score p))) [
          | inl more ↦
              let at : i ≡ length (before ++ best ∷ after) =
                omega (arith, length-append before (best ∷ after)) in
              let (before', best', after', split, position, best_of) =
                best_from-IsBest l (before ++ best ∷ after) p [] (i + 1) hs' same' run.1 has'
                  (higher-IsBest order score p before best after b more) (omega arith) in
              (
                before',
                best',
                after',
                sym (append_assoc before (best ∷ after) (p ∷ l)) ∙ split,
                rw (best_from, found)
                    (rw (x, more)
                      (subst
                        (λ j.
                          (best_from D (i + 1) l hs' (score p) (some j)).0 ≡ some (length before'))
                        (sym at) position)),
                best_of,
              )
          | inr less ↦
              let number : D.less D.lowest (score p) ≡ true =
                subst (λ y. D.less D.lowest y ≡ true) x (finite h p run.0) in
              let (before', best', after', split, position, best_of) =
                best_from-IsBest l before best (after ++ p ∷ []) (i + 1) hs' same' run.1 has'
                  (record {
                    lower = b.lower;
                    not_higher = All-append _ after (p ∷ []) b.not_higher ((number, less), tt);
                  })
                  (omega (arith, length-append after (p ∷ []))) in
              (
                before',
                best',
                after',
                ap (λ t. before ++ best ∷ t) (sym (append_assoc after (p ∷ []) l)) ∙ split,
                rw (best_from, found) (rw (x, less) position),
                best_of,
              )
        ]

  -- What is taken from a list in which all processes have histories.
  best_from-picks :
      (finite : ScoresAreFinite D) (order : ComparesNumbers D) (l : List QuantumProcess)
      (hs : List (History D))
      → All HasRun l
      → All (λ q. 0 < held q.pid hs) l
      → 0 < length l
      → (before : List QuantumProcess) × (best : QuantumProcess) × (after : List QuantumProcess)
        × (l ≡ before ++ best ∷ after)
        × ((best_from D 0 l hs D.lowest none).0 ≡ some (length before))
        × IsBest D (score_of hs) before best after
  unfolding best_from
  best_from-picks finite order [] hs run has pos = absurd (omega arith)
  best_from-picks finite order (p ∷ l) hs run has pos =
      let (h, found) = get_process_history-held p.pid hs has.0 in
      let x : calculate_new_score D h p ≡ score_of hs p = sym (ap (λ o. score_with o p) found) in
      let hs' : List (History D) =
        update_history D p.pid (λ h'. record h' { score = score_of hs p }) hs in
      let has' : All (λ q. 0 < held q.pid hs') l =
        All-imp _ _
          (λ q f. subst (λ n. 0 < n) (sym (held-update_history q.pid p.pid _ hs (λ h'. refl))) f) l
          has.1 in
      let number : D.less D.lowest (score_of hs p) ≡ true =
        subst (λ y. D.less D.lowest y ≡ true) x (finite h p run.0) in
      let (before, best, after, split, position, best_of) =
        best_from-IsBest finite order (score_of hs) l [] p [] 1 hs'
          (λ q. score_of-update_history p.pid (score_of hs p) hs q) run.1 has'
          (record { lower = tt; not_higher = tt }) refl in
      (before, best, after, split, rw (best_from, found) (rw (x, number) position), best_of)

  -- Each process of the smart queue has a history.
  smart-All : (s : Custom D) → IsValid s → All (λ q. 0 < held q.pid s.histories) s.smart
  smart-All s v =
      All-imp _ _ (λ q h. omega (arith, v.histories q.pid, h)) s.smart (counted-All s.smart)

  choose_from-select :
      (smart : List QuantumProcess) (s : Custom D)
      → 0 < length smart
      → choose_from D [] smart s ≡ select_best_process_from_smart_queue D s
  unfolding choose_from
  choose_from-select [] s h = absurd (omega arith)
  choose_from-select (p ∷ l) s h = refl

  next_pid :
      (s s' : Custom D) (p : QuantumProcess)
      → choose_if D s.current s ≡ s'
      → s'.current ≡ some p
      → (get_next_scheduled_process D s).0 ≡ p.pid
  unfolding get_next_scheduled_process run_if run_current execute
  next_pid s s' p e f = ap (λ t. (run_if D t.current t).0) e ∙ ap (λ c. (run_if D c s').0) f

-- If no process is current and the fast queue is empty, the next process comes from the smart
-- queue: the first of those with the highest score, by the histories as they are before the call.
-- It leaves the queue and runs; the order of the others is kept. Each process has a history, scores
-- of processes that have run are above the lowest double, and `<` is as for `double`.
pub highest_score_runs :
    (D : Arithmetic) (s : Custom D)
    → ScoresAreFinite D
    → ComparesNumbers D
    → IsValid s
    → s.current ≡ none
    → s.fast ≡ []
    → 0 < length s.smart
    → (before : List QuantumProcess) × (best : QuantumProcess) × (after : List QuantumProcess)
      × (s.smart ≡ before ++ best ∷ after)
      × IsBest D (score_of s.histories) before best after
      × ((select_best_process_from_smart_queue D s).current ≡ some best)
      × ((select_best_process_from_smart_queue D s).smart ≡ before ++ after)
      × ((get_next_scheduled_process D s).0 ≡ best.pid)
unfolding select_best_process_from_smart_queue take_best make_current choose_if
highest_score_runs D s finite order v idle empty some_wait =
    let (before, best, after, split, position, best_of) =
      best_from-picks finite order s.smart s.histories v.smart (smart-All s v) some_wait in
    let taken : take_at (length before) s.smart ≡ some (best, before ++ after) =
      rw split (take_at-length before best after) in
    let current : (select_best_process_from_smart_queue D s).current ≡ some best =
      rw (position, taken) refl in
    let chosen : choose_if D s.current s ≡ select_best_process_from_smart_queue D s =
      ap (λ c. choose_if D c s) idle
      ∙ (ap (λ f. choose_from D f s.smart s) empty ∙ choose_from-select s.smart s some_wait) in
    (
      before,
      best,
      after,
      split,
      best_of,
      current,
      rw (position, taken) refl,
      next_pid s (select_best_process_from_smart_queue D s) best chosen current,
    )
