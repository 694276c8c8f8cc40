-- ===== src/Custom/Choice.antt =====
-- What waits in custom.c, what each PID still needs, and the choice of the next process.
use cosc.Base.{
  false, ℕ, ◌+◌, ◌<◌, ◌≡◌, refl, ap, sym, List, [], ◌∷◌, Option, none, some, arith, total, All,
  length, ◌==◌, if◌then◌else◌,
}
use mathlib.Core.Path.{subst}
use cosc.Process.{ProcessInitial, IsAdmissible}
use cosc.QuantumProcess.{QuantumProcess, new_process, IsWaiting, left}
use cosc.ReadyList.{remove_next}
use cosc.ReadyList.Laws.{total-add_sorted, All-add_sorted}
use cosc.Custom.{
  Arithmetic, History, Custom, init_process_history, add_to_ready_queue, best_from, take_best,
  make_current, select_best_process_from_smart_queue, choose_from, choose_if,
}
use cosc.Custom.Histories.{held, held-best_from}
use cosc.Custom.Selection.{HasRun, ScoresAreFinite, best_from-found, Takes, take_at-Takes}

abbrev pub IsRunnable : Option QuantumProcess → Type 0
IsRunnable none = Unit
IsRunnable (some p) = IsWaiting p

abbrev pub weigh : (QuantumProcess → ℕ) → Option QuantumProcess → ℕ
weigh w none = 0
weigh w (some p) = w p

-- One for a process with PID `q`.
abbrev pub one : ℕ → QuantumProcess → ℕ
one q p = if p.pid == q then 1 else 0

module _ {D : Arithmetic} where
  abbrev pub sum : (QuantumProcess → ℕ) → Custom D → ℕ
  sum w s = total w s.fast + total w s.smart + weigh w s.current

  -- Each process has a history: as many as there are processes with its PID.
  pub record IsValid (s : Custom D) : Type 0 where
    pub fast : All IsWaiting s.fast
    pub smart : All HasRun s.smart
    pub current : IsRunnable s.current
    pub histories : (q : ℕ) → held q s.histories ≡ sum (one q) s
    pub no_null : s.null_dereferenced ≡ false

  abbrev pub owing : Custom D → ℕ → ℕ
  owing s q = sum (left q) s

  pub add-IsValid :
      (p : ProcessInitial) (s : Custom D)
      → IsAdmissible p
      → IsValid s
      → IsValid (add_to_ready_queue D p s)
  unfolding add_to_ready_queue new_process init_process_history
  add-IsValid p s a v = record {
    fast =
        All-add_sorted (λ x. x.arrival_time) (λ x. x.pid) IsWaiting (new_process p) s.fast
          (omega arith) v.fast;
    smart = v.smart;
    current = v.current;
    histories = λ q. ground (
      arith,
      v.histories q,
      total-add_sorted (λ x. x.arrival_time) (λ x. x.pid) (one q) (new_process p) s.fast,
    );
    no_null = v.no_null;
  }

  pub owing-add :
      (p : ProcessInitial) (s : Custom D) (q : ℕ)
      → IsValid s
      → owing (add_to_ready_queue D p s) q
        ≡ owing s q + (if p.pid == q then p.processing_time else 0)
  unfolding add_to_ready_queue new_process
  owing-add p s q v =
      ground
        (arith, total-add_sorted (λ x. x.arrival_time) (λ x. x.pid) (left q) (new_process p) s.fast)

  -- What the choice of the next process keeps; if no process is current then, none waits.
  pub record Chooses (s s' : Custom D) : Type 0 where
    pub valid : IsValid s'
    pub same : (q : ℕ) → owing s' q ≡ owing s q
    pub all_done : s'.current ≡ none → (q : ℕ) → owing s' q ≡ 0

  Chooses-make_current :
      (s : Custom D) (p : QuantumProcess) (rest : List QuantumProcess) (hs : List (History D))
      → IsValid s
      → s.current ≡ none
      → Takes s.smart p rest
      → ((q : ℕ) → held q hs ≡ held q s.histories)
      → Chooses s (make_current D (some (p, rest)) hs s)
  unfolding make_current
  Chooses-make_current s p rest hs v e t kept = record {
    valid = record {
      fast = v.fast;
      smart = (t.all HasRun v.smart).1;
      current = (t.all HasRun v.smart).0.waits;
      histories = λ q. ground (arith, v.histories q, kept q, t.weight (one q));
      no_null = v.no_null;
    };
    same = λ q. ground (arith, t.weight (left q));
    all_done = λ e' q. cc;
  }

  module _ (finite : ScoresAreFinite D) where
    -- With a process in the smart queue, one of them is taken.
    Chooses-select :
        (s : Custom D) (p : QuantumProcess) (l : List QuantumProcess)
        → IsValid s
        → s.current ≡ none
        → s.smart ≡ p ∷ l
        → Chooses s (select_best_process_from_smart_queue D s)
    unfolding select_best_process_from_smart_queue take_best
    Chooses-select s p l v e es =
        let has : 0 < held p.pid s.histories =
          ground (arith, v.histories p.pid, ap (total (one p.pid)) es) in
        let (k, found, below) =
          subst
            (λ m.
              (k : ℕ) × ((best_from D 0 m s.histories D.lowest none).0 ≡ some k) × (k < length m))
            (sym es)
            (best_from-found finite p l s.histories (subst (All HasRun) es v.smart).0 has) in
        let (q, rest, taken, t) = take_at-Takes k s.smart below in
        rw (found, taken)
          (Chooses-make_current s q rest _ v e t
            (λ r. held-best_from r 0 s.smart s.histories D.lowest none))

    Chooses-from :
        (fast smart : List QuantumProcess) (s : Custom D)
        → IsValid s
        → s.current ≡ none
        → s.fast ≡ fast
        → s.smart ≡ smart
        → Chooses s (choose_from D fast smart s)
    unfolding choose_from remove_next
    Chooses-from (p ∷ fast) smart s v e ef es = record {
      valid = record {
        fast = (subst (All IsWaiting) ef v.fast).1;
        smart = v.smart;
        current = (subst (All IsWaiting) ef v.fast).0;
        histories = λ q. ground (arith, v.histories q, ap (total (one q)) ef);
        no_null = v.no_null;
      };
      same = λ q. ground (arith, ap (total (left q)) ef);
      all_done = λ e' q. cc;
    }
    Chooses-from [] (p ∷ smart) s v e ef es = Chooses-select s p smart v e es
    Chooses-from [] [] s v e ef es = record {
      valid = v;
      same = λ q. refl;
      all_done = λ e' q. ground (arith, ap (total (left q)) ef, ap (total (left q)) es);
    }

    pub Chooses-if :
        (c : Option QuantumProcess) (s : Custom D)
        → s.current ≡ c
        → IsValid s
        → Chooses s (choose_if D c s)
    unfolding choose_if
    Chooses-if none s e v = Chooses-from s.fast s.smart s v e refl refl
    Chooses-if (some p) s e v = record { valid = v; same = λ q. refl; all_done = λ e' q. cc }
