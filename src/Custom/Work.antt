-- ===== src/Custom/Work.antt =====
-- The processing time that custom.c gives out, as the contract of a scheduler asks.
use cosc.Base.{
  false, ap, ℕ, ◌+◌, ◌-◌, ◌<◌, ◌≡◌, refl, ◌∙◌, Option, none, some, arith, ◌==◌, leb, u32, ◌*◌,
  if◌then◌else◌, Bool-cases, inl, inr,
}
use mathlib.Core.Path.{subst}
use cosc.Process.{ProcessInitial, IsAdmissible, IsWorkConserving}
use cosc.QuantumProcess.{QuantumProcess, execute, IsWaiting, left}
use cosc.ReadyList.Laws.{total-add_last, All-add_last}
use cosc.Custom.{
  Arithmetic, Custom, start, add_to_ready_queue, get_process_history, update_wait_times,
  dereference, choose_if, run_current, run_if, get_next_scheduled_process, custom,
}
use cosc.Custom.Histories.{
  held, get_process_history-held, held-update_history, held-free_process_history,
  held-update_queue_wait_times,
}
use cosc.Custom.Selection.{HasRun, ScoresAreFinite}
use cosc.Custom.Choice.{
  IsRunnable, one, weigh, sum, IsValid, owing, add-IsValid, owing-add, Chooses, Chooses-if,
}

module _ {D : Arithmetic} where
  -- What a unit of execution does to the processing time that each PID still needs.
  record RunsUnit (p : QuantumProcess) (s : Custom D) (r : ℕ × Custom D) : Type 0 where
    valid : IsValid r.1
    pid : r.0 ≡ p.pid
    spent : (q : ℕ) → owing r.1 q ≡ owing s q - (if p.pid == q then 1 else 0)

  held-waited : (q : ℕ) (s : Custom D) → held q (update_wait_times D s) ≡ held q s.histories
  unfolding update_wait_times
  held-waited q s =
      held-update_queue_wait_times q s.smart _ ∙ held-update_queue_wait_times q s.fast s.histories

  -- The process that runs has its history, so that the code dereferences no NULL pointer.
  dereferenced :
      (p : QuantumProcess) (s : Custom D)
      → IsValid s
      → s.current ≡ some p
      → dereference D (get_process_history D p.pid (update_wait_times D s)) s.null_dereferenced
        ≡ false
  unfolding dereference
  dereferenced p s v e =
      let has : 0 < held p.pid (update_wait_times D s) =
        ground (arith, v.histories p.pid, held-waited p.pid s, ap (weigh (one p.pid)) e) in
      let (h, found) = get_process_history-held p.pid (update_wait_times D s) has in
      rw found v.no_null

  run_current-RunsUnit :
      (p : QuantumProcess) (s : Custom D)
      → s.current ≡ some p
      → IsWaiting p
      → IsValid s
      → RunsUnit p s (run_current D p s)
  unfolding run_current execute
  run_current-RunsUnit p s e w v =
      let reset : QuantumProcess = record (execute p) { quantum_used = 0 } in
      elim (Bool-cases ((execute p).processed_time == p.processing_time)) [
        | inl done ↦
            rw (done, run_current)
              (record {
                valid = record {
                  fast = v.fast;
                  smart = v.smart;
                  current = tt;
                  histories = λ q. ground (
                    arith,
                    v.histories q,
                    v.histories p.pid,
                    held-waited q s,
                    held-waited p.pid s,
                    held-free_process_history q p.pid (update_wait_times D s),
                  );
                  no_null = v.no_null;
                };
                pid = refl;
                spent = λ q. ground arith;
              })
        | inr more ↦
            elim (Bool-cases (leb (u32 ((s.priority_level + 1) * 2)) (execute p).quantum_used)) [
              | inl used ↦
                  rw (more, used, run_current)
                    (record {
                      valid = record {
                        fast = v.fast;
                        smart = All-add_last HasRun reset s.smart (ground arith) v.smart;
                        current = tt;
                        histories = λ q. ground (
                          arith,
                          v.histories q,
                          held-waited q s,
                          held-update_history q p.pid
                              (λ h. record h { reschedule_count = u32 (h.reschedule_count + 1) })
                              (update_wait_times D s) (λ h. refl),
                          total-add_last (one q) reset s.smart,
                        );
                        no_null = dereferenced p s v e;
                      };
                      pid = refl;
                      spent = λ q. ground (arith, total-add_last (left q) reset s.smart);
                    })
              | inr kept ↦
                  rw (more, kept, run_current)
                    (record {
                      valid = record {
                        fast = v.fast;
                        smart = v.smart;
                        current = ground arith;
                        histories = λ q. ground (arith, v.histories q, held-waited q s);
                        no_null = v.no_null;
                      };
                      pid = refl;
                      spent = λ q. ground arith;
                    })
            ]
      ]

  -- What a call of `get_next_scheduled_process` does.
  record Steps (s : Custom D) (r : ℕ × Custom D) : Type 0 where
    valid : IsValid r.1
    spent : (q : ℕ) → owing r.1 q ≡ owing s q - (if r.0 == q then 1 else 0)
    has_work : 0 < r.0 → 0 < owing s r.0
    all_done : r.0 ≡ 0 → (q : ℕ) → owing s q ≡ 0

  Steps-if :
      (c : Option QuantumProcess) (s s' : Custom D)
      → s'.current ≡ c
      → Chooses s s'
      → Steps s (run_if D c s')
  unfolding run_if
  Steps-if none s s' e ch = record {
    valid = ch.valid;
    spent = λ q. omega (arith, ch.same q, ch.all_done e q);
    has_work = λ h. absurd (omega arith);
    all_done = λ h q. omega (arith, ch.same q, ch.all_done e q);
  }
  Steps-if (some p) s s' e ch =
      let w : IsWaiting p = subst IsRunnable e ch.valid.current in
      let r = run_current-RunsUnit p s' e w ch.valid in
      record {
        valid = r.valid;
        spent = λ q. rw r.pid (omega (arith, r.spent q, ch.same q));
        has_work = λ h. rw r.pid (ground (arith, ch.same p.pid));
        all_done = λ h q. absurd (omega (arith, r.pid, w.pid_pos));
      }

-- The states between the calls that the simulator makes: admissible processes arrive, and
-- `get_next_scheduled_process` is called.
pub data IsReached (D : Arithmetic) : Custom D → Type 0 where
  started : IsReached D (start D)
  added :
      {s : Custom D} (p : ProcessInitial)
      → IsAdmissible p
      → IsReached D s
      → IsReached D (add_to_ready_queue D p s)
  called : {s : Custom D} → IsReached D s → IsReached D (get_next_scheduled_process D s).1

module _ {D : Arithmetic} (finite : ScoresAreFinite D) where
  start-IsValid : IsValid (start D)
  start-IsValid = record {
    fast = tt;
    smart = tt;
    current = tt;
    histories = λ q. refl;
    no_null = refl;
  }

  next-Steps : (s : Custom D) → IsValid s → Steps s (get_next_scheduled_process D s)
  unfolding get_next_scheduled_process
  next-Steps s v =
      Steps-if (choose_if D s.current s).current s (choose_if D s.current s) refl
        (Chooses-if finite s.current s refl v)

  reached-IsValid : {s : Custom D} → IsReached D s → IsValid s
  reached-IsValid started = start-IsValid
  reached-IsValid (added {s = s} p a r) = add-IsValid p s a (reached-IsValid r)
  reached-IsValid (called {s = s} r) = (next-Steps s (reached-IsValid r)).valid

-- If scores of processes that have run are above `-DBL_MAX`, the scoring algorithm keeps the
-- contract of a scheduler. In every state that the simulator can bring it to, no NULL pointer has
-- been dereferenced, and a PID has as many histories as there are processes with it that wait or
-- run.
pub custom_lem :
    (D : Arithmetic)
    → ScoresAreFinite D
    → IsWorkConserving (custom D)
      × ((s : Custom D)
          → IsReached D s
          → (s.null_dereferenced ≡ false) × ((q : ℕ) → held q s.histories ≡ sum (one q) s))
custom_lem D finite = (
  record {
    IsValid = IsValid;
    remaining = owing;
    start-IsValid = start-IsValid finite;
    remaining-start = λ q. refl;
    add-IsValid = add-IsValid;
    remaining-add = owing-add;
    next-IsValid = λ s v. (next-Steps finite s v).valid;
    remaining-next = λ s q v. (next-Steps finite s v).spent q;
    next_has_work = λ s v h. (next-Steps finite s v).has_work h;
    idle_only_when_done = λ s q v h. (next-Steps finite s v).all_done h q;
  },
  λ s r. let v = reached-IsValid finite r in (v.no_null, v.histories),
)
