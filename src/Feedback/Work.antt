-- ===== src/Feedback/Work.antt =====
-- The processing time that the feedback queue gives out, as the contract of a scheduler asks.
use cosc.Base.{
  ℕ, ◌+◌, ◌-◌, ◌<◌, ◌≡◌, refl, ◌∙◌, List, Option, none, some, arith, All, length, ◌==◌,
  if◌then◌else◌, Bool-cases, inl, inr,
}
use Prim.Native.Nat.{min}
use mathlib.Core.Path.{subst}
use cosc.Process.{ProcessInitial, IsAdmissible, IsWorkConserving}
use cosc.QuantumProcess.{QuantumProcess, new_process, execute, IsWaiting, left}
use cosc.ReadyList.{add_sorted, add_last}
use cosc.ReadyList.Laws.{total-add_sorted, All-add_sorted, total-add_last, All-add_last}
use cosc.Feedback.{
  Feedback, num_priority_queues, update_queue, add_to_ready_queue, pick, take_picked, choose_if,
  choose, run_if, run_current, get_next_scheduled_process, feedback,
}
use cosc.Feedback.Queues.{
  waiting, running, IsRunnable, length-update_queue, waiting-update_queue, All-update_queue, Picks,
  pick-Picks,
}

pub record IsValid (s : Feedback) : Type 0 where
  pub count : length s.priority_queues ≡ num_priority_queues
  pub queued : All (All IsWaiting) s.priority_queues
  pub current : IsRunnable s.current

abbrev pub owing : Feedback → ℕ → ℕ
owing s q = waiting q s.priority_queues + running q s.current

owing-add :
    (p : ProcessInitial) (s : Feedback) (q : ℕ)
    → IsValid s
    → owing (add_to_ready_queue p s) q ≡ owing s q + (if p.pid == q then p.processing_time else 0)
unfolding add_to_ready_queue new_process
owing-add p s q v = ground (
  arith,
  waiting-update_queue (add_sorted (λ x. x.arrival_time) (λ x. x.pid) (new_process p)) q
      (left q (new_process p)) 0 s.priority_queues
      (λ l.
        omega
          (arith, total-add_sorted (λ x. x.arrival_time) (λ x. x.pid) (left q) (new_process p) l))
      (omega (arith, v.count)),
)

add-IsValid :
    (p : ProcessInitial) (s : Feedback)
    → IsAdmissible p
    → IsValid s
    → IsValid (add_to_ready_queue p s)
unfolding add_to_ready_queue new_process
add-IsValid p s a v = record {
  count = length-update_queue _ 0 s.priority_queues ∙ v.count;
  queued =
      All-update_queue _ (All IsWaiting) 0 s.priority_queues
        (λ l. All-add_sorted _ _ IsWaiting (new_process p) l (omega arith)) v.queued;
  current = v.current;
}

-- What `choose` keeps; if no process is current then, none waits.
record Chooses (s s' : Feedback) : Type 0 where
  valid : IsValid s'
  same : (q : ℕ) → owing s' q ≡ owing s q
  all_done : s'.current ≡ none → (q : ℕ) → owing s' q ≡ 0

Chooses-pick :
    (s : Feedback) (r : Option (QuantumProcess × ℕ × List (List QuantumProcess)))
    → IsValid s
    → s.current ≡ none
    → Picks s.priority_queues r
    → Chooses s (take_picked s r)
unfolding take_picked
Chooses-pick s none v e h = record {
  valid = v;
  same = λ q. refl;
  all_done = λ e' q. ground (arith, h q);
}
Chooses-pick s (some (p, level, ls)) v e h =
    let (w, ws) = h.2 v.queued in
    record {
      valid = record { count = h.1 ∙ v.count; queued = ws; current = w };
      same = λ q. ground (arith, h.0 q);
      all_done = λ e' q. cc;
    }

Chooses-if :
    (c : Option QuantumProcess) (s : Feedback)
    → s.current ≡ c
    → IsValid s
    → Chooses s (choose_if c s)
unfolding choose_if
Chooses-if none s e v =
    Chooses-pick s (pick 0 s.priority_queues) v e (pick-Picks 0 s.priority_queues)
Chooses-if (some p) s e v = record { valid = v; same = λ q. refl; all_done = λ e' q. cc }

choose-Chooses : (s : Feedback) → IsValid s → Chooses s (choose s)
unfolding choose
choose-Chooses s v = Chooses-if s.current s refl v

module _ (quantum : ℕ → ℕ) where
  -- What a unit of execution does to the processing time that each PID still needs.
  record RunsUnit (p : QuantumProcess) (s : Feedback) (r : ℕ × Feedback) : Type 0 where
    valid : IsValid r.1
    pid : r.0 ≡ p.pid
    spent : (q : ℕ) → owing r.1 q ≡ owing s q - (if p.pid == q then 1 else 0)

  -- The node that goes back to a queue when its quantum is used up.
  abbrev reset : QuantumProcess → QuantumProcess
  reset p = record (execute p) { quantum_used = 0 }

  abbrev requeue : QuantumProcess → Feedback → Feedback
  requeue p s = record s {
    priority_queues =
        update_queue (min (s.priority_level + 1) (num_priority_queues - 1)) (add_last (reset p))
          s.priority_queues;
    current = none;
  }

  requeue-IsValid :
      (p : QuantumProcess) (s : Feedback) → IsWaiting (reset p) → IsValid s → IsValid (requeue p s)
  requeue-IsValid p s w v = record {
    count = length-update_queue _ _ s.priority_queues ∙ v.count;
    queued =
        All-update_queue _ (All IsWaiting) _ s.priority_queues
          (λ l. All-add_last IsWaiting (reset p) l w) v.queued;
    current = tt;
  }

  owing-requeue :
      (p : QuantumProcess) (s : Feedback) (q : ℕ)
      → IsValid s
      → owing (requeue p s) q ≡ waiting q s.priority_queues + left q (reset p)
  owing-requeue p s q v = omega (
    arith,
    waiting-update_queue (add_last (reset p)) q (left q (reset p))
        (min (s.priority_level + 1) (num_priority_queues - 1)) s.priority_queues
        (λ l. total-add_last (left q) (reset p) l) (omega (arith, v.count)),
  )

  run_current-RunsUnit :
      (p : QuantumProcess) (s : Feedback)
      → s.current ≡ some p
      → IsWaiting p
      → IsValid s
      → RunsUnit p s (run_current quantum p s)
  unfolding run_current execute
  run_current-RunsUnit p s e w v =
      elim (Bool-cases ((execute p).processed_time == p.processing_time)) [
        | inl done ↦
            rw (done, run_current)
              (record {
                valid = record { count = v.count; queued = v.queued; current = tt };
                pid = refl;
                spent = λ q. ground arith;
              })
        | inr more ↦ elim (Bool-cases ((execute p).quantum_used == quantum s.priority_level)) [
          | inl used ↦
              rw (more, used, run_current)
                (record {
                  valid = requeue-IsValid p s (ground arith) v;
                  pid = refl;
                  spent = λ q. ground (arith, owing-requeue p s q v);
                })
          | inr kept ↦
              rw (more, kept, run_current)
                (record {
                  valid = record { count = v.count; queued = v.queued; current = ground arith };
                  pid = refl;
                  spent = λ q. ground arith;
                })
        ]
      ]

  -- What a call of `get_next_scheduled_process` does, by the current process after the search.
  record Steps (s : Feedback) (r : ℕ × Feedback) : Type 0 where
    valid : IsValid r.1
    spent : (q : ℕ) → owing r.1 q ≡ owing s q - (if r.0 == q then 1 else 0)
    has_work : 0 < r.0 → 0 < owing s r.0
    all_done : r.0 ≡ 0 → (q : ℕ) → owing s q ≡ 0

  Steps-if :
      (c : Option QuantumProcess) (s s' : Feedback)
      → s'.current ≡ c
      → Chooses s s'
      → Steps s (run_if quantum c s')
  unfolding run_if
  Steps-if none s s' e ch = record {
    valid = ch.valid;
    spent = λ q. omega (arith, ch.same q, ch.all_done e q);
    has_work = λ h. absurd (omega arith);
    all_done = λ h q. omega (arith, ch.same q, ch.all_done e q);
  }
  Steps-if (some p) s s' e ch =
      let w : IsWaiting p = subst IsRunnable e ch.valid.current in
      let r = run_current-RunsUnit p s' e w ch.valid in
      record {
        valid = r.valid;
        spent = λ q. rw r.pid (omega (arith, r.spent q, ch.same q));
        has_work = λ h. rw r.pid (ground (arith, ch.same p.pid));
        all_done = λ h q. absurd (omega (arith, r.pid, w.pid_pos));
      }

  next-Steps : (s : Feedback) → IsValid s → Steps s (get_next_scheduled_process quantum s)
  unfolding get_next_scheduled_process
  next-Steps s v = Steps-if (choose s).current s (choose s) refl (choose-Chooses s v)

  -- The feedback queue keeps the contract of a scheduler, whatever its quantum.
  pub feedback-IsWorkConserving : IsWorkConserving (feedback quantum)
  feedback-IsWorkConserving = record {
    IsValid = IsValid;
    remaining = owing;
    start-IsValid = record { count = refl; queued = (tt, (tt, (tt, (tt, tt)))); current = tt };
    remaining-start = λ q. refl;
    add-IsValid = add-IsValid;
    remaining-add = owing-add;
    next-IsValid = λ s v. (next-Steps s v).valid;
    remaining-next = λ s q v. (next-Steps s v).spent q;
    next_has_work = λ s v h. (next-Steps s v).has_work h;
    idle_only_when_done = λ s q v h. (next-Steps s v).all_done h q;
  }
