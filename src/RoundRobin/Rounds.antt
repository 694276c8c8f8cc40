-- ===== src/RoundRobin/Rounds.antt =====
-- The whole schedule of round robin for the processes that wait.
use mathlib.Core.List.{append-nil, append_assoc}
use mathlib.Core.Path.{subst}
use Prim.Native.Nat.{min}
use native.Mathlib.Nat.{sub-add-eq}
use cosc.Base.{
  ℕ, zero, suc, ◌+◌, ◌-◌, ◌≤◌, ◌<◌, ◌^◌, ◌≡◌, refl, sym, ap, ◌∙◌, List, [], ◌∷◌, ◌++◌, arith, All,
  All-append, length, replicate, lt_cases, inl, inr,
}
use cosc.Process.Calls.{calls, calls-suc, calls-append}
use cosc.QuantumProcess.{QuantumProcess, IsWaiting}
use cosc.RoundRobin.{quantum, round_robin}
use cosc.RoundRobin.Turns.{advance, next-stay, next-finish, never_preempted_again, first_turn}

abbrev need : QuantumProcess → ℕ
need p = p.processing_time - p.processed_time

-- One turn for each process, of at most the quantum.
abbrev pub turns : List QuantumProcess → List ℕ
turns [] = []
turns (p ∷ l) = replicate (min quantum (need p)) p.pid ++ turns l

-- Then all that each still needs.
abbrev pub rests : List QuantumProcess → List ℕ
rests [] = []
rests (p ∷ l) = replicate (need p - quantum) p.pid ++ rests l

-- All that processes still need whose quantum is used up.
abbrev wholes : List QuantumProcess → List ℕ
wholes [] = []
wholes (p ∷ l) = replicate (need p) p.pid ++ wholes l

-- A process that has not run yet.
abbrev pub IsFresh : QuantumProcess → Type 0
IsFresh p = IsWaiting p × (p.quantum_used ≡ 0)

abbrev IsUsed : QuantumProcess → Type 0
IsUsed p = IsWaiting p × (p.quantum_used ≡ quantum) × (need p + quantum < 2 ^ 32)

-- A process that needs no more than its quantum runs to its end.
short_turn :
    (k : ℕ) (p : QuantumProcess) (l : List QuantumProcess)
    → IsWaiting p
    → p.processing_time ≡ p.processed_time + suc k
    → p.quantum_used + suc k ≤ quantum
    → calls round_robin (suc k) (p ∷ l) ≡ (replicate (suc k) p.pid, l)
unfolding calls
short_turn zero p l w e room =
    calls-suc round_robin 0 p.pid (p ∷ l) l (next-finish p l w (omega arith))
short_turn (suc k) p l w e room =
    calls-suc round_robin (suc k) p.pid (p ∷ l) (advance 1 p ∷ l)
      (next-stay p l w (omega arith) (omega arith) (omega arith))
    ∙ ap {B = List ℕ × List QuantumProcess} (λ r. (p.pid ∷ r.0, r.1))
        (short_turn k (advance 1 p) l (omega arith) (omega arith) (omega arith))

length-replicate : (k pid : ℕ) → length (replicate k pid) ≡ k
length-replicate zero pid = refl
length-replicate (suc k) pid = ap suc (length-replicate k pid)

used_up :
    (used : List QuantumProcess)
    → All IsUsed used
    → calls round_robin (length (wholes used)) used ≡ (wholes used, [])
unfolding calls
used_up [] h = refl
used_up (p ∷ used) h =
    let k : ℕ = need p - 1 in
    let e : need p ≡ suc k = omega arith in
    rw e (
      calls-append round_robin (replicate (suc k) p.pid) (wholes used) (p ∷ used) used []
        (rw length-replicate
          (never_preempted_again k p used h.0.0 (omega arith) (omega arith) (omega arith)))
        (used_up used h.1))

wholes-append :
    (used : List QuantumProcess) (p : QuantumProcess)
    → wholes (used ++ p ∷ []) ≡ wholes used ++ replicate (need p) p.pid
wholes-append [] p = rw append-nil refl
wholes-append (q ∷ used) p =
    ap (λ l. replicate (need q) q.pid ++ l) (wholes-append used p)
    ∙ sym (append_assoc (replicate (need q) q.pid) (wholes used) (replicate (need p) p.pid))

-- The turns of `l` with `used` behind it, and what comes then.
abbrev schedule : List QuantumProcess → List QuantumProcess → List ℕ
schedule l used = turns l ++ (wholes used ++ rests l)

-- What is left of a process after its first turn.
abbrev left_over : QuantumProcess → QuantumProcess
left_over p = record p { processed_time = p.processed_time + quantum; quantum_used = quantum }

left_over-schedule :
    (p : QuantumProcess) (l used : List QuantumProcess)
    → schedule l (used ++ left_over p ∷ []) ≡ turns l ++ (wholes used ++ rests (p ∷ l))
left_over-schedule p l used =
    ap (λ xs. turns l ++ (xs ++ rests l)) (wholes-append used (left_over p))
    ∙ rw
        (
          sub-add-eq p.processing_time p.processed_time quantum,
          append_assoc (wholes used) (replicate (need p - quantum) p.pid) (rests l),
        )
        refl

left_over-IsUsed : (p : QuantumProcess) → IsFresh p → quantum < need p → IsUsed (left_over p)
left_over-IsUsed p h more = (omega arith, refl, omega arith)

-- A schedule that starts with a turn of `p`.
turn_then :
    (p : QuantumProcess) (l s : List QuantumProcess) (k : ℕ) (rest whole : List ℕ)
    → whole ≡ replicate k p.pid ++ rest
    → calls round_robin k (p ∷ l) ≡ (replicate k p.pid, s)
    → calls round_robin (length rest) s ≡ (rest, [])
    → calls round_robin (length whole) (p ∷ l) ≡ (whole, [])
turn_then p l s k rest whole split e f =
    rw split
      (calls-append round_robin (replicate k p.pid) rest (p ∷ l) s [] (rw length-replicate e) f)

-- A process that needs no more than its quantum is not seen again.
short_step :
    (p : QuantumProcess) (l used : List QuantumProcess)
    → IsFresh p
    → need p ≤ quantum
    → calls round_robin (length (schedule l used)) (l ++ used) ≡ (schedule l used, [])
    → calls round_robin (length (schedule (p ∷ l) used)) (p ∷ (l ++ used))
      ≡ (schedule (p ∷ l) used, [])
short_step p l used h few ih =
    let k : ℕ = need p - 1 in
    let e : need p ≡ suc k = omega arith in
    let turn : min quantum (need p) ≡ suc k = omega arith in
    let none_left : need p - quantum ≡ 0 = omega arith in
    turn_then p (l ++ used) (l ++ used) (suc k) (schedule l used) (schedule (p ∷ l) used)
      (rw (turn, none_left)
        (append_assoc (replicate (suc k) p.pid) (turns l) (wholes used ++ rests l)))
      (short_turn k p (l ++ used) h.0 (omega arith) (omega arith)) ih

-- A process that needs more stands behind the others after its turn.
long_step :
    (p : QuantumProcess) (l used : List QuantumProcess)
    → IsFresh p
    → quantum < need p
    → calls round_robin
        (length (schedule l (used ++ left_over p ∷ [])))
        (l ++ (used ++ left_over p ∷ []))
      ≡ (schedule l (used ++ left_over p ∷ []), [])
    → calls round_robin (length (schedule (p ∷ l) used)) (p ∷ (l ++ used))
      ≡ (schedule (p ∷ l) used, [])
long_step p l used h more ih =
    let rest : List ℕ = turns l ++ (wholes used ++ rests (p ∷ l)) in
    let e : schedule l (used ++ left_over p ∷ []) ≡ rest = left_over-schedule p l used in
    let turn : min quantum (need p) ≡ quantum = omega arith in
    turn_then p (l ++ used) (l ++ (used ++ left_over p ∷ [])) quantum rest (schedule (p ∷ l) used)
      (rw turn (append_assoc (replicate quantum p.pid) (turns l) (wholes used ++ rests (p ∷ l))))
      (rw (sym (append_assoc l used (left_over p ∷ [])))
        (first_turn p (l ++ used) h.0 h.1 (omega arith)))
      (subst (λ xs. calls round_robin (length xs) (l ++ (used ++ left_over p ∷ [])) ≡ (xs, [])) e
        ih)

all_turns :
    (l used : List QuantumProcess)
    → All IsFresh l
    → All IsUsed used
    → calls round_robin (length (schedule l used)) (l ++ used) ≡ (schedule l used, [])
all_turns [] used h h' = rw append-nil (used_up used h')
all_turns (p ∷ l) used h h' = elim (lt_cases quantum (need p)) [
  | inl more ↦ long_step p l used h.0 more (
      all_turns l (used ++ left_over p ∷ []) h.1
        (All-append IsUsed used (left_over p ∷ []) h' (left_over-IsUsed p h.0 more, tt)))
  | inr few ↦ short_step p l used h.0 few (all_turns l used h.1 h')
]

-- Processes that have not run yet get one turn each of at most the quantum, in their order, and
-- then each runs to its end, again in their order, until none is left.
pub rounds_lem :
    (l : List QuantumProcess)
    → All IsFresh l
    → calls round_robin (length (turns l ++ rests l)) l ≡ (turns l ++ rests l, [])
rounds_lem l h =
    ap (λ s. calls round_robin (length (turns l ++ rests l)) s) (sym (append-nil l))
    ∙ all_turns l [] h tt
