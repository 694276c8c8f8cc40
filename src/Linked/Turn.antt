-- ===== src/Linked/Turn.antt =====
-- `get_next_scheduled_process` on a list of nodes in memory, up to the debug output at its end.
use cosc.Base.{
  ℕ, suc, ◌+◌, ◌<◌, ◌≡◌, ◌≢◌, refl, Bool, true, false, List, [], ◌∷◌, Option, some, ◌==◌,
  if◌then◌else◌, u32, arith, length, ==_iff, Bool-cases, inl, inr, ap, sym, ◌∙◌,
}
use cosc.Fcfs.{FcfsProcess}
use cosc.Fcfs
use cosc.Linked.Nodes.{
  after_completed, Memory, M, pure, ◌>>=◌, member, without, put, load, free, load-some, free-some,
  bind, put-at, put_elsewhere, member-without,
}
use cosc.Linked.{set_next_process, remove_next, report, finish_turn}
use cosc.Linked.Chain.{Cells, first, owns, node, processes, IsChain, AreAllocated, not_owned}
use cosc.Linked.Insert.{set_next_process_lem}

-- What is left to do once a process has run: the report, if the process has finished.
abbrev pub ending : Bool → ℕ → Bool → ℕ → M ℕ
ending debug fuel true pid = report debug fuel (after_completed pid) >>= λ _. pure pid
ending debug fuel false pid = pure pid

-- A call of the loop on the list from the node at `a` on.
pub record Turned (debug : Bool) (fuel : ℕ) (m : Memory) (a : ℕ) (x : FcfsProcess) (xs : Cells)
    (r : Option (ℕ × Memory)) : Type 0 where
  pub after : Memory
  pub cells : Cells
  pub finished : Bool
  pub returned :
      r ≡ ending debug fuel finished (Fcfs.get_next_scheduled_process (processes xs)).0 after
  pub same : processes cells ≡ (Fcfs.get_next_scheduled_process (processes xs)).1
  pub shorter : length cells < suc (length xs)
  pub chain : IsChain after.cell ((a, x) ∷ cells)
  pub smaller : (p : ℕ) → owns xs p ≡ false → owns cells p ≡ false
  pub members :
      (p : ℕ)
      → member p after.allocated ≡ (if owns xs p then owns cells p else member p m.allocated)
  pub elsewhere : (p : ℕ) → owns ((a, x) ∷ xs) p ≡ false → after.cell p ≡ m.cell p

pub allocated_of :
    (l : List ℕ) (xs : Cells) (p : ℕ) → AreAllocated l xs → owns xs p ≡ true → member p l ≡ true
allocated_of l [] p al h = absurd (cc)
allocated_of l ((a, x) ∷ xs) p (al, als) h = elim (Bool-cases (a == p)) [
  | inl e ↦ let same = (==_iff a p).0 e in ap (λ q. member q l) (sym same) ∙ al
  | inr e ↦ allocated_of l xs p als (ground arith)
]

-- One more unit of execution.
abbrev pub run : FcfsProcess → FcfsProcess
run y = record y { processed_time = u32 (y.processed_time + 1) }

module _ (debug : Bool) (fuel : ℕ) (m : Memory) (a : ℕ) (x : FcfsProcess) (b : ℕ) (y : FcfsProcess)
    (ys : Cells) (c : IsChain m.cell ((a, x) ∷ (b, y) ∷ ys))
    (live : AreAllocated m.allocated ((a, x) ∷ (b, y) ∷ ys)) where
  pub ne : b ≢ a
  ne = (not_owned b y ys a c.2).0

  pub b_live : (b == 0) ≡ false
  b_live = let pos = c.3.0 in ground arith

  unfoldable pub ran : Memory
  ran = put b (node (run y) (first ys)) m

  pub ran-next : ran.cell b ≡ node (run y) (first ys)
  unfolding ran
  ran-next = put-at b (node (run y) (first ys)) m

  pub ran-node : ran.cell a ≡ node x b
  unfolding ran
  ran-node = put_elsewhere b a (node (run y) (first ys)) m ne ∙ c.1

  unfoldable pub removed : Memory
  removed = put a (node x (first ys)) ran

  pub remove_next_lem : remove_next a ran ≡ some (b, removed)
  unfolding remove_next removed ran
  remove_next_lem = bind (load a) _ ran (load-some a ran live.0 ran-node) (
      rw b_live (
        bind (load b) _ ran (load-some b ran live.1.0 ran-next) (
          bind (set_next_process a (first ys)) _ ran
            (set_next_process_lem a (first ys) ran live.0 ran-node) refl)))

  unfoldable pub freed : Memory
  freed = record removed { allocated = without b m.allocated }

  pub finish_turn_done :
      ((run y).processed_time == y.processing_time) ≡ true
      → finish_turn debug fuel a b ran ≡ report debug fuel (after_completed y.pid) freed
  unfolding finish_turn removed ran freed
  finish_turn_done e = bind (load b) _ ran (load-some b ran live.1.0 ran-next) (
      rw e (
        bind (remove_next a) _ ran remove_next_lem
          (bind (free b) _ removed (free-some b removed live.1.0) refl)))

  pub finish_turn_more :
      ((run y).processed_time == y.processing_time) ≡ false
      → finish_turn debug fuel a b ran ≡ some (tt, ran)
  unfolding finish_turn ran
  finish_turn_more e = bind (load b) _ ran (load-some b ran live.1.0 ran-next) (rw e refl)

  pub ran_elsewhere : (p : ℕ) → b ≢ p → ran.cell p ≡ m.cell p
  unfolding ran
  ran_elsewhere p h = put_elsewhere b p (node (run y) (first ys)) m h

  pub removed_elsewhere : (p : ℕ) → a ≢ p → b ≢ p → removed.cell p ≡ m.cell p
  unfolding removed
  removed_elsewhere p h k = put_elsewhere a p (node x (first ys)) ran h ∙ ran_elsewhere p k

  pub removed-node : removed.cell a ≡ node x (first ys)
  unfolding removed
  removed-node = put-at a (node x (first ys)) ran

  pub freed-members :
      (p : ℕ)
      → member p freed.allocated
        ≡ (if owns ((b, y) ∷ ys) p then owns ys p else member p m.allocated)
  unfolding freed
  freed-members p =
      let once = c.3.2 in
      elim (Bool-cases (b == p)) [
        | inl e ↦
            let same = (==_iff b p).0 e in
            member-without b p m.allocated ∙ rw e (sym (ap (owns ys) (sym same) ∙ once))
        | inr e ↦ elim (Bool-cases (owns ys p)) [
          | inl o ↦
              member-without b p m.allocated ∙ rw (e, o) (allocated_of m.allocated ys p live.1.1 o)
          | inr o ↦ member-without b p m.allocated ∙ rw (e, o) refl
        ]
      ]
