-- ===== src/Linked/Chain.antt =====
-- Lists of nodes in memory, with their addresses.
use cosc.Base.{
  ℕ, zero, suc, ◌<◌, ◌≡◌, ◌≢◌, refl, Bool, true, false, List, [], ◌∷◌, ◌++◌, some, ◌==◌,
  if◌then◌else◌, arith, length, ap, sym, ◌∙◌,
}
use mathlib.Core.List.{append-nil, append_assoc}
use cosc.Fcfs.{FcfsProcess}
use cosc.Linked.Nodes.{Node, Line, node_line, Memory, member, load, print, load-some, bind}
use cosc.Linked.{pid_after, print_list}

-- The processes of a list, each at its address.
abbrev pub Cells : Type 0
Cells = List (ℕ × FcfsProcess)

abbrev pub first : Cells → ℕ
first [] = 0
first ((a, x) ∷ xs) = a

abbrev pub owns : Cells → ℕ → Bool
owns [] p = false
owns ((a, x) ∷ xs) p = if a == p then true else owns xs p

abbrev pub processes : Cells → List FcfsProcess
processes [] = []
processes ((a, x) ∷ xs) = x ∷ processes xs

abbrev pub node : FcfsProcess → ℕ → Node
node x p = record { process = x; next_process = p }

-- The cells are linked in order, the last one to NULL, and no address occurs twice.
abbrev pub IsChain : (ℕ → Node) → Cells → Type 0
IsChain cell [] = Unit
IsChain cell ((a, x) ∷ xs) =
    (0 < a) × (cell a ≡ node x (first xs)) × (owns xs a ≡ false) × IsChain cell xs

-- All of the cells are allocated.
abbrev pub AreAllocated : List ℕ → Cells → Type 0
AreAllocated l [] = Unit
AreAllocated l ((a, x) ∷ xs) = (member a l ≡ true) × AreAllocated l xs

pub not_owned :
    (a : ℕ) (x : FcfsProcess) (xs : Cells) (p : ℕ)
    → owns ((a, x) ∷ xs) p ≡ false
    → (a ≢ p) × (owns xs p ≡ false)
not_owned a x xs p h = ground arith

pub free_of :
    (a : ℕ) (x : FcfsProcess) (xs : Cells) (p : ℕ)
    → a ≢ p
    → owns xs p ≡ false
    → owns ((a, x) ∷ xs) p ≡ false
free_of a x xs p h k = ground arith

pub apart : (xs : Cells) (p q : ℕ) → owns xs p ≡ false → owns xs q ≡ true → p ≢ q
apart xs p q h k e = absurd (cc (ap (owns xs) e))

-- Writes elsewhere do not matter.
pub IsChain-frame :
    (cell cell' : ℕ → Node) (xs : Cells)
    → ((p : ℕ) → owns xs p ≡ true → cell' p ≡ cell p)
    → IsChain cell xs
    → IsChain cell' xs
IsChain-frame cell cell' [] same c = tt
IsChain-frame cell cell' ((a, x) ∷ xs) same (pos, here, once, c) = (
  pos,
  same a (ground arith) ∙ here,
  once,
  IsChain-frame cell cell' xs (λ p h. same p (ground arith)) c,
)

abbrev pub first_pid : Cells → ℕ
first_pid [] = 0
first_pid ((a, x) ∷ xs) = x.pid

-- The lines that `print_list` prints for what follows a node.
abbrev pub lines : Cells → List Line
lines [] = []
lines ((a, x) ∷ xs) = node_line x (first_pid xs) ∷ lines xs

pid_after_lem :
    (xs : Cells) (m : Memory)
    → IsChain m.cell xs
    → AreAllocated m.allocated xs
    → pid_after (first xs) m ≡ some (first_pid xs, m)
unfolding pid_after
pid_after_lem [] m c al = refl
pid_after_lem ((a, x) ∷ xs) m (pos, here, once, c) (al, als) =
    let live : (a == 0) ≡ false = ground arith in
    rw (pid_after, live) (bind (load a) _ m (load-some a m al here) refl)

pub print_list_lem :
    (fuel a : ℕ) (x : FcfsProcess) (xs : Cells) (m : Memory)
    → length xs < fuel
    → IsChain m.cell ((a, x) ∷ xs)
    → AreAllocated m.allocated ((a, x) ∷ xs)
    → print_list fuel a m ≡ some (tt, record m { printed = m.printed ++ lines xs })
unfolding print_list print
print_list_lem zero a x xs m h c al = absurd (omega arith)
print_list_lem (suc fuel) a x [] m h (pos, here, once, c) (al, als) =
    bind (load a) _ m (load-some a m al here)
      (ap (λ l. some (tt, record m { printed = l })) (sym (append-nil m.printed)))
print_list_lem (suc fuel) a x ((b, y) ∷ xs) m h (pos, here, once, (bpos, there, bonce, c))
      (al, (bl, als)) =
    let live : (b == 0) ≡ false = ground arith in
    let m' : Memory = record m { printed = m.printed ++ (node_line y (first_pid xs) ∷ []) } in
    bind (load a) _ m (load-some a m al here) (
      rw live (
        bind (load b) _ m (load-some b m bl there) (
          bind (pid_after (first xs)) _ m (pid_after_lem xs m c als) (
            print_list_lem fuel b y xs m' (omega arith) (bpos, there, bonce, c) (bl, als)
            ∙ ap (λ l. some (tt, record m { printed = l }))
                (append_assoc m.printed (node_line y (first_pid xs) ∷ []) (lines xs))))))
