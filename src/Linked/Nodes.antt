-- ===== src/Linked/Nodes.antt =====
-- Nodes in memory, and the output. A command gives its result and what the memory is then, or
-- `none` where it accesses memory that is not allocated, or a loop runs out of fuel.
use cosc.Base.{
  ℕ, ◌≡◌, ◌≢◌, refl, Bool, true, false, List, [], ◌∷◌, ◌++◌, Option, none, some, arith, ◌==◌,
  if◌then◌else◌,
}
use cosc.Fcfs.{FcfsProcess}

-- `fcfs_process`: the process, and the address of the next node or 0 for NULL.
pub record Node : Type 0 where
  pub process : FcfsProcess
  pub next_process : ℕ

-- A line of debug output: the two that come before a list, and that of a node.
pub data Line : Type 0 where
  after_adding : (pid : ℕ) → Line
  after_completed : (pid : ℕ) → Line
  node_line : (process : FcfsProcess) (next_pid : ℕ) → Line

-- What a cell holds that is not allocated means nothing.
pub record Memory : Type 0 where
  pub cell : ℕ → Node
  pub allocated : List ℕ
  pub printed : List Line

abbrev pub member : ℕ → List ℕ → Bool
member p [] = false
member p (q ∷ l) = if q == p then true else member p l

abbrev pub without : ℕ → List ℕ → List ℕ
without p [] = []
without p (q ∷ l) = if q == p then without p l else q ∷ without p l

abbrev pub M : Type 0 → Type 0
M A = Memory → Option (A × Memory)

abbrev pub pure : {A : Type 0} → A → M A
pure a m = some (a, m)

module _ {A B : Type 0} where
  infixl 5 ◌>>=◌ ◌>>◌
  abbrev pub ◌>>=◌ : M A → (A → M B) → M B
  ◌>>=◌ c k m = elim (c m) [ none ↦ none | some (a, m') ↦ k a m' ]

  abbrev pub ◌>>◌ : M A → M B → M B
  c >> d = c >>= λ _. d

abbrev pub put : ℕ → Node → Memory → Memory
put p n m = record m { cell = λ q. if p == q then n else m.cell q }

unfoldable pub load : ℕ → M Node
load p m = elim (member p m.allocated) [ true ↦ some (m.cell p, m) | false ↦ none ]

unfoldable pub store : ℕ → Node → M (Unit {0})
store p n m = elim (member p m.allocated) [ true ↦ some (tt, put p n m) | false ↦ none ]

-- `pick` chooses the address; what the cell holds does not change.
unfoldable pub malloc : (List ℕ → ℕ) → M ℕ
malloc pick m = let p = pick m.allocated in some (p, record m { allocated = p ∷ m.allocated })

unfoldable pub free : ℕ → M (Unit {0})
free p m = elim (member p m.allocated) [
  | true ↦ some (tt, record m { allocated = without p m.allocated })
  | false ↦ none
]

unfoldable pub print : Line → M (Unit {0})
print line m = some (tt, record m { printed = m.printed ++ (line ∷ []) })

-- What the C library promises of `malloc`, as long as it does not fail.
pub record IsAllocator (pick : List ℕ → ℕ) : Type 0 where
  pub not_null : (used : List ℕ) → pick used ≢ 0
  pub fresh : (used : List ℕ) → member (pick used) used ≡ false

-- A command followed by another, from what each does.
pub bind :
    {A B : Type 0} (c : M A) (k : A → M B) (m : Memory) {a : A} {m' : Memory}
    {r : Option (B × Memory)}
    → c m ≡ some (a, m')
    → k a m' ≡ r
    → (c >>= k) m ≡ r
bind c k m e f = rw (◌>>=◌, e) f

-- A command that is chosen by a test.
pub by_test :
    {A : Type 0} (t : Bool) (c d : M A) (m : Memory)
    → (elim t as (λ b. M A) [ true ↦ c | false ↦ d ]) m ≡ (if t then c m else d m)
by_test true c d m = refl
by_test false c d m = refl

-- Two commands that do the same are followed by the same.
pub bind_cong :
    {A B : Type 0} (c d : M A) (k : A → M B) (m m' : Memory)
    → c m ≡ d m'
    → (c >>= k) m ≡ (d >>= k) m'
bind_cong c d k m m' e = rw (◌>>=◌, e)

pub load-some :
    (p : ℕ) {n : Node} (m : Memory)
    → member p m.allocated ≡ true
    → m.cell p ≡ n
    → load p m ≡ some (n, m)
unfolding load
load-some p m e here = rw (load, e, here)

pub store-some :
    (p : ℕ) (n : Node) (m : Memory)
    → member p m.allocated ≡ true
    → store p n m ≡ some (tt, put p n m)
unfolding store
store-some p n m e = rw (store, e)

pub put-at : (p : ℕ) (n : Node) (m : Memory) → (put p n m).cell p ≡ n
put-at p n m = ground arith

pub put_elsewhere : (p q : ℕ) (n : Node) (m : Memory) → p ≢ q → (put p n m).cell q ≡ m.cell q
put_elsewhere p q n m h = ground arith

pub member-without :
    (q p : ℕ) (l : List ℕ) → member p (without q l) ≡ (if q == p then false else member p l)
member-without q p [] = ground arith
member-without q p (r ∷ l) = ground (arith, member-without q p l)

pub free-some :
    (p : ℕ) (m : Memory)
    → member p m.allocated ≡ true
    → free p m ≡ some (tt, record m { allocated = without p m.allocated })
unfolding free
free-some p m e = rw (free, e)
