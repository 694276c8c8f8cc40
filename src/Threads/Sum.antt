-- ===== src/Threads/Sum.antt =====
-- What loop.c computes, and what the threads that wait still add.
use cosc.Base.{
  ℕ, zero, suc, ◌+◌, ◌<◌, ◌≡◌, refl, List, [], ◌∷◌, ◌++◌, map, some, length, get_elem?, total,
  arith, total-append, All,
}
use cosc.Threads.{
  Stage, created, calculated, entered, loaded, stored, finished, calculate_value, run_loop,
}

abbrev pub sum : List ℕ → ℕ
sum vs = total (λ v. v) vs

pub run_loop-eq-sum : (vs : List ℕ) (t : ℕ) → run_loop vs t ≡ t + sum (map calculate_value vs)
unfolding run_loop
run_loop-eq-sum [] t = omega arith
run_loop-eq-sum (v ∷ vs) t = omega (arith, run_loop-eq-sum vs (t + calculate_value v))

-- The sum over the first `n` values.
abbrev pub sum_first : ℕ → List ℕ → ℕ
sum_first zero vs = 0
sum_first (suc n) [] = 0
sum_first (suc n) (v ∷ vs) = v + sum_first n vs

pub sum_first-length : (vs : List ℕ) → sum_first (length vs) vs ≡ sum vs
sum_first-length [] = refl
sum_first-length (v ∷ vs) = omega (arith, sum_first-length vs)

-- The result for the value at an index.
abbrev pub result_at : List ℕ → ℕ → ℕ
result_at [] i = 0
result_at (v ∷ vs) zero = v
result_at (v ∷ vs) (suc i) = result_at vs i

pub sum_first-suc : (i : ℕ) (vs : List ℕ) → sum_first (suc i) vs ≡ sum_first i vs + result_at vs i
sum_first-suc zero [] = refl
sum_first-suc (suc i) [] = refl
sum_first-suc zero (v ∷ vs) = omega arith
sum_first-suc (suc i) (v ∷ vs) = omega (arith, sum_first-suc i vs)

pub result_at-get_elem? : (vs : List ℕ) (i v : ℕ) → get_elem? vs i ≡ some v → result_at vs i ≡ v
result_at-get_elem? [] i v e = cc
result_at-get_elem? (w ∷ vs) zero v e = cc
result_at-get_elem? (w ∷ vs) (suc i) v e = result_at-get_elem? vs i v e

-- What a thread still adds to `total`.
abbrev pub pending : List ℕ → Stage → ℕ
pending vs (created i) = result_at vs i
pending vs (calculated v) = v
pending vs (entered v) = v
pending vs (loaded v t) = v
pending vs stored = 0
pending vs finished = 0

-- Whether a thread holds the mutex.
abbrev pub holding : Stage → ℕ
holding (created i) = 0
holding (calculated v) = 0
holding (entered v) = 1
holding (loaded v t) = 1
holding stored = 1
holding finished = 0

-- The steps that a thread has left.
abbrev pub steps_left : Stage → ℕ
steps_left (created i) = 5
steps_left (calculated v) = 4
steps_left (entered v) = 3
steps_left (loaded v t) = 2
steps_left stored = 1
steps_left finished = 0

-- A thread is created with the index of a value, and one that has loaded `total` has its present
-- value `n`.
abbrev pub Agrees : List ℕ → ℕ → Stage → Type 0
Agrees vs n (created i) = i < length vs
Agrees vs n (calculated v) = Unit
Agrees vs n (entered v) = Unit
Agrees vs n (loaded v t) = t ≡ n
Agrees vs n stored = Unit
Agrees vs n finished = Unit

pub All-Agrees-free :
    (vs : List ℕ) (m n : ℕ) (ts : List Stage)
    → All (Agrees vs m) ts
    → total holding ts ≡ 0
    → All (Agrees vs n) ts
All-Agrees-free vs m n [] a e = tt
All-Agrees-free vs m n (created i ∷ ts) a e = (a.0, All-Agrees-free vs m n ts a.1 (omega arith))
All-Agrees-free vs m n (calculated v ∷ ts) a e = (tt, All-Agrees-free vs m n ts a.1 (omega arith))
All-Agrees-free vs m n (entered v ∷ ts) a e = absurd (omega arith)
All-Agrees-free vs m n (loaded v t ∷ ts) a e = absurd (omega arith)
All-Agrees-free vs m n (stored ∷ ts) a e = absurd (omega arith)
All-Agrees-free vs m n (finished ∷ ts) a e = (tt, All-Agrees-free vs m n ts a.1 (omega arith))

-- The threads before `k` have finished.
abbrev pub Joined : ℕ → List Stage → Type 0
Joined zero ts = Unit
Joined (suc k) [] = ⊥
Joined (suc k) (t ∷ ts) = (steps_left t ≡ 0) × Joined k ts

pub Joined-suc :
    (k : ℕ) (ts : List Stage) → Joined k ts → get_elem? ts k ≡ some finished → Joined (suc k) ts
Joined-suc k [] j e = absurd cc
Joined-suc zero (t ∷ ts) j e = (cc, tt)
Joined-suc (suc k) (t ∷ ts) j e = (j.0, Joined-suc k ts j.1 e)

pub Joined-move :
    (k : ℕ) (before after : List Stage) (a b : Stage)
    → 0 < steps_left a
    → Joined k (before ++ a ∷ after)
    → Joined k (before ++ b ∷ after)
Joined-move zero before after a b h j = tt
Joined-move (suc k) [] after a b h j = absurd (omega (arith, j.0))
Joined-move (suc k) (t ∷ before) after a b h j = (j.0, Joined-move k before after a b h j.1)

pub Joined-pending :
    (vs : List ℕ) (ts : List Stage)
    → Joined (length ts) ts
    → (total (pending vs) ts ≡ 0) × (total holding ts ≡ 0)
Joined-pending vs [] j = (refl, refl)
Joined-pending vs (finished ∷ ts) j =
    let (e, f) = Joined-pending vs ts j.1 in (omega arith, omega arith)
Joined-pending vs (created i ∷ ts) j = absurd (omega (arith, j.0))
Joined-pending vs (calculated v ∷ ts) j = absurd (omega (arith, j.0))
Joined-pending vs (entered v ∷ ts) j = absurd (omega (arith, j.0))
Joined-pending vs (loaded v t ∷ ts) j = absurd (omega (arith, j.0))
Joined-pending vs (stored ∷ ts) j = absurd (omega (arith, j.0))

-- A thread's move changes a sum over the threads by its own share.
pub total-move {ℓ} :
    {A : Type ℓ} (w : A → ℕ) (before after : List A) (a : A)
    → total w (before ++ a ∷ after) ≡ total w before + w a + total w after
total-move w before after a = omega (arith, total-append w before (a ∷ after))

pub All-split {ℓ κ} :
    {A : Type ℓ} (P : A → Type κ) (before after : List A) (a : A)
    → All P (before ++ a ∷ after)
    → All P before × P a × All P after
All-split P [] after a h = (tt, h.0, h.1)
All-split P (b ∷ before) after a h =
    let (b', a', c') = All-split P before after a h.1 in ((h.0, b'), a', c')
