-- ===== src/Threads/Progress.antt =====
-- The steps that `main` and the threads of thread.c can make before the end of the program.
use cosc.Base.{
  ℕ, zero, suc, ◌+◌, ◌*◌, ◌-◌, ◌<◌, ◌≡◌, refl, false, List, [], ◌∷◌, ◌++◌, some, length, get_elem?,
  total, arith, ap, lt_cases, Bool-cases, inl, inr, ◌⊎◌, All,
}
use mathlib.Core.Path.{subst}
use cosc.Threads.{
  Stage, created, calculated, entered, loaded, stored, finished, Phase, starting, creating, joining,
  printed, exited, IsAlive, State, Step, init, create, all_created, join, print, calculate, lock,
  load, store, unlock,
}
use cosc.Threads.Sum.{holding, steps_left, All-split, Agrees}
use cosc.Threads.Invariant.{Follows, IsSound}

-- A thread that still has steps, in a list around it.
record Found (w : Stage → ℕ) (ts : List Stage) : Type 0 where
  before : List Stage
  stage : Stage
  after : List Stage
  place : ts ≡ before ++ stage ∷ after
  weighs : 0 < w stage

find : (w : Stage → ℕ) (ts : List Stage) → 0 < total w ts → Found w ts
find w [] h = absurd (omega arith)
find w (t ∷ ts) h = elim (lt_cases 0 (w t)) [
  | inl more ↦ record { before = []; stage = t; after = ts; place = refl; weighs = more }
  | inr none_left ↦
      let f = find w ts (omega arith) in
      record {
        before = t ∷ f.before;
        stage = f.stage;
        after = f.after;
        place = ap (λ l. t ∷ l) f.place;
        weighs = f.weighs;
      }
]

-- The steps that are left, at most, if no call fails.
abbrev pub main_left : List ℕ → Phase → ℕ
main_left vs starting = 8 * length vs + 4
main_left vs (creating i) = 7 * (length vs - i) + length vs + 3
main_left vs (joining i) = (length vs - i) + 1
main_left vs (printed n) = 0
main_left vs (exited code) = 0

abbrev pub left : List ℕ → State → ℕ
left vs s = main_left vs s.main + total steps_left s.threads

abbrev pub HasPrinted : Phase → Type 0
HasPrinted m = (n : ℕ) × (m ≡ printed n)

-- A step that brings the program nearer to its end.
pub record Advances (vs : List ℕ) (s : State) : Type 0 where
  pub next : State
  pub step : Step vs s next
  pub onwards : IsAlive next.main ⊎ HasPrinted next.main

advance :
    {vs : List ℕ} {s : State} (next : State)
    → Step vs s next
    → IsAlive next.main ⊎ HasPrinted next.main
    → Advances vs s
advance next st onwards = record { next = next; step = st; onwards = onwards }

get_elem?-value : (vs : List ℕ) (i : ℕ) → i < length vs → (v : ℕ) × (get_elem? vs i ≡ some v)
get_elem?-value [] i h = absurd (omega arith)
get_elem?-value (v ∷ vs) zero h = (v, refl)
get_elem?-value (v ∷ vs) (suc i) h = get_elem?-value vs i (omega arith)

get_elem?-finished :
    (ts : List Stage) (i : ℕ)
    → i < length ts
    → total steps_left ts ≡ 0
    → get_elem? ts i ≡ some finished
get_elem?-finished [] i h e = absurd (omega arith)
get_elem?-finished (finished ∷ ts) zero h e = refl
get_elem?-finished (finished ∷ ts) (suc i) h e = get_elem?-finished ts i (omega arith) (omega arith)
get_elem?-finished (created j ∷ ts) i h e = absurd (omega arith)
get_elem?-finished (calculated v ∷ ts) i h e = absurd (omega arith)
get_elem?-finished (entered v ∷ ts) i h e = absurd (omega arith)
get_elem?-finished (loaded v t ∷ ts) i h e = absurd (omega arith)
get_elem?-finished (stored ∷ ts) i h e = absurd (omega arith)

module _ (vs : List ℕ) (s : State) (alive : IsAlive s.main) (v : IsSound vs s) where
  -- The thread that holds the mutex can go on.
  holder_advances :
      (before after : List Stage) (a : Stage)
      → s.threads ≡ before ++ a ∷ after
      → 0 < holding a
      → Advances vs s
  holder_advances before after (entered value) e h =
      advance _ (load before after value alive e) (inl alive)
  holder_advances before after (loaded value t) e h =
      advance _ (store before after value t alive e) (inl alive)
  holder_advances before after stored e h = advance _ (unlock before after alive e) (inl alive)
  holder_advances before after (created i) e h = absurd (omega arith)
  holder_advances before after (calculated value) e h = absurd (omega arith)
  holder_advances before after finished e h = absurd (omega arith)

  -- With the mutex free, every thread that has not finished can go on.
  free_advances :
      (before after : List Stage) (a : Stage)
      → s.locked ≡ false
      → s.threads ≡ before ++ a ∷ after
      → 0 < steps_left a
      → Advances vs s
  free_advances before after (created i) free e h =
      let (_, inside, _) =
        All-split (Agrees vs s.total) before after (created i)
          (subst (All (Agrees vs s.total)) e v.agreed) in
      let (value, found) = get_elem?-value vs i inside in
      advance _ (calculate before after i value alive e found) (inl alive)
  free_advances before after (calculated value) free e h =
      advance _ (lock before after value alive e free) (inl alive)
  free_advances before after (entered value) free e h =
      holder_advances before after (entered value) e (omega arith)
  free_advances before after (loaded value t) free e h =
      holder_advances before after (loaded value t) e (omega arith)
  free_advances before after stored free e h = holder_advances before after stored e (omega arith)
  free_advances before after finished free e h = absurd (omega arith)

  threads_advance : 0 < total steps_left s.threads → Advances vs s
  threads_advance busy = elim (Bool-cases s.locked) [
    | inl held ↦
        let f = find holding s.threads (ground (arith, v.exclusive)) in
        holder_advances f.before f.after f.stage f.place f.weighs
    | inr free ↦
        let f = find steps_left s.threads busy in
        free_advances f.before f.after f.stage free f.place f.weighs
  ]

  pub main_advances :
      (m : Phase)
      → s.main ≡ m
      → IsAlive m
      → total steps_left s.threads ≡ 0 ⊎ 0 < total steps_left s.threads
      → Advances vs s
  main_advances (printed n) e a busy = absurd a
  main_advances (exited c) e a busy = absurd a
  main_advances starting e a busy = advance _ (init e) (inl tt)
  main_advances (creating i) e a busy =
      let (len, le) = subst (Follows vs s.threads) e v.follows in
      elim (lt_cases i (length vs)) [
        | inl h ↦ advance _ (create i e h) (inl tt)
        | inr h ↦
            advance _ (all_created (subst (λ k. s.main ≡ creating k) {x = i} (omega arith) e))
              (inl tt)
      ]
  main_advances (joining i) e a (inr busy) = threads_advance busy
  main_advances (joining i) e a (inl idle) =
      let (len, le, j) = subst (Follows vs s.threads) e v.follows in
      elim (lt_cases i (length vs)) [
        | inl h ↦
            advance _ (join i e h (get_elem?-finished s.threads i (omega arith) idle)) (inl tt)
        | inr h ↦
            advance _ (print (subst (λ k. s.main ≡ joining k) {x = i} (omega arith) e))
              (inr (s.total, refl))
      ]
