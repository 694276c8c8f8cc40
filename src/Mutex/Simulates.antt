-- ===== src/Mutex/Simulates.antt =====
-- Each run of pthread_mutex_intro.c is, seen from thread.c, a run with the values as results: a
-- thread that waits for the mutex stands where one with its result does.
use cosc.Base.{
  ℕ, zero, suc, ◌+◌, ◌<◌, ◌≡◌, ◌⊎◌, inl, inr, refl, sym, ap, ◌∙◌, Bool, true, false, List, [], ◌∷◌,
  ◌++◌, map, some, arith, length, get_elem?,
}
use mathlib.Core.Path.{subst}
use mathlib.Core.List.{map-append}
use cosc.Mutex.{
  values, Stage, created, entered, converted, loaded, stored, finished, Phase, starting, creating,
  joining, destroyed, printed, exited, State, initial, IsAlive, Step, init, init_fails, create,
  create_fails, all_created, join, join_fails, destroy, destroy_fails, print, lock, lock_fails,
  convert, load, store, unlock, unlock_fails, Reaches, here, later,
}
use cosc.Threads
use cosc.Threads.Sum.{result_at, result_at-get_elem?}

abbrev pub stage : Stage → Threads.Stage
stage (created index) = Threads.calculated (result_at values index)
stage (entered index) = Threads.entered (result_at values index)
stage (converted val) = Threads.entered val
stage (loaded val total) = Threads.loaded val total
stage stored = Threads.stored
stage finished = Threads.finished

abbrev pub phase : Phase → Threads.Phase
phase starting = Threads.starting
phase (creating i) = Threads.creating i
phase (joining i) = Threads.joining i
phase destroyed = Threads.joining (length values)
phase (printed n) = Threads.printed n
phase (exited code) = Threads.exited code

abbrev pub seen : State → Threads.State
seen s = record {
  main = phase s.main;
  threads = map stage s.threads;
  locked = s.locked;
  total = s.total;
}

phase-IsAlive : (p : Phase) → IsAlive p → Threads.IsAlive (phase p)
phase-IsAlive starting a = tt
phase-IsAlive (creating i) a = tt
phase-IsAlive (joining i) a = tt
phase-IsAlive destroyed a = tt
phase-IsAlive (printed n) a = a
phase-IsAlive (exited n) a = a

-- The state has exited with an error, or thread.c can be in the state that is seen.
abbrev pub IsSeen : State → Type 0
IsSeen s = ((code : ℕ) × (s.main ≡ exited code)) ⊎ Threads.Reaches values Threads.initial (seen s)

pub threads_seen :
    (s : State) (before after : List Stage) (x : Stage)
    → s.threads ≡ before ++ x ∷ after
    → map stage s.threads ≡ map stage before ++ stage x ∷ map stage after
threads_seen s before after x e = ap (map stage) e ∙ map-append stage before (x ∷ after)

value_at : (i : ℕ) → i < length values → get_elem? values i ≡ some (result_at values i)
value_at zero h = refl
value_at (suc zero) h = refl
value_at (suc (suc i)) h = absurd (omega arith)

get_elem?-map {ℓ κ} :
    {A : Type ℓ} {B : Type κ} (f : A → B) (xs : List A) (i : ℕ) (x : A)
    → get_elem? xs i ≡ some x
    → get_elem? (map f xs) i ≡ some (f x)
get_elem?-map f [] i x e = cc
get_elem?-map f (y ∷ xs) zero x e = cc
get_elem?-map f (y ∷ xs) (suc i) x e = get_elem?-map f xs i x e

converted_seen :
    (s : State) (before after : List Stage) (index val : ℕ)
    → s.threads ≡ before ++ entered index ∷ after
    → get_elem? values index ≡ some val
    → map stage s.threads ≡ map stage (before ++ converted val ∷ after)
converted_seen s before after index val e found =
    threads_seen s before after (entered index) e
    ∙ ap (λ v. map stage before ++ Threads.entered v ∷ map stage after)
        (result_at-get_elem? values index val found)
    ∙ sym (map-append stage before (converted val ∷ after))

module _ (s : State) (r : Threads.Reaches values Threads.initial (seen s)) where
  -- A thread's step of thread.c that is seen.
  moved :
      (before after : List Stage) (y : Stage) (b : Bool) (n : ℕ)
      → Threads.Step values (seen s) (record {
        main = phase s.main;
        threads = map stage before ++ stage y ∷ map stage after;
        locked = b;
        total = n;
      })
      → IsSeen (record s { threads = before ++ y ∷ after; locked = b; total = n })
  moved before after y b n st = inr (rw (map-append stage before (y ∷ after)) (Threads.later r st))

  Step-IsSeen : {t : State} → Step s t → IsSeen t
  Step-IsSeen (init e) = inr (Threads.later r (Threads.init (ap phase e)))
  Step-IsSeen (init_fails e) = inl (_, refl)
  Step-IsSeen (create i e h) = inr (
      rw (map-append stage s.threads (created i ∷ [])) (
        Threads.later (Threads.later r (Threads.create i (ap phase e) h)) (
          Threads.calculate (map stage s.threads) [] i (result_at values i) tt refl
            (value_at i h))))
  Step-IsSeen (create_fails i e h) = inl (_, refl)
  Step-IsSeen (all_created e) = inr (Threads.later r (Threads.all_created (ap phase e)))
  Step-IsSeen (join i e h f) =
      inr (
        Threads.later r
          (Threads.join i (ap phase e) h (get_elem?-map stage s.threads i finished f)))
  Step-IsSeen (join_fails i e h) = inl (_, refl)
  Step-IsSeen (destroy e) = inr (
      subst
        (λ p.
          Threads.Reaches values Threads.initial (record {
            main = p;
            threads = map stage s.threads;
            locked = s.locked;
            total = s.total;
          }))
        (ap phase e) r)
  Step-IsSeen (destroy_fails e) = inl (_, refl)
  Step-IsSeen (print e) = inr (Threads.later r (Threads.print (ap phase e)))
  Step-IsSeen (lock before after index a e free) = moved before after (entered index) true s.total (
      Threads.lock (map stage before) (map stage after) _ (phase-IsAlive s.main a)
        (threads_seen s before after _ e) free)
  Step-IsSeen (lock_fails before after index a e) = inl (_, refl)
  Step-IsSeen (convert before after index val a e found) = inr (
      subst
        (λ l.
          Threads.Reaches values Threads.initial
            (record { main = phase s.main; threads = l; locked = s.locked; total = s.total }))
        (converted_seen s before after index val e found) r)
  Step-IsSeen (load before after val a e) =
      moved before after (loaded val s.total) s.locked s.total (
        Threads.load (map stage before) (map stage after) val (phase-IsAlive s.main a)
          (threads_seen s before after _ e))
  Step-IsSeen (store before after val total a e) =
      moved before after stored s.locked (total + val) (
        Threads.store (map stage before) (map stage after) val total (phase-IsAlive s.main a)
          (threads_seen s before after _ e))
  Step-IsSeen (unlock before after a e) = moved before after finished false s.total (
      Threads.unlock (map stage before) (map stage after) (phase-IsAlive s.main a)
        (threads_seen s before after _ e))
  Step-IsSeen (unlock_fails before after a e) = inl (_, refl)

Step-IsAlive : {s t : State} → Step s t → IsAlive s.main
Step-IsAlive (init e) = subst IsAlive (sym e) tt
Step-IsAlive (init_fails e) = subst IsAlive (sym e) tt
Step-IsAlive (create i e h) = subst IsAlive (sym e) tt
Step-IsAlive (create_fails i e h) = subst IsAlive (sym e) tt
Step-IsAlive (all_created e) = subst IsAlive (sym e) tt
Step-IsAlive (join i e h f) = subst IsAlive (sym e) tt
Step-IsAlive (join_fails i e h) = subst IsAlive (sym e) tt
Step-IsAlive (destroy e) = subst IsAlive (sym e) tt
Step-IsAlive (destroy_fails e) = subst IsAlive (sym e) tt
Step-IsAlive (print e) = subst IsAlive (sym e) tt
Step-IsAlive (lock before after index a e free) = a
Step-IsAlive (lock_fails before after index a e) = a
Step-IsAlive (convert before after index val a e found) = a
Step-IsAlive (load before after val a e) = a
Step-IsAlive (store before after val total a e) = a
Step-IsAlive (unlock before after a e) = a
Step-IsAlive (unlock_fails before after a e) = a

pub Reaches-IsSeen : {t : State} → Reaches initial t → IsSeen t
Reaches-IsSeen here = inr Threads.here
Reaches-IsSeen (later {t = t} r st) = elim (Reaches-IsSeen r) [
  | inl (code, x) ↦ absurd (subst IsAlive x (Step-IsAlive st))
  | inr r' ↦ Step-IsSeen t r' st
]
