-- ===== src/Process/Calls.antt =====
-- Calls of `get_next_scheduled_process` in a row, with no arrivals in between.
use native.Mathlib.Nat.{zero-add, suc-add}
use cosc.Base.{ℕ, zero, suc, ◌+◌, ◌≡◌, List, [], ◌∷◌, ◌++◌, length, length-append, ap, ◌∙◌, refl}
use cosc.Process.{Scheduler}

-- The PIDs returned, and the last state.
unfoldable pub calls : (S : Scheduler) → ℕ → S.State → List ℕ × S.State
calls S zero s = ([], s)
calls S (suc n) s =
    let (pid, s') = S.get_next_scheduled_process s in
    let (pids, s'') = calls S n s' in (pid ∷ pids, s'')

pub calls-suc :
    (S : Scheduler) (n pid : ℕ) (s s' : S.State)
    → S.get_next_scheduled_process s ≡ (pid, s')
    → calls S (suc n) s ≡ (pid ∷ (calls S n s').0, (calls S n s').1)
unfolding calls
calls-suc S n pid s s' e = rw e

calls-add :
    (S : Scheduler) (m n : ℕ) (s : S.State)
    → calls S (m + n) s
      ≡ ((calls S m s).0 ++ (calls S n (calls S m s).1).0, (calls S n (calls S m s).1).1)
unfolding calls
calls-add S zero n s = rw (zero-add n) refl
calls-add S (suc m) n s = rw (suc-add m n) (
    ap {B = List ℕ × S.State} (λ r. ((S.get_next_scheduled_process s).0 ∷ r.0, r.1))
      (calls-add S m n (S.get_next_scheduled_process s).1))

-- Calls that return `a` and then calls that return `b`.
pub calls-append :
    (S : Scheduler) (a b : List ℕ) (s s' s'' : S.State)
    → calls S (length a) s ≡ (a, s')
    → calls S (length b) s' ≡ (b, s'')
    → calls S (length (a ++ b)) s ≡ (a ++ b, s'')
calls-append S a b s s' s'' e f =
    rw (length-append a b) (calls-add S (length a) (length b) s ∙ rw (e, f) refl)
