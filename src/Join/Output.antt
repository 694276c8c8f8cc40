-- ===== src/Join/Output.antt =====
-- What the two programs print.
use cosc.Base.{ℕ, ◌≡◌, refl, true, false, Option, none, some}
use mathlib.Core.Path.{subst}
use cosc.Join.{
  value, Phase, starting, running, joined, printed, exited, created, finished, State, initial,
  IsAlive, Step, create, create_fails, calculate, join, join_fails, print, Reaches, here, later,
}

-- What has been stored when `main` stands there.
abbrev Expects : Phase → State → Type 0
Expects starting s = Unit
Expects running s = Unit
Expects joined s = s.output ≡ some value
Expects (printed found) s = found ≡ some value
Expects (exited code) s = Unit

record IsSound (s : State) : Type 0 where
  copied : s.thread ≡ finished → s.output ≡ some value
  expects : Expects s.main s

-- The copy of the input keeps what `main` expects.
copied-Expects :
    (p : Phase) (s : State)
    → IsAlive p
    → Expects p (record s { thread = finished; output = some value })
copied-Expects starting s a = tt
copied-Expects running s a = tt
copied-Expects joined s a = refl
copied-Expects (printed found) s a = absurd a
copied-Expects (exited code) s a = absurd a

Step-IsSound : (s t : State) → Step true s t → IsSound s → IsSound t
Step-IsSound s t (create e) v = record { copied = λ f. cc; expects = tt }
Step-IsSound s t (create_fails e) v = record { copied = v.copied; expects = tt }
Step-IsSound s t (calculate a e) v = record {
  copied = λ f. refl;
  expects = copied-Expects s.main s a;
}
Step-IsSound s t (join j e f) v = record { copied = v.copied; expects = v.copied f }
Step-IsSound s t (join_fails j e) v = record { copied = v.copied; expects = tt }
Step-IsSound s t (print e) v = record {
  copied = v.copied;
  expects = subst (λ p. Expects p s) e v.expects;
}

Reaches-IsSound : {s : State} → Reaches true initial s → IsSound s
Reaches-IsSound here = record { copied = λ f. cc; expects = tt }
Reaches-IsSound (later {t = t} r st) = Step-IsSound t _ st (Reaches-IsSound r)

-- Where `main` stands in the run that does not wait.
abbrev not_waited : State
not_waited = record { main = printed none; thread = created; output = none }

-- With `pthread_join` the program prints 2 if it prints anything, whatever the interleaving.
-- Without it there is a run in which it prints `output` before anything has been stored there.
pub output_lem :
    ((s : State) (found : Option ℕ)
      → Reaches true initial s
      → s.main ≡ printed found
      → found ≡ some value)
    × ((s : State) × Reaches false initial s × (s.main ≡ printed none))
output_lem = (
  λ s found r e. subst (λ p. Expects p s) e (Reaches-IsSound r).expects,
  (not_waited, later (later here (create refl)) (print refl), refl),
)
