-- ===== src/Simulator/Arrivals.antt =====
-- A round of the simulation of simulator.c and the processes that arrive in it.
use cosc.Base.{
  ℕ, ◌+◌, ◌≡◌, refl, List, [], ◌∷◌, arith, All, total, ◌==◌, if◌then◌else◌, Bool-cases, inl, inr,
}
use cosc.Process.{Scheduler, IsWorkConserving}
use cosc.Simulator.{ProcessStats, add_arrivals}
use cosc.Simulator.Invariant.{IsTracked, due}

-- Processing time that a process with PID `q` brings at time `t`.
abbrev arriving : ℕ → ℕ → ProcessStats → ℕ
arriving t q p =
    if p.initial.arrival_time == t
    then (if p.initial.pid == q then p.initial.processing_time else 0)
    else 0

due-arriving :
    (t q : ℕ) (ps : List ProcessStats)
    → All (IsTracked t) ps
    → due (t + 1) ps q ≡ due t ps q + total (arriving t q) ps
due-arriving t q [] h = refl
due-arriving t q (p ∷ ps) h = ground (arith, due-arriving t q ps h.1)

module _ {S : Scheduler} (c : IsWorkConserving S) where
  open c use {IsValid, remaining}

  pub add_arrivals-IsValid :
      (t : ℕ) (ps : List ProcessStats) (s : S.State)
      → All (IsTracked t) ps
      → IsValid s
      → IsValid (add_arrivals S t ps s)
  unfolding add_arrivals
  add_arrivals-IsValid t [] s h v = v
  add_arrivals-IsValid t (p ∷ ps) s h v = elim (Bool-cases (p.initial.arrival_time == t)) [
    | inl e ↦ rw e (add_arrivals-IsValid t ps _ h.1 (c.add-IsValid p.initial s h.0.admissible v))
    | inr e ↦ rw e (add_arrivals-IsValid t ps s h.1 v)
  ]

  remaining-arriving :
      (t q : ℕ) (ps : List ProcessStats) (s : S.State)
      → All (IsTracked t) ps
      → IsValid s
      → remaining (add_arrivals S t ps s) q ≡ remaining s q + total (arriving t q) ps
  unfolding add_arrivals
  remaining-arriving t q [] s h v = omega arith
  remaining-arriving t q (p ∷ ps) s h v = elim (Bool-cases (p.initial.arrival_time == t)) [
    | inl e ↦ rw e (
        omega (
          arith,
          remaining-arriving t q ps (S.add_to_ready_queue p.initial s) h.1
              (c.add-IsValid p.initial s h.0.admissible v),
          c.remaining-add p.initial s q v,
        ))
    | inr e ↦ rw e (omega (arith, remaining-arriving t q ps s h.1 v))
  ]

  -- After the arrivals of step `t` the algorithm still intends to give what is due.
  pub remaining-add_arrivals :
      (t q : ℕ) (ps : List ProcessStats) (s : S.State)
      → All (IsTracked t) ps
      → IsValid s
      → remaining s q ≡ due t ps q
      → remaining (add_arrivals S t ps s) q ≡ due (t + 1) ps q
  remaining-add_arrivals t q ps s h v e =
      omega (arith, remaining-arriving t q ps s h v, due-arriving t q ps h)
