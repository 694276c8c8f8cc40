-- ===== src/Schedule/Printed.antt =====
-- What the simulation prints with FCFS.
use mathlib.Core.List.{append-nil, append_assoc}
use cosc.Base.{
  ℕ, zero, suc, ◌+◌, ◌≤◌, ◌<◌, ◌≡◌, refl, sym, ap, ◌∙◌, true, List, [], ◌∷◌, ◌++◌, Option, none,
  some, arith, All, total, leb, if◌then◌else◌, Bool-cases, eq_cases, inl, inr,
}
use cosc.Process.{ProcessInitial}
use cosc.Fcfs.{FcfsProcess, get_next_scheduled_process, fcfs}
use cosc.Fcfs.Work.{IsWaiting, remaining, contract, idle_only_when_done, next_has_work}
use cosc.Simulator.{
  ProcessStats, Line, ran, idle, Result, returned, out_of_bounds, still_running, pid_index_from,
  get_pid_index, simulate,
}
use cosc.Simulator.Invariant.{IsTracked, initials, due, work, still_running-work}
use cosc.Simulator.Running.{Runs-found}
use cosc.Simulator.Outcome.{
  Simulates, arrived, chosen, after, simulate-idle, simulate-busy, simulate-stop, agrees', valid',
  Simulates-idle, Simulates-busy,
}
use cosc.Schedule.Waiting.{
  await, await-add_arrivals, await-later, add_arrivals-arrived, await-nonempty,
}
use cosc.Schedule.Nodes.{serve_nodes, serve_nodes-idle, serve_nodes-next, next-arrived}

-- The lines printed, if the simulation returns.
abbrev pub lines_of : Result → Option (List Line)
lines_of (returned success processes lines) = some lines
lines_of out_of_bounds = none

-- How many processes arrive at time `t` or later.
abbrev coming : ℕ → List ProcessInitial → ℕ
coming t ps = total (λ p. if leb t p.arrival_time then 1 else 0) ps

due-le-work : (t q : ℕ) (ps : List ProcessStats) → due t ps q ≤ work ps
due-le-work t q [] = omega arith
due-le-work t q (p ∷ ps) = ground (arith, due-le-work t q ps)

none_coming :
    (t : ℕ) (ps : List ProcessStats)
    → All (IsTracked t) ps
    → work ps ≡ 0
    → coming t (initials ps) ≡ 0
none_coming t [] h e = refl
none_coming t (p ∷ ps) h e = ground (arith, none_coming t ps h.1)

some_coming :
    (t : ℕ) (ps : List ProcessStats)
    → still_running ps ≡ true
    → ((q : ℕ) → due (t + 1) ps q ≡ 0)
    → 0 < coming (t + 1) (initials ps)
unfolding still_running
some_coming t [] run d = cc
some_coming t (p ∷ ps) run d = ground (arith, d p.initial.pid, some_coming t ps, rest)
  where
    rest : (q : ℕ) → due (t + 1) ps q ≡ 0
    rest q = omega (arith, d q)

empty-total : (l : List FcfsProcess) → total (λ x. 1) l ≡ 0 → l ≡ []
empty-total [] h = refl
empty-total (x ∷ l) h = absurd (omega arith)

done_empty : (l : List FcfsProcess) → All IsWaiting l → ((q : ℕ) → remaining l q ≡ 0) → l ≡ []
done_empty [] w h = refl
done_empty (n ∷ l) w h = absurd (ground (arith, h n.pid))

-- An idle step means that the list is empty.
idle_empty :
    (l : List FcfsProcess) → All IsWaiting l → (get_next_scheduled_process l).0 ≡ 0 → l ≡ []
unfolding get_next_scheduled_process
idle_empty [] w h = refl
idle_empty (n ∷ l) w h = absurd (ground arith)

found_at :
    (pid i : ℕ) (ps : List ProcessStats)
    → pid_index_from pid 0 ps ≡ 0 + i
    → get_pid_index pid ps ≡ i
unfolding get_pid_index
found_at pid i ps e = omega arith

next_of_empty : (l : List FcfsProcess) → l ≡ [] → (get_next_scheduled_process l).1 ≡ []
unfolding get_next_scheduled_process
next_of_empty l e = rw e refl

-- A step of the simulation without a process.
idle_served :
    (t : ℕ) (ps : List ProcessStats)
    → still_running ps ≡ true
    → ((q : ℕ) → due (t + 1) ps q ≡ 0)
    → serve_nodes t (await (t + 1) (initials ps) [])
      ≡ idle t ∷ serve_nodes (t + 1) (await (t + 1) (initials ps) [])
idle_served t ps run d =
    first (await (t + 1) (initials ps) [])
      (omega (arith, some_coming t ps run d, await-nonempty (t + 1) (initials ps) []))
      (await-later (t + 1) (initials ps) [] tt)
  where
    first :
        (l : List FcfsProcess)
        → 0 < total (λ x. 1) l
        → All (λ x. t + 1 ≤ x.arrival_time) l
        → serve_nodes t l ≡ idle t ∷ serve_nodes (t + 1) l
    first [] pos h = absurd (omega arith)
    first (x ∷ l) pos h = serve_nodes-idle t x l (omega arith)

module _ (latest demand : ℕ) where
  abbrev pub Sim : ℕ → List ProcessStats → List FcfsProcess → List Line → Type 0
  Sim t ps s out = Simulates contract latest demand t ps s out

  nothing_left :
      (t : ℕ) (ps : List ProcessStats) (s : List FcfsProcess) (out : List Line)
      → Sim t ps s out
      → work ps ≡ 0
      → out ≡ out ++ serve_nodes t (await t (initials ps) s)
  nothing_left t ps s out sim e =
      let empty : s ≡ [] =
        done_empty s sim.valid (λ q. omega (arith, sim.agrees q, due-le-work t q ps)) in
      let none_left : await t (initials ps) s ≡ [] = rw empty (
        empty-total _
          (omega (arith, none_coming t ps sim.tracked e, await-nonempty t (initials ps) []))) in
      rw none_left (sym (append-nil out))

  -- What the induction says of the rounds left.
  abbrev pub Prints : ℕ → Type 0
  Prints rounds =
      (t : ℕ) (ps : List ProcessStats) (s : List FcfsProcess) (out : List Line)
      → Sim t ps s out
      → All (λ x. x.arrival_time ≤ t) s
      → latest + demand ≤ t + rounds
      → lines_of (simulate fcfs rounds t ps s out)
        ≡ some (out ++ serve_nodes t (await t (initials ps) s))

  module _ (rounds t : ℕ) (ps : List ProcessStats) (s : List FcfsProcess) (out : List Line)
      (sim : Sim t ps s out) (here : All (λ x. x.arrival_time ≤ t) s)
      (run : still_running ps ≡ true) (enough : latest + demand ≤ t + suc rounds) where
    abbrev l : List FcfsProcess
    l = arrived contract latest demand t ps s out

    l-IsWaiting : All IsWaiting l
    l-IsWaiting = valid' contract latest demand t ps s out sim

    here_now : All (λ x. x.arrival_time ≤ t) l
    here_now = add_arrivals-arrived t ps s here

    -- The schedule to print, with the arrivals of this step in the list.
    printed_now :
        some (out ++ serve_nodes t (await (t + 1) (initials ps) l))
        ≡ some (out ++ serve_nodes t (await t (initials ps) s))
    printed_now = rw (await-add_arrivals t ps s) refl

    idle_case :
        chosen contract latest demand t ps s out ≡ 0
        → Prints rounds
        → lines_of (simulate fcfs (suc rounds) t ps s out)
          ≡ some (out ++ serve_nodes t (await t (initials ps) s))
    idle_case e ih =
        let empty : l ≡ [] = idle_empty l l-IsWaiting e in
        let d : (q : ℕ) → due (t + 1) ps q ≡ 0 = λ q. omega (
          arith,
          idle_only_when_done l q l-IsWaiting e,
          agrees' contract latest demand t ps s out sim q,
        ) in
        let next = Simulates-idle contract latest demand t ps s out sim run e in
        let still_empty : after contract latest demand t ps s out ≡ [] = next_of_empty l empty in
        let rest =
          ih (t + 1) ps (after contract latest demand t ps s out) _ next (rw still_empty tt)
            (omega arith) in
        rw (simulate-idle contract latest demand t ps s out rounds run e) (
          rest
          ∙ ap some (
              append_assoc out (idle t ∷ []) _
              ∙ ap (λ lines. out ++ lines) (rw (still_empty, empty) (sym (idle_served t ps run d))))
          ∙ printed_now)

    busy_case :
        0 < chosen contract latest demand t ps s out
        → Prints rounds
        → lines_of (simulate fcfs (suc rounds) t ps s out)
          ≡ some (out ++ serve_nodes t (await t (initials ps) s))
    busy_case pos ih =
        let has = next_has_work l l-IsWaiting pos in
        let (i, p, r, at) =
          Runs-found t (chosen contract latest demand t ps s out) ps sim.tracked sim.unique (
            omega (
              arith,
              has,
              agrees' contract latest demand t ps s out sim
                  (chosen contract latest demand t ps s out),
            )) in
        let next = Simulates-busy contract latest demand t ps s out sim i p r in
        let rest =
          ih (t + 1) _ (after contract latest demand t ps s out) _ next
            (next-arrived t (initials ps) l l-IsWaiting here_now) (omega arith) in
        rw
          (simulate-busy contract latest demand t ps s out rounds i p run pos
            (found_at _ i ps (at 0)) r)
          (rest
            ∙ ap some (
                append_assoc out (ran t (chosen contract latest demand t ps s out) ∷ []) _
                ∙ ap (λ lines. out ++ lines)
                    (rw r.initials'
                      (sym (serve_nodes-next t (initials ps) l l-IsWaiting here_now pos))))
            ∙ printed_now)

  -- The rest of the simulation prints the schedule of what is left.
  pub simulate-Prints : (rounds : ℕ) → Prints rounds
  simulate-Prints zero t ps s out sim here enough =
      unfold simulate in ap some (nothing_left t ps s out sim (omega (arith, sim.budget)))
  simulate-Prints (suc rounds) t ps s out sim here enough = elim (Bool-cases (still_running ps)) [
    | inr stop ↦
        rw (simulate-stop contract latest demand rounds t ps s out stop)
          (ap some (nothing_left t ps s out sim (still_running-work ps stop)))
    | inl run ↦ elim (eq_cases (chosen contract latest demand t ps s out) 0) [
      | inl e ↦ idle_case rounds t ps s out sim here run enough e (simulate-Prints rounds)
      | inr ne ↦
          busy_case rounds t ps s out sim here run enough (omega arith) (simulate-Prints rounds)
    ]
  ]
