-- ===== src/Schedule/Nodes.antt =====
-- The schedule of nodes, and the part of it that one step of the simulation prints.
use mathlib.Core.List.{map}
use Prim.Native.Nat.{max}
use cosc.Base.{
  ℕ, suc, ◌+◌, ◌-◌, ◌≤◌, ◌<◌, ◌≡◌, refl, List, [], ◌∷◌, ◌++◌, arith, All, lt_cases, ◌⊎◌, inl, inr,
}
use cosc.Process.{ProcessInitial}
use cosc.Fcfs.{FcfsProcess, new_process, get_next_scheduled_process}
use cosc.Fcfs.Work.{IsWaiting}
use cosc.Fcfs.Order.{next-more, next-last}
use cosc.Simulator.{Line, ran, idle}
use cosc.Schedule.{idles, runs, serve}
use cosc.Schedule.Waiting.{await, await-head}

-- The schedule of nodes: those that are in the list have had some of their time.
abbrev pub serve_nodes : ℕ → List FcfsProcess → List Line
serve_nodes t [] = []
serve_nodes t (p ∷ l) =
    let from = max t p.arrival_time in
    let need = p.processing_time - p.processed_time in
    idles t (p.arrival_time - t) ++ (runs p.pid from need ++ serve_nodes (from + need) l)

pub serve_nodes-map :
    (t : ℕ) (ps : List ProcessInitial) → serve_nodes t (map new_process ps) ≡ serve t ps
unfolding new_process
serve_nodes-map t [] = refl
serve_nodes-map t (p ∷ ps) =
    let whole : p.processing_time - 0 ≡ p.processing_time = omega arith in
    rw (whole, serve_nodes-map (max t p.arrival_time + p.processing_time) ps) refl

-- Before the first arrival a step is idle.
pub serve_nodes-idle :
    (t : ℕ) (p : FcfsProcess) (l : List FcfsProcess)
    → t < p.arrival_time
    → serve_nodes t (p ∷ l) ≡ idle t ∷ serve_nodes (t + 1) (p ∷ l)
serve_nodes-idle t p l h =
    let more : p.arrival_time - t ≡ suc (p.arrival_time - (t + 1)) = omega arith in
    let same : max t p.arrival_time ≡ max (t + 1) p.arrival_time = omega arith in
    rw (more, same) refl

module _ (t : ℕ) (p : FcfsProcess) (l : List FcfsProcess) (here : p.arrival_time ≤ t) where
  serve_nodes-last :
      p.processing_time ≡ p.processed_time + 1
      → serve_nodes t (p ∷ l) ≡ ran t p.pid ∷ serve_nodes (t + 1) l
  serve_nodes-last e =
      let no_wait : p.arrival_time - t ≡ 0 = omega arith in
      let need : p.processing_time - p.processed_time ≡ 1 = omega arith in
      let from : max t p.arrival_time ≡ t = omega arith in rw (no_wait, need, from) refl

  serve_nodes-more :
      p.processed_time + 1 < p.processing_time
      → serve_nodes t (p ∷ l)
        ≡ ran t p.pid ∷ serve_nodes (t + 1) (record p { processed_time = p.processed_time + 1 } ∷ l)
  serve_nodes-more h =
      let no_wait : p.arrival_time - t ≡ 0 = omega arith in
      let no_wait' : p.arrival_time - (t + 1) ≡ 0 = omega arith in
      let need : p.processing_time - p.processed_time
          ≡ suc (p.processing_time - (p.processed_time + 1)) =
        omega arith in
      let from : max t p.arrival_time ≡ t = omega arith in
      let from' : max (t + 1) p.arrival_time ≡ t + 1 = omega arith in
      let end : t + suc (p.processing_time - (p.processed_time + 1))
          ≡ t + 1 + (p.processing_time - (p.processed_time + 1)) =
        omega arith in
      rw (no_wait, need, from, no_wait', from', end) refl

last_or_more :
    (n : FcfsProcess)
    → IsWaiting n
    → (n.processing_time ≡ n.processed_time + 1)
      ⊎ ((k : ℕ) × (n.processing_time ≡ n.processed_time + suc (suc k)))
last_or_more n w = elim (lt_cases (n.processed_time + 1) n.processing_time) [
  | inl more ↦ inr (n.processing_time - n.processed_time - 2, omega arith)
  | inr last ↦ inl (omega arith)
]

module _ (t : ℕ) (later : List ProcessInitial) where
  -- A step that runs a process prints the first line of the schedule.
  pub serve_nodes-next :
      (l : List FcfsProcess)
      → All IsWaiting l
      → All (λ x. x.arrival_time ≤ t) l
      → 0 < (get_next_scheduled_process l).0
      → serve_nodes t (await (t + 1) later l)
        ≡ ran t (get_next_scheduled_process l).0
          ∷ serve_nodes (t + 1) (await (t + 1) later (get_next_scheduled_process l).1)
  serve_nodes-next [] w h pos = unfold get_next_scheduled_process in absurd (omega arith)
  serve_nodes-next (n ∷ l) w h pos =
      let ahead : n.arrival_time < t + 1 = omega arith in
      elim (last_or_more n w.0) [
        | inl e ↦
            rw (next-last n l w.0 e, await-head (t + 1) later n l ahead)
              (serve_nodes-last t n (await (t + 1) later l) h.0 (omega arith))
        | inr (k, e) ↦
            let n' : FcfsProcess = record n { processed_time = n.processed_time + 1 } in
            rw
              (
                next-more k n l w.0 e,
                await-head (t + 1) later n l ahead,
                await-head (t + 1) later n' l ahead,
              )
              (serve_nodes-more t n (await (t + 1) later l) h.0 (omega arith))
      ]

  -- It leaves only processes that had arrived.
  pub next-arrived :
      (l : List FcfsProcess)
      → All IsWaiting l
      → All (λ x. x.arrival_time ≤ t) l
      → All (λ x. x.arrival_time ≤ t + 1) (get_next_scheduled_process l).1
  next-arrived [] w h = unfold get_next_scheduled_process in tt
  next-arrived (n ∷ l) w h = elim (last_or_more n w.0) [
    | inl e ↦ rw (next-last n l w.0 e) (weaken l h.1)
    | inr (k, e) ↦ rw (next-more k n l w.0 e) (omega arith, weaken l h.1)
  ]
    where
      weaken :
          (xs : List FcfsProcess)
          → All (λ x. x.arrival_time ≤ t) xs
          → All (λ x. x.arrival_time ≤ t + 1) xs
      weaken [] h = tt
      weaken (x ∷ xs) h = (omega arith, weaken xs h.1)
