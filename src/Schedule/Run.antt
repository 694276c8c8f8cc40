-- ===== src/Schedule/Run.antt =====
-- The whole simulation with FCFS.
use mathlib.Core.List.{Perm, append-nil}
use cosc.Base.{ℕ, ◌+◌, ◌≤◌, ◌≡◌, sym, ap, ◌∙◌, true, List, [], some, arith}
use cosc.Process.{ProcessInitial}
use cosc.ReadyList.Order.{IsSorted}
use cosc.Fcfs.{fcfs}
use cosc.Fcfs.Work.{contract, fcfs-IsWorkConserving}
use cosc.Simulator.{ProcessStats, returned, run_simulation}
use cosc.Simulator.Invariant.{IsLoaded, initials, work}
use cosc.Simulator.Correct.{latest_arrival, Simulates-start, run_simulation_completes}
use cosc.Schedule.{serve}
use cosc.Schedule.Waiting.{
  in_order_from, in_order_from-perm, in_order_from-IsSorted, await-in_order,
}
use cosc.Schedule.Nodes.{serve_nodes, serve_nodes-map}
use cosc.Schedule.Printed.{lines_of, simulate-Prints}

run_simulation-prints :
    (ps : List ProcessStats) (time_bound : ℕ)
    → IsLoaded ps
    → latest_arrival ps + work ps ≤ time_bound
    → lines_of (run_simulation fcfs ps time_bound) ≡ some (serve 0 (in_order_from (initials ps) []))
unfolding run_simulation
run_simulation-prints ps time_bound l enough =
    simulate-Prints (latest_arrival ps) (work ps) time_bound 0 ps [] []
      (Simulates-start contract ps l) tt (omega arith)
    ∙ ap some (
        ap (serve_nodes 0) (await-in_order (initials ps) [])
        ∙ serve_nodes-map 0 (in_order_from (initials ps) []))

-- From admissible processes with different PIDs, and with a time bound of at least the last arrival
-- time plus all processing times, the simulation with FCFS succeeds, and what it prints is the
-- schedule of the processes in the order of arrival time, then PID: each runs for all its
-- processing time, from its arrival or the end of the process before it on, and the steps between
-- are idle.
pub fcfs_prints :
    (ps : List ProcessStats) (time_bound : ℕ)
    → IsLoaded ps
    → latest_arrival ps + work ps ≤ time_bound
    → (order : List ProcessInitial) × (processes : List ProcessStats) × Perm order (initials ps)
      × IsSorted (λ x. x.arrival_time) (λ x. x.pid) order
      × (run_simulation fcfs ps time_bound ≡ returned true processes (serve 0 order))
fcfs_prints ps time_bound l enough =
    let (processes, lines, result, same, finished) =
      run_simulation_completes fcfs-IsWorkConserving ps time_bound l enough in
    let order = in_order_from (initials ps) [] in
    let prints : some lines ≡ some (serve 0 order) =
      ap lines_of (sym result) ∙ run_simulation-prints ps time_bound l enough in
    let same_lines : lines ≡ serve 0 order = cc in
    (
      order,
      processes,
      rw (append-nil (initials ps)) at (in_order_from-perm (initials ps) []),
      in_order_from-IsSorted (initials ps) [] tt,
      result ∙ ap (returned true processes) same_lines,
    )
