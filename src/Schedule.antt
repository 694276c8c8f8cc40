-- ===== src/Schedule.antt =====
-- What assignments/assignment4/simulator/readme.md promises of FCFS, as a schedule computed from
-- the processes alone: they run in the order of their arrival times, of PIDs where these are the
-- same, each for all its time.
pub mod Insertion
pub mod Waiting
pub mod Nodes
pub mod Printed
pub mod Run
mod Examples
use Prim.Native.Nat.{max}
use cosc.Base.{ℕ, zero, suc, ◌+◌, ◌-◌, List, [], ◌∷◌, ◌++◌}
use cosc.Process.{ProcessInitial}
use cosc.Simulator.{Line, ran, idle}

-- `count` steps from time `t` on without a process, and with one.
abbrev pub idles : ℕ → ℕ → List Line
idles t zero = []
idles t (suc count) = idle t ∷ idles (t + 1) count

abbrev pub runs : ℕ → ℕ → ℕ → List Line
runs pid t zero = []
runs pid t (suc count) = ran t pid ∷ runs pid (t + 1) count

-- The schedule of processes in this order from time `t` on.
abbrev pub serve : ℕ → List ProcessInitial → List Line
serve t [] = []
serve t (p ∷ ps) =
    let from = max t p.arrival_time in
    idles t (p.arrival_time - t)
    ++ (runs p.pid from p.processing_time ++ serve (from + p.processing_time) ps)
