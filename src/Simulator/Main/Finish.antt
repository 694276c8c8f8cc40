-- ===== src/Simulator/Main/Finish.antt =====
-- A whole run of the simulator program.
use cosc.Base.{ℕ, ◌≡◌, List, ◌∷◌, ◌++◌, All, map}
use cosc.Process.{ProcessInitial}
use cosc.Simulator.{ProcessStats, Line}
use cosc.Simulator.Invariant.{IsFinished, initials, spent, printed}
use cosc.Simulator.Steps.{AreSteps}
use cosc.Simulator.Main.{Double, Exit, exited, heading, step}
use cosc.Simulator.Main.Average.{IsExact, statistics, HasTimes}

module _ (D : Double) (exact : IsExact D) where
  -- The program ends with status 0 after the heading, one line for each step, and the two averages:
  -- those of the turnaround and wait times of the processes in the array at its end. The line of
  -- step `t` has the time `t` and is idle or names a process that has arrived. The processes have
  -- all run to their end, and their PIDs are printed as often as they ran.
  pub record Reports (initial : List ProcessInitial) (exit : Exit D) : Type 0 where
    pub processes : List ProcessStats
    pub lines : List Line
    pub result : exit ≡ exited 0 (heading ∷ (map step lines ++ statistics D exact processes))
    pub same : initials processes ≡ initial
    pub one_each : AreSteps initial 0 lines
    pub complete : All IsFinished processes
    pub schedule : (q : ℕ) → printed q lines ≡ spent q processes
    pub times : HasTimes processes
