-- ===== src/Linked/Simulated.antt =====
-- The simulation over the nodes in memory.
use cosc.Base.{ℕ, suc, ◌+◌, ◌≤◌, ◌<◌, ◌≡◌, refl, Bool, List, Option, some, arith, length}
use cosc.Process.{ProcessInitial}
use cosc.Fcfs.{FcfsProcess, fcfs}
use cosc.Simulator.{ProcessStats, run_simulation}
use cosc.Simulator.Related.{Relation, run_simulation-Related}
use cosc.Linked.Nodes.{Memory, IsAllocator}
use cosc.Linked.{initial}
use cosc.Linked.Refines.{Represents}
use cosc.Linked.Adding.{add-Implements}
use cosc.Linked.Calls.{next-Implements, initial-Represents, initial-empty}
use cosc.Linked.Scheduler.{linked}

-- The memory holds the list, and the fuel is enough for `k` more nodes.
record Holds (fuel k : ℕ) (state : Option Memory) (l : List FcfsProcess) : Type 0 where
  memory : Memory
  is_memory : state ≡ some memory
  represents : Represents memory l
  room : length represents.cells + k + 1 < fuel

module _ (pick : List ℕ → ℕ) (alloc : IsAllocator pick) (debug : Bool) (fuel : ℕ) where
  add-Holds :
      (k : ℕ) (p : ProcessInitial) (s : Option Memory) (l : List FcfsProcess)
      → Holds fuel (suc k) s l
      → Holds fuel k ((linked pick debug fuel).add_to_ready_queue p s) (fcfs.add_to_ready_queue p l)
  add-Holds k p s l h =
      let d =
        add-Implements pick alloc p h.memory l h.represents debug fuel (omega (arith, h.room)) in
      record {
        memory = d.after;
        is_memory = rw (h.is_memory) (rw d.returned refl);
        represents = d.represents;
        room = omega (arith, d.bounded, h.room);
      }

  next-Holds :
      (k : ℕ) (s : Option Memory) (l : List FcfsProcess)
      → Holds fuel k s l
      → (((linked pick debug fuel).get_next_scheduled_process s).0
          ≡ (fcfs.get_next_scheduled_process l).0)
        × Holds fuel k
            ((linked pick debug fuel).get_next_scheduled_process s).1
            (fcfs.get_next_scheduled_process l).1
  next-Holds k s l h =
      let d = next-Implements debug fuel h.memory l h.represents (omega (arith, h.room)) in
      (
        rw (h.is_memory) (rw d.returned refl),
        record {
          memory = d.after;
          is_memory = rw (h.is_memory) (rw d.returned refl);
          represents = d.represents;
          room = omega (arith, d.bounded, h.room);
        },
      )

  holds : Relation (linked pick debug fuel) fcfs
  holds = record { Related = Holds fuel; add = add-Holds; next = next-Holds }

-- With an allocator that does not fail and fuel above the number of processes and one, the
-- simulation over the nodes in memory ends exactly as over the list, in debug mode or not: with the
-- same lines and the same array. So, where the simulation over the list returns, no call over the
-- nodes accesses memory that is not allocated or runs out of fuel.
pub simulation_refines :
    (pick : List ℕ → ℕ) (debug : Bool) (fuel : ℕ) (ps : List ProcessStats) (time_bound : ℕ)
    → IsAllocator pick
    → length ps + 1 < fuel
    → run_simulation (linked pick debug fuel) ps time_bound ≡ run_simulation fcfs ps time_bound
unfolding holds
simulation_refines pick debug fuel ps time_bound alloc enough =
    run_simulation-Related (holds pick alloc debug fuel) ps time_bound (λ k le. record {
      memory = initial;
      is_memory = refl;
      represents = initial-Represents;
      room = start_room k le;
    })
  where
    start_room : (k : ℕ) → k ≤ length ps → length initial-Represents.cells + k + 1 < fuel
    start_room k le = omega (arith, initial-empty)
