-- ===== src/QuantumProcess.antt =====
-- The node type that rr.c, constant.c, exponential.c and custom.c of
-- assignments/assignment4/simulator/submissions/submission declare alike (`rr_process` and so on),
-- less the link, and the processing time that such a node still needs.
use cosc.Base.{ℕ, ◌+◌, ◌-◌, ◌^◌, ◌<◌, List, total, ◌==◌, if◌then◌else◌, u32}
use cosc.Process.{ProcessInitial}

pub record QuantumProcess : Type 0 where
  pub pid : ℕ
  pub processing_time : ℕ
  pub arrival_time : ℕ
  pub processed_time : ℕ
  pub quantum_used : ℕ

-- The node that `add_to_ready_queue` allocates.
unfoldable pub new_process : ProcessInitial → QuantumProcess
new_process process = record {
  pid = process.pid;
  processing_time = process.processing_time;
  arrival_time = process.arrival_time;
  processed_time = 0;
  quantum_used = 0;
}

-- `processed_time++; quantum_used++;`
unfoldable pub execute : QuantumProcess → QuantumProcess
execute current = record current {
  processed_time = u32 (current.processed_time + 1);
  quantum_used = u32 (current.quantum_used + 1);
}

-- A process that waits has a PID and is not finished.
pub record IsWaiting (p : QuantumProcess) : Type 0 where
  pub pid_pos : 0 < p.pid
  pub unfinished : p.processed_time < p.processing_time
  pub fits : p.processing_time < 2 ^ 32

-- Processing time that the node still needs, if its PID is `q`.
abbrev pub left : ℕ → QuantumProcess → ℕ
left q p = if p.pid == q then p.processing_time - p.processed_time else 0

abbrev pub remaining : List QuantumProcess → ℕ → ℕ
remaining l q = total (left q) l
