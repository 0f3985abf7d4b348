-- ===== src/Runtime/Execution/Laws.antt =====
-- Sequences of operations on an execution record.
use efata_777_backend_premiu.Prelude.{String, ◌≡◌, Bool, true, false, Option, none, some}
use efata_777_backend_premiu.Runtime.Execution.{
  ExecutionStatus, started, persisted, completed, failed, ExecutionRecord,
}

abbrev pub is_set {ℓ} : {A : Type ℓ} → Option A → Bool
is_set none = false
is_set (some a) = true

abbrev pub was_started : ExecutionStatus → Bool
was_started started = true
was_started persisted = true
was_started completed = true
was_started _ = false

abbrev pub was_persisted : ExecutionStatus → Bool
was_persisted persisted = true
was_persisted completed = true
was_persisted _ = false

abbrev pub is_completed : ExecutionStatus → Bool
is_completed completed = true
is_completed _ = false

abbrev pub is_failed : ExecutionStatus → Bool
is_failed failed = true
is_failed _ = false

abbrev pub terminal_name : ExecutionStatus → Option String
terminal_name completed = some "completed"
terminal_name failed = some "failed"
terminal_name _ = none

-- The timestamps that a state has, and the terminal status that belongs to it.
pub record IsConsistent (r : ExecutionRecord) : Type 0 where
  pub started_stamp : was_started r.status ≡ true → is_set r.started_at ≡ true
  pub persisted_stamp : was_persisted r.status ≡ true → is_set r.persisted_at ≡ true
  pub completed_stamp : is_set r.completed_at ≡ is_completed r.status
  pub failed_stamp : is_set r.failed_at ≡ is_failed r.status
  pub terminal : r.terminal_status ≡ terminal_name r.status
