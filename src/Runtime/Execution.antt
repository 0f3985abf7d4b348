-- ===== src/Runtime/Execution.antt =====
-- src/orkio_v2/runtime/execution_record.py: the life of one execution.
pub mod Laws
use efata_777_backend_premiu.Prelude.{
  ℕ, suc, String, Bool, true, false, Option, none, some, List, [], ◌∷◌, if◌then◌else◌,
}
use efata_777_backend_premiu.Runtime.Contracts.{Result, ok, err}

pub data ExecutionStatus : Type 0 where
  created started persisted completed failed : ExecutionStatus

pub record ExecutionRecord : Type 0 where
  pub request_id : String
  pub execution_id : String
  pub tenant_id : String
  pub thread_id : String
  pub user_id : String
  pub requested_target : String
  pub resolved_agent_id : String
  pub turn_owner_agent_id : String
  pub display_agent_id : String
  pub route_family : String
  pub channel : String
  pub execution_engine : String
  pub status : ExecutionStatus
  pub created_at : ℕ
  pub started_at : Option ℕ
  pub persisted_at : Option ℕ
  pub completed_at : Option ℕ
  pub failed_at : Option ℕ
  pub message_id : Option String
  pub terminal_status : Option String
  pub provider : Option String
  pub model : Option String
  pub token_usage : Option (List (String × ℕ))
  pub latency_ms : Option ℕ
  pub error_code : Option String

-- `_ALLOWED`.
abbrev pub is_allowed : ExecutionStatus → ExecutionStatus → Bool
is_allowed created started = true
is_allowed created failed = true
is_allowed started persisted = true
is_allowed started failed = true
is_allowed persisted completed = true
is_allowed persisted failed = true
is_allowed _ _ = false

-- The timestamp and the terminal status that a new status brings.
abbrev pub stamp : ExecutionStatus → ℕ → ExecutionRecord → ExecutionRecord
stamp created now r = r
stamp started now r = record r { started_at = some now }
stamp persisted now r = record r { persisted_at = some now }
stamp completed now r = record r { completed_at = some now; terminal_status = some "completed" }
stamp failed now r = record r { failed_at = some now; terminal_status = some "failed" }

-- `at or datetime.now()`.
abbrev at_or : Option ℕ → ℕ → ℕ
at_or none clock = clock
at_or (some t) clock = t

unfoldable pub transition :
    ExecutionStatus → Option ℕ → ℕ → ExecutionRecord → Result ExecutionRecord
transition next at clock r =
    if is_allowed r.status next
    then ok (stamp next (at_or at clock) (record r { status = next }))
    else err "EXECUTION_INVALID_TRANSITION"

abbrev pub is_terminal : ExecutionStatus → Bool
is_terminal completed = true
is_terminal failed = true
is_terminal _ = false

-- The fields that `__setattr__` guards once the constructor has locked the identity.
abbrev pub Identity : Type 0
Identity =
    String × String × String × String × String × String × String × String × String × String × String
    × String

abbrev pub identity : ExecutionRecord → Identity
identity r = (
  r.request_id, r.execution_id, r.tenant_id, r.thread_id, r.user_id, r.requested_target,
  r.resolved_agent_id, r.turn_owner_agent_id, r.display_agent_id, r.route_family, r.channel,
  r.execution_engine,
)

-- An assignment `r.name = value` from outside.
pub data Assignment : Type 0 where
  to_identity : String → String → Assignment
  message_id : Option String → Assignment
  provider : Option String → Assignment
  model : Option String → Assignment
  latency_ms : Option ℕ → Assignment
  error_code : Option String → Assignment

unfoldable pub set_attribute : Assignment → ExecutionRecord → Result ExecutionRecord
set_attribute (to_identity name value) r = err "EXECUTION_IDENTITY_IMMUTABLE"
set_attribute (message_id v) r = ok (record r { message_id = v })
set_attribute (provider v) r = ok (record r { provider = v })
set_attribute (model v) r = ok (record r { model = v })
set_attribute (latency_ms v) r = ok (record r { latency_ms = v })
set_attribute (error_code v) r = ok (record r { error_code = v })

-- What a run does to a record: each operation that raises leaves it.
pub data Operation : Type 0 where
  advance : ExecutionStatus → Option ℕ → ℕ → Operation
  assign : Assignment → Operation

abbrev kept : ExecutionRecord → Result ExecutionRecord → ExecutionRecord
kept r (ok r') = r'
kept r (err e) = r

unfoldable pub perform : Operation → ExecutionRecord → ExecutionRecord
unfolding transition set_attribute
perform (advance next at clock) r = kept r (transition next at clock r)
perform (assign a) r = kept r (set_attribute a r)

unfoldable pub run : ExecutionRecord → List Operation → ExecutionRecord
unfolding perform
run r [] = r
run r (o ∷ os) = run (perform o r) os
