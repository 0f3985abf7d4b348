-- ===== src/Runtime/Identity.antt =====
-- src/orkio_v2/runtime/identity.py: the turn, its message and its envelope.
pub mod Laws
use efata_777_backend_premiu.Prelude.{
  ℕ, String, Bool, true, not, ◌&&◌, ◌||◌, Option, none, some, List, str_eq,
}
use efata_777_backend_premiu.Prelude.Text.{text_or}
use efata_777_backend_premiu.Runtime.Contracts.{
  RuntimeChannel, RuntimeRouteFamily, CanonicalTurnContext, CanonicalMessage, ResponseEnvelope,
  Result, ok, raise_if, ◌>>◌,
}

-- `ExecutionEngine` and `ExecutionContext` of src/orkio_v2/agents/contracts.py.
pub data ExecutionEngine : Type 0 where
  direct_agent : ExecutionEngine

pub record ExecutionContext : Type 0 where
  pub room_context : String
  pub requested_target : String
  pub resolved_target : String
  pub turn_owner : String
  pub display_agent : String
  pub execution_engine : ExecutionEngine
  pub orchestrator : Option String
  pub ownership_locked : Bool

-- The arguments of `build_direct_turn_context` beside the execution.
pub record TurnRequest : Type 0 where
  pub thread_id : String
  pub tenant_id : String
  pub user_id : String
  pub requested_target : String
  pub channel : RuntimeChannel
  pub request_id : Option String
  pub execution_id : Option String
  pub governance_mode : String
  pub internal_persistence_allowed : Bool
  pub external_write_allowed : Bool
  pub execution_allowed : Bool

-- The identifiers are the given ones, or the two that `uuid4` draws.
unfoldable pub build_direct_turn_context :
    String → String → ExecutionContext → TurnRequest → Result CanonicalTurnContext
build_direct_turn_context uuid1 uuid2 x q =
    raise_if (not x.ownership_locked) "DIRECT_EXECUTION_MUST_LOCK_OWNERSHIP"
    >> raise_if (not (str_eq x.resolved_target x.turn_owner)) "DIRECT_RESOLVED_OWNER_MISMATCH"
    >> ok (record {
      execution_id = text_or q.execution_id uuid1;
      request_id = text_or q.request_id uuid2;
      thread_id = q.thread_id;
      tenant_id = q.tenant_id;
      user_id = q.user_id;
      requested_target = q.requested_target;
      resolved_agent_id = x.resolved_target;
      turn_owner_agent_id = x.turn_owner;
      display_agent_id = x.turn_owner;
      display_agent_name = x.display_agent;
      technical_lead_agent_id = none;
      route_family = RuntimeRouteFamily.direct_agent;
      channel = q.channel;
      ownership_locked = true;
      governance_mode = q.governance_mode;
      internal_persistence_allowed = q.internal_persistence_allowed;
      external_write_allowed = q.external_write_allowed;
      execution_allowed = q.execution_allowed;
      orchestrator_agent_id = x.orchestrator;
    })

unfoldable pub require_same_owner : CanonicalTurnContext → String → Result CanonicalTurnContext
require_same_owner t candidate =
    raise_if (t.ownership_locked && not (str_eq candidate t.turn_owner_agent_id))
      "TURN_OWNER_IMMUTABLE"
    >> ok (record t { turn_owner_agent_id = candidate })

-- `created_at or datetime.now()`.
abbrev pub moment_or : Option ℕ → ℕ → ℕ
moment_or none clock = clock
moment_or (some t) clock = t

-- The digest is hashlib's, the clock the machine's.
unfoldable pub canonical_message :
    (String → String) → ℕ → String → CanonicalTurnContext → String → Option ℕ → CanonicalMessage
canonical_message sha256 clock id t text at = record {
  message_id = id;
  execution_id = t.execution_id;
  thread_id = t.thread_id;
  tenant_id = t.tenant_id;
  agent_id = t.turn_owner_agent_id;
  agent_name = t.display_agent_name;
  content = text;
  content_sha256 = sha256 text;
  created_at = moment_or at clock;
}

-- The optional arguments of `build_response_envelope`.
pub record Outcome : Type 0 where
  pub status : String
  pub error : Option String
  pub token_usage : Option (List (String × ℕ))
  pub latency_ms : Option ℕ

unfoldable pub build_response_envelope :
    CanonicalTurnContext → CanonicalMessage → Outcome → Result ResponseEnvelope
build_response_envelope t m o =
    raise_if (not (str_eq m.execution_id t.execution_id)) "MESSAGE_EXECUTION_MISMATCH"
    >> raise_if (not (str_eq m.thread_id t.thread_id) || not (str_eq m.tenant_id t.tenant_id))
        "MESSAGE_SCOPE_MISMATCH"
    >> raise_if (not (str_eq m.agent_id t.turn_owner_agent_id)) "MESSAGE_OWNER_MISMATCH"
    >> ok (record {
      message_id = m.message_id;
      execution_id = t.execution_id;
      thread_id = t.thread_id;
      tenant_id = t.tenant_id;
      agent_id = t.turn_owner_agent_id;
      agent_name = t.display_agent_name;
      display_name = t.display_agent_name;
      final_speaker_agent_id = t.turn_owner_agent_id;
      turn_owner_agent_id = t.turn_owner_agent_id;
      route_family = t.route_family;
      content = m.content;
      status = o.status;
      error = o.error;
      token_usage = o.token_usage;
      latency_ms = o.latency_ms;
      created_at = m.created_at;
    })
