-- ===== src/Runtime/Contracts.antt =====
-- src/orkio_v2/runtime/contracts.py: the envelope of one turn, and what it produces.
use efata_777_backend_premiu.Prelude.{ℕ, String, Bool, Option, List, if◌then◌else◌}

pub data RuntimeChannel : Type 0 where
  chat_json chat_sse realtime : RuntimeChannel

pub data RuntimeRouteFamily : Type 0 where
  direct_agent team : RuntimeRouteFamily

pub record CanonicalTurnContext : Type 0 where
  pub execution_id : String
  pub request_id : String
  pub thread_id : String
  pub tenant_id : String
  pub user_id : String
  pub requested_target : String
  pub resolved_agent_id : String
  pub turn_owner_agent_id : String
  pub display_agent_id : String
  pub display_agent_name : String
  pub technical_lead_agent_id : Option String
  pub route_family : RuntimeRouteFamily
  pub channel : RuntimeChannel
  pub ownership_locked : Bool
  pub governance_mode : String
  pub internal_persistence_allowed : Bool
  pub external_write_allowed : Bool
  pub execution_allowed : Bool
  pub orchestrator_agent_id : Option String

pub record ContextContribution : Type 0 where
  pub contribution_id : String
  pub execution_id : String
  pub thread_id : String
  pub tenant_id : String
  pub source_agent_id : String
  pub requested_by_agent_id : String
  pub target_turn_owner_agent_id : String
  pub purpose : String
  pub content : String
  pub created_at : ℕ

pub record CanonicalMessage : Type 0 where
  pub message_id : String
  pub execution_id : String
  pub thread_id : String
  pub tenant_id : String
  pub agent_id : String
  pub agent_name : String
  pub content : String
  pub content_sha256 : String
  pub created_at : ℕ

pub record ResponseEnvelope : Type 0 where
  pub message_id : String
  pub execution_id : String
  pub thread_id : String
  pub tenant_id : String
  pub agent_id : String
  pub agent_name : String
  pub display_name : String
  pub final_speaker_agent_id : String
  pub turn_owner_agent_id : String
  pub route_family : RuntimeRouteFamily
  pub content : String
  pub status : String
  pub error : Option String
  pub token_usage : Option (List (String × ℕ))
  pub latency_ms : Option ℕ
  pub created_at : ℕ

-- What a function returns, or the code of the exception that it raises.
pub data Result (A : Type 0) : Type 0 where
  ok : A → Result A
  err : String → Result A

-- `if failed: raise ...`, for a list of such lines in front of a result.
abbrev pub raise_if : Bool → String → Result (Unit {0})
raise_if failed code = if failed then err code else ok tt

infixl 5 ◌>>◌
abbrev pub ◌>>◌ : {A : Type 0} → Result (Unit {0}) → Result A → Result A
err code >> rest = err code
ok passed >> rest = rest
