-- ===== src/Runtime/Realtime.antt =====
-- src/orkio_v2/runtime/realtime.py: who speaks in a realtime session.
use efata_777_backend_premiu.Prelude.{String, Bool, true, false, not, ◌||◌, str_eq}
use efata_777_backend_premiu.Runtime.Contracts.{
  RuntimeChannel, realtime, CanonicalTurnContext, Result, ok, raise_if, ◌>>◌,
}

pub record RealtimeIdentity : Type 0 where
  pub execution_id : String
  pub tenant_id : String
  pub thread_id : String
  pub resolved_agent_id : String
  pub turn_owner_agent_id : String
  pub display_agent_id : String
  pub speaker_agent_id : String
  pub ownership_locked : Bool

-- The set of the four agents has more than one member.
unfoldable pub validate_realtime_identity : RealtimeIdentity → Result (Unit {0})
validate_realtime_identity i =
    raise_if (not i.ownership_locked) "REALTIME_OWNERSHIP_MUST_BE_LOCKED"
    >> raise_if
        (not (str_eq i.resolved_agent_id i.turn_owner_agent_id)
          || not (str_eq i.resolved_agent_id i.display_agent_id)
          || not (str_eq i.resolved_agent_id i.speaker_agent_id))
        "REALTIME_SPEAKER_IDENTITY_MISMATCH"

abbrev pub is_realtime : RuntimeChannel → Bool
is_realtime realtime = true
is_realtime _ = false

abbrev pub identity_of : CanonicalTurnContext → RealtimeIdentity
identity_of t = record {
  execution_id = t.execution_id;
  tenant_id = t.tenant_id;
  thread_id = t.thread_id;
  resolved_agent_id = t.resolved_agent_id;
  turn_owner_agent_id = t.turn_owner_agent_id;
  display_agent_id = t.display_agent_id;
  speaker_agent_id = t.turn_owner_agent_id;
  ownership_locked = t.ownership_locked;
}

unfoldable pub realtime_identity_from_turn : CanonicalTurnContext → Result RealtimeIdentity
unfolding validate_realtime_identity
realtime_identity_from_turn t =
    raise_if (not (is_realtime t.channel)) "REALTIME_CHANNEL_REQUIRED"
    >> validate_realtime_identity (identity_of t)
    >> ok (identity_of t)
