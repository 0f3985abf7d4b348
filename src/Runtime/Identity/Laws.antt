-- ===== src/Runtime/Identity/Laws.antt =====
-- The owner of a turn, from the request to the envelope.
use efata_777_backend_premiu.Prelude.{
  ℕ, String, ◌≡◌, refl, ◌∙◌, true, Option, eq_iff, eq_refl, arith,
}
use efata_777_backend_premiu.Runtime.Contracts.{
  realtime, CanonicalTurnContext, CanonicalMessage, ResponseEnvelope, ok,
}
use efata_777_backend_premiu.Runtime.Identity.{
  ExecutionContext, TurnRequest, build_direct_turn_context, require_same_owner, canonical_message,
  Outcome, build_response_envelope,
}
use efata_777_backend_premiu.Runtime.Realtime.{realtime_identity_from_turn, identity_of}

-- The agents of a turn are one, and it is locked.
pub record IsDirect (t : CanonicalTurnContext) : Type 0 where
  pub locked : t.ownership_locked ≡ true
  pub resolved : t.resolved_agent_id ≡ t.turn_owner_agent_id
  pub displayed : t.display_agent_id ≡ t.turn_owner_agent_id

build-IsDirect :
    (u v : String) (x : ExecutionContext) (q : TurnRequest) (t : CanonicalTurnContext)
    → build_direct_turn_context u v x q ≡ ok t
    → IsDirect t × (t.turn_owner_agent_id ≡ x.turn_owner) × (t.channel ≡ q.channel)
unfolding build_direct_turn_context
build-IsDirect u v x q t h = ground (arith, eq_iff x.resolved_target x.turn_owner)

require_same_owner-locked :
    (t : CanonicalTurnContext) (c : String) (t' : CanonicalTurnContext)
    → t.ownership_locked ≡ true
    → require_same_owner t c ≡ ok t'
    → t' ≡ t
unfolding require_same_owner
require_same_owner-locked t c t' l h = ground (arith, eq_iff c t.turn_owner_agent_id)

realtime_accepts :
    (t : CanonicalTurnContext)
    → IsDirect t
    → t.channel ≡ realtime
    → realtime_identity_from_turn t ≡ ok (identity_of t)
unfolding realtime_identity_from_turn
realtime_accepts t h c = ground (
  arith,
  eq_iff t.resolved_agent_id t.turn_owner_agent_id,
  eq_iff t.resolved_agent_id t.display_agent_id,
)

-- The envelope that a message gives, when it belongs to the turn.
envelope_inv :
    (t : CanonicalTurnContext) (m : CanonicalMessage) (o : Outcome) (e : ResponseEnvelope)
    → build_response_envelope t m o ≡ ok e
    → (m.execution_id ≡ t.execution_id)
      × (m.thread_id ≡ t.thread_id)
      × (m.tenant_id ≡ t.tenant_id)
      × (m.agent_id ≡ t.turn_owner_agent_id)
      × (e.final_speaker_agent_id ≡ t.turn_owner_agent_id)
      × (e.content ≡ m.content)
unfolding build_response_envelope
envelope_inv t m o e h = ground (
  arith,
  eq_iff m.execution_id t.execution_id,
  eq_iff m.thread_id t.thread_id,
  eq_iff m.tenant_id t.tenant_id,
  eq_iff m.agent_id t.turn_owner_agent_id,
)

message_accepted :
    (sha : String → String) (clock : ℕ) (id : String) (t : CanonicalTurnContext) (text : String)
    (at : Option ℕ) (o : Outcome)
    → (e : ResponseEnvelope) × (build_response_envelope t
          (canonical_message sha clock id t text at)
          o
        ≡ ok e)
      × (e.content ≡ text)
      × (e.turn_owner_agent_id ≡ t.turn_owner_agent_id)
unfolding build_response_envelope canonical_message
message_accepted sha clock id t text at o =
    rw
      (
        eq_refl t.execution_id,
        eq_refl t.thread_id,
        eq_refl t.tenant_id,
        eq_refl t.turn_owner_agent_id,
      )
      (_, refl, refl, refl)

-- A turn that `build_direct_turn_context` builds has one locked owner, the execution's: an owner check that passes leaves the turn as it is, an envelope is only built from a message of the turn's execution, thread, tenant and owner and speaks for the owner, the turn's own message is always accepted with its text, and on the realtime channel the turn's identity is accepted.
pub one_owner :
    (u v : String) (x : ExecutionContext) (q : TurnRequest) (t : CanonicalTurnContext)
    → build_direct_turn_context u v x q ≡ ok t
    → (t.turn_owner_agent_id ≡ x.turn_owner)
      × ((c : String) (t' : CanonicalTurnContext) → require_same_owner t c ≡ ok t' → t' ≡ t)
      × ((m : CanonicalMessage) (o : Outcome) (e : ResponseEnvelope)
          → build_response_envelope t m o ≡ ok e
          → (m.execution_id ≡ t.execution_id)
            × (m.thread_id ≡ t.thread_id)
            × (m.tenant_id ≡ t.tenant_id)
            × (m.agent_id ≡ x.turn_owner)
            × (e.final_speaker_agent_id ≡ x.turn_owner)
            × (e.content ≡ m.content))
      × ((sha : String → String) (clock : ℕ) (id text : String) (at : Option ℕ) (o : Outcome)
          → (e : ResponseEnvelope) × (build_response_envelope t
                (canonical_message sha clock id t text at)
                o
              ≡ ok e)
            × (e.content ≡ text)
            × (e.turn_owner_agent_id ≡ x.turn_owner))
      × (q.channel ≡ realtime → realtime_identity_from_turn t ≡ ok (identity_of t))
one_owner u v x q t h =
    let (direct, owner, channel) = build-IsDirect u v x q t h in
    rw (← owner) (
      refl,
      λ c t'. require_same_owner-locked t c t' direct.locked,
      envelope_inv t,
      λ sha clock id text at o. message_accepted sha clock id t text at o,
      λ c. realtime_accepts t direct (channel ∙ c),
    )
