-- ===== src/Runtime/Tests.antt =====
-- One direct turn, and the runtime theorems at its record, its events and its collections.
use efata_777_backend_premiu.Prelude.{
  ℕ, String, ◌≡◌, refl, ◌↔◌, true, false, Option, none, some, List, [], ◌∷◌, ◌++◌, ◌+◌, length,
}
use efata_777_backend_premiu.Runtime.Contracts.{
  realtime, direct_agent, CanonicalTurnContext, CanonicalMessage, ContextContribution,
  ResponseEnvelope, ok,
}
use efata_777_backend_premiu.Runtime.Execution.{
  created, started, persisted, completed, ExecutionRecord, Operation, advance, assign, to_identity,
}
use efata_777_backend_premiu.Runtime.Orchestration.{
  AgentConsultRequest, OrchestrationRun, add_consult, add_contribution,
}
use efata_777_backend_premiu.Runtime.Orchestration.Laws.{IsConsultOf, IsOwned, add_keeps_owner}
use efata_777_backend_premiu.Runtime.Events.{
  status, chunk, RuntimeEvent, terminal_events, validate_terminal_sequence,
  validate_runtime_sequence,
}
use efata_777_backend_premiu.Runtime.Events.Laws.{
  EndsOnce, validate_terminal_exact, stream_accepted,
}
use efata_777_backend_premiu.Runtime.Identity.{
  ExecutionContext, ExecutionEngine, TurnRequest, build_direct_turn_context, require_same_owner,
  canonical_message, Outcome, build_response_envelope,
}
use efata_777_backend_premiu.Runtime.Identity.Laws.{one_owner}
use efata_777_backend_premiu.Runtime.Realtime.{realtime_identity_from_turn, identity_of}

abbrev fresh : ExecutionRecord
fresh = record {
  request_id = "r";
  execution_id = "x";
  tenant_id = "t";
  thread_id = "th";
  user_id = "u";
  requested_target = "@a";
  resolved_agent_id = "a";
  turn_owner_agent_id = "a";
  display_agent_id = "a";
  route_family = "direct_agent";
  channel = "chat_sse";
  execution_engine = "direct";
  status = created;
  created_at = 1;
  started_at = none;
  persisted_at = none;
  completed_at = none;
  failed_at = none;
  message_id = none;
  terminal_status = none;
  provider = none;
  model = none;
  token_usage = none;
  latency_ms = none;
  error_code = none;
}

abbrev life : List Operation
life =
    advance started none 2
    ∷ assign (to_identity "tenant_id" "other")
    ∷ advance completed none 3
    ∷ advance persisted (some 4) 5
    ∷ advance completed none 6
    ∷ advance started none 7
    ∷ []

abbrev opening : List RuntimeEvent
opening =
    record { event_type = status; execution_id = "x"; sequence = 4; data_ = [] }
    ∷ record { event_type = chunk; execution_id = "x"; sequence = 5; data_ = [] }
    ∷ []

stream_accepted_example :
    validate_runtime_sequence (opening ++ terminal_events "x" (4 + length opening) (some "TIMEOUT"))
    ≡ ok tt
stream_accepted_example =
    stream_accepted "x" 4 opening (some "TIMEOUT") (refl, refl, refl, (refl, refl, refl, tt))

validate_terminal_exact_example : (validate_terminal_sequence opening ≡ ok tt) ↔ EndsOnce opening
validate_terminal_exact_example = validate_terminal_exact opening

abbrev locked : ExecutionContext
locked = record {
  room_context = "";
  requested_target = "@a";
  resolved_target = "a";
  turn_owner = "a";
  display_agent = "Agent A";
  execution_engine = ExecutionEngine.direct_agent;
  orchestrator = none;
  ownership_locked = true;
}

abbrev request : TurnRequest
request = record {
  thread_id = "th";
  tenant_id = "t";
  user_id = "u";
  requested_target = "@a";
  channel = realtime;
  request_id = none;
  execution_id = some "x";
  governance_mode = "normal";
  internal_persistence_allowed = true;
  external_write_allowed = false;
  execution_allowed = true;
}

abbrev turn_a : CanonicalTurnContext
turn_a = record {
  execution_id = "x";
  request_id = "v";
  thread_id = "th";
  tenant_id = "t";
  user_id = "u";
  requested_target = "@a";
  resolved_agent_id = "a";
  turn_owner_agent_id = "a";
  display_agent_id = "a";
  display_agent_name = "Agent A";
  technical_lead_agent_id = none;
  route_family = direct_agent;
  channel = realtime;
  ownership_locked = true;
  governance_mode = "normal";
  internal_persistence_allowed = true;
  external_write_allowed = false;
  execution_allowed = true;
  orchestrator_agent_id = none;
}

built : build_direct_turn_context "u" "v" locked request ≡ ok turn_a
unfolding build_direct_turn_context
built = refl

one_owner_example :
    (turn_a.turn_owner_agent_id ≡ "a")
    × ((c : String) (t' : CanonicalTurnContext) → require_same_owner turn_a c ≡ ok t' → t' ≡ turn_a)
    × ((m : CanonicalMessage) (o : Outcome) (e : ResponseEnvelope)
        → build_response_envelope turn_a m o ≡ ok e
        → (m.execution_id ≡ "x")
          × (m.thread_id ≡ "th")
          × (m.tenant_id ≡ "t")
          × (m.agent_id ≡ "a")
          × (e.final_speaker_agent_id ≡ "a")
          × (e.content ≡ m.content))
    × ((sha : String → String) (clock : ℕ) (id text : String) (at : Option ℕ) (o : Outcome)
        → (e : ResponseEnvelope) × (build_response_envelope turn_a
              (canonical_message sha clock id turn_a text at)
              o
            ≡ ok e)
          × (e.content ≡ text)
          × (e.turn_owner_agent_id ≡ "a"))
    × (request.channel ≡ realtime → realtime_identity_from_turn turn_a ≡ ok (identity_of turn_a))
one_owner_example = one_owner "u" "v" locked request turn_a built

abbrev empty_run : OrchestrationRun
empty_run = record { turn = turn_a; team_id = none; contributions = []; consults = [] }

add_keeps_owner_example :
    ((q : AgentConsultRequest)
      → ((add_consult empty_run q ≡ ok (record empty_run { consults = q ∷ [] }))
          ↔ IsConsultOf turn_a q))
    × ((q : AgentConsultRequest) (r' : OrchestrationRun)
        → add_consult empty_run q ≡ ok r'
        → (r'.turn ≡ turn_a) × IsOwned r')
    × ((c : ContextContribution) (r' : OrchestrationRun)
        → add_contribution empty_run c ≡ ok r'
        → (r'.turn ≡ turn_a) × IsOwned r')
add_keeps_owner_example =
    add_keeps_owner empty_run (record { consults_owned = tt; contributions_owned = tt })
