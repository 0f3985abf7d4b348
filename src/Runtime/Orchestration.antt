-- ===== src/Runtime/Orchestration.antt =====
-- src/orkio_v2/runtime/orchestration.py: the consults and the contributions that a turn collects.
pub mod Laws
use efata_777_backend_premiu.Prelude.{
  ℕ, String, Bool, not, ◌||◌, Option, List, [], ◌∷◌, ◌++◌, ltb, str_eq,
}
use efata_777_backend_premiu.Runtime.Contracts.{
  CanonicalTurnContext, ContextContribution, Result, ok, raise_if, ◌>>◌,
}

abbrev pub max_delegation_depth : ℕ
max_delegation_depth = 1

pub data ConsultReason : Type 0 where
  capability_required cross_domain_review risk_review founder_decision_input : ConsultReason

pub record AgentConsultRequest : Type 0 where
  pub consult_id : String
  pub execution_id : String
  pub tenant_id : String
  pub thread_id : String
  pub requester_agent_id : String
  pub turn_owner_agent_id : String
  pub capability : String
  pub reason : ConsultReason
  pub target_agent_id : Option String
  pub delegation_depth : ℕ

pub record OrchestrationRun : Type 0 where
  pub turn : CanonicalTurnContext
  pub team_id : Option String
  pub contributions : List ContextContribution
  pub consults : List AgentConsultRequest

unfoldable pub validate_consult : OrchestrationRun → AgentConsultRequest → Result (Unit {0})
validate_consult r q =
    raise_if (not (str_eq q.execution_id r.turn.execution_id)) "CONSULT_EXECUTION_MISMATCH"
    >> raise_if
        (not (str_eq q.tenant_id r.turn.tenant_id) || not (str_eq q.thread_id r.turn.thread_id))
        "CONSULT_SCOPE_MISMATCH"
    >> raise_if (not (str_eq q.turn_owner_agent_id r.turn.turn_owner_agent_id))
        "CONSULT_OWNER_MISMATCH"
    >> raise_if (ltb q.delegation_depth 1 || ltb max_delegation_depth q.delegation_depth)
        "DELEGATION_DEPTH_EXCEEDED"

unfoldable pub add_consult : OrchestrationRun → AgentConsultRequest → Result OrchestrationRun
add_consult r q = validate_consult r q >> ok (record r { consults = r.consults ++ q ∷ [] })

unfoldable pub add_contribution : OrchestrationRun → ContextContribution → Result OrchestrationRun
add_contribution r c =
    raise_if (not (str_eq c.execution_id r.turn.execution_id)) "CONTRIBUTION_EXECUTION_MISMATCH"
    >> raise_if
        (not (str_eq c.tenant_id r.turn.tenant_id) || not (str_eq c.thread_id r.turn.thread_id))
        "CONTRIBUTION_SCOPE_MISMATCH"
    >> raise_if (not (str_eq c.target_turn_owner_agent_id r.turn.turn_owner_agent_id))
        "CONTRIBUTION_OWNER_MISMATCH"
    >> ok (record r { contributions = r.contributions ++ c ∷ [] })
