-- ===== src/Runtime/Orchestration/Laws.antt =====
-- The owner of what a turn collects.
use efata_777_backend_premiu.Prelude.{◌≡◌, refl, List, [], ◌∷◌, ◌++◌, eq_iff, All, arith, ◌↔◌}
use efata_777_backend_premiu.Runtime.Contracts.{CanonicalTurnContext, ContextContribution, ok}
use efata_777_backend_premiu.Runtime.Orchestration.{
  AgentConsultRequest, OrchestrationRun, validate_consult, add_consult, add_contribution,
}

-- A consult of the turn: its execution, scope and owner, one level deep.
pub record IsConsultOf (t : CanonicalTurnContext) (q : AgentConsultRequest) : Type 0 where
  pub execution : q.execution_id ≡ t.execution_id
  pub tenant : q.tenant_id ≡ t.tenant_id
  pub thread : q.thread_id ≡ t.thread_id
  pub owner : q.turn_owner_agent_id ≡ t.turn_owner_agent_id
  pub depth : q.delegation_depth ≡ 1

pub record IsContributionTo (t : CanonicalTurnContext) (c : ContextContribution) : Type 0 where
  pub execution : c.execution_id ≡ t.execution_id
  pub tenant : c.tenant_id ≡ t.tenant_id
  pub thread : c.thread_id ≡ t.thread_id
  pub owner : c.target_turn_owner_agent_id ≡ t.turn_owner_agent_id

pub record IsOwned (r : OrchestrationRun) : Type 0 where
  pub consults_owned : All (IsConsultOf r.turn) r.consults
  pub contributions_owned : All (IsContributionTo r.turn) r.contributions

All-append :
    {A : Type 0} (P : A → Type 0) (xs : List A) (y : A) → All P xs → P y → All P (xs ++ y ∷ [])
All-append P [] y h p = (p, tt)
All-append P (x ∷ xs) y (px, h) p = (px, All-append P xs y h p)

-- A consult is accepted exactly when it belongs to the turn and is one level deep.
validate_consult_iff :
    (r : OrchestrationRun) (q : AgentConsultRequest)
    → (validate_consult r q ≡ ok tt) ↔ IsConsultOf r.turn q
unfolding validate_consult
validate_consult_iff r q = ground (
  arith,
  eq_iff q.execution_id r.turn.execution_id,
  eq_iff q.tenant_id r.turn.tenant_id,
  eq_iff q.thread_id r.turn.thread_id,
  eq_iff q.turn_owner_agent_id r.turn.turn_owner_agent_id,
)

add_consult_ok :
    (r : OrchestrationRun) (q : AgentConsultRequest)
    → IsConsultOf r.turn q
    → add_consult r q ≡ ok (record r { consults = r.consults ++ q ∷ [] })
unfolding add_consult
add_consult_ok r q h = ground (arith, validate_consult_iff r q)

add_consult_inv :
    (r : OrchestrationRun) (q : AgentConsultRequest) (r' : OrchestrationRun)
    → add_consult r q ≡ ok r'
    → (r' ≡ record r { consults = r.consults ++ q ∷ [] }) × IsConsultOf r.turn q
unfolding add_consult
add_consult_inv r q r' h = ground (arith, validate_consult_iff r q)

add_contribution_inv :
    (r : OrchestrationRun) (c : ContextContribution) (r' : OrchestrationRun)
    → add_contribution r c ≡ ok r'
    → (r' ≡ record r { contributions = r.contributions ++ c ∷ [] }) × IsContributionTo r.turn c
unfolding add_contribution
add_contribution_inv r c r' h = ground (
  arith,
  eq_iff c.execution_id r.turn.execution_id,
  eq_iff c.tenant_id r.turn.tenant_id,
  eq_iff c.thread_id r.turn.thread_id,
  eq_iff c.target_turn_owner_agent_id r.turn.turn_owner_agent_id,
)

add_consult-IsOwned :
    (r : OrchestrationRun)
    → IsOwned r
    → (q : AgentConsultRequest) (r' : OrchestrationRun) → add_consult r q ≡ ok r'
    → (r'.turn ≡ r.turn) × IsOwned r'
add_consult-IsOwned r h q r' e =
    let (same, of) = add_consult_inv r q r' e in
    rw same (
      refl,
      record {
        consults_owned = All-append (IsConsultOf r.turn) r.consults q h.consults_owned of;
        contributions_owned = h.contributions_owned;
      },
    )

add_contribution-IsOwned :
    (r : OrchestrationRun)
    → IsOwned r
    → (c : ContextContribution) (r' : OrchestrationRun) → add_contribution r c ≡ ok r'
    → (r'.turn ≡ r.turn) × IsOwned r'
add_contribution-IsOwned r h c r' e =
    let (same, of) = add_contribution_inv r c r' e in
    rw same (
      refl,
      record {
        consults_owned = h.consults_owned;
        contributions_owned =
            All-append (IsContributionTo r.turn) r.contributions c h.contributions_owned of;
      },
    )

-- The turn's consults and contributions stay the turn's: `add_consult` succeeds exactly on a consult of the turn's execution, tenant, thread and owner at depth one, `add_contribution` only on a contribution to that same turn, and a run whose collections belong to its turn still has that, with the same turn, after either.
pub add_keeps_owner :
    (r : OrchestrationRun)
    → IsOwned r
    → ((q : AgentConsultRequest)
        → ((add_consult r q ≡ ok (record r { consults = r.consults ++ q ∷ [] }))
            ↔ IsConsultOf r.turn q))
      × ((q : AgentConsultRequest) (r' : OrchestrationRun)
          → add_consult r q ≡ ok r'
          → (r'.turn ≡ r.turn) × IsOwned r')
      × ((c : ContextContribution) (r' : OrchestrationRun)
          → add_contribution r c ≡ ok r'
          → (r'.turn ≡ r.turn) × IsOwned r')
add_keeps_owner r h = (
  λ q. (λ e. let (_, of) = add_consult_inv r q _ e in of, add_consult_ok r q),
  add_consult-IsOwned r h,
  add_contribution-IsOwned r h,
)
