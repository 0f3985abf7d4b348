-- ===== src/Services/Capabilities/Allowed.antt =====
-- When src/orkio_v2/services/capability_registry.py allows the capability of an audit operation.
use efata_777_backend_premiu.Prelude.{
  String, ◌≡◌, refl, sym, Bool, true, false, not, ◌&&◌, ◌||◌, Bool-cases, inl, inr, Option, none,
  some, eq_iff, find, find_holds, any-none, any, arith,
}
use efata_777_backend_premiu.Runtime.Contracts.{ok}
use efata_777_backend_premiu.Services.Directive.Contracts.{
  AuditOperationSpec, operation_spec, operation_specs, is_operation, known_or,
}
use efata_777_backend_premiu.Services.Directive.Arguments.{any-find}
use efata_777_backend_premiu.Services.Capabilities.{
  is_capability, CapabilityPolicy, CapabilitySpec, TrustedCapabilityContext, CapabilityDecision,
  RateLimitCheck, get, specs, folded, is_mismatch, is_listed, within_rate, decide, authorize,
}

abbrev pub is_within : Option RateLimitCheck → String → TrustedCapabilityContext → Bool
is_within none id context = false
is_within (some check) id context =
    check id context.user_id context.tenant_id context.resolved_agent_id

-- Everything that an allowed capability needs, in no order.
unfoldable pub may_run :
    CapabilityPolicy
    → Option RateLimitCheck
    → TrustedCapabilityContext
    → Bool
    → CapabilitySpec
    → Bool
may_run policy limiter context exact cap =
    let subject = folded context.resolved_agent_id in
    cap.enabled
    && context.privileged_user
    && is_listed subject policy.allowed_agent_ids
    && not (is_mismatch exact context.requested_agent_id subject)
    && is_listed (folded context.tenant_id) policy.allowed_tenant_ids
    && is_listed (folded context.environment) policy.allowed_environments
    && is_within limiter cap.capability_id context

within_rate-allowed :
    (limiter : Option RateLimitCheck) (id : String) (context : TrustedCapabilityContext)
    (subject : String)
    → (within_rate limiter id context subject).allowed ≡ is_within limiter id context
within_rate-allowed none id context subject = refl
within_rate-allowed (some check) id context subject =
    elim (Bool-cases (check id context.user_id context.tenant_id context.resolved_agent_id)) [
      | inl e ↦ rw e refl
      | inr e ↦ rw e refl
    ]

decide-allowed :
    (policy : CapabilityPolicy) (limiter : Option RateLimitCheck)
    (context : TrustedCapabilityContext) (exact : Bool) (cap : CapabilitySpec)
    → (decide policy limiter cap.capability_id context exact cap).allowed
      ≡ may_run policy limiter context exact cap
unfolding decide may_run
decide-allowed policy limiter context exact cap =
    let last =
      within_rate-allowed limiter cap.capability_id context (folded context.resolved_agent_id) in
    ground (arith, last)

abbrev is_unregistered : CapabilityPolicy → AuditOperationSpec → Bool
is_unregistered policy operation = not (any (is_capability operation.capability_id) (specs policy))

all_registered : (policy : CapabilityPolicy) → any (is_unregistered policy) operation_specs ≡ false
unfolding any operation_specs specs
all_registered policy = refl

abbrev is_active : CapabilitySpec → Bool
is_active cap = cap.network || cap.write

all_passive : (policy : CapabilityPolicy) → any is_active (specs policy) ≡ false
unfolding any specs
all_passive policy = refl

operation-registered :
    (policy : CapabilityPolicy) (operation : String) (found : Option AuditOperationSpec)
    (spec : AuditOperationSpec)
    → find (is_operation operation) operation_specs ≡ found
    → known_or found ≡ ok spec
    → is_unregistered policy spec ≡ false
operation-registered policy operation none spec e k = cc k
operation-registered policy operation (some found) spec e k =
    let same : found ≡ spec = cc k in
    rw (sym same) (
      any-find (is_unregistered policy) (is_operation operation) operation_specs found
        (all_registered policy) e)

capability_of :
    (policy : CapabilityPolicy) (id : String) (found : Option CapabilitySpec)
    → find (is_capability id) (specs policy) ≡ found
    → any (is_capability id) (specs policy) ≡ true
    → (cap : CapabilitySpec) × (find (is_capability id) (specs policy) ≡ some cap)
capability_of policy id none e h = cc (any-none (is_capability id) (specs policy) e, h)
capability_of policy id (some cap) e h = (cap, e)

-- The registry knows the capability of every operation that a directive can ask for, as one that neither writes nor uses the network; it always decides, and it allows the operation exactly if the switches of the capability are on, the user is privileged, the resolved agent, the tenant and the environment are named and listed, a requested agent is the resolved one where the binding is exact, and the rate limiter is there and agrees.
pub operation_authorized :
    (policy : CapabilityPolicy) (limiter : Option RateLimitCheck)
    (context : TrustedCapabilityContext) (exact : Bool) (operation : String)
    (spec : AuditOperationSpec)
    → operation_spec operation ≡ ok spec
    → (cap : CapabilitySpec) × (decision : CapabilityDecision) × (get policy spec.capability_id
        ≡ some cap)
      × (cap.network ≡ false)
      × (cap.write ≡ false)
      × (authorize policy limiter spec.capability_id context exact ≡ some decision)
      × (decision.allowed ≡ may_run policy limiter context exact cap)
unfolding operation_spec get authorize
operation_authorized policy limiter context exact operation spec k =
    let registered =
      operation-registered policy operation (find (is_operation operation) operation_specs) spec
        refl k in
    let (cap, found) =
      capability_of policy spec.capability_id
        (find (is_capability spec.capability_id) (specs policy)) refl (ground arith) in
    let same =
      (eq_iff cap.capability_id spec.capability_id).0
        (find_holds (is_capability spec.capability_id) (specs policy) cap found) in
    let passive =
      any-find is_active (is_capability spec.capability_id) (specs policy) cap (all_passive policy)
        found in
    (
      cap,
      decide policy limiter spec.capability_id context exact cap,
      found,
      ground arith,
      ground arith,
      rw found refl,
      rw (sym same) (decide-allowed policy limiter context exact cap),
    )
