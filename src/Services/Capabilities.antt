-- ===== src/Services/Capabilities.antt =====
-- src/orkio_v2/services/capability_registry.py: which audit capability runs for whom.
pub mod Allowed
use efata_777_backend_premiu.Prelude.{
  ℕ, String, Bool, true, false, not, ◌&&◌, ◌||◌, Option, none, some, List, [], ◌∷◌, str_eq, find,
  if◌then◌else◌,
}
use efata_777_backend_premiu.Prelude.Text.{strip, lower, is_empty, truthy, text_or}
use efata_777_backend_premiu.Access.Principal.{includes}
use efata_777_backend_premiu.Services.Directive.Contracts.{
  file_inspect, archive_inspect, runtime_file_sha256, runtime_search_marker,
}

-- The settings of src/orkio_v2/services/capability_policy.py that the registry reads, with the timeout in milliseconds.
pub record CapabilityPolicy : Type 0 where
  pub evidence_enabled : Bool
  pub file_enabled : Bool
  pub archive_enabled : Bool
  pub runtime_enabled : Bool
  pub sha256_enabled : Bool
  pub marker_enabled : Bool
  pub allowed_agent_ids : List String
  pub allowed_tenant_ids : List String
  pub allowed_environments : List String
  pub timeout_ms : ℕ
  pub max_output_bytes : ℕ

pub record CapabilitySpec : Type 0 where
  pub capability_id : String
  pub risk_level : String
  pub runtime : String
  pub network : Bool
  pub write : Bool
  pub timeout_ms : ℕ
  pub max_output_bytes : ℕ
  pub enabled : Bool

pub record TrustedCapabilityContext : Type 0 where
  pub user_id : String
  pub tenant_id : String
  pub environment : String
  pub requested_agent_id : Option String
  pub resolved_agent_id : String
  pub privileged_user : Bool

pub record CapabilityDecision : Type 0 where
  pub capability_id : String
  pub allowed : Bool
  pub reason : String
  pub authorization_subject : String

-- The rate limit of a capability, a user, a tenant and an agent.
abbrev pub RateLimitCheck : Type 0
RateLimitCheck = String → String → String → String → Bool

abbrev pub spec : CapabilityPolicy → String → Bool → CapabilitySpec
spec policy id enabled = record {
  capability_id = id;
  risk_level = "HIGH";
  runtime = "server";
  network = false;
  write = false;
  timeout_ms = policy.timeout_ms;
  max_output_bytes = policy.max_output_bytes;
  enabled = enabled;
}

abbrev pub runtime_master : CapabilityPolicy → Bool
runtime_master policy = policy.evidence_enabled && policy.runtime_enabled

-- `CapabilityRegistry._specs`.
unfoldable pub specs : CapabilityPolicy → List CapabilitySpec
specs policy =
    spec policy file_inspect (policy.evidence_enabled && policy.file_enabled)
    ∷ spec policy archive_inspect (policy.evidence_enabled && policy.archive_enabled)
    ∷ spec policy runtime_file_sha256 (runtime_master policy && policy.sha256_enabled)
    ∷ spec policy runtime_search_marker (runtime_master policy && policy.marker_enabled)
    ∷ []

abbrev pub is_capability : String → CapabilitySpec → Bool
is_capability id s = str_eq s.capability_id id

-- `get`: none stands for its KeyError.
unfoldable pub get : CapabilityPolicy → String → Option CapabilitySpec
unfolding specs
get policy id = find (is_capability id) (specs policy)

abbrev pub denied : String → String → String → CapabilityDecision
denied id reason subject = record {
  capability_id = id;
  allowed = false;
  reason = reason;
  authorization_subject = subject;
}

unfoldable pub folded : String → String
unfolding strip lower
folded s = lower (strip s)

abbrev pub is_mismatch : Bool → Option String → String → Bool
is_mismatch exact requested subject =
    exact && truthy requested && not (str_eq (folded (text_or requested "")) subject)

abbrev pub is_listed : String → List String → Bool
is_listed name names = not (is_empty name) && includes name names

-- The last step, with the rate limiter if there is one.
abbrev pub within_rate :
    Option RateLimitCheck → String → TrustedCapabilityContext → String → CapabilityDecision
within_rate none id context subject = denied id "AUDIT_RATE_LIMITER_UNAVAILABLE" subject
within_rate (some check) id context subject =
    if not (check id context.user_id context.tenant_id context.resolved_agent_id)
    then denied id "AUDIT_REQUEST_RATE_LIMITED" subject
    else record {
      capability_id = id;
      allowed = true;
      reason = "ALLOW";
      authorization_subject = subject;
    }

unfoldable pub decide :
    CapabilityPolicy
    → Option RateLimitCheck
    → String
    → TrustedCapabilityContext
    → Bool
    → CapabilitySpec
    → CapabilityDecision
unfolding folded
decide policy limiter id context exact found =
    let subject = folded context.resolved_agent_id in
    if not found.enabled
    then denied id "AUDIT_CAPABILITY_DISABLED" subject
    else if not context.privileged_user
    then denied id "AUDIT_CAPABILITY_USER_DENIED" subject
    else if is_empty subject
    then denied id "AUDIT_CAPABILITY_AGENT_DENIED" subject
    else if not (includes subject policy.allowed_agent_ids)
    then denied id "AUDIT_CAPABILITY_AGENT_DENIED" subject
    else if is_mismatch exact context.requested_agent_id subject
    then denied id "AUDIT_CAPABILITY_AGENT_IDENTITY_MISMATCH" subject
    else if not (is_listed (folded context.tenant_id) policy.allowed_tenant_ids)
    then denied id "AUDIT_CAPABILITY_TENANT_DENIED" subject
    else if not (is_listed (folded context.environment) policy.allowed_environments)
    then denied id "AUDIT_CAPABILITY_ENVIRONMENT_DENIED" subject
    else within_rate limiter id context subject

abbrev pub map_option : {A B : Type 0} → (A → B) → Option A → Option B
map_option f none = none
map_option f (some x) = some (f x)

unfoldable pub authorize :
    CapabilityPolicy
    → Option RateLimitCheck
    → String
    → TrustedCapabilityContext
    → Bool
    → Option CapabilityDecision
unfolding get decide
authorize policy limiter id context exact =
    map_option (decide policy limiter id context exact) (get policy id)
