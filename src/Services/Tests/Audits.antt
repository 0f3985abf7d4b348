-- ===== src/Services/Tests/Audits.antt =====
-- One policy and one auditor, and the authorization of an audit operation for them.
use efata_777_backend_premiu.Prelude.{◌≡◌, refl, true, false, some, [], ◌∷◌, str_eq, find}
use efata_777_backend_premiu.Services.Directive.Contracts.{
  AuditOperationSpec, operation_specs, operation_spec, file_inspect,
}
use efata_777_backend_premiu.Services.Capabilities.{
  CapabilityPolicy, CapabilitySpec, TrustedCapabilityContext, CapabilityDecision, RateLimitCheck,
  get, authorize,
}
use efata_777_backend_premiu.Services.Capabilities.Allowed.{may_run, operation_authorized}

abbrev policy : CapabilityPolicy
policy = record {
  evidence_enabled = true;
  file_enabled = true;
  archive_enabled = false;
  runtime_enabled = false;
  sha256_enabled = false;
  marker_enabled = false;
  allowed_agent_ids = "auditor" ∷ [];
  allowed_tenant_ids = "t1" ∷ [];
  allowed_environments = "staging" ∷ [];
  timeout_ms = 3000;
  max_output_bytes = 128000;
}

abbrev auditor : TrustedCapabilityContext
auditor = record {
  user_id = "u1";
  tenant_id = "t1";
  environment = "staging";
  requested_agent_id = some "Auditor ";
  resolved_agent_id = "auditor";
  privileged_user = true;
}

abbrev for_t1 : RateLimitCheck
for_t1 capability user tenant agent = str_eq tenant "t1"

abbrev metadata : AuditOperationSpec
metadata = record {
  operation = "file.metadata";
  capability_id = file_inspect;
  required_fields = "artifact_id" ∷ [];
  optional_fields = [];
}

operation_authorized_example :
    (cap : CapabilitySpec) × (decision : CapabilityDecision) × (get policy file_inspect ≡ some cap)
    × (cap.network ≡ false)
    × (cap.write ≡ false)
    × (authorize policy (some for_t1) file_inspect auditor true ≡ some decision)
    × (decision.allowed ≡ may_run policy (some for_t1) auditor true cap)
unfolding operation_spec operation_specs find
operation_authorized_example =
    operation_authorized policy (some for_t1) auditor true "file.metadata" metadata refl
