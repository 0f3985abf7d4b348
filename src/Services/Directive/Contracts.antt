-- ===== src/Services/Directive/Contracts.antt =====
-- src/orkio_v2/services/audit_invocation_contracts.py: the operations of an audit and their fields.
use efata_777_backend_premiu.Prelude.{
  String, Bool, Option, none, some, List, [], ◌∷◌, ◌++◌, str_eq, find,
}
use efata_777_backend_premiu.Runtime.Contracts.{Result, ok, err}

pub record AuditOperationSpec : Type 0 where
  pub operation : String
  pub capability_id : String
  pub required_fields : List String
  pub optional_fields : List String

abbrev pub allowed_fields : AuditOperationSpec → List String
allowed_fields spec = "version" ∷ "operation" ∷ spec.required_fields ++ spec.optional_fields

abbrev spec_of : String → String → List String → List String → AuditOperationSpec
spec_of operation capability required optional = record {
  operation = operation;
  capability_id = capability;
  required_fields = required;
  optional_fields = optional;
}

abbrev pub file_inspect : String
file_inspect = "audit.file.inspect@1.0.0"

abbrev pub archive_inspect : String
archive_inspect = "audit.archive.inspect@1.0.0"

abbrev pub runtime_file_sha256 : String
runtime_file_sha256 = "audit.runtime.file_sha256@1.0.0"

abbrev pub runtime_search_marker : String
runtime_search_marker = "audit.runtime.search_marker@1.0.0"

-- `AUDIT_OPERATION_SPECS`.
unfoldable pub operation_specs : List AuditOperationSpec
operation_specs =
    spec_of "file.metadata" file_inspect ("artifact_id" ∷ []) []
    ∷ spec_of "file.read_text" file_inspect ("artifact_id" ∷ []) ("offset" ∷ "max_bytes" ∷ [])
    ∷ spec_of "file.find_literal_marker" file_inspect ("artifact_id" ∷ "marker" ∷ [])
        ("max_scan_bytes" ∷ "max_matches" ∷ [])
    ∷ spec_of "archive.preflight" archive_inspect ("artifact_id" ∷ []) []
    ∷ spec_of "archive.manifest" archive_inspect ("artifact_id" ∷ []) ("offset" ∷ "limit" ∷ [])
    ∷ spec_of "archive.file_metadata" archive_inspect ("artifact_id" ∷ "member_name" ∷ []) []
    ∷ spec_of "archive.read_text_member" archive_inspect ("artifact_id" ∷ "member_name" ∷ [])
        ("offset" ∷ "max_bytes" ∷ [])
    ∷ spec_of "archive.hash_member" archive_inspect ("artifact_id" ∷ "member_name" ∷ []) []
    ∷ spec_of "runtime.file_sha256" runtime_file_sha256 ("module_id" ∷ []) []
    ∷ spec_of "runtime.search_marker" runtime_search_marker ("module_id" ∷ "marker" ∷ [])
        ("max_scan_bytes" ∷ "max_matches" ∷ [])
    ∷ []

abbrev pub is_operation : String → AuditOperationSpec → Bool
is_operation operation spec = str_eq spec.operation operation

abbrev pub known_or : Option AuditOperationSpec → Result AuditOperationSpec
known_or none = err "AUDIT_OPERATION_UNKNOWN"
known_or (some spec) = ok spec

unfoldable pub operation_spec : String → Result AuditOperationSpec
operation_spec operation = known_or (find (is_operation operation) operation_specs)
