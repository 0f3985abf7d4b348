-- ===== src/Services/Directive.antt =====
-- src/orkio_v2/services/audit_invocation_directive.py: the directive that a message to the auditor holds.
pub mod Contracts
pub mod Bytes
pub mod Arguments
pub mod Admitted
use efata_777_backend_premiu.Prelude.{
  ℕ, String, Bool, true, false, not, Option, none, some, List, [], ◌∷◌, str_eq, leb, find, any,
  if◌then◌else◌,
}
use efata_777_backend_premiu.Prelude.Text.{strip, lstrip, is_empty, drop_text}
use efata_777_backend_premiu.Runtime.Contracts.{Result, ok, err}
use efata_777_backend_premiu.Access.Principal.{includes}
use efata_777_backend_premiu.Services.AuditPath.Parts.{starts_text}
use efata_777_backend_premiu.Services.Directive.Bytes.{utf8_length, has_nul}
use efata_777_backend_premiu.Services.Directive.Contracts.{
  AuditOperationSpec, allowed_fields, operation_spec,
}

-- A decoded JSON value: a text, an integer, or anything else (null, a Boolean, a float, a list, an object).
pub data Value : Type 0 where
  text : String → Value
  natural : ℕ → Value
  negative : ℕ → Value
  other : Value

pub record Field : Type 0 where
  pub name : String
  pub value : Value

pub data Payload : Type 0 where
  fields : List Field → Payload
  not_object : Payload

pub record AuditDirective : Type 0 where
  pub version : String
  pub operation : String
  pub spec : AuditOperationSpec
  pub arguments : List Field

abbrev pub forbidden_fields : List String
forbidden_fields =
    "tenant_id" ∷ "user_id" ∷ "agent_id" ∷ "requested_agent_id" ∷ "resolved_agent_id"
    ∷ "turn_owner_agent_id" ∷ "environment" ∷ "deployment_id" ∷ "privileged_user" ∷ "write_allowed"
    ∷ "execution_allowed" ∷ "root_id" ∷ "relative_path" ∷ "path" ∷ "absolute_path" ∷ "shell"
    ∷ "command" ∷ "sql" ∷ "query" ∷ "url" ∷ "network" ∷ "http" ∷ "https" ∷ []

abbrev pub integer_fields : List String
integer_fields = "offset" ∷ "max_bytes" ∷ "max_scan_bytes" ∷ "max_matches" ∷ "limit" ∷ []

-- `_STRING_LIMITS`.
unfoldable pub limit_of : String → Option ℕ
limit_of name =
    if str_eq name "artifact_id"
    then some 128
    else if str_eq name "module_id"
    then some 120
    else if str_eq name "member_name"
    then some 1024
    else if str_eq name "marker"
    then some 512
    else none

unfoldable pub looks_like_audit_directive : String → Bool
unfolding lstrip starts_text
looks_like_audit_directive message = starts_text "/audit" (lstrip message)

unfoldable pub validate_text : ℕ → Value → Option String
validate_text limit (text s) =
    if is_empty (strip s)
    then some "AUDIT_DIRECTIVE_FIELD_INVALID"
    else if not (leb (utf8_length s) limit)
    then some "AUDIT_DIRECTIVE_FIELD_TOO_LARGE"
    else if has_nul s
    then some "AUDIT_DIRECTIVE_FIELD_INVALID"
    else none
validate_text limit (natural n) = some "AUDIT_DIRECTIVE_FIELD_INVALID"
validate_text limit (negative n) = some "AUDIT_DIRECTIVE_FIELD_INVALID"
validate_text limit other = some "AUDIT_DIRECTIVE_FIELD_INVALID"

abbrev pub validate_integer : Value → Option String
validate_integer (natural n) = none
validate_integer (text s) = some "AUDIT_DIRECTIVE_FIELD_INVALID"
validate_integer (negative n) = some "AUDIT_DIRECTIVE_FIELD_INVALID"
validate_integer other = some "AUDIT_DIRECTIVE_FIELD_INVALID"

unfoldable pub validate_limited : Option ℕ → String → Value → Option String
validate_limited (some limit) name value = validate_text limit value
validate_limited none name value =
    if includes name integer_fields then validate_integer value else none

-- `_validate_value`: the code of its error.
unfoldable pub validate_value : Field → Option String
unfolding limit_of
validate_value f = validate_limited (limit_of f.name) f.name f.value

abbrev pub or_error : Option String → Option String → Option String
or_error none later = later
or_error (some code) later = some code

unfoldable pub first_error : List Field → Option String
unfolding validate_value
first_error [] = none
first_error (f ∷ fs) = or_error (validate_value f) (first_error fs)

abbrev pub is_argument : String → Bool
is_argument name = not (includes name ("version" ∷ "operation" ∷ []))

unfoldable pub arguments_of : List Field → List Field
arguments_of [] = []
arguments_of (f ∷ fs) = let rest = arguments_of fs in if is_argument f.name then f ∷ rest else rest

abbrev pub has_name : String → Field → Bool
has_name name f = str_eq f.name name

abbrev pub has_field : List Field → String → Bool
has_field fs name = any (has_name name) fs

abbrev pub is_forbidden : Field → Bool
is_forbidden f = includes f.name forbidden_fields

abbrev pub is_unknown : AuditOperationSpec → Field → Bool
is_unknown spec f = not (includes f.name (allowed_fields spec))

abbrev pub is_missing : List Field → String → Bool
is_missing fs name = not (has_field fs name)

abbrev pub or_directive : Option String → AuditDirective → Result AuditDirective
or_directive none d = ok d
or_directive (some code) d = err code

unfoldable pub with_spec : String → List Field → Result AuditOperationSpec → Result AuditDirective
unfolding first_error arguments_of
with_spec operation fs (err code) = err code
with_spec operation fs (ok spec) =
    if any (is_unknown spec) fs
    then err "AUDIT_DIRECTIVE_UNKNOWN_FIELD"
    else if any (is_missing fs) spec.required_fields
    then err "AUDIT_DIRECTIVE_REQUIRED_FIELD_MISSING"
    else or_directive (first_error (arguments_of fs))
        (record { version = "1"; operation = operation; spec = spec; arguments = arguments_of fs })

unfoldable pub of_operation : List Field → Value → Result AuditDirective
unfolding with_spec strip operation_spec
of_operation fs (text s) =
    if is_empty (strip s)
    then err "AUDIT_DIRECTIVE_OPERATION_REQUIRED"
    else with_spec s fs (operation_spec s)
of_operation fs (natural n) = err "AUDIT_DIRECTIVE_OPERATION_REQUIRED"
of_operation fs (negative n) = err "AUDIT_DIRECTIVE_OPERATION_REQUIRED"
of_operation fs other = err "AUDIT_DIRECTIVE_OPERATION_REQUIRED"

abbrev pub with_operation : List Field → Option Field → Result AuditDirective
with_operation fs none = err "AUDIT_DIRECTIVE_OPERATION_REQUIRED"
with_operation fs (some f) = of_operation fs f.value

abbrev pub is_version : Option Field → Bool
is_version none = false
is_version (some f) = is_one f.value
  where
    is_one : Value → Bool
    is_one (text s) = str_eq s "1"
    is_one (natural n) = false
    is_one (negative n) = false
    is_one other = false

unfoldable pub with_payload : Payload → Result AuditDirective
unfolding of_operation
with_payload not_object = err "AUDIT_DIRECTIVE_OBJECT_REQUIRED"
with_payload (fields fs) =
    if any is_forbidden fs
    then err "AUDIT_DIRECTIVE_FORBIDDEN_FIELD"
    else if not (is_version (find (has_name "version") fs))
    then err "AUDIT_DIRECTIVE_VERSION_INVALID"
    else with_operation fs (find (has_name "operation") fs)

-- What `raw_decode` gives: the value and the place of its end, or an error.
unfoldable pub of_decoded : String → Option (Payload × ℕ) → Result AuditDirective
unfolding with_payload strip drop_text
of_decoded raw none = err "AUDIT_DIRECTIVE_JSON_INVALID"
of_decoded raw (some (payload, end)) =
    if is_empty (strip (drop_text end raw))
    then with_payload payload
    else err "AUDIT_DIRECTIVE_TRAILING_TEXT_FORBIDDEN"

-- `none` for a message that is no directive.
unfoldable pub parse_audit_directive :
    (String → Option (Payload × ℕ)) → String → Option (Result AuditDirective)
unfolding of_decoded looks_like_audit_directive starts_text utf8_length
parse_audit_directive raw_decode message =
    if not (looks_like_audit_directive message)
    then none
    else if not (starts_text "/audit " message)
    then some (err "AUDIT_DIRECTIVE_FORMAT_INVALID")
    else if not (leb (utf8_length message) 20000)
    then some (err "AUDIT_DIRECTIVE_TOO_LARGE")
    else some (of_decoded (drop_text 7 message) (raw_decode (drop_text 7 message)))
