-- ===== src/Billing/Audit.antt =====
-- `_audit` of src/orkio_v2/billing/service.py: one row of the audit trail.
use efata_777_backend_premiu.Prelude.{
  String, Bool, ◌||◌, Option, List, [], ◌∷◌, ◌++◌, str_eq, if◌then◌else◌,
}
use efata_777_backend_premiu.Billing.Models.{MetaValue, Db}

-- The keys that `_audit` pops.
abbrev pub is_forbidden : String → Bool
is_forbidden key =
    str_eq key "token"
    || str_eq key "secret"
    || str_eq key "api_key"
    || str_eq key "access_token"
    || str_eq key "payload"

unfoldable pub redact : List (String × MetaValue) → List (String × MetaValue)
redact [] = []
redact ((key, value) ∷ rest) =
    let kept = redact rest in if is_forbidden key then kept else (key, value) ∷ kept

unfoldable pub audit :
    Option String
    → Option String
    → String
    → String
    → Option String
    → String
    → List (String × MetaValue)
    → Db
    → Db
unfolding redact
audit tenant_id actor_id action resource_type resource_id outcome metadata db = record db {
  audits =
      db.audits
      ++ record {
        tenant_id = tenant_id;
        actor_id = actor_id;
        action = action;
        resource_type = resource_type;
        resource_id = resource_id;
        outcome = outcome;
        metadata_json = redact metadata;
      }
        ∷ [];
}
