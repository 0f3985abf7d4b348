-- ===== src/Knowledge/Policy.antt =====
-- src/orkio_v2/services/knowledge_policy.py, and the visibility clause of knowledge_repository.py.
use efata_777_backend_premiu.Prelude.{
  String, Bool, not, ◌&&◌, ◌||◌, List, [], ◌∷◌, str_eq, if◌then◌else◌,
}
use efata_777_backend_premiu.Prelude.Text.{strip, upper, is_some_text}
use efata_777_backend_premiu.Prelude.Http.{Outcome, returned, raised, ◌>>=◌, require}
use efata_777_backend_premiu.Access.Principal.{Principal, includes, meets}
use efata_777_backend_premiu.Knowledge.Tables.{KnowledgeDocument, is_null}

abbrev pub is_scope : String → Bool
is_scope scope = str_eq scope "PERSONAL" || str_eq scope "INSTITUTIONAL" || str_eq scope "PLATFORM"

unfoldable pub normalize_scope : String → Outcome String
unfolding strip upper
normalize_scope value =
    let scope = upper (strip value) in
    if is_scope scope then returned scope else raised "KNOWLEDGE_SCOPE_INVALID" 422

abbrev pub admin_roles : List String
admin_roles = "admin" ∷ "orkio_admin" ∷ "owner" ∷ "superadmin" ∷ "platform_owner" ∷ []

unfoldable pub is_tenant_admin : Principal → Bool
is_tenant_admin principal = meets admin_roles principal.roles

unfoldable pub is_platform_owner : Principal → Bool
is_platform_owner principal = includes "platform_owner" principal.roles

unfoldable pub upload_gate : Principal → String → Outcome (Unit {0})
upload_gate principal scope =
    if str_eq scope "PERSONAL"
    then returned tt
    else if str_eq scope "INSTITUTIONAL"
    then require (is_tenant_admin principal) "KNOWLEDGE_INSTITUTIONAL_ADMIN_REQUIRED" 403
    else if str_eq scope "PLATFORM"
    then require (is_platform_owner principal) "KNOWLEDGE_PLATFORM_OWNER_REQUIRED" 403
    else raised "KNOWLEDGE_SCOPE_INVALID" 422

unfoldable pub assert_upload_allowed : String → Principal → Outcome (Unit {0})
unfolding ◌>>=◌
assert_upload_allowed scope principal = normalize_scope scope >>= upload_gate principal

unfoldable pub list_gate : Principal → String → Outcome (Unit {0})
list_gate principal scope =
    if str_eq scope "PERSONAL"
    then returned tt
    else if str_eq scope "INSTITUTIONAL" && is_tenant_admin principal
    then returned tt
    else if str_eq scope "PLATFORM" && is_platform_owner principal
    then returned tt
    else if str_eq scope "INSTITUTIONAL"
    then raised "KNOWLEDGE_INSTITUTIONAL_ADMIN_REQUIRED" 403
    else raised "KNOWLEDGE_PLATFORM_OWNER_REQUIRED" 403

unfoldable pub assert_list_allowed : String → Principal → Outcome (Unit {0})
unfolding ◌>>=◌
assert_list_allowed scope principal = normalize_scope scope >>= list_gate principal

unfoldable pub assert_document_visible_for_management :
    KnowledgeDocument → Principal → Outcome (Unit {0})
assert_document_visible_for_management document principal =
    if str_eq document.scope "PLATFORM"
    then require (is_platform_owner principal) "KNOWLEDGE_NOT_FOUND" 404
    else if not (is_some_text document.tenant_id principal.tenant_id)
    then raised "KNOWLEDGE_NOT_FOUND" 404
    else if str_eq document.scope "PERSONAL"
    then require (is_some_text document.owner_user_id principal.user_id) "KNOWLEDGE_NOT_FOUND" 404
    else if str_eq document.scope "INSTITUTIONAL"
    then require (is_tenant_admin principal) "KNOWLEDGE_NOT_FOUND" 404
    else raised "KNOWLEDGE_NOT_FOUND" 404

unfoldable pub assert_can_publish : KnowledgeDocument → Principal → Outcome (Unit {0})
unfolding ◌>>=◌
assert_can_publish document principal =
    assert_document_visible_for_management document principal >>= λ seen.
    require (not (str_eq document.scope "PERSONAL")) "KNOWLEDGE_PERSONAL_PUBLISH_NOT_APPLICABLE" 409
    >>= λ shared. require (str_eq document.status "DRAFT") "KNOWLEDGE_PUBLISH_REQUIRES_DRAFT" 409

unfoldable pub assert_can_revoke : KnowledgeDocument → Principal → Outcome (Unit {0})
unfolding ◌>>=◌
assert_can_revoke document principal =
    assert_document_visible_for_management document principal >>= λ seen.
    require (not (str_eq document.scope "PERSONAL")) "KNOWLEDGE_PERSONAL_REVOKE_NOT_APPLICABLE" 409
    >>= λ shared. require (str_eq document.status "ACTIVE") "KNOWLEDGE_REVOKE_REQUIRES_ACTIVE" 409

unfoldable pub assert_can_supersede : KnowledgeDocument → Principal → Outcome (Unit {0})
unfolding ◌>>=◌
assert_can_supersede document principal =
    assert_document_visible_for_management document principal >>= λ seen.
    require (not (str_eq document.scope "PERSONAL")) "KNOWLEDGE_PERSONAL_SUPERSEDE_NOT_APPLICABLE"
      409
    >>= λ shared.
        require (str_eq document.status "ACTIVE") "KNOWLEDGE_SUPERSEDE_REQUIRES_ACTIVE" 409

unfoldable pub assert_can_delete : KnowledgeDocument → Principal → Outcome (Unit {0})
unfolding ◌>>=◌
assert_can_delete document principal =
    assert_document_visible_for_management document principal >>= λ seen.
    require (str_eq document.scope "PERSONAL" || str_eq document.status "DRAFT")
      "KNOWLEDGE_DELETE_REQUIRES_PERSONAL_OR_DRAFT" 409

-- `_management_visibility_clause`: the rows that the query itself lets through.
unfoldable pub management_visibility_clause : Principal → KnowledgeDocument → Bool
management_visibility_clause principal d =
    (str_eq d.scope "PERSONAL"
      && is_some_text d.tenant_id principal.tenant_id
      && is_some_text d.owner_user_id principal.user_id)
    || (is_tenant_admin principal
        && str_eq d.scope "INSTITUTIONAL"
        && is_some_text d.tenant_id principal.tenant_id)
    || (is_platform_owner principal && str_eq d.scope "PLATFORM" && is_null d.tenant_id)
