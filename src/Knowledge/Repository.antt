-- ===== src/Knowledge/Repository.antt =====
-- src/orkio_v2/services/knowledge_repository.py: the managed document, its queries, and the changes of its status.
use efata_777_backend_premiu.Prelude.{
  ℕ, String, Bool, ◌&&◌, Option, none, some, List, [], ◌∷◌, ◌++◌, str_eq, any, find, modify_first,
  if◌then◌else◌,
}
use efata_777_backend_premiu.Prelude.Text.{strip, lower, is_some_text}
use efata_777_backend_premiu.Prelude.Http.{Outcome, returned, raised, ◌>>=◌}
use efata_777_backend_premiu.Access.Principal.{Principal, includes}
use efata_777_backend_premiu.Knowledge.Tables.{
  KnowledgeDocument, KnowledgeAudit, Store, delete_first, is_null,
}
use efata_777_backend_premiu.Knowledge.Policy.{
  management_visibility_clause, assert_document_visible_for_management, assert_can_publish,
  assert_can_revoke, assert_can_delete, normalize_scope, assert_list_allowed,
}
use efata_777_backend_premiu.Knowledge.Storage.{Outside, has_id, delete_blob_or_enqueue}

abbrev pub allowed_purposes : List String
allowed_purposes = "chat" ∷ "team" ∷ "realtime" ∷ []

unfoldable pub normalize_rest : List String → List String → Outcome (List String)
unfolding any strip lower
normalize_rest [] result = returned result
normalize_rest (item ∷ raw) result =
    let value = lower (strip item) in
    let kept = if includes value result then result else result ++ value ∷ [] in
    let rest = normalize_rest raw kept in
    if includes value allowed_purposes then rest else raised "KNOWLEDGE_PURPOSE_INVALID" 422

-- `values or [...]`.
unfoldable pub or_all : Option (List String) → List String
or_all none = allowed_purposes
or_all (some []) = allowed_purposes
or_all (some (v ∷ vs)) = v ∷ vs

abbrev pub not_empty : List String → Outcome (List String)
not_empty [] = raised "KNOWLEDGE_PURPOSE_REQUIRED" 422
not_empty (v ∷ vs) = returned (v ∷ vs)

unfoldable pub normalize_purposes : Option (List String) → Outcome (List String)
unfolding normalize_rest or_all ◌>>=◌
normalize_purposes values = normalize_rest (or_all values) [] >>= not_empty

abbrev pub audit_row :
    Principal → String → Option (String × String) → KnowledgeDocument → KnowledgeAudit
audit_row principal action extra document = record {
  tenant_id = some principal.tenant_id;
  actor_id = some principal.user_id;
  action = action;
  resource_id = document.id;
  logical_id = document.logical_document_id;
  version = document.version;
  scope = document.scope;
  status = document.status;
  extra = extra;
}

-- `_audit`.
unfoldable pub audit :
    Principal → String → Option (String × String) → KnowledgeDocument → Store → Store
audit principal action extra document store = record store {
  audits = store.audits ++ audit_row principal action extra document ∷ [];
}

abbrev pub is_managed : Principal → String → KnowledgeDocument → Bool
is_managed principal id d = has_id id d && management_visibility_clause principal d

unfoldable pub managed : Principal → Option KnowledgeDocument → Outcome KnowledgeDocument
unfolding ◌>>=◌
managed principal none = raised "KNOWLEDGE_NOT_FOUND" 404
managed principal (some document) =
    assert_document_visible_for_management document principal >>= λ seen. returned document

unfoldable pub get_managed_document : Principal → String → Store → Outcome KnowledgeDocument
get_managed_document principal id store =
    managed principal (find (is_managed principal id) store.documents)

abbrev pub is_listed : Principal → String → KnowledgeDocument → Bool
is_listed principal scope d =
    str_eq d.scope scope
    && (if str_eq scope "PERSONAL"
        then is_some_text d.tenant_id principal.tenant_id
          && is_some_text d.owner_user_id principal.user_id
        else if str_eq scope "INSTITUTIONAL"
        then is_some_text d.tenant_id principal.tenant_id
        else is_null d.tenant_id)

unfoldable pub keep_if {ℓ} : {A : Type ℓ} → (A → Bool) → List A → List A
keep_if p [] = []
keep_if p (x ∷ xs) = let rest = keep_if p xs in if p x then x ∷ rest else rest

-- `list_documents`, without the order of the rows.
unfoldable pub list_documents : Principal → String → Store → Outcome (List KnowledgeDocument)
unfolding ◌>>=◌
list_documents principal scope store = normalize_scope scope >>= λ known.
    assert_list_allowed known principal >>= λ allowed.
    returned (keep_if (is_listed principal known) store.documents)

unfoldable pub published : Principal → ℕ → KnowledgeDocument → KnowledgeDocument
published principal now document = record document {
  status = "ACTIVE";
  effective_from = some now;
  approved_by = some principal.user_id;
  updated_at = now;
}

abbrev pub with_status : String → ℕ → KnowledgeDocument → KnowledgeDocument
with_status status now document = record document { status = status; updated_at = now }

-- An assignment to the attributes of the row that the query returned, and its audit.
unfoldable pub save :
    Principal
    → String
    → String
    → (KnowledgeDocument → KnowledgeDocument)
    → KnowledgeDocument
    → Store
    → Store
unfolding audit
save principal id action change document store =
    audit principal action none (change document)
      (record store { documents = modify_first (is_managed principal id) change store.documents })

unfoldable pub publish_document :
    Principal → String → Outside → Store → Outcome (KnowledgeDocument × Store)
unfolding ◌>>=◌ published
publish_document principal id out store = get_managed_document principal id store >>= λ document.
    assert_can_publish document principal >>= λ allowed. returned (
      published principal out.now document,
      save principal id "knowledge.published" (published principal out.now) document store,
    )

unfoldable pub revoke_document :
    Principal → String → Outside → Store → Outcome (KnowledgeDocument × Store)
unfolding ◌>>=◌
revoke_document principal id out store = get_managed_document principal id store >>= λ document.
    assert_can_revoke document principal >>= λ allowed. returned (
      with_status "REVOKED" out.now document,
      save principal id "knowledge.revoked" (with_status "REVOKED" out.now) document store,
    )

-- The row goes first; a blob that cannot be deleted is queued.
unfoldable pub delete_document : Principal → String → Outside → Store → Outcome Store
unfolding ◌>>=◌
delete_document principal id out store = get_managed_document principal id store >>= λ document.
    assert_can_delete document principal >>= λ allowed.
    let audited = audit principal "knowledge.deleted" none document store in
    let gone = record audited {
      documents = delete_first (is_managed principal id) store.documents;
    } in
    returned (
      delete_blob_or_enqueue out document.storage_key "DELETE_POST_COMMIT_ORPHAN" document.tenant_id
        (some document.id) out.delete_error gone)
