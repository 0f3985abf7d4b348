-- ===== src/Knowledge/Tables.antt =====
-- src/orkio_v2/models.py: knowledge_documents and knowledge_storage_cleanup, beside the stored blobs.
use efata_777_backend_premiu.Prelude.{
  ℕ, String, Bool, false, true, ◌&&◌, ◌||◌, not, Option, none, some, List, [], ◌∷◌, str_eq, any,
  if◌then◌else◌,
}

pub record KnowledgeDocument : Type 0 where
  pub id : String
  pub tenant_id : Option String
  pub owner_user_id : Option String
  pub scope : String
  pub agent_id : Option String
  pub title : String
  pub source_filename : String
  pub mime_type : String
  pub size_bytes : ℕ
  pub sha256 : String
  pub storage_key : String
  pub classification : String
  pub allowed_purposes : List String
  pub logical_document_id : String
  pub version : ℕ
  pub status : String
  pub effective_from : Option ℕ
  pub expires_at : Option ℕ
  pub created_by : String
  pub approved_by : Option String
  pub supersedes_id : Option String
  pub created_at : ℕ
  pub updated_at : ℕ

pub record KnowledgeStorageCleanup : Type 0 where
  pub id : String
  pub tenant_id : Option String
  pub knowledge_id : Option String
  pub storage_key : String
  pub reason : String
  pub status : String
  pub attempts : ℕ
  pub last_error : Option String
  pub created_at : ℕ
  pub updated_at : ℕ

-- The row of the audit trail, with the document's part of its metadata and one extra pair.
pub record KnowledgeAudit : Type 0 where
  pub tenant_id : Option String
  pub actor_id : Option String
  pub action : String
  pub resource_id : String
  pub logical_id : String
  pub version : ℕ
  pub scope : String
  pub status : String
  pub extra : Option (String × String)

-- The tables, and the keys under which the storage holds a blob.
pub record Store : Type 0 where
  pub documents : List KnowledgeDocument
  pub cleanups : List KnowledgeStorageCleanup
  pub audits : List KnowledgeAudit
  pub blobs : List String

abbrev pub is_null : Option String → Bool
is_null none = true
is_null (some s) = false

-- The check constraint ck_knowledge_scope_tenant_owner.
unfoldable pub scope_tenant_owner : KnowledgeDocument → Bool
scope_tenant_owner d =
    (str_eq d.scope "PLATFORM" && is_null d.tenant_id && is_null d.owner_user_id)
    || (str_eq d.scope "INSTITUTIONAL" && not (is_null d.tenant_id) && is_null d.owner_user_id)
    || (str_eq d.scope "PERSONAL" && not (is_null d.tenant_id) && not (is_null d.owner_user_id))

unfoldable pub has_blob : String → List String → Bool
has_blob key blobs = any (λ b. str_eq b key) blobs

-- `storage.delete(key)`, when it succeeds.
unfoldable pub without : String → List String → List String
without key [] = []
without key (b ∷ bs) = let rest = without key bs in if str_eq b key then rest else b ∷ rest

-- `db.delete(row)` of the row that the query found.
unfoldable pub delete_first {ℓ} : {A : Type ℓ} → (A → Bool) → List A → List A
delete_first p [] = []
delete_first p (x ∷ xs) = let rest = delete_first p xs in if p x then xs else x ∷ rest
