-- ===== src/Knowledge/Supersede.antt =====
-- src/orkio_v2/services/knowledge_repository.py: the next version of a document.
use efata_777_backend_premiu.Prelude.{◌+◌, String, Option, none, some, List, str_eq, modify_first}
use efata_777_backend_premiu.Prelude.Text.{strip, text_or}
use efata_777_backend_premiu.Prelude.Http.{Outcome, returned, ◌>>=◌, require}
use efata_777_backend_premiu.Access.Principal.{Principal}
use efata_777_backend_premiu.Knowledge.Tables.{KnowledgeDocument, Store}
use efata_777_backend_premiu.Knowledge.Policy.{assert_can_supersede}
use efata_777_backend_premiu.Knowledge.Storage.{Outside, storage_key_of}
use efata_777_backend_premiu.Knowledge.Repository.{
  normalize_purposes, or_all, audit, get_managed_document, is_managed, with_status,
}
use efata_777_backend_premiu.Knowledge.Versions.{
  Upload, Reply, proceed, persist, add_document, or_row, supersede_ending, supersede_file_ending,
}

-- `value if value is not None else old`.
abbrev pub or_old {ℓ} : {A : Type ℓ} → Option A → Option A → Option A
or_old none old = old
or_old (some a) old = some a

unfoldable pub next_version :
    Principal → Outside → List String → String → Upload → KnowledgeDocument → KnowledgeDocument
next_version principal out purposes title upload old = record {
  id = out.row_id;
  tenant_id = old.tenant_id;
  owner_user_id = old.owner_user_id;
  scope = old.scope;
  agent_id = or_old upload.agent_id old.agent_id;
  title = title;
  source_filename = upload.filename;
  mime_type = upload.mime_type;
  size_bytes = upload.size_bytes;
  sha256 = upload.digest;
  storage_key =
      storage_key_of old.scope old.tenant_id old.logical_document_id (old.version + 1) upload.digest
        upload.filename;
  classification = text_or upload.classification old.classification;
  allowed_purposes = purposes;
  logical_document_id = old.logical_document_id;
  version = old.version + 1;
  status = "ACTIVE";
  effective_from = some out.now;
  expires_at = or_old upload.expires_at old.expires_at;
  created_by = principal.user_id;
  approved_by = some principal.user_id;
  supersedes_id = some old.id;
  created_at = out.now;
  updated_at = out.now;
}

-- The purposes of the next version: the given ones, else those of the old one.
abbrev pub purposes_of : Option (List String) → List String → Outcome (List String)
purposes_of none old = returned (or_all (some old))
purposes_of (some given) old = normalize_purposes (some given)

abbrev pub purposes_from_file : Option (List String) → List String → Outcome (List String)
purposes_from_file none old = normalize_purposes (some old)
purposes_from_file (some given) old = normalize_purposes (some given)

-- The old row is superseded and the new one added, in one transaction.
unfoldable pub replace_document : Principal → String → Outside → KnowledgeDocument → Store → Store
replace_document principal id out row store = add_document row (record store {
  documents =
      modify_first (is_managed principal id) (with_status "SUPERSEDED" out.now) store.documents;
})

abbrev pub audit_replaced : Principal → KnowledgeDocument → KnowledgeDocument → Store → Store
audit_replaced principal old row store =
    audit principal "knowledge.published" (some ("previous_knowledge_id", old.id)) row
      (audit principal "knowledge.superseded" (some ("new_knowledge_id", row.id)) old store)

-- The guards of a new version, with the old one and the purposes.
unfoldable pub next_terms :
    Principal → String → Upload → Store → Outcome (KnowledgeDocument × List String)
unfolding ◌>>=◌
next_terms principal id upload store = get_managed_document principal id store >>= λ old.
    assert_can_supersede old principal >>= λ allowed.
    purposes_of upload.allowed_purposes old.allowed_purposes >>= λ purposes.
    returned (old, purposes)

unfoldable pub next_file_terms :
    Principal → String → Upload → Store → Outcome (KnowledgeDocument × List String)
unfolding ◌>>=◌
next_file_terms principal id upload store = get_managed_document principal id store >>= λ old.
    assert_can_supersede old principal >>= λ allowed.
    require (str_eq old.status "ACTIVE") "KNOWLEDGE_SUPERSEDE_REQUIRES_ACTIVE" 409 >>= λ active.
    purposes_from_file upload.allowed_purposes old.allowed_purposes >>= λ purposes.
    returned (old, purposes)

unfoldable pub supersede_document : Principal → String → Upload → Outside → Store → Reply
unfolding strip
supersede_document principal id upload out store =
    proceed (next_terms principal id upload store) store (λ known.
      let old = known.0 in
      let title = strip (text_or upload.title old.title) in
      let row = next_version principal out known.1 title upload old in
      persist (or_row row supersede_ending) out row
        (λ stored.
          audit_replaced principal (with_status "SUPERSEDED" out.now old) row
            (replace_document principal id out row stored))
        store)

unfoldable pub supersede_document_from_file : Principal → String → Upload → Outside → Store → Reply
supersede_document_from_file principal id upload out store =
    proceed (next_file_terms principal id upload store) store (λ known.
      let old = known.0 in
      let row = next_version principal out known.1 (text_or upload.title old.title) upload old in
      persist supersede_file_ending out row
        (λ stored.
          audit principal "knowledge.superseded" (some ("previous_knowledge_id", old.id)) row
            (replace_document principal id out row stored))
        store)
