-- ===== src/Knowledge/Versions.antt =====
-- src/orkio_v2/services/knowledge_repository.py: the upload of a document and its next version, with the blob stored first.
use efata_777_backend_premiu.Prelude.{
  ℕ, String, Bool, Option, none, some, List, [], ◌∷◌, ◌++◌, str_eq, find, if◌then◌else◌,
}
use efata_777_backend_premiu.Prelude.Text.{text_or, or_none, text_length}
use efata_777_backend_premiu.Prelude.Http.{Outcome, returned, raised, crashed, ◌>>=◌}
use efata_777_backend_premiu.Access.Principal.{Principal}
use efata_777_backend_premiu.Knowledge.Tables.{KnowledgeDocument, Store, has_blob}
use efata_777_backend_premiu.Knowledge.Policy.{normalize_scope, assert_upload_allowed}
use efata_777_backend_premiu.Knowledge.Storage.{
  Outside, Commit, committed, failed, BlobFate, has_id, storage_key_of,
  resolve_blob_after_failed_commit,
}
use efata_777_backend_premiu.Knowledge.Repository.{normalize_purposes, audit}

-- The arguments of an upload; `digest` is the caller's or that of the data.
pub record Upload : Type 0 where
  pub scope : String
  pub title : Option String
  pub filename : String
  pub mime_type : String
  pub size_bytes : ℕ
  pub digest : String
  pub classification : Option String
  pub allowed_purposes : Option (List String)
  pub agent_id : Option String
  pub expires_at : Option ℕ

-- `digest or hashlib.sha256(data).hexdigest()` and `len(data)`.
unfoldable pub of_data : (String → String) → String → Option String → Upload → Upload
of_data sha256 bytes digest upload = record upload {
  digest = text_or digest (sha256 bytes);
  size_bytes = text_length bytes;
}

abbrev pub Reply : Type 0
Reply = Outcome KnowledgeDocument × Store

-- What raises before the first write leaves the store.
unfoldable pub proceed : {A : Type 0} → Outcome A → Store → (A → Reply) → Reply
proceed (returned a) store next = next a
proceed (raised code status) store next = (raised code status, store)
proceed crashed store next = (crashed, store)

-- `storage.put_if_absent`, and the conflict that its `False` raises.
unfoldable pub put_blob : Outside → String → Store → (Store → Reply) → Reply
put_blob out key store next =
    if out.put_fails
    then (crashed, store)
    else if has_blob key store.blobs
    then (raised "KNOWLEDGE_STORAGE_KEY_CONFLICT" 409, store)
    else next (record store { blobs = key ∷ store.blobs })

-- What a caller makes of a failed commit: the reason that it records, its exception, and its answer when the durable row cannot be loaded.
pub record Ending : Type 0 where
  pub reason : Bool → String
  pub failure : Bool → Outcome KnowledgeDocument
  pub missing : Outcome KnowledgeDocument

abbrev pub loaded : Option KnowledgeDocument → Outcome KnowledgeDocument → Outcome KnowledgeDocument
loaded none missing = missing
loaded (some row) missing = returned row

abbrev pub after_resolving :
    Ending → Bool → KnowledgeDocument → BlobFate → Store → Outcome KnowledgeDocument
after_resolving ending conflict row BlobFate.persisted store =
    loaded (find (has_id row.id) store.documents) ending.missing
after_resolving ending conflict row BlobFate.absent store = ending.failure conflict
after_resolving ending conflict row BlobFate.unknown store = ending.failure conflict

-- `db.commit()` with its handlers: `before` is what a rollback leaves, `after` what is committed.
unfoldable pub finish : Ending → Outside → Commit → KnowledgeDocument → Store → Store → Reply
finish ending out committed row before after = (returned row, after)
finish ending out (failed conflict durable readable) row before after =
    let (fate, store) =
      resolve_blob_after_failed_commit out readable row.storage_key row.id row.tenant_id
        (ending.reason conflict) (if durable then after else before) in
    (after_resolving ending conflict row fate store, store)

-- The blob first, then the rows of `add` in one transaction.
unfoldable pub persist : Ending → Outside → KnowledgeDocument → (Store → Store) → Store → Reply
persist ending out row add store =
    put_blob out row.storage_key store
      (λ stored. finish ending out out.commit row stored (add stored))

abbrev pub create_ending : Ending
create_ending = record {
  reason = λ conflict. "CREATE_COMMIT_FAILED";
  failure = λ conflict. crashed;
  missing = crashed;
}

abbrev pub create_file_ending : Ending
create_file_ending = record {
  reason = λ conflict. "knowledge_create_commit_failed";
  failure = λ conflict. raised "KNOWLEDGE_CREATE_FAILED" 409;
  missing = raised "KNOWLEDGE_CREATE_FAILED" 409;
}

abbrev pub supersede_ending : Ending
supersede_ending = record {
  reason = λ conflict. if conflict then "SUPERSEDE_VERSION_CONFLICT" else "SUPERSEDE_COMMIT_FAILED";
  failure = λ conflict. if conflict then raised "KNOWLEDGE_VERSION_CONFLICT" 409 else crashed;
  missing = crashed;
}

abbrev pub supersede_file_ending : Ending
supersede_file_ending = record {
  reason = λ conflict. "knowledge_supersede_commit_failed";
  failure = λ conflict. raised "KNOWLEDGE_SUPERSEDE_FAILED" 409;
  missing = raised "KNOWLEDGE_SUPERSEDE_FAILED" 409;
}

abbrev pub or_row : KnowledgeDocument → Ending → Ending
or_row row ending = record ending { missing = returned row }

-- The first version of a document: a personal one is active at once, a shared one is a draft.
unfoldable pub first_version :
    Principal → Outside → String → List String → Option String → Upload → KnowledgeDocument
first_version principal out scope purposes agent_id upload =
    let personal = str_eq scope "PERSONAL" in
    let tenant_id = if str_eq scope "PLATFORM" then none else some principal.tenant_id in
    record {
      id = out.row_id;
      tenant_id = tenant_id;
      owner_user_id = if personal then some principal.user_id else none;
      scope = scope;
      agent_id = agent_id;
      title = text_or upload.title "";
      source_filename = upload.filename;
      mime_type = upload.mime_type;
      size_bytes = upload.size_bytes;
      sha256 = upload.digest;
      storage_key = storage_key_of scope tenant_id out.logical_id 1 upload.digest upload.filename;
      classification = text_or upload.classification "";
      allowed_purposes = purposes;
      logical_document_id = out.logical_id;
      version = 1;
      status = if personal then "ACTIVE" else "DRAFT";
      effective_from = if personal then some out.now else none;
      expires_at = upload.expires_at;
      created_by = principal.user_id;
      approved_by = if personal then some principal.user_id else none;
      supersedes_id = none;
      created_at = out.now;
      updated_at = out.now;
    }

unfoldable pub add_document : KnowledgeDocument → Store → Store
add_document row store = record store { documents = store.documents ++ row ∷ [] }

abbrev pub audit_created : Principal → KnowledgeDocument → Store → Store
audit_created principal row store =
    let created = audit principal "knowledge.created" none row store in
    if str_eq row.status "ACTIVE"
    then audit principal "knowledge.published" none row created
    else created

-- The guards of an upload, with the scope and the purposes that they normalize.
unfoldable pub upload_terms : Principal → Upload → Outcome (String × List String)
unfolding ◌>>=◌
upload_terms principal upload = normalize_scope upload.scope >>= λ scope.
    assert_upload_allowed scope principal >>= λ allowed.
    normalize_purposes upload.allowed_purposes >>= λ purposes. returned (scope, purposes)

unfoldable pub create_uploaded_document : Principal → Upload → Outside → Store → Reply
create_uploaded_document principal upload out store =
    proceed (upload_terms principal upload) store (λ known.
      let row =
        first_version principal out known.0 known.1 (or_none (text_or upload.agent_id "")) upload in
      persist (or_row row create_ending) out row
        (λ stored. audit_created principal row (add_document row stored)) store)

unfoldable pub create_uploaded_document_from_file : Principal → Upload → Outside → Store → Reply
create_uploaded_document_from_file principal upload out store =
    proceed (upload_terms principal upload) store (λ known.
      let row = first_version principal out known.0 known.1 upload.agent_id upload in
      persist create_file_ending out row
        (λ stored. audit principal "knowledge.uploaded" none row (add_document row stored)) store)
