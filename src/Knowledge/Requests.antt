-- ===== src/Knowledge/Requests.antt =====
-- What a request of src/orkio_v2/services/knowledge_repository.py does to the rows, in three kinds of change.
use efata_777_backend_premiu.Prelude.{
  ℕ, ◌≤◌, String, ◌≡◌, refl, Bool, true, ◌&&◌, ◌||◌, Bool-cases, inl, inr, Option, none, some, List,
  [], ◌∷◌, ◌++◌, str_eq, arith, find, modify_first, count_if,
}
use efata_777_backend_premiu.Prelude.Text.{strip, text_or, or_none}
use efata_777_backend_premiu.Access.Principal.{Principal}
use efata_777_backend_premiu.Knowledge.Tables.{
  KnowledgeAudit, KnowledgeDocument, Store, delete_first,
}
use efata_777_backend_premiu.Knowledge.Policy.{
  assert_can_publish, assert_can_revoke, assert_can_delete,
}
use efata_777_backend_premiu.Knowledge.Storage.{Outside, delete_blob_or_enqueue}
use efata_777_backend_premiu.Knowledge.Repository.{
  get_managed_document, is_managed, publish_document, revoke_document, delete_document, save, audit,
  published, with_status,
}
use efata_777_backend_premiu.Knowledge.Versions.{
  supersede_ending, supersede_file_ending, Upload, Ending, upload_terms, or_row, create_ending,
  create_file_ending, audit_created, persist, add_document, first_version, create_uploaded_document,
  create_uploaded_document_from_file,
}
use efata_777_backend_premiu.Knowledge.Supersede.{
  audit_replaced, next_version, next_terms, next_file_terms, replace_document, supersede_document,
  supersede_document_from_file,
}
use efata_777_backend_premiu.Knowledge.Rows.{pick}
use efata_777_backend_premiu.Knowledge.Operations.{
  Request, publish, revoke, delete, create, create_file, supersede, supersede_file, handle,
  is_logical, IsFresh, Serves, idle, serve, found_by, proceed_keeps, guarded_keeps, deletion_keeps,
}
use efata_777_backend_premiu.Knowledge.Terms.{draft_of, next_terms_of, next_file_terms_of}

-- A draft or an active version: one that a user can still publish or read.
abbrev pub is_current : String → KnowledgeDocument → Bool
is_current logical d =
    str_eq d.logical_document_id logical && (str_eq d.status "ACTIVE" || str_eq d.status "DRAFT")

-- The rows beside a new one: all for a first version, and with the old one superseded for a next.
pub data Base (store : Store) (row : KnowledgeDocument) : List KnowledgeDocument → Type 0 where
  first :
      count_if (is_logical row.logical_document_id) store.documents ≡ 0
      → Base store row store.documents
  next :
      (p : Principal) (id : String) (now : ℕ) (old : KnowledgeDocument)
      → find (is_managed p id) store.documents ≡ some old
      → str_eq old.status "ACTIVE" ≡ true
      → row.logical_document_id ≡ old.logical_document_id
      → Base store row
          (modify_first (is_managed p id) (with_status "SUPERSEDED" now) store.documents)

abbrev pub with_blob : KnowledgeDocument → Store → Store
with_blob row store = record store { blobs = row.storage_key ∷ store.blobs }

-- A property of the store that each kind of change keeps.
pub record Keeps (P : Store → Type 0) : Type 0 where
  pub revised :
      (p : Principal) (id : String) (f : KnowledgeDocument → KnowledgeDocument)
      (d : KnowledgeDocument) (audits : List KnowledgeAudit) (store : Store)
      → find (is_managed p id) store.documents ≡ some d
      → (f d).storage_key ≡ d.storage_key
      → ((l : String) → pick (is_current l) (some (f d)) ≤ pick (is_current l) (some d))
      → P store
      → P (record store {
        audits = audits;
        documents = modify_first (is_managed p id) f store.documents;
      })
  pub removed :
      (p : Principal) (id : String) (out : Outside) (reason : String) (t k : Option String)
      (d : KnowledgeDocument) (audits : List KnowledgeAudit) (store : Store)
      → find (is_managed p id) store.documents ≡ some d
      → P store
      → P (
          delete_blob_or_enqueue out d.storage_key reason t k out.delete_error (record store {
            audits = audits;
            documents = delete_first (is_managed p id) store.documents;
          }))
  pub added :
      (ending : Ending) (out : Outside) (row : KnowledgeDocument) (add : Store → Store)
      (base : List KnowledgeDocument) (store : Store)
      → Base store row base
      → (add (with_blob row store)).documents ≡ base ++ row ∷ []
      → (add (with_blob row store)).blobs ≡ row.storage_key ∷ store.blobs
      → P store
      → P (persist ending out row add store).1

created_rows :
    (p : Principal) (row : KnowledgeDocument) (stored : Store)
    → ((audit_created p row (add_document row stored)).documents ≡ stored.documents ++ row ∷ [])
      × ((audit_created p row (add_document row stored)).blobs ≡ stored.blobs)
unfolding add_document audit
created_rows p row stored = elim (Bool-cases (str_eq row.status "ACTIVE")) [
  | inl e ↦ rw e (refl, refl)
  | inr e ↦ rw e (refl, refl)
]

module _ (P : Store → Type 0) (keeps : Keeps P) where
  publish_keeps :
      (p : Principal) (id : String) (out : Outside) (store : Store)
      → P store
      → P (handle p (publish id) out store)
  unfolding publish_document save audit published
  publish_keeps p id out store holds =
      guarded_keeps P (get_managed_document p id store) (λ d. assert_can_publish d p)
        (λ d.
          (published p out.now d, save p id "knowledge.published" (published p out.now) d store))
        store holds
        (λ d found passed.
          let draft = draft_of d p passed in
          keeps.revised p id (published p out.now) d
            (save p id "knowledge.published" (published p out.now) d store).audits store
            (found_by p id store d found) refl (λ l. ground (arith, draft)) holds)

  revoke_keeps :
      (p : Principal) (id : String) (out : Outside) (store : Store)
      → P store
      → P (handle p (revoke id) out store)
  unfolding revoke_document save audit
  revoke_keeps p id out store holds =
      let f = with_status "REVOKED" out.now in
      guarded_keeps P (get_managed_document p id store) (λ d. assert_can_revoke d p)
        (λ d. (f d, save p id "knowledge.revoked" f d store)) store holds
        (λ d found passed.
          keeps.revised p id f d (save p id "knowledge.revoked" f d store).audits store
            (found_by p id store d found) refl (λ l. ground arith) holds)

  delete_keeps :
      (p : Principal) (id : String) (out : Outside) (store : Store)
      → P store
      → P (handle p (delete id) out store)
  unfolding delete_document audit
  delete_keeps p id out store holds =
      deletion_keeps P (get_managed_document p id store) (λ d. assert_can_delete d p)
        (λ d.
          delete_blob_or_enqueue out d.storage_key "DELETE_POST_COMMIT_ORPHAN" d.tenant_id
            (some d.id) out.delete_error
            (record (audit p "knowledge.deleted" none d store) {
              documents = delete_first (is_managed p id) store.documents;
            }))
        store holds
        (λ d found passed.
          keeps.removed p id out "DELETE_POST_COMMIT_ORPHAN" d.tenant_id (some d.id) d
            (audit p "knowledge.deleted" none d store).audits store (found_by p id store d found)
            holds)

  create_keeps :
      (p : Principal) (upload : Upload) (out : Outside) (store : Store)
      → IsFresh out store
      → P store
      → P (handle p (create upload) out store)
  unfolding create_uploaded_document add_document audit first_version
  create_keeps p upload out store fresh holds =
      let row_of : String × List String → KnowledgeDocument = λ known.
        first_version p out known.0 known.1 (or_none (text_or upload.agent_id "")) upload in
      let add : String × List String → Store → Store =
        λ known stored. audit_created p (row_of known) (add_document (row_of known) stored) in
      proceed_keeps P (upload_terms p upload) store
        (λ known.
          persist (or_row (row_of known) create_ending) out (row_of known) (add known) store)
        holds
        (λ known passed.
          let (ds, bs) = created_rows p (row_of known) (with_blob (row_of known) store) in
          keeps.added (or_row (row_of known) create_ending) out (row_of known) (add known)
            store.documents store (first fresh) ds bs holds)

  create_file_keeps :
      (p : Principal) (upload : Upload) (out : Outside) (store : Store)
      → IsFresh out store
      → P store
      → P (handle p (create_file upload) out store)
  unfolding create_uploaded_document_from_file add_document audit first_version
  create_file_keeps p upload out store fresh holds =
      let row_of : String × List String → KnowledgeDocument =
        λ known. first_version p out known.0 known.1 upload.agent_id upload in
      let add : String × List String → Store → Store = λ known stored.
        audit p "knowledge.uploaded" none (row_of known) (add_document (row_of known) stored) in
      proceed_keeps P (upload_terms p upload) store
        (λ known. persist create_file_ending out (row_of known) (add known) store) holds
        (λ known passed.
          keeps.added create_file_ending out (row_of known) (add known) store.documents store
            (first fresh) refl refl holds)

  supersede_keeps :
      (p : Principal) (id : String) (upload : Upload) (out : Outside) (store : Store)
      → P store
      → P (handle p (supersede id upload) out store)
  unfolding supersede_document replace_document add_document audit next_version
  supersede_keeps p id upload out store holds =
      let row_of : KnowledgeDocument × List String → KnowledgeDocument = λ known.
        next_version p out known.1 (strip (text_or upload.title known.0.title)) upload known.0 in
      let add : KnowledgeDocument × List String → Store → Store = λ known stored.
        audit_replaced p (with_status "SUPERSEDED" out.now known.0) (row_of known)
          (replace_document p id out (row_of known) stored) in
      proceed_keeps P (next_terms p id upload store) store
        (λ known.
          persist (or_row (row_of known) supersede_ending) out (row_of known) (add known) store)
        holds
        (λ known passed.
          let (found, active) = next_terms_of p upload id store known passed in
          keeps.added (or_row (row_of known) supersede_ending) out (row_of known) (add known)
            (modify_first (is_managed p id) (with_status "SUPERSEDED" out.now) store.documents)
            store (next p id out.now known.0 found active refl) refl refl holds)

  supersede_file_keeps :
      (p : Principal) (id : String) (upload : Upload) (out : Outside) (store : Store)
      → P store
      → P (handle p (supersede_file id upload) out store)
  unfolding supersede_document_from_file replace_document add_document audit next_version
  supersede_file_keeps p id upload out store holds =
      let row_of : KnowledgeDocument × List String → KnowledgeDocument =
        λ known. next_version p out known.1 (text_or upload.title known.0.title) upload known.0 in
      let add : KnowledgeDocument × List String → Store → Store = λ known stored.
        audit p "knowledge.superseded" (some ("previous_knowledge_id", known.0.id)) (row_of known)
          (replace_document p id out (row_of known) stored) in
      proceed_keeps P (next_file_terms p id upload store) store
        (λ known. persist supersede_file_ending out (row_of known) (add known) store) holds
        (λ known passed.
          let (found, active) = next_file_terms_of p upload id store known passed in
          keeps.added supersede_file_ending out (row_of known) (add known)
            (modify_first (is_managed p id) (with_status "SUPERSEDED" out.now) store.documents)
            store (next p id out.now known.0 found active refl) refl refl holds)

  handle_keeps :
      (p : Principal) (r : Request) (out : Outside) (store : Store)
      → IsFresh out store
      → P store
      → P (handle p r out store)
  handle_keeps p (publish id) out store fresh = publish_keeps p id out store
  handle_keeps p (revoke id) out store fresh = revoke_keeps p id out store
  handle_keeps p (delete id) out store fresh = delete_keeps p id out store
  handle_keeps p (create upload) out store fresh = create_keeps p upload out store fresh
  handle_keeps p (create_file upload) out store fresh = create_file_keeps p upload out store fresh
  handle_keeps p (supersede id upload) out store fresh = supersede_keeps p id upload out store
  handle_keeps p (supersede_file id upload) out store fresh =
      supersede_file_keeps p id upload out store

  pub serves_keeps : {s t : Store} → P s → Serves s t → P t
  serves_keeps holds idle = holds
  serves_keeps holds (serve p r out before fresh) =
      handle_keeps p r out _ fresh (serves_keeps holds before)
