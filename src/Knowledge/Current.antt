-- ===== src/Knowledge/Current.antt =====
-- One current version for each logical document, over the requests of src/orkio_v2/services/knowledge_repository.py.
use efata_777_backend_premiu.Prelude.{
  ℕ, ◌+◌, ◌≤◌, String, ◌≡◌, refl, Bool, true, Bool-cases, inl, inr, Option, none, some, List, [],
  ◌∷◌, ◌++◌, str_eq, eq_iff, arith, find, modify_first, count_if, count_if-append, if◌then◌else◌,
}
use efata_777_backend_premiu.Access.Principal.{Principal}
use efata_777_backend_premiu.Knowledge.Tables.{KnowledgeDocument, Store, delete_first}
use efata_777_backend_premiu.Knowledge.Storage.{
  Outside, Commit, committed, failed, queue_storage_cleanup, delete_blob_or_enqueue,
  resolve_blob_after_failed_commit,
}
use efata_777_backend_premiu.Knowledge.Repository.{is_managed, with_status}
use efata_777_backend_premiu.Knowledge.Versions.{Ending, persist, finish}
use efata_777_backend_premiu.Knowledge.Rows.{pick, count_if-modify_first, count_if-delete_first}
use efata_777_backend_premiu.Knowledge.Requests.{
  is_current, Base, first, next, Keeps, with_blob, serves_keeps,
}
use efata_777_backend_premiu.Knowledge.Operations.{is_logical, Serves, put_blob_keeps}

abbrev pub AreSingle : List KnowledgeDocument → Type 0
AreSingle ds = (logical : String) → count_if (is_current logical) ds ≤ 1

abbrev pub IsSingle : Store → Type 0
IsSingle store = AreSingle store.documents

delete_blob_or_enqueue-documents :
    (out : Outside) (key reason : String) (t k e : Option String) (store : Store)
    → (delete_blob_or_enqueue out key reason t k e store).documents ≡ store.documents
unfolding delete_blob_or_enqueue queue_storage_cleanup
delete_blob_or_enqueue-documents out key reason t k none store = refl
delete_blob_or_enqueue-documents out key reason t k (some e) store = ground arith

resolve-documents :
    (out : Outside) (readable : Bool) (key id : String) (t : Option String) (reason : String)
    (store : Store)
    → (resolve_blob_after_failed_commit out readable key id t reason store).1.documents
      ≡ store.documents
unfolding resolve_blob_after_failed_commit
resolve-documents out readable key id t reason store =
    ground
      (arith, delete_blob_or_enqueue-documents out key reason t (some id) out.delete_error store)

finish-IsSingle :
    (ending : Ending) (out : Outside) (commit : Commit) (row : KnowledgeDocument)
    (before after : Store)
    → IsSingle before
    → IsSingle after
    → IsSingle (finish ending out commit row before after).1
unfolding finish
finish-IsSingle ending out committed row before after hb ha = ha
finish-IsSingle ending out (failed conflict durable readable) row before after hb ha =
    let left = if durable then after else before in
    rw
      (resolve-documents out readable row.storage_key row.id row.tenant_id (ending.reason conflict)
        left)
      (elim (Bool-cases durable) [ inl e ↦ rw e ha | inr e ↦ rw e hb ])

-- A change of the found row that keeps what makes it current, or ends it.
modified-AreSingle :
    (p : Principal) (id : String) (f : KnowledgeDocument → KnowledgeDocument)
    (ds : List KnowledgeDocument) (d : KnowledgeDocument)
    → find (is_managed p id) ds ≡ some d
    → ((l : String) → pick (is_current l) (some (f d)) ≤ pick (is_current l) (some d))
    → AreSingle ds
    → AreSingle (modify_first (is_managed p id) f ds)
modified-AreSingle p id f ds d found less single l =
    let q = is_managed p id in
    let counted : count_if (is_current l) (modify_first q f ds) + pick (is_current l) (some d)
        ≡ count_if (is_current l) ds + pick (is_current l) (some (f d)) =
      rw found at (count_if-modify_first (is_current l) q f ds) in
    omega (arith, counted, less l, single l)

deleted-AreSingle :
    (p : Principal) (id : String) (ds : List KnowledgeDocument)
    → AreSingle ds
    → AreSingle (delete_first (is_managed p id) ds)
deleted-AreSingle p id ds single l =
    omega (arith, count_if-delete_first (is_current l) (is_managed p id) ds, single l)

current-le-logical :
    (l : String) (ds : List KnowledgeDocument)
    → count_if (is_current l) ds ≤ count_if (is_logical l) ds
unfolding count_if
current-le-logical l [] = omega arith
current-le-logical l (d ∷ ds) = ground (arith, current-le-logical l ds)

created-AreSingle :
    (row : KnowledgeDocument) (ds : List KnowledgeDocument)
    → count_if (is_logical row.logical_document_id) ds ≡ 0
    → AreSingle ds
    → AreSingle (ds ++ row ∷ [])
unfolding count_if
created-AreSingle row ds unused single l =
    rw (count_if-append (is_current l) ds (row ∷ []))
      (elim (Bool-cases (str_eq row.logical_document_id l)) [
        | inr other ↦ rw other (omega (arith, single l))
        | inl same ↦
            let none_yet : count_if (is_logical l) ds ≡ 0 =
              rw ((eq_iff row.logical_document_id l).0 same) at unused in
            rw same (ground (arith, none_yet, current-le-logical l ds))
      ])

replaced-AreSingle :
    (p : Principal) (id : String) (now : ℕ) (row old : KnowledgeDocument)
    (ds : List KnowledgeDocument)
    → find (is_managed p id) ds ≡ some old
    → str_eq old.status "ACTIVE" ≡ true
    → row.logical_document_id ≡ old.logical_document_id
    → AreSingle ds
    → AreSingle (modify_first (is_managed p id) (with_status "SUPERSEDED" now) ds ++ row ∷ [])
unfolding count_if
replaced-AreSingle p id now row old ds found active same single l =
    let q = is_managed p id in
    let f = with_status "SUPERSEDED" now in
    let counted : count_if (is_current l) (modify_first q f ds) + pick (is_current l) (some old)
        ≡ count_if (is_current l) ds + pick (is_current l) (some (f old)) =
      rw found at (count_if-modify_first (is_current l) q f ds) in
    rw (count_if-append (is_current l) (modify_first q f ds) (row ∷ []), same)
      (ground (arith, counted, single l, active))

based-AreSingle :
    (row : KnowledgeDocument) (store : Store) (base : List KnowledgeDocument)
    → Base store row base
    → IsSingle store
    → AreSingle (base ++ row ∷ [])
based-AreSingle row store _ (first unused) single =
    created-AreSingle row store.documents unused single
based-AreSingle row store _ (next p id now old found active same) single =
    replaced-AreSingle p id now row old store.documents found active same single

persist-IsSingle :
    (ending : Ending) (out : Outside) (row : KnowledgeDocument) (add : Store → Store)
    (store : Store)
    → IsSingle store
    → IsSingle (add (with_blob row store))
    → IsSingle (persist ending out row add store).1
unfolding persist
persist-IsSingle ending out row add store before after =
    put_blob_keeps IsSingle out row.storage_key store
      (λ stored. finish ending out out.commit row stored (add stored)) before
      (λ free.
        finish-IsSingle ending out out.commit row (with_blob row store) (add (with_blob row store))
          before after)

IsSingle-Keeps : Keeps IsSingle
IsSingle-Keeps = record {
  revised = λ p id f d audits store found key less single.
      modified-AreSingle p id f store.documents d found less single;
  removed = λ p id out reason t k d audits store found single.
      rw
        (delete_blob_or_enqueue-documents out d.storage_key reason t k out.delete_error
          (record store {
            audits = audits;
            documents = delete_first (is_managed p id) store.documents;
          }))
        (deleted-AreSingle p id store.documents single);
  added = λ ending out row add base store based ds bs single.
      persist-IsSingle ending out row add store single
        (rw ds (based-AreSingle row store base based single));
}

-- If every logical document has at most one draft or active version, this still holds after any sequence of uploads, publications, revocations, new versions and deletions, whatever the outcome of their commits and of the storage, provided that a new logical identifier is not in use.
pub Serves-IsSingle : {s t : Store} → IsSingle s → Serves s t → IsSingle t
Serves-IsSingle single served = serves_keeps IsSingle IsSingle-Keeps single served
