-- ===== src/Knowledge/Backing.antt =====
-- Every document's blob is stored, over the requests of src/orkio_v2/services/knowledge_repository.py.
use efata_777_backend_premiu.Prelude.{
  any-append, ◌+◌, ◌≤◌, String, ◌≡◌, refl, Bool, true, false, Bool-cases, inl, inr, Option, none,
  some, List, [], ◌∷◌, ◌++◌, str_eq, eq_iff, eq_refl, arith, any, find, modify_first, count_if,
  count_if-append, if◌then◌else◌,
}
use efata_777_backend_premiu.Access.Principal.{Principal}
use efata_777_backend_premiu.Knowledge.Tables.{
  KnowledgeAudit, has_blob, KnowledgeDocument, Store, delete_first,
}
use efata_777_backend_premiu.Knowledge.Storage.{
  Outside, Commit, committed, failed, queue_storage_cleanup, delete_blob_or_enqueue,
  resolve_blob_after_failed_commit, has_task_key, has_id,
}
use efata_777_backend_premiu.Knowledge.Repository.{is_managed, with_status}
use efata_777_backend_premiu.Knowledge.Versions.{Ending, persist, finish}
use efata_777_backend_premiu.Knowledge.Rows.{
  has_blob-without, pick, count_if-modify_first, count_if-delete_first,
}
use efata_777_backend_premiu.Knowledge.Requests.{Base, first, next, Keeps, with_blob, serves_keeps}
use efata_777_backend_premiu.Knowledge.Operations.{Serves, put_blob_keeps}

abbrev pub has_key : String → KnowledgeDocument → Bool
has_key key d = str_eq d.storage_key key

-- No two documents share a storage key, and the blob of each is stored.
abbrev pub Backed : Store → Type 0
Backed store =
    (key : String)
    → count_if (has_key key) store.documents ≤ (if has_blob key store.blobs then 1 else 0)

has_blob-new :
    (key k : String) (bs : List String)
    → has_blob k (key ∷ bs) ≡ (if str_eq key k then true else has_blob k bs)
unfolding has_blob any
has_blob-new key k bs = refl

pub unused_key :
    (key : String) (store : Store)
    → Backed store
    → has_blob key store.blobs ≡ false
    → count_if (has_key key) store.documents ≡ 0
unused_key key store backed free = omega (arith, rw free at (backed key))

queue-Backed :
    (out : Outside) (key reason : String) (t k e : Option String) (store : Store)
    → Backed store
    → Backed (queue_storage_cleanup out key reason t k e store)
unfolding queue_storage_cleanup
queue-Backed out key reason t k e store backed = elim (Bool-cases out.queue_fails) [
  | inl failing ↦ rw failing backed
  | inr fine ↦ elim (Bool-cases (any (has_task_key key) store.cleanups)) [
    | inl known ↦ rw (fine, known) backed
    | inr new ↦ rw (fine, new) backed
  ]
]

-- Without a row that needs it, a blob can go, or its clean-up be queued.
delete-Backed :
    (out : Outside) (key reason : String) (t k e : Option String) (store : Store)
    → Backed store
    → count_if (has_key key) store.documents ≡ 0
    → Backed (delete_blob_or_enqueue out key reason t k e store)
unfolding delete_blob_or_enqueue
delete-Backed out key reason t k none store backed unused = λ j.
    rw (has_blob-without j key store.blobs) (elim (Bool-cases (str_eq key j)) [
      | inr other ↦ rw other (backed j)
      | inl same ↦
          let none_left : count_if (has_key j) store.documents ≡ 0 =
            rw ((eq_iff key j).0 same) at unused in
          rw same (omega (arith, none_left))
    ])
delete-Backed out key reason t k (some e) store backed unused =
    queue-Backed out key reason t k (some e) store backed

finish-Backed :
    (ending : Ending) (out : Outside) (commit : Commit) (row : KnowledgeDocument)
    (before after : Store)
    → Backed before
    → count_if (has_key row.storage_key) before.documents ≡ 0
    → Backed after
    → any (has_id row.id) after.documents ≡ true
    → Backed (finish ending out commit row before after).1
unfolding finish resolve_blob_after_failed_commit
finish-Backed ending out committed row before after hb unused ha there = ha
finish-Backed ending out (failed conflict true readable) row before after hb unused ha there =
    elim (Bool-cases readable) [ inr e ↦ rw e ha | inl e ↦ rw (e, there) ha ]
finish-Backed ending out (failed conflict false readable) row before after hb unused ha there =
    elim (Bool-cases readable) [
      | inr e ↦ rw e hb
      | inl e ↦ elim (Bool-cases (any (has_id row.id) before.documents)) [
        | inl taken ↦ rw (e, taken) hb
        | inr free ↦
            rw (e, free)
              (delete-Backed out row.storage_key (ending.reason conflict) row.tenant_id
                (some row.id) out.delete_error before hb unused)
      ]
    ]

-- A change of the found row that leaves its key.
modified_counts :
    (p : Principal) (id : String) (f : KnowledgeDocument → KnowledgeDocument)
    (ds : List KnowledgeDocument) (d : KnowledgeDocument)
    → find (is_managed p id) ds ≡ some d
    → (f d).storage_key ≡ d.storage_key
    → (key : String)
    → count_if (has_key key) (modify_first (is_managed p id) f ds) ≡ count_if (has_key key) ds
modified_counts p id f ds d found keeps key =
    let q = is_managed p id in
    let counted : count_if (has_key key) (modify_first q f ds) + pick (has_key key) (some d)
        ≡ count_if (has_key key) ds + pick (has_key key) (some (f d)) =
      rw found at (count_if-modify_first (has_key key) q f ds) in
    let same : pick (has_key key) (some (f d)) ≡ pick (has_key key) (some d) = rw keeps refl in
    omega (arith, counted, same)

deleted-Backed :
    (p : Principal) (id : String) (out : Outside) (reason : String) (t k e : Option String)
    (audits : List KnowledgeAudit) (store : Store) (d : KnowledgeDocument)
    → find (is_managed p id) store.documents ≡ some d
    → Backed store
    → Backed (
        delete_blob_or_enqueue out d.storage_key reason t k e (record store {
          audits = audits;
          documents = delete_first (is_managed p id) store.documents;
        }))
deleted-Backed p id out reason t k e audits store d found backed =
    let q = is_managed p id in
    let counted : (j : String)
        → count_if (has_key j) (delete_first q store.documents) + pick (has_key j) (some d)
          ≡ count_if (has_key j) store.documents =
      λ j. rw found at (count_if-delete_first (has_key j) q store.documents) in
    delete-Backed out d.storage_key reason t k e
      (record store { audits = audits; documents = delete_first q store.documents })
      (λ j. omega (arith, counted j, backed j))
      (ground (arith, counted d.storage_key, backed d.storage_key, eq_refl d.storage_key))

-- The new row, whose key was free, beside rows whose keys are the old ones.
added-Backed :
    (row : KnowledgeDocument) (ds old : List KnowledgeDocument) (blobs : List String)
    → ((key : String) → count_if (has_key key) ds ≡ count_if (has_key key) old)
    → ((key : String) → count_if (has_key key) old ≤ (if has_blob key blobs then 1 else 0))
    → has_blob row.storage_key blobs ≡ false
    → (key : String)
    → count_if (has_key key) (ds ++ row ∷ [])
      ≤ (if has_blob key (row.storage_key ∷ blobs) then 1 else 0)
unfolding count_if
added-Backed row ds old blobs same backed free key =
    rw
      (
        count_if-append (has_key key) ds (row ∷ []),
        has_blob-new row.storage_key key blobs,
        same key,
      )
      (elim (Bool-cases (str_eq row.storage_key key)) [
        | inr other ↦ rw other (omega (arith, backed key))
        | inl own ↦
            let empty : has_blob key blobs ≡ false =
              rw ((eq_iff row.storage_key key).0 own) at free in
            rw own (omega (arith, rw empty at (backed key)))
      ])

-- The rows beside a new one have the keys of the store.
based_counts :
    (row : KnowledgeDocument) (store : Store) (base : List KnowledgeDocument)
    → Base store row base
    → (key : String) → count_if (has_key key) base ≡ count_if (has_key key) store.documents
based_counts row store _ (first unused) key = refl
based_counts row store _ (next p id now old found active same) key =
    modified_counts p id (with_status "SUPERSEDED" now) store.documents old found refl key

-- Before the rows are written, the blob of the new one only adds to what is stored.
stored-Backed :
    (row : KnowledgeDocument) (store : Store) → Backed store → Backed (with_blob row store)
stored-Backed row store backed j =
    rw (has_blob-new row.storage_key j store.blobs) (ground (arith, backed j))

persist-Backed :
    (ending : Ending) (out : Outside) (row : KnowledgeDocument) (add : Store → Store)
    (base : List KnowledgeDocument) (store : Store)
    → Base store row base
    → (add (with_blob row store)).documents ≡ base ++ row ∷ []
    → (add (with_blob row store)).blobs ≡ row.storage_key ∷ store.blobs
    → Backed store
    → Backed (persist ending out row add store).1
unfolding persist
persist-Backed ending out row add base store based ds bs backed =
    put_blob_keeps Backed out row.storage_key store
      (λ stored. finish ending out out.commit row stored (add stored)) backed
      (λ free.
        finish-Backed ending out out.commit row (with_blob row store) (add (with_blob row store))
          (stored-Backed row store backed) (unused_key row.storage_key store backed free)
          (rw (ds, bs)
            (added-Backed row base store.documents store.blobs (based_counts row store base based)
              backed free))
          (rw ds (any-append (has_id row.id) base row (eq_refl row.id))))

Backed-Keeps : Keeps Backed
Backed-Keeps = record {
  revised = λ p id f d audits store found key less backed.
      (λ j. rw (modified_counts p id f store.documents d found key j) (backed j));
  removed = λ p id out reason t k d audits store found backed.
      deleted-Backed p id out reason t k out.delete_error audits store d found backed;
  added = persist-Backed;
}

-- If no two documents share a storage key and the blob of each is stored, this still holds after any sequence of uploads, publications, revocations, new versions and deletions: neither a failed commit, durable or not, nor a failed deletion or clean-up leaves a document without its blob, provided that a new logical identifier is not in use.
pub Serves-Backed : {s t : Store} → Backed s → Serves s t → Backed t
Serves-Backed backed served = serves_keeps Backed Backed-Keeps backed served
