-- ===== src/Knowledge/Operations.antt =====
-- The requests on documents of src/orkio_v2/services/knowledge_repository.py as steps on the store.
use efata_777_backend_premiu.Prelude.{
  String, ◌≡◌, refl, Bool, true, false, Bool-cases, inl, inr, Option, none, some, ◌∷◌, str_eq, find,
  count_if,
}
use efata_777_backend_premiu.Prelude.Http.{
  bind-returned, require-passes, Outcome, returned, raised, crashed, ◌>>=◌, require,
}
use efata_777_backend_premiu.Access.Principal.{Principal}
use efata_777_backend_premiu.Knowledge.Tables.{KnowledgeDocument, Store, has_blob}
use efata_777_backend_premiu.Knowledge.Policy.{assert_document_visible_for_management}
use efata_777_backend_premiu.Knowledge.Storage.{Outside}
use efata_777_backend_premiu.Knowledge.Repository.{
  get_managed_document, managed, is_managed, publish_document, revoke_document, delete_document,
}
use efata_777_backend_premiu.Knowledge.Versions.{
  Upload, Reply, proceed, put_blob, create_uploaded_document, create_uploaded_document_from_file,
}
use efata_777_backend_premiu.Knowledge.Supersede.{supersede_document, supersede_document_from_file}

pub data Request : Type 0 where
  publish revoke delete : String → Request
  create create_file : Upload → Request
  supersede supersede_file : String → Upload → Request

-- A request that raises before its commit leaves the store.
abbrev pub changed : Outcome (KnowledgeDocument × Store) → Store → Store
changed (returned (document, store')) store = store'
changed (raised code status) store = store
changed crashed store = store

abbrev pub deleted : Outcome Store → Store → Store
deleted (returned store') store = store'
deleted (raised code status) store = store
deleted crashed store = store

abbrev pub handle : Principal → Request → Outside → Store → Store
handle principal (publish id) out store = changed (publish_document principal id out store) store
handle principal (revoke id) out store = changed (revoke_document principal id out store) store
handle principal (delete id) out store = deleted (delete_document principal id out store) store
handle principal (create upload) out store = (create_uploaded_document principal upload out store).1
handle principal (create_file upload) out store =
    (create_uploaded_document_from_file principal upload out store).1
handle principal (supersede id upload) out store =
    (supersede_document principal id upload out store).1
handle principal (supersede_file id upload) out store =
    (supersede_document_from_file principal id upload out store).1

abbrev pub is_logical : String → KnowledgeDocument → Bool
is_logical logical d = str_eq d.logical_document_id logical

-- The identifier that `uuid4` draws for a new document is not in use.
abbrev pub IsFresh : Outside → Store → Type 0
IsFresh out store = count_if (is_logical out.logical_id) store.documents ≡ 0

-- Any sequence of requests, each with its own principal, clock, draws and failures.
pub data Serves (s : Store) : Store → Type 0 where
  idle : Serves s s
  serve :
      {t : Store} (principal : Principal) (request : Request) (out : Outside)
      → Serves s t
      → IsFresh out t
      → Serves s (handle principal request out t)

managed_cases :
    (p : Principal) (o : Option KnowledgeDocument) (d : KnowledgeDocument)
    → managed p o ≡ returned d
    → o ≡ some d
unfolding managed ◌>>=◌
managed_cases p none d h = cc h
managed_cases p (some document) d h =
    let (seen, passed, same) =
      bind-returned (assert_document_visible_for_management document p) (λ seen. returned document)
        d h in
    cc same

-- A document that the guards return is the one that the query found.
pub found_by :
    (p : Principal) (id : String) (store : Store) (d : KnowledgeDocument)
    → get_managed_document p id store ≡ returned d
    → find (is_managed p id) store.documents ≡ some d
unfolding get_managed_document
found_by p id store d h = managed_cases p (find (is_managed p id) store.documents) d h

-- What the check of a request that needs a status tells.
pub status_of :
    {A : Type 0} (seen : Outcome A) (shared held : Bool) (c c' : String)
    → (seen >>= λ s. require shared c 409 >>= λ t. require held c' 409) ≡ returned tt
    → held ≡ true
status_of seen shared held c c' h =
    let (s, _, rest) =
      bind-returned seen (λ s. require shared c 409 >>= λ t. require held c' 409) tt h in
    let (t, _, last) = bind-returned (require shared c 409) (λ t. require held c' 409) tt rest in
    require-passes held c' 409 tt last

module _ (P : Store → Type 0) where
  -- What holds of the store before and after each returned value holds after `proceed`.
  pub proceed_keeps :
      {A : Type 0} (o : Outcome A) (store : Store) (next : A → Reply)
      → P store
      → ((a : A) → o ≡ returned a → P (next a).1)
      → P (proceed o store next).1
  unfolding proceed
  proceed_keeps (returned a) store next same later = later a refl
  proceed_keeps (raised code status) store next same later = same
  proceed_keeps crashed store next same later = same

  pub guarded_keeps :
      (o : Outcome KnowledgeDocument) (check : KnowledgeDocument → Outcome (Unit {0}))
      (next : KnowledgeDocument → KnowledgeDocument × Store) (store : Store)
      → P store
      → ((d : KnowledgeDocument) → o ≡ returned d → check d ≡ returned tt → P (next d).1)
      → P (changed (o >>= λ d. check d >>= λ passed. returned (next d)) store)
  unfolding ◌>>=◌
  guarded_keeps (raised code status) check next store same later = same
  guarded_keeps crashed check next store same later = same
  guarded_keeps (returned d) check next store same later = of_check (check d) d (later d refl)
    where
      of_check :
          (c : Outcome (Unit {0})) (d : KnowledgeDocument)
          → (c ≡ returned tt → P (next d).1)
          → P (changed (c >>= λ passed. returned (next d)) store)
      of_check (returned u) d later = later refl
      of_check (raised code status) d later = same
      of_check crashed d later = same

  pub deletion_keeps :
      (o : Outcome KnowledgeDocument) (check : KnowledgeDocument → Outcome (Unit {0}))
      (next : KnowledgeDocument → Store) (store : Store)
      → P store
      → ((d : KnowledgeDocument) → o ≡ returned d → check d ≡ returned tt → P (next d))
      → P (deleted (o >>= λ d. check d >>= λ passed. returned (next d)) store)
  unfolding ◌>>=◌
  deletion_keeps (raised code status) check next store same later = same
  deletion_keeps crashed check next store same later = same
  deletion_keeps (returned d) check next store same later = of_check (check d) d (later d refl)
    where
      of_check :
          (c : Outcome (Unit {0})) (d : KnowledgeDocument)
          → (c ≡ returned tt → P (next d))
          → P (deleted (c >>= λ passed. returned (next d)) store)
      of_check (returned u) d later = later refl
      of_check (raised code status) d later = same
      of_check crashed d later = same

  -- Storing the blob before the rows.
  pub put_blob_keeps :
      (out : Outside) (key : String) (store : Store) (next : Store → Reply)
      → P store
      → (has_blob key store.blobs ≡ false → P (next (record store { blobs = key ∷ store.blobs })).1)
      → P (put_blob out key store next).1
  unfolding put_blob
  put_blob_keeps out key store next same later = elim (Bool-cases out.put_fails) [
    | inl failing ↦ rw failing same
    | inr fine ↦ elim (Bool-cases (has_blob key store.blobs)) [
      | inl taken ↦ rw (fine, taken) same
      | inr free ↦ rw (fine, free) (later free)
    ]
  ]
