-- ===== src/Knowledge/Terms.antt =====
-- What the guards of src/orkio_v2/services/knowledge_policy.py and knowledge_repository.py tell when they pass.
use efata_777_backend_premiu.Prelude.{String, ◌≡◌, true, not, some, List, str_eq, find}
use efata_777_backend_premiu.Prelude.Http.{
  bind-returned, Outcome, returned, raised, crashed, ◌>>=◌, require,
}
use efata_777_backend_premiu.Access.Principal.{Principal}
use efata_777_backend_premiu.Knowledge.Tables.{KnowledgeDocument, Store}
use efata_777_backend_premiu.Knowledge.Policy.{
  assert_can_publish, assert_can_supersede, assert_document_visible_for_management,
}
use efata_777_backend_premiu.Knowledge.Repository.{get_managed_document, is_managed}
use efata_777_backend_premiu.Knowledge.Versions.{Upload}
use efata_777_backend_premiu.Knowledge.Supersede.{
  purposes_of, purposes_from_file, next_terms, next_file_terms,
}
use efata_777_backend_premiu.Knowledge.Operations.{found_by, status_of}

pub draft_of :
    (d : KnowledgeDocument) (p : Principal)
    → assert_can_publish d p ≡ returned tt
    → str_eq d.status "DRAFT" ≡ true
unfolding assert_can_publish
draft_of d p h =
    status_of (assert_document_visible_for_management d p) (not (str_eq d.scope "PERSONAL"))
      (str_eq d.status "DRAFT") "KNOWLEDGE_PERSONAL_PUBLISH_NOT_APPLICABLE"
      "KNOWLEDGE_PUBLISH_REQUIRES_DRAFT" h

pub active_of :
    (d : KnowledgeDocument) (p : Principal)
    → assert_can_supersede d p ≡ returned tt
    → str_eq d.status "ACTIVE" ≡ true
unfolding assert_can_supersede
active_of d p h =
    status_of (assert_document_visible_for_management d p) (not (str_eq d.scope "PERSONAL"))
      (str_eq d.status "ACTIVE") "KNOWLEDGE_PERSONAL_SUPERSEDE_NOT_APPLICABLE"
      "KNOWLEDGE_SUPERSEDE_REQUIRES_ACTIVE" h

module _ (p : Principal) (upload : Upload) where
  of_purposes :
      (given : Outcome (List String)) (old : KnowledgeDocument)
      (known : KnowledgeDocument × List String)
      → (given >>= λ purposes. returned (old, purposes)) ≡ returned known
      → old ≡ known.0
  unfolding ◌>>=◌
  of_purposes (returned purposes) old known h = cc h
  of_purposes (raised code status) old known h = cc h
  of_purposes crashed old known h = cc h

  -- The guards of a new version return the managed document, which is active.
  pub next_terms_of :
      (id : String) (store : Store) (known : KnowledgeDocument × List String)
      → next_terms p id upload store ≡ returned known
      → (find (is_managed p id) store.documents ≡ some known.0)
        × (str_eq known.0.status "ACTIVE" ≡ true)
  unfolding next_terms
  next_terms_of id store known h =
      let last : KnowledgeDocument → Outcome (KnowledgeDocument × List String) = λ old.
        purposes_of upload.allowed_purposes old.allowed_purposes >>= λ purposes.
        returned (old, purposes) in
      let (old, found, e) =
        bind-returned (get_managed_document p id store)
          (λ old. assert_can_supersede old p >>= λ allowed. last old) known h in
      let (u, allowed, e') =
        bind-returned (assert_can_supersede old p) (λ allowed. last old) known e in
      let same =
        of_purposes (purposes_of upload.allowed_purposes old.allowed_purposes) old known e' in
      rw (← same) (found_by p id store old found, active_of old p allowed)

  pub next_file_terms_of :
      (id : String) (store : Store) (known : KnowledgeDocument × List String)
      → next_file_terms p id upload store ≡ returned known
      → (find (is_managed p id) store.documents ≡ some known.0)
        × (str_eq known.0.status "ACTIVE" ≡ true)
  unfolding next_file_terms
  next_file_terms_of id store known h =
      let last : KnowledgeDocument → Outcome (KnowledgeDocument × List String) = λ old.
        purposes_from_file upload.allowed_purposes old.allowed_purposes >>= λ purposes.
        returned (old, purposes) in
      let active : KnowledgeDocument → Outcome (Unit {0}) =
        λ old. require (str_eq old.status "ACTIVE") "KNOWLEDGE_SUPERSEDE_REQUIRES_ACTIVE" 409 in
      let (old, found, e) =
        bind-returned (get_managed_document p id store)
          (λ old. assert_can_supersede old p >>= λ allowed. active old >>= λ a. last old) known h in
      let (u, allowed, e') =
        bind-returned (assert_can_supersede old p) (λ allowed. active old >>= λ a. last old) known
          e in
      let (v, _, e'') = bind-returned (active old) (λ a. last old) known e' in
      let same =
        of_purposes (purposes_from_file upload.allowed_purposes old.allowed_purposes) old known
          e'' in
      rw (← same) (found_by p id store old found, active_of old p allowed)
