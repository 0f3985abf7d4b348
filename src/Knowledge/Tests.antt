-- ===== src/Knowledge/Tests.antt =====
-- One administrator and one document, and the theorems on the knowledge documents at them.
use efata_777_backend_premiu.Prelude.{
  ◌-◌, ◌≤◌, String, ◌≡◌, refl, true, false, none, some, [], ◌∷◌, arith, any, count_if,
}
use efata_777_backend_premiu.Prelude.Text.{strip, upper, lower}
use efata_777_backend_premiu.Prelude.Http.{is_returned, ◌>>=◌}
use efata_777_backend_premiu.Access.Principal.{Principal}
use efata_777_backend_premiu.Knowledge.Tables.{
  KnowledgeDocument, KnowledgeStorageCleanup, Store, scope_tenant_owner, has_blob,
}
use efata_777_backend_premiu.Knowledge.Policy.{
  normalize_scope, assert_upload_allowed, upload_gate, is_tenant_admin,
  management_visibility_clause, assert_document_visible_for_management,
}
use efata_777_backend_premiu.Knowledge.Storage.{Outside, Commit, committed, failed, storage_key_of}
use efata_777_backend_premiu.Knowledge.Repository.{
  normalize_purposes, normalize_rest, or_all, audit,
}
use efata_777_backend_premiu.Knowledge.Versions.{
  Upload, proceed, put_blob, finish, persist, first_version, add_document, upload_terms,
  create_uploaded_document,
}
use efata_777_backend_premiu.Knowledge.Visibility.{visible_exact}
use efata_777_backend_premiu.Knowledge.Operations.{create, handle, Serves, idle, serve}
use efata_777_backend_premiu.Knowledge.Current.{IsSingle, Serves-IsSingle}
use efata_777_backend_premiu.Knowledge.Backing.{Backed, Serves-Backed}
use efata_777_backend_premiu.Knowledge.Cleanup.Drain.{pending, runs, runs_drain}

abbrev admin : Principal
admin = record {
  user_id = "u";
  tenant_id = "t";
  roles = "admin" ∷ [];
  email = none;
  external_subject = none;
}

abbrev outside : String → String → Commit → Outside
outside logical row commit = record {
  now = 7;
  logical_id = logical;
  row_id = row;
  task_id = "task";
  put_fails = false;
  delete_error = none;
  queue_fails = false;
  commit = commit;
}

abbrev handbook : Upload
handbook = record {
  scope = "institutional";
  title = some "Handbook";
  filename = "h.md";
  mime_type = "text/markdown";
  size_bytes = 3;
  digest = "d";
  classification = some "internal";
  allowed_purposes = none;
  agent_id = none;
  expires_at = none;
}

abbrev empty : Store
empty = record { documents = []; cleanups = []; audits = []; blobs = [] }

abbrev uploaded : Store
uploaded = handle admin (create handbook) (outside "l" "r" committed) empty

abbrev lost : Store
lost = handle admin (create handbook) (outside "m" "s" (failed false false true)) uploaded

-- An upload, and one whose commit fails and leaves no row.
two_uploads : Serves empty lost
unfolding count_if create_uploaded_document upload_terms proceed persist put_blob finish
    normalize_scope assert_upload_allowed upload_gate is_tenant_admin normalize_purposes or_all
    normalize_rest first_version add_document audit has_blob any strip upper lower ◌>>=◌
    storage_key_of
two_uploads =
    serve admin (create handbook) (outside "m" "s" (failed false false true))
      (serve admin (create handbook) (outside "l" "r" committed) idle refl) refl

Serves-IsSingle_example : IsSingle lost
unfolding count_if
Serves-IsSingle_example = Serves-IsSingle (λ l. omega arith) two_uploads

Serves-Backed_example : Backed lost
unfolding count_if has_blob any
Serves-Backed_example = Serves-Backed (λ k. omega arith) two_uploads

abbrev document : KnowledgeDocument
document = first_version admin (outside "l" "r" committed) "INSTITUTIONAL" [] none handbook

visible_exact_example :
    management_visibility_clause admin document
    ≡ is_returned (assert_document_visible_for_management document admin)
unfolding scope_tenant_owner first_version
visible_exact_example = visible_exact admin document refl

abbrev orphan : String → KnowledgeStorageCleanup
orphan key = record {
  id = key;
  tenant_id = none;
  knowledge_id = none;
  storage_key = key;
  reason = "r";
  status = "PENDING";
  attempts = 0;
  last_error = none;
  created_at = 1;
  updated_at = 1;
}

abbrev orphans : Store
orphans = record empty { cleanups = orphan "a" ∷ orphan "b" ∷ []; blobs = "a" ∷ "b" ∷ [] }

runs_drain_example :
    pending (runs (λ key. none) (λ n. n) 1 2 orphans).cleanups ≤ pending orphans.cleanups - 2
runs_drain_example = runs_drain (λ key. none) (λ n. n) 1 2 orphans (λ key. refl)
