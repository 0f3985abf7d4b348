-- ===== src/Knowledge/Visibility.antt =====
-- The query's clause and the policy of src/orkio_v2/services, one against the other.
use efata_777_backend_premiu.Prelude.{String, ◌≡◌, refl, true, false, str_eq, eq_iff, arith}
use efata_777_backend_premiu.Prelude.Http.{is_returned}
use efata_777_backend_premiu.Access.Principal.{Principal}
use efata_777_backend_premiu.Knowledge.Tables.{KnowledgeDocument, scope_tenant_owner}
use efata_777_backend_premiu.Knowledge.Policy.{
  management_visibility_clause, assert_document_visible_for_management,
}

-- A text that is one literal is no other.
pub only_one : (s a b : String) → str_eq a b ≡ false → str_eq s a ≡ true → str_eq s b ≡ false
only_one s a b differ same = rw ((eq_iff s a).0 same) differ

-- For a row that meets the table's check constraint on scope, tenant and owner, the clause of the query lets the row through exactly when the policy does not raise.
pub visible_exact :
    (p : Principal) (d : KnowledgeDocument)
    → scope_tenant_owner d ≡ true
    → management_visibility_clause p d ≡ is_returned (assert_document_visible_for_management d p)
unfolding scope_tenant_owner management_visibility_clause assert_document_visible_for_management
visible_exact p d h = ground (
  arith,
  only_one d.scope "PLATFORM" "PERSONAL" refl,
  only_one d.scope "PLATFORM" "INSTITUTIONAL" refl,
  only_one d.scope "PERSONAL" "INSTITUTIONAL" refl,
)
