-- ===== src/Access/Identity/Provisioned.antt =====
-- What stands behind a principal that src/orkio_v2/services/identity.py lets act.
use efata_777_backend_premiu.Prelude.{
  ◌∙◌, String, ◌≡◌, refl, true, ◌&&◌, Bool-cases, inl, inr, Option, List, [], ◌∷◌, str_eq, find,
}
use efata_777_backend_premiu.Prelude.Http.{returned, bind-returned}
use efata_777_backend_premiu.Runtime.Contracts.{Result, ok, err}
use efata_777_backend_premiu.Services.Authorization.{
  Directory, is_subject, exists, resolve_provisioned_roles,
}
use efata_777_backend_premiu.Services.Authorization.Roles.{IsEntitled, roles-IsEntitled}
use efata_777_backend_premiu.Access.Principal.{Principal, meets}
use efata_777_backend_premiu.Access.Identity.{
  is_known, assert_provisioned, with_roles, require_role, require_provisioned_principal,
  require_provisioned_superadmin,
}

-- A principal of the request as the directory knows it.
pub record IsProvisioned (db : Directory) (owner : Option String) (p q : Principal) : Type 0 where
  pub same_user : q.user_id ≡ p.user_id
  pub same_tenant : q.tenant_id ≡ p.tenant_id
  pub entitled : IsEntitled db p.tenant_id p.user_id p.external_subject owner q.roles
  pub provisioned : assert_provisioned db q ≡ returned tt
  pub role : meets ("superadmin" ∷ "platform_owner" ∷ []) q.roles ≡ true
  pub unclaimed :
      (claimed : List String)
      → require_provisioned_superadmin db owner (record p { roles = claimed }) ≡ returned q

with_roles-cases :
    (p q : Principal) (r : Result (List String))
    → with_roles p r ≡ returned q
    → (roles : List String) × (r ≡ ok roles) × (q ≡ record p { roles = roles })
with_roles-cases p q (ok roles) h = (roles, refl, cc h)
with_roles-cases p q (err code) h = cc h

role_cases :
    (wanted : List String) (code : String) (p q : Principal)
    → require_role wanted code p ≡ returned q
    → (meets wanted p.roles ≡ true) × (q ≡ p)
role_cases wanted code p q h = elim (Bool-cases (meets wanted p.roles)) [
  | inl e ↦ let same : returned p ≡ returned q = rw e at h in (e, cc same)
  | inr e ↦ cc (rw e at h)
]

known_of :
    (db : Directory) (p : Principal) (owner : Option String) (roles : List String)
    → resolve_provisioned_roles db p.tenant_id p.user_id p.external_subject owner ≡ ok roles
    → is_known db p ≡ true
unfolding resolve_provisioned_roles is_known
known_of db p owner roles h =
    let known =
      exists (find (λ t. str_eq t.id p.tenant_id) db.tenants)
      && is_subject (find (λ u. str_eq u.id p.user_id) db.users) p.external_subject in
    elim (Bool-cases known) [ inl e ↦ e | inr e ↦ cc (rw e at h) ]

from_roles :
    (db : Directory) (owner : Option String) (p : Principal) (roles : List String)
    → resolve_provisioned_roles db p.tenant_id p.user_id p.external_subject owner ≡ ok roles
    → meets ("superadmin" ∷ "platform_owner" ∷ []) roles ≡ true
    → require_provisioned_superadmin db owner p ≡ returned (record p { roles = roles })
    → IsProvisioned db owner p (record p { roles = roles })
unfolding assert_provisioned is_known require_provisioned_superadmin require_provisioned_principal
from_roles db owner p roles resolved role h =
    let entitled =
      roles-IsEntitled db p.tenant_id p.user_id p.external_subject owner roles resolved in
    record {
      same_user = refl;
      same_tenant = refl;
      entitled = entitled;
      provisioned = rw (known_of db p owner roles resolved, entitled.found) refl;
      role = role;
      unclaimed = λ claimed. h;
    }

-- A principal that acts as superadmin is a user of the directory, in the tenant and under the subject of the request, with an active membership that entitles to its roles, among them superadmin or platform_owner; roles claimed by the request make no difference.
pub superadmin-IsProvisioned :
    (db : Directory) (owner : Option String) (p q : Principal)
    → require_provisioned_superadmin db owner p ≡ returned q
    → IsProvisioned db owner p q
unfolding require_provisioned_superadmin require_provisioned_principal
superadmin-IsProvisioned db owner p q h =
    let r = resolve_provisioned_roles db p.tenant_id p.user_id p.external_subject owner in
    let check = require_role ("superadmin" ∷ "platform_owner" ∷ []) "SUPERADMIN_ROLE_REQUIRED" in
    let (p', canonical, passed) = bind-returned (with_roles p r) check q h in
    let (roles, resolved, e) = with_roles-cases p p' r canonical in
    let (role, same) =
      role_cases ("superadmin" ∷ "platform_owner" ∷ []) "SUPERADMIN_ROLE_REQUIRED" p' q passed in
    let is_q : q ≡ record p { roles = roles } = same ∙ e in
    rw is_q (from_roles db owner p roles resolved (rw e at role) (rw is_q at h))
