-- ===== src/Access/Identity.antt =====
-- src/orkio_v2/services/identity.py: the principal that the database provisions.
pub mod Provisioned
use efata_777_backend_premiu.Prelude.{
  String, Bool, true, false, not, ◌&&◌, Option, none, some, List, [], ◌∷◌, str_eq, find,
  if◌then◌else◌,
}
use efata_777_backend_premiu.Prelude.Http.{Outcome, returned, raised, ◌>>=◌}
use efata_777_backend_premiu.Runtime.Contracts.{Result, ok, err}
use efata_777_backend_premiu.Services.Authorization.{
  Directory, Membership, is_active_of, is_subject, exists, resolve_provisioned_roles,
}
use efata_777_backend_premiu.Access.Principal.{Principal, meets}

abbrev pub is_present : Option Membership → Bool
is_present none = false
is_present (some m) = true

-- The tenant and the user exist, and the subject is the user's.
unfoldable pub is_known : Directory → Principal → Bool
is_known db p =
    exists (find (λ t. str_eq t.id p.tenant_id) db.tenants)
    && is_subject (find (λ u. str_eq u.id p.user_id) db.users) p.external_subject

unfoldable pub assert_provisioned : Directory → Principal → Outcome (Unit {0})
assert_provisioned db p =
    if is_known db p
    then if is_present (find (is_active_of p.tenant_id p.user_id) db.memberships)
      then returned tt
      else raised "PRINCIPAL_NOT_PROVISIONED" 403
    else raised "PRINCIPAL_NOT_PROVISIONED" 403

unfoldable pub assert_identity_known : Directory → Principal → Outcome (Unit {0})
assert_identity_known db p =
    if is_known db p then returned tt else raised "PRINCIPAL_NOT_PROVISIONED" 403

abbrev pub with_roles : Principal → Result (List String) → Outcome Principal
with_roles p (ok roles) = returned (record p { roles = roles })
with_roles p (err code) = raised code 403

-- `_canonicalize_provisioned_principal`, with the subject of the platform's owner in the settings.
unfoldable pub require_provisioned_principal :
    Directory → Option String → Principal → Outcome Principal
require_provisioned_principal db owner p =
    with_roles p (resolve_provisioned_roles db p.tenant_id p.user_id p.external_subject owner)

abbrev pub require_role : List String → String → Principal → Outcome Principal
require_role wanted code p = if meets wanted p.roles then returned p else raised code 403

unfoldable pub require_provisioned_admin : Directory → Option String → Principal → Outcome Principal
unfolding ◌>>=◌
require_provisioned_admin db owner p =
    require_provisioned_principal db owner p
    >>= require_role ("admin" ∷ "orkio_admin" ∷ []) "ADMIN_ROLE_REQUIRED"

unfoldable pub require_provisioned_superadmin :
    Directory → Option String → Principal → Outcome Principal
unfolding ◌>>=◌
require_provisioned_superadmin db owner p =
    require_provisioned_principal db owner p
    >>= require_role ("superadmin" ∷ "platform_owner" ∷ []) "SUPERADMIN_ROLE_REQUIRED"

unfoldable pub require_known_principal : Directory → Principal → Outcome Principal
unfolding ◌>>=◌
require_known_principal db p = assert_identity_known db p >>= λ known. returned p
