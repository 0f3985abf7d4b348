-- ===== src/Services/Authorization.antt =====
-- src/orkio_v2/services/authorization.py: the roles of a provisioned user.
pub mod Roles
use Prim.Native.String.{compare}
use Prim.Native.Nat.{Ordering}
use efata_777_backend_premiu.Prelude.{
  String, Bool, true, false, not, ◌&&◌, ◌||◌, Option, none, some, List, [], ◌∷◌, str_eq, find, any,
  if◌then◌else◌,
}
use efata_777_backend_premiu.Prelude.Text.{strip, is_empty, truthy, text_or, is_some_text}
use efata_777_backend_premiu.Runtime.Contracts.{Result, ok, err}

-- The columns of `tenants`, `users` and `memberships` that decide.
pub record Tenant : Type 0 where
  pub id : String

pub record User : Type 0 where
  pub id : String
  pub external_subject : String

pub record Membership : Type 0 where
  pub tenant_id : String
  pub user_id : String
  pub role : String
  pub active : Bool

pub record Directory : Type 0 where
  pub tenants : List Tenant
  pub users : List User
  pub memberships : List Membership

-- Text order, as `sorted` has it.
before : String → String → Bool
before a b = elim (compare a b) [ Ordering.lt ↦ true | _ ↦ false ]

-- A set of roles as the sorted list of its members: `roles.add(role)`.
unfoldable pub add_role : String → List String → List String
unfolding before
add_role x [] = x ∷ []
add_role x (y ∷ ys) =
    let rest = add_role x ys in
    if str_eq x y then y ∷ ys else if before x y then x ∷ y ∷ ys else y ∷ rest

abbrev pub has_role : String → List String → Bool
has_role x roles = any (λ y. str_eq y x) roles

-- The roles that a membership's role brings.
unfoldable pub roles_of : String → List String
roles_of role =
    let with_admin =
      if str_eq role "owner" || str_eq role "superadmin"
      then add_role "admin" (role ∷ [])
      else role ∷ [] in
    if str_eq role "superadmin" then add_role "owner" with_admin else with_admin

abbrev pub is_active_of : String → String → Membership → Bool
is_active_of tenant_id user_id m =
    str_eq m.tenant_id tenant_id && str_eq m.user_id user_id && m.active

-- The last step: a subject that is the configured owner must already be an admin.
unfoldable pub with_owner : String → String → List String → Result (List String)
with_owner subject owner roles =
    if not (is_empty owner) && str_eq subject owner
    then if has_role "admin" roles
      then ok (add_role "platform_owner" roles)
      else err "PLATFORM_OWNER_ADMIN_MEMBERSHIP_REQUIRED"
    else ok roles

unfoldable pub of_membership : Option Membership → String → String → Result (List String)
unfolding strip
of_membership none subject owner = err "PRINCIPAL_NOT_PROVISIONED"
of_membership (some m) subject owner =
    if is_empty (strip m.role)
    then err "PRINCIPAL_NOT_PROVISIONED"
    else with_owner subject owner (roles_of (strip m.role))

abbrev pub is_subject : Option User → Option String → Bool
is_subject none subject = false
is_subject (some user) subject = truthy subject && is_some_text subject user.external_subject

abbrev pub exists : Option Tenant → Bool
exists none = false
exists (some tenant) = true

unfoldable pub resolve_provisioned_roles :
    Directory → String → String → Option String → Option String → Result (List String)
unfolding strip
resolve_provisioned_roles db tenant_id user_id external_subject platform_owner_subject =
    if exists (find (λ t. str_eq t.id tenant_id) db.tenants)
      && is_subject (find (λ u. str_eq u.id user_id) db.users) external_subject
    then of_membership (find (is_active_of tenant_id user_id) db.memberships)
        (text_or external_subject "") (strip (text_or platform_owner_subject ""))
    else err "PRINCIPAL_NOT_PROVISIONED"
