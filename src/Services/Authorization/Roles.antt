-- ===== src/Services/Authorization/Roles.antt =====
-- The roles that `resolve_provisioned_roles` returns.
use efata_777_backend_premiu.Prelude.{
  String, ◌≡◌, refl, ◌⊎◌, inl, inr, true, ◌&&◌, ◌||◌, Option, none, some, List, [], ◌∷◌, str_eq,
  eq_iff, eq_refl, arith, find, find_holds, any, Bool-cases,
}
use efata_777_backend_premiu.Prelude.Text.{strip, text_or}
use efata_777_backend_premiu.Runtime.Contracts.{ok}
use efata_777_backend_premiu.Services.Authorization.{
  Membership, Directory, add_role, has_role, roles_of, is_active_of, with_owner, of_membership,
  is_subject, exists, resolve_provisioned_roles,
}

has_role-add_role :
    (x y : String) (ys : List String) → has_role x (add_role y ys) ≡ (str_eq y x || has_role x ys)
unfolding add_role any
has_role-add_role x y [] = ground arith
has_role-add_role x y (z ∷ zs) =
    ground (arith, has_role-add_role x y zs, eq_iff y z, eq_iff y x, eq_iff z x)

-- What stands behind a set of roles.
pub record IsEntitled (db : Directory) (tenant user : String) (subject owner : Option String)
    (roles : List String) : Type 0 where
  pub member : Membership
  pub found : find (is_active_of tenant user) db.memberships ≡ some member
  pub active : member.active ≡ true
  pub named : is_subject (find (λ u. str_eq u.id user) db.users) subject ≡ true
  pub granted : has_role (strip member.role) roles ≡ true
  pub owns :
      has_role "platform_owner" roles ≡ true
      → (strip member.role ≡ "platform_owner")
        ⊎ ((text_or subject "" ≡ strip (text_or owner ""))
            × (has_role "admin" (roles_of (strip member.role)) ≡ true))

own_role : (r : String) → has_role r (roles_of r) ≡ true
unfolding roles_of any
own_role r = ground (
  arith,
  eq_refl r,
  has_role-add_role r "admin" (r ∷ []),
  has_role-add_role r "owner" (r ∷ []),
  has_role-add_role r "owner" (add_role "admin" (r ∷ [])),
)

no_owner : (r : String) → has_role "platform_owner" (roles_of r) ≡ true → r ≡ "platform_owner"
unfolding roles_of any
no_owner r h = ground (
  arith,
  eq_iff r "platform_owner",
  has_role-add_role "platform_owner" "admin" (r ∷ []),
  has_role-add_role "platform_owner" "owner" (r ∷ []),
  has_role-add_role "platform_owner" "owner" (add_role "admin" (r ∷ [])),
)

-- The last step keeps the roles, and adds the owner of the platform only to an admin.
with_owner_cases :
    (subject owner : String) (base roles : List String)
    → with_owner subject owner base ≡ ok roles
    → (roles ≡ base)
      ⊎ ((roles ≡ add_role "platform_owner" base)
          × (subject ≡ owner)
          × (has_role "admin" base ≡ true))
unfolding with_owner
with_owner_cases subject owner base roles h = ground (arith, eq_iff subject owner)

of_membership_cases :
    (o : Option Membership) (subject owner : String) (roles : List String)
    → of_membership o subject owner ≡ ok roles
    → (m : Membership) × (o ≡ some m)
      × (with_owner subject owner (roles_of (strip m.role)) ≡ ok roles)
unfolding of_membership
of_membership_cases none subject owner roles h = cc h
of_membership_cases (some m) subject owner roles h = (m, refl, ground arith)

active_member :
    (t u : String) (ms : List Membership) (m : Membership)
    → find (is_active_of t u) ms ≡ some m
    → m.active ≡ true
active_member t u ms m h = ground (arith, find_holds (is_active_of t u) ms m h)

keeps_role :
    (subject owner : String) (base roles : List String) (r : String)
    → has_role r base ≡ true
    → (roles ≡ base)
      ⊎ ((roles ≡ add_role "platform_owner" base)
          × (subject ≡ owner)
          × (has_role "admin" base ≡ true))
    → has_role r roles ≡ true
keeps_role subject owner base roles r h (inl same) = rw same h
keeps_role subject owner base roles r h (inr (more, _, _)) =
    rw (more, has_role-add_role r "platform_owner" base) (ground arith)

owner_only :
    (subject owner r : String) (roles : List String)
    → (roles ≡ roles_of r)
      ⊎ ((roles ≡ add_role "platform_owner" (roles_of r))
          × (subject ≡ owner)
          × (has_role "admin" (roles_of r) ≡ true))
    → has_role "platform_owner" roles ≡ true
    → (r ≡ "platform_owner") ⊎ ((subject ≡ owner) × (has_role "admin" (roles_of r) ≡ true))
owner_only subject owner r roles (inl same) h = inl (no_owner r (rw same at h))
owner_only subject owner r roles (inr (_, subject_is, admin)) h = inr (subject_is, admin)

-- Roles are only resolved for a user of the directory whose subject is the given one and who has an active membership of the tenant, whose role is among them; the role "platform_owner" is among them only if the membership itself carries that name, or if the given subject is the configured owner's and the membership's roles have "admin".
pub roles-IsEntitled :
    (db : Directory) (tenant user : String) (subject owner : Option String) (roles : List String)
    → resolve_provisioned_roles db tenant user subject owner ≡ ok roles
    → IsEntitled db tenant user subject owner roles
unfolding resolve_provisioned_roles
roles-IsEntitled db tenant user subject owner roles h =
    let known = exists (find (λ t. str_eq t.id tenant) db.tenants) in
    let named = is_subject (find (λ u. str_eq u.id user) db.users) subject in
    let s = text_or subject "" in
    let o = strip (text_or owner "") in
    elim (Bool-cases (known && named)) [
      | inr unknown ↦ cc (rw unknown at h)
      | inl provisioned ↦
          let (m, found, resolved) =
            of_membership_cases (find (is_active_of tenant user) db.memberships) s o roles
              (rw provisioned at h) in
          let cases = with_owner_cases s o (roles_of (strip m.role)) roles resolved in
          record {
            member = m;
            found = found;
            active = active_member tenant user db.memberships m found;
            named = ground arith;
            granted =
                keeps_role s o (roles_of (strip m.role)) roles (strip m.role)
                  (own_role (strip m.role)) cases;
            owns = owner_only s o (strip m.role) roles cases;
          }
    ]
