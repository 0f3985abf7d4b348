-- ===== src/Access/Native/Bootstrap.antt =====
-- `bootstrap_owner` and `_client_ip_prefix` of src/orkio_v2/services/native_auth.py.
pub mod Owner
use Prim.Native.String.{◌++◌ as ◌+++◌}
use efata_777_backend_premiu.Prelude.{
  String, Bool, true, false, ◌&&◌, Option, none, some, List, [], ◌∷◌, ◌++◌, str_eq, any, find,
  modify_first, if◌then◌else◌,
}
use efata_777_backend_premiu.Runtime.Contracts.{Result, ok, err}
use efata_777_backend_premiu.Access.Principal.{Principal}
use efata_777_backend_premiu.Access.Native.Tables.{
  User, Tenant, Membership, NativeCredential, AuthDb, Crypto, Draw, no_audit, audit,
}
use efata_777_backend_premiu.Access.Native.Session.{normalize_email, principal_of}
use efata_777_backend_premiu.Access.Native.Password.{has_email, create_or_update_credential}
use efata_777_backend_premiu.Access.Native.Challenge.{Step}

-- The first row that passes is changed; without one the new row is added.
unfoldable pub upsert {ℓ} : {A : Type ℓ} → (A → Bool) → (A → A) → A → List A → List A
upsert p f new rows = if any p rows then modify_first p f rows else rows ++ new ∷ []

abbrev pub has_tenant_id : String → Tenant → Bool
has_tenant_id id t = str_eq t.id id

abbrev pub named : String → Tenant → Tenant
named name t = record t { name = name }

abbrev pub displayed : String → User → User
displayed name u = record u { display_name = name }

abbrev pub owner_user : Draw → String → String → User
owner_user draw email name = record {
  id = draw.id;
  external_subject = "native:" +++ email;
  email = email;
  display_name = name;
  email_verified_at = none;
}

abbrev pub joins : String → String → Membership → Bool
joins tenant_id user_id m = str_eq m.tenant_id tenant_id && str_eq m.user_id user_id

abbrev pub as_admin : Membership → Membership
as_admin m = record m { role = "admin"; active = true }

abbrev pub admin_of : String → String → Membership
admin_of tenant_id user_id = record {
  tenant_id = tenant_id;
  user_id = user_id;
  role = "admin";
  active = true;
}

abbrev pub no_credential : List NativeCredential → Bool
no_credential [] = true
no_credential (c ∷ cs) = false

-- The user of the email, present or new, under the new name.
abbrev pub user_or_new : Option User → User → String → User
user_or_new none new name = new
user_or_new (some u) new name = displayed name u

unfoldable pub bootstrap_rows :
    Crypto → Draw → String → String → String → String → String → User → AuthDb → AuthDb
unfolding audit
bootstrap_rows crypto draw tenant_id tenant_name email display_name password user db =
    let prepared = record db {
      tenants =
          upsert (has_tenant_id tenant_id) (named tenant_name)
            (record { id = tenant_id; name = tenant_name }) db.tenants;
      users =
          upsert (has_email email) (displayed display_name) (owner_user draw email display_name)
            db.users;
      memberships =
          upsert (joins tenant_id user.id) as_admin (admin_of tenant_id user.id) db.memberships;
    } in
    audit
      (record (no_audit "native_auth.bootstrap_owner" "success") {
        tenant_id = some tenant_id;
        actor_id = some user.id;
        resource_type = "user";
        resource_id = some user.id;
      })
      (create_or_update_credential crypto draw.now user.id password prepared)

unfoldable pub bootstrap_owner :
    Crypto → Draw → String → String → String → String → String → AuthDb → Step Principal
bootstrap_owner crypto draw tenant_id tenant_name raw_email display_name password db =
    let email = normalize_email raw_email in
    let user =
      user_or_new (find (has_email email) db.users) (owner_user draw email display_name)
        display_name in
    if no_credential db.credentials
    then (
      ok (principal_of user tenant_id "admin"),
      bootstrap_rows crypto draw tenant_id tenant_name email display_name password user db,
    )
    else (err "NATIVE_BOOTSTRAP_ALREADY_COMPLETED", db)
