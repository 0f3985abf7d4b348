-- ===== src/Access/Native/Bootstrap/Owner.antt =====
-- The first login of the owner that src/orkio_v2/services/native_auth.py bootstraps.
use efata_777_backend_premiu.Prelude.{
  String, ◌≡◌, refl, Bool, true, false, Bool-cases, Option-cases, inl, inr, Option, none, some,
  List, [], ◌∷◌, eq_refl, arith, any, any-none, any-some, any-append, find, find-append,
  find-modify_first_self, modify_first,
}
use efata_777_backend_premiu.Runtime.Contracts.{ok, err}
use efata_777_backend_premiu.Access.Principal.{Principal}
use efata_777_backend_premiu.Access.Native.Tables.{
  User, Membership, NativeCredential, AuthDb, AuthSettings, Crypto, Draw, audit,
}
use efata_777_backend_premiu.Access.Native.Session.{normalize_email, is_member}
use efata_777_backend_premiu.Access.Native.Password.{
  has_email, is_credential_of, new_credential, create_or_update_credential,
}
use efata_777_backend_premiu.Access.Native.Login.{
  LoginAnswer, is_locked, admitted, save_credential, logged_in, login, with_user, with_credential,
  with_membership,
}
use efata_777_backend_premiu.Access.Native.Bootstrap.{
  upsert, joins, as_admin, admin_of, displayed, owner_user, user_or_new, no_credential,
  bootstrap_rows, bootstrap_owner,
}

module _ {ℓ} {A : Type ℓ} where
  find-upsert :
      (p : A → Bool) (f : A → A) (new : A) (rows : List A)
      → ((x : A) → p x ≡ true → p (f x) ≡ true)
      → p new ≡ true
      → find p (upsert p f new rows) ≡ some (elim (find p rows) [ none ↦ new | some x ↦ f x ])
  unfolding upsert
  find-upsert p f new rows keeps passes = elim (Option-cases (find p rows)) [
    | inl e ↦ rw (any-none p rows e, e, find-append p rows new, e) (rw passes refl)
    | inr (x, e) ↦ rw (any-some p rows x e, e, find-modify_first_self p f rows keeps, e) refl
  ]

admin_row :
    (tenant user : String) (ms : List Membership)
    → any (joins tenant user) ms ≡ true
    → any (is_member user) (modify_first (joins tenant user) as_admin ms) ≡ true
unfolding any modify_first
admin_row tenant user [] h = cc h
admin_row tenant user (m ∷ ms) h = elim (Bool-cases (joins tenant user m)) [
  | inl e ↦ ground (arith, e)
  | inr e ↦ ground (arith, e, h, admin_row tenant user ms)
]

-- The owner is an active member after the upsert, by the first active row of the user.
active_row :
    (tenant user : String) (ms : List Membership)
    → (m : Membership) × (find
          (is_member user)
          (upsert (joins tenant user) as_admin (admin_of tenant user) ms)
        ≡ some m)
unfolding upsert
active_row tenant user ms =
    let rows = upsert (joins tenant user) as_admin (admin_of tenant user) ms in
    let present : any (is_member user) rows ≡ true =
      elim (Bool-cases (any (joins tenant user) ms)) [
        | inl e ↦ rw e (admin_row tenant user ms e)
        | inr e ↦
            rw e
              (any-append (is_member user) ms (admin_of tenant user) (ground (arith, eq_refl user)))
      ] in
    elim (Option-cases (find (is_member user) rows)) [
      | inr found ↦ found
      | inl missing ↦ absurd (cc (present, any-none (is_member user) rows missing))
    ]

-- What `login` needs is enough.
login_enough :
    (crypto : Crypto) (settings : AuthSettings) (draw : Draw) (email password agent ip : String)
    (db : AuthDb) (user : User) (c : NativeCredential) (m : Membership)
    → find (has_email (normalize_email email)) db.users ≡ some user
    → find (is_credential_of user.id) db.credentials ≡ some c
    → is_locked draw.now c.locked_until ≡ false
    → crypto.verify_password password c.password_hash ≡ true
    → find (is_member user.id) db.memberships ≡ some m
    → (answer : LoginAnswer) × ((login crypto settings draw email password agent ip db).0
        ≡ ok answer)
unfolding login with_user with_credential with_membership
login_enough crypto settings draw email password agent ip db user c m known held free right active =
    (
      (admitted crypto settings draw user agent ip m
          (save_credential user.id (logged_in draw.now) db)).0,
      rw (known, held, free, right, active) refl,
    )

no_credential-empty : (cs : List NativeCredential) → no_credential cs ≡ true → cs ≡ []
no_credential-empty [] h = refl
no_credential-empty (c ∷ cs) h = cc h

module _ (crypto : Crypto) (draw : Draw) (tenant tenant_name email name password : String)
    (db : AuthDb) (first : db.credentials ≡ []) where
  abbrev the_user : User
  the_user = user_or_new (find (has_email email) db.users) (owner_user draw email name) name

  abbrev after : AuthDb
  after = bootstrap_rows crypto draw tenant tenant_name email name password the_user db

  only_credential :
      after.credentials ≡ new_credential the_user.id (crypto.hash_password password) draw.now ∷ []
  unfolding bootstrap_rows create_or_update_credential audit any
  only_credential = rw first refl

  kept_rows :
      (after.users
        ≡ upsert (has_email email) (displayed name) (owner_user draw email name) db.users)
      × (after.memberships
          ≡ upsert (joins tenant the_user.id) as_admin (admin_of tenant the_user.id) db.memberships)
  unfolding bootstrap_rows create_or_update_credential audit any
  kept_rows = rw first (refl, refl)

  owner_found : find (has_email email) after.users ≡ some the_user
  owner_found =
      rw
        (
          kept_rows.0,
          find-upsert (has_email email) (displayed name) (owner_user draw email name) db.users
              (λ x e. e) (ground (arith, eq_refl email)),
        )
        (of_found (find (has_email email) db.users))
    where
      of_found :
          (o : Option User)
          → some (elim o [ none ↦ owner_user draw email name | some x ↦ displayed name x ])
            ≡ some (user_or_new o (owner_user draw email name) name)
      of_found none = refl
      of_found (some u) = refl

  login_answers :
      (settings : AuthSettings) (later : Draw) (email' agent ip : String)
      → ((p : String) → crypto.verify_password p (crypto.hash_password p) ≡ true)
      → normalize_email email' ≡ email
      → (answer : LoginAnswer) × ((login crypto settings later email' password agent ip after).0
          ≡ ok answer)
  unfolding new_credential find
  login_answers settings later email' agent ip verifies same =
      let (m, member) = active_row tenant the_user.id db.memberships in
      let active : find (is_member the_user.id) after.memberships ≡ some m =
        rw kept_rows.1 member in
      let held : find (is_credential_of the_user.id) after.credentials
          ≡ some (new_credential the_user.id (crypto.hash_password password) draw.now) =
        rw (only_credential, eq_refl the_user.id) refl in
      login_enough crypto settings later email' password agent ip after the_user
        (new_credential the_user.id (crypto.hash_password password) draw.now) m
        (rw same owner_found) held refl (verifies password) active

-- If a hash verifies the password that it was made of, then bootstrapping an owner, which succeeds exactly if there is no credential yet, is followed by a login: under the same email, written in any way that normalizes to it, and with the same password `login` answers, at any time; and a second bootstrap is refused and changes nothing.
pub owner_logs_in :
    (crypto : Crypto) (draw : Draw) (tenant tenant_name email name password : String) (db : AuthDb)
    (owner : Principal)
    → ((p : String) → crypto.verify_password p (crypto.hash_password p) ≡ true)
    → (bootstrap_owner crypto draw tenant tenant_name email name password db).0 ≡ ok owner
    → let db' = (bootstrap_owner crypto draw tenant tenant_name email name password db).1 in
      ((settings : AuthSettings) (later : Draw) (email' agent ip : String)
        → normalize_email email' ≡ normalize_email email
        → (answer : LoginAnswer) × ((login crypto settings later email' password agent ip db').0
            ≡ ok answer))
      × ((draw' : Draw) (tenant' tenant_name' email' name' password' : String)
          → bootstrap_owner crypto draw' tenant' tenant_name' email' name' password' db'
            ≡ (err "NATIVE_BOOTSTRAP_ALREADY_COMPLETED", db'))
unfolding bootstrap_owner
owner_logs_in crypto draw tenant tenant_name email name password db owner verifies h =
    elim (Bool-cases (no_credential db.credentials)) [
      | inr e ↦ cc (rw e at h)
      | inl e ↦
          let first = no_credential-empty db.credentials e in
          rw e (
            λ settings later email' agent ip same.
                login_answers crypto draw tenant tenant_name (normalize_email email) name password
                  db first settings later email' agent ip verifies same,
            λ draw' tenant' tenant_name' email' name' password'.
                rw
                  (only_credential crypto draw tenant tenant_name (normalize_email email) name
                    password db first)
                  refl,
          )
    ]
