-- ===== src/Access/Native/Login/Guards.antt =====
-- Whom `login` of src/orkio_v2/services/native_auth.py lets in, and when it locks.
use efata_777_backend_premiu.Prelude.{
  ℕ, ◌+◌, ◌*◌, ◌≤◌, ◌<◌, String, ◌≡◌, refl, Bool, true, false, ◌&&◌, Bool-cases, inl, inr, Option,
  none, some, arith, leb, find, find-modify_first_self,
}
use efata_777_backend_premiu.Runtime.Contracts.{ok, err}
use efata_777_backend_premiu.Access.Native.Tables.{
  User, Membership, NativeCredential, AuthDb, AuthSettings, Crypto, Draw, audit,
}
use efata_777_backend_premiu.Access.Native.Session.{normalize_email, is_member}
use efata_777_backend_premiu.Access.Native.Password.{has_email, is_credential_of}
use efata_777_backend_premiu.Access.Native.Login.{
  LoginAnswer, session, challenge, is_locked, failed_once, logged_in, is_privileged, needs_factor,
  save_credential, challenged, admitted, with_membership, with_credential, with_user, login,
}

-- An answer that hands out a session at once.
abbrev pub is_session : LoginAnswer → Bool
is_session (session token principal) = true
is_session (challenge status token principal) = false

-- What stands behind an answer of `login`.
pub record IsAdmitted (crypto : Crypto) (settings : AuthSettings) (now : ℕ)
    (email password : String) (db : AuthDb) (answer : LoginAnswer) : Type 0 where
  pub user : User
  pub known : find (has_email (normalize_email email)) db.users ≡ some user
  pub credential : NativeCredential
  pub held : find (is_credential_of user.id) db.credentials ≡ some credential
  pub unlocked : is_locked now credential.locked_until ≡ false
  pub checked : crypto.verify_password password credential.password_hash ≡ true
  pub member : Membership
  pub active : find (is_member user.id) db.memberships ≡ some member
  pub factor :
      is_session answer ≡ true → (is_privileged member.role && needs_factor settings) ≡ false

module _ (crypto : Crypto) (settings : AuthSettings) (draw : Draw)
    (password agent ip : String) where
  admitted_factor :
      (user : User) (m : Membership) (db : AuthDb)
      → is_session (admitted crypto settings draw user agent ip m db).0 ≡ true
      → (is_privileged m.role && needs_factor settings) ≡ false
  unfolding admitted challenged
  admitted_factor user m db h = elim (Bool-cases (is_privileged m.role && needs_factor settings)) [
    | inr e ↦ e
    | inl e ↦ cc (rw e at h)
  ]

  membership_cases :
      (user : User) (o : Option Membership) (db : AuthDb) (answer : LoginAnswer)
      → (with_membership crypto settings draw user agent ip o db).0 ≡ ok answer
      → (m : Membership) × (o ≡ some m)
        × (is_session answer ≡ true → (is_privileged m.role && needs_factor settings) ≡ false)
  unfolding with_membership
  membership_cases user none db answer h = cc h
  membership_cases user (some m) db answer h =
      let db' = save_credential user.id (logged_in draw.now) db in
      let same : (admitted crypto settings draw user agent ip m db').0 ≡ answer = cc h in
      (m, refl, λ direct. admitted_factor user m db' (rw same direct))

  credential_cases :
      (user : User) (o : Option NativeCredential) (db : AuthDb) (answer : LoginAnswer)
      → (with_credential crypto settings draw user password agent ip o db).0 ≡ ok answer
      → (c : NativeCredential) × (o ≡ some c)
        × (is_locked draw.now c.locked_until ≡ false)
        × (crypto.verify_password password c.password_hash ≡ true)
        × ((with_membership crypto settings draw user agent ip
              (find (is_member user.id) db.memberships)
              db).0
            ≡ ok answer)
  unfolding with_credential
  credential_cases user none db answer h = cc h
  credential_cases user (some c) db answer h =
      elim (Bool-cases (is_locked draw.now c.locked_until)) [
        | inl locked ↦ cc (rw locked at h)
        | inr free ↦ elim (Bool-cases (crypto.verify_password password c.password_hash)) [
          | inl right ↦ (c, refl, free, right, rw (free, right) at h)
          | inr wrong ↦ cc (rw (free, wrong) at h)
        ]
      ]

  user_cases :
      (o : Option User) (db : AuthDb) (answer : LoginAnswer)
      → (with_user crypto settings draw o password agent ip db).0 ≡ ok answer
      → (user : User) × (o ≡ some user)
        × ((with_credential crypto settings draw user password agent ip
              (find (is_credential_of user.id) db.credentials)
              db).0
            ≡ ok answer)
  unfolding with_user
  user_cases none db answer h = cc h
  user_cases (some user) db answer h = (user, refl, h)

-- `login` only answers a known email whose credential is not locked and verifies the password, for a user with an active membership; and it hands out a session at once only if the role of the membership is not privileged or the environment needs no second factor.
pub login-IsAdmitted :
    (crypto : Crypto) (settings : AuthSettings) (draw : Draw) (email password agent ip : String)
    (db : AuthDb) (answer : LoginAnswer)
    → (login crypto settings draw email password agent ip db).0 ≡ ok answer
    → IsAdmitted crypto settings draw.now email password db answer
unfolding login
login-IsAdmitted crypto settings draw email password agent ip db answer h =
    let by = find (has_email (normalize_email email)) db.users in
    let (user, known, next) = user_cases crypto settings draw password agent ip by db answer h in
    let (c, held, unlocked, checked, last) =
      credential_cases crypto settings draw password agent ip user
        (find (is_credential_of user.id) db.credentials) db answer next in
    let (m, active, factor) =
      membership_cases crypto settings draw password agent ip user
        (find (is_member user.id) db.memberships) db answer last in
    record {
      user = user;
      known = known;
      credential = c;
      held = held;
      unlocked = unlocked;
      checked = checked;
      member = m;
      active = active;
      factor = factor;
    }

stays_locked :
    (settings : AuthSettings) (now now' : ℕ) (c : NativeCredential)
    → settings.native_login_max_failures ≤ c.failed_login_count + 1
    → now' < now + settings.native_login_lock_minutes * 60
    → is_locked now' (failed_once settings now c).locked_until ≡ true
unfolding failed_once
stays_locked settings now now' c reached before =
    elim (Bool-cases (leb settings.native_login_max_failures (c.failed_login_count + 1))) [
      | inl e ↦ rw e (ground (arith, before))
      | inr e ↦ ground (arith, e, reached)
    ]

-- A wrong password for an unlocked credential is refused; it counts as one more failure, and if the configured number of failures is reached by it, then until the lock ends every login under the email is refused as locked, whatever the password.
pub wrong_password_locks :
    (crypto : Crypto) (settings : AuthSettings) (draw : Draw) (email password agent ip : String)
    (db : AuthDb) (user : User) (c : NativeCredential)
    → find (has_email (normalize_email email)) db.users ≡ some user
    → find (is_credential_of user.id) db.credentials ≡ some c
    → is_locked draw.now c.locked_until ≡ false
    → crypto.verify_password password c.password_hash ≡ false
    → let db' = (login crypto settings draw email password agent ip db).1 in
      ((login crypto settings draw email password agent ip db).0 ≡ err "INVALID_CREDENTIALS")
      × (find (is_credential_of user.id) db'.credentials ≡ some (failed_once settings draw.now c))
      × (settings.native_login_max_failures ≤ c.failed_login_count + 1
          → (draw' : Draw) (password' agent' ip' : String)
          → draw'.now < draw.now + settings.native_login_lock_minutes * 60
          → (login crypto settings draw' email password' agent' ip' db').0
            ≡ err "ACCOUNT_TEMPORARILY_LOCKED")
unfolding login with_user with_credential audit failed_once
wrong_password_locks crypto settings draw email password agent ip db user c known held unlocked
      wrong =
    let counted =
      find-modify_first_self (is_credential_of user.id) (failed_once settings draw.now)
        db.credentials (λ x e. e) in
    rw (known, held, unlocked, wrong)
      (
        refl,
        rw (counted, held) refl,
        λ reached draw' password' agent' ip' before.
            rw (known, counted, held)
              (rw (stays_locked settings draw.now draw'.now c reached before) refl),
      )
