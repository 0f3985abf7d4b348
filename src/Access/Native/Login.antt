-- ===== src/Access/Native/Login.antt =====
-- src/orkio_v2/services/native_auth.py: `login`, with its lock and its second factor.
pub mod Guards
use efata_777_backend_premiu.Prelude.{
  ℕ, zero, suc, ◌+◌, ◌*◌, String, Bool, true, false, not, ◌&&◌, ◌||◌, Option, none, some, List, [],
  ◌∷◌, ◌++◌, str_eq, leb, ltb, any, find, modify_first, if◌then◌else◌,
}
use efata_777_backend_premiu.Runtime.Contracts.{Result, ok, err}
use efata_777_backend_premiu.Access.Principal.{Principal}
use efata_777_backend_premiu.Access.Native.Tables.{
  User, Membership, NativeCredential, NativeMfaFactor, AuthDb, AuthSettings, Crypto, Draw,
  AuthAudit, no_audit, audit,
}
use efata_777_backend_premiu.Access.Native.Session.{
  normalize_email, is_set, is_member, principal_of, issue_session,
}
use efata_777_backend_premiu.Access.Native.Password.{has_email, is_credential_of}
use efata_777_backend_premiu.Access.Native.Challenge.{Step, new_challenge, add_challenge}

-- `NativeLoginResult` and `NativeLoginChallenge`, with the token that each returns.
pub data LoginAnswer : Type 0 where
  session : String → Principal → LoginAnswer
  challenge : String → String → Principal → LoginAnswer

-- `locked_until and locked_until > timestamp`.
abbrev pub is_locked : ℕ → Option ℕ → Bool
is_locked now none = false
is_locked now (some t) = ltb now t

abbrev pub refusal : Option String → String → AuthAudit
refusal actor reason = record (no_audit "native_auth.login" "failure") {
  actor_id = actor;
  reason = some reason;
}

-- One more failure; the account is locked from the configured number on.
unfoldable pub failed_once : AuthSettings → ℕ → NativeCredential → NativeCredential
failed_once settings now c = record c {
  failed_login_count = c.failed_login_count + 1;
  locked_until =
      if leb settings.native_login_max_failures (c.failed_login_count + 1)
      then some (now + settings.native_login_lock_minutes * 60)
      else c.locked_until;
}

unfoldable pub logged_in : ℕ → NativeCredential → NativeCredential
logged_in now c = record c { failed_login_count = 0; locked_until = none; last_login_at = some now }

abbrev pub save_credential : String → (NativeCredential → NativeCredential) → AuthDb → AuthDb
save_credential user_id f db = record db {
  credentials = modify_first (is_credential_of user_id) f db.credentials;
}

abbrev pub is_privileged : String → Bool
is_privileged role = str_eq role "admin" || str_eq role "owner" || str_eq role "orkio_admin"

abbrev pub needs_factor : AuthSettings → Bool
needs_factor settings =
    str_eq settings.environment "staging" || str_eq settings.environment "production"

abbrev pub is_confirmed_of : String → NativeMfaFactor → Bool
is_confirmed_of user_id f = str_eq f.user_id user_id && is_set f.confirmed_at

-- A challenge to verify the second factor, or to enrol one.
unfoldable pub challenged : Crypto → Draw → User → Membership → AuthDb → LoginAnswer × AuthDb
unfolding audit
challenged crypto draw user m db =
    let enrolled = any (is_confirmed_of user.id) db.factors in
    let status = if enrolled then "MFA_REQUIRED" else "MFA_ENROLLMENT_REQUIRED" in
    let purpose = if enrolled then "mfa_verify" else "mfa_enroll" in
    (
      challenge status draw.token (principal_of user m.tenant_id m.role),
      audit
          (record (no_audit "native_auth.login_challenge" "success") {
            tenant_id = some m.tenant_id;
            actor_id = some user.id;
            reason = some status;
          })
          (add_challenge (new_challenge crypto draw purpose user.id (some m.tenant_id) none 10) db),
    )

unfoldable pub admitted :
    Crypto
    → AuthSettings
    → Draw
    → User
    → String
    → String
    → Membership
    → AuthDb
    → LoginAnswer × AuthDb
admitted crypto settings draw user user_agent ip_prefix m db =
    let principal = principal_of user m.tenant_id m.role in
    if is_privileged m.role && needs_factor settings then challenged crypto draw user m db else (
      session draw.token principal,
      (issue_session crypto settings draw principal user_agent ip_prefix false db).1,
    )

unfoldable pub with_membership :
    Crypto
    → AuthSettings
    → Draw
    → User
    → String
    → String
    → Option Membership
    → AuthDb
    → Step LoginAnswer
unfolding audit
with_membership crypto settings draw user user_agent ip_prefix none db =
    (err "PRINCIPAL_NOT_PROVISIONED", audit (refusal (some user.id) "no_active_membership") db)
with_membership crypto settings draw user user_agent ip_prefix (some m) db =
    let (answer, db') =
      admitted crypto settings draw user user_agent ip_prefix m
        (save_credential user.id (logged_in draw.now) db) in
    (ok answer, db')

unfoldable pub with_credential :
    Crypto
    → AuthSettings
    → Draw
    → User
    → String
    → String
    → String
    → Option NativeCredential
    → AuthDb
    → Step LoginAnswer
unfolding audit
with_credential crypto settings draw user password user_agent ip_prefix none db =
    (err "INVALID_CREDENTIALS", audit (refusal (some user.id) "missing_credential") db)
with_credential crypto settings draw user password user_agent ip_prefix (some c) db =
    if is_locked draw.now c.locked_until
    then (err "ACCOUNT_TEMPORARILY_LOCKED", audit (refusal (some user.id) "locked") db)
    else if not (crypto.verify_password password c.password_hash)
    then (
      err "INVALID_CREDENTIALS",
      audit (refusal (some user.id) "bad_password")
          (save_credential user.id (failed_once settings draw.now) db),
    )
    else with_membership crypto settings draw user user_agent ip_prefix
        (find (is_member user.id) db.memberships) db

unfoldable pub with_user :
    Crypto
    → AuthSettings
    → Draw
    → Option User
    → String
    → String
    → String
    → AuthDb
    → Step LoginAnswer
unfolding audit
with_user crypto settings draw none password user_agent ip_prefix db =
    (err "INVALID_CREDENTIALS", audit (refusal none "unknown_email") db)
with_user crypto settings draw (some user) password user_agent ip_prefix db =
    with_credential crypto settings draw user password user_agent ip_prefix
      (find (is_credential_of user.id) db.credentials) db

unfoldable pub login :
    Crypto → AuthSettings → Draw → String → String → String → String → AuthDb → Step LoginAnswer
login crypto settings draw email password user_agent ip_prefix db =
    with_user crypto settings draw (find (has_email (normalize_email email)) db.users) password
      user_agent ip_prefix db
