-- ===== src/Access/Native/Password.antt =====
-- src/orkio_v2/services/native_auth.py: credentials and the reset of a password.
pub mod Reset
use efata_777_backend_premiu.Prelude.{
  ℕ, zero, suc, ◌+◌, ◌*◌, String, Bool, true, false, not, ◌&&◌, ◌||◌, Option, none, some, List, [],
  ◌∷◌, ◌++◌, str_eq, leb, any, find, modify_first, if◌then◌else◌,
}
use efata_777_backend_premiu.Prelude.Text.{take_text}
use efata_777_backend_premiu.Runtime.Contracts.{Result, ok, err}
use efata_777_backend_premiu.Access.Native.Tables.{
  User, NativeCredential, NativeSession, NativePasswordReset, AuthDb, AuthSettings, Crypto, Draw,
  no_audit, audit, modify_all,
}
use efata_777_backend_premiu.Access.Native.Session.{normalize_email, is_set, revoked}

abbrev pub has_email : String → User → Bool
has_email email u = str_eq u.email email

abbrev pub is_credential_of : String → NativeCredential → Bool
is_credential_of user_id c = str_eq c.user_id user_id

abbrev pub with_password : String → ℕ → NativeCredential → NativeCredential
with_password hash now c = record c {
  password_hash = hash;
  failed_login_count = 0;
  locked_until = none;
  password_updated_at = now;
}

unfoldable pub new_credential : String → String → ℕ → NativeCredential
new_credential user_id hash now = record {
  user_id = user_id;
  password_hash = hash;
  failed_login_count = 0;
  locked_until = none;
  password_updated_at = now;
  last_login_at = none;
  created_at = now;
}

unfoldable pub create_or_update_credential : Crypto → ℕ → String → String → AuthDb → AuthDb
unfolding new_credential
create_or_update_credential crypto now user_id password db =
    let hash = crypto.hash_password password in
    if any (is_credential_of user_id) db.credentials
    then record db {
      credentials = modify_first (is_credential_of user_id) (with_password hash now) db.credentials;
    }
    else record db { credentials = db.credentials ++ new_credential user_id hash now ∷ [] }

abbrev pub has_token_hash : String → NativePasswordReset → Bool
has_token_hash hash r = str_eq r.token_hash hash

-- The resets of a user that are not used yet.
abbrev pub is_open_of : String → NativePasswordReset → Bool
is_open_of user_id r = str_eq r.user_id user_id && not (is_set r.used_at)

abbrev pub is_session_of : String → NativeSession → Bool
is_session_of user_id s = str_eq s.user_id user_id

abbrev pub used : ℕ → NativePasswordReset → NativePasswordReset
used now r = record r { used_at = some now }

new_reset : Crypto → AuthSettings → Draw → String → NativePasswordReset
unfolding take_text
new_reset crypto settings draw user_id = record {
  id = draw.id;
  token_hash = crypto.session_digest draw.token;
  token_prefix = take_text 12 draw.token;
  user_id = user_id;
  issued_at = draw.now;
  expires_at = draw.now + settings.native_password_reset_ttl_minutes * 60;
  used_at = none;
}

unfoldable pub reset_for :
    Crypto → AuthSettings → Draw → Option User → AuthDb → Option NativePasswordReset × AuthDb
unfolding audit new_reset
reset_for crypto settings draw none db =
    (none, audit (no_audit "native_auth.password_reset_requested" "accepted") db)
reset_for crypto settings draw (some user) db =
    let requested = record (no_audit "native_auth.password_reset_requested" "accepted") {
      actor_id = some user.id;
    } in
    let reset = new_reset crypto settings draw user.id in
    if any (is_credential_of user.id) db.credentials
    then (
      some reset,
      audit requested (record db {
        resets = modify_all (is_open_of user.id) (used draw.now) db.resets ++ reset ∷ [];
      }),
    )
    else (none, audit requested db)

unfoldable pub create_password_reset :
    Crypto → AuthSettings → Draw → String → AuthDb → Option NativePasswordReset × AuthDb
unfolding normalize_email
create_password_reset crypto settings draw email db =
    reset_for crypto settings draw (find (has_email (normalize_email email)) db.users) db

abbrev pub has_reset_id : String → NativePasswordReset → Bool
has_reset_id id r = str_eq r.id id

unfoldable pub revoke_found_reset :
    String → String → ℕ → Option NativePasswordReset → AuthDb → AuthDb
unfolding audit
revoke_found_reset id reason now none db = db
revoke_found_reset id reason now (some r) db =
    if is_set r.used_at
    then db
    else audit
        (record (no_audit "native_auth.password_reset_revoked" "success") {
          actor_id = some r.user_id;
          resource_type = "native_password_reset";
          resource_id = some r.id;
          reason = some reason;
        })
        (record db { resets = modify_first (has_reset_id id) (used now) db.resets })

unfoldable pub revoke_password_reset : String → String → ℕ → AuthDb → AuthDb
revoke_password_reset id reason now db =
    revoke_found_reset id reason now (find (has_reset_id id) db.resets) db

abbrev pub is_usable : ℕ → NativePasswordReset → Bool
is_usable now r = not (is_set r.used_at) && not (leb r.expires_at now)

-- The new password, with all sessions of the user revoked and all open resets used.
unfoldable pub reset_of : Crypto → ℕ → String → NativePasswordReset → AuthDb → AuthDb
unfolding audit
reset_of crypto now password reset db =
    let changed = create_or_update_credential crypto now reset.user_id password db in
    audit
      (record (no_audit "native_auth.password_reset_completed" "success") {
        actor_id = some reset.user_id;
      })
      (record changed {
        sessions = modify_all (is_session_of reset.user_id) (revoked now) changed.sessions;
        resets = modify_all (is_open_of reset.user_id) (used now) changed.resets;
      })

unfoldable pub reset_found :
    Crypto → ℕ → String → Option NativePasswordReset → AuthDb → Result (Unit {0}) × AuthDb
reset_found crypto now password none db = (err "PASSWORD_RESET_TOKEN_INVALID", db)
reset_found crypto now password (some reset) db =
    if is_usable now reset
    then (ok tt, reset_of crypto now password reset db)
    else (err "PASSWORD_RESET_TOKEN_INVALID", db)

unfoldable pub reset_password : Crypto → ℕ → String → String → AuthDb → Result (Unit {0}) × AuthDb
reset_password crypto now token password db =
    reset_found crypto now password (find (has_token_hash (crypto.session_digest token)) db.resets)
      db
