-- ===== src/Access/Native/Session.antt =====
-- src/orkio_v2/services/native_auth.py: the life of a session.
use efata_777_backend_premiu.Prelude.{
  ℕ, ◌+◌, ◌*◌, String, Bool, true, false, not, ◌&&◌, Option, none, some, [], ◌∷◌, ◌++◌, str_eq, leb,
  find, modify_first, if◌then◌else◌,
}
use efata_777_backend_premiu.Prelude.Text.{strip, lower, take_text, truthy, text_or}
use efata_777_backend_premiu.Access.Principal.{Principal}
use efata_777_backend_premiu.Access.Native.Tables.{
  User, Membership, NativeSession, AuthDb, AuthSettings, Crypto, Draw, no_audit, audit,
}

unfoldable pub normalize_email : String → String
unfolding strip lower
normalize_email value = lower (strip value)

abbrev pub is_set : Option ℕ → Bool
is_set none = false
is_set (some t) = true

abbrev pub has_user_id : String → User → Bool
has_user_id id u = str_eq u.id id

abbrev pub has_session_hash : String → NativeSession → Bool
has_session_hash hash s = str_eq s.session_hash hash

abbrev pub is_member_of : String → String → Membership → Bool
is_member_of tenant_id user_id m =
    str_eq m.tenant_id tenant_id && str_eq m.user_id user_id && m.active

abbrev pub is_member : String → Membership → Bool
is_member user_id m = str_eq m.user_id user_id && m.active

abbrev pub principal_of : User → String → String → Principal
principal_of user tenant_id role = record {
  user_id = user.id;
  tenant_id = tenant_id;
  roles = role ∷ [];
  email = some user.email;
  external_subject = some user.external_subject;
}

new_session : Crypto → AuthSettings → Draw → Principal → String → String → Bool → NativeSession
unfolding take_text
new_session crypto settings draw principal user_agent ip_prefix mfa_verified = record {
  id = draw.id;
  session_hash = crypto.session_digest draw.token;
  token_prefix = take_text 12 draw.token;
  tenant_id = principal.tenant_id;
  user_id = principal.user_id;
  created_at = draw.now;
  expires_at = draw.now + settings.native_session_ttl_hours * 3600;
  last_seen_at = draw.now;
  revoked_at = none;
  user_agent = take_text 240 user_agent;
  ip_prefix = ip_prefix;
  last_rotated_at = some draw.now;
  authenticated_at = some draw.now;
  mfa_verified_at = if mfa_verified then some draw.now else none;
}

-- `issue_session`, whose token is the drawn one.
unfoldable pub issue_session :
    Crypto
    → AuthSettings
    → Draw
    → Principal
    → String
    → String
    → Bool
    → AuthDb
    → NativeSession × AuthDb
unfolding new_session audit
issue_session crypto settings draw principal user_agent ip_prefix mfa_verified db =
    let session = new_session crypto settings draw principal user_agent ip_prefix mfa_verified in
    (
      session,
      audit
          (record (no_audit "native_auth.login" "success") {
            tenant_id = some principal.tenant_id;
            actor_id = some principal.user_id;
            resource_type = "native_session";
            resource_id = some session.id;
          })
          (record db { sessions = db.sessions ++ session ∷ [] }),
    )

-- A session that is neither revoked nor expired.
abbrev pub is_live : ℕ → NativeSession → Bool
is_live now s = not (is_set s.revoked_at) && not (leb s.expires_at now)

abbrev pub seen : ℕ → NativeSession → NativeSession
seen now s = record s { last_seen_at = now }

unfoldable pub authenticated :
    String
    → ℕ
    → NativeSession
    → Option User
    → Option Membership
    → AuthDb
    → Option Principal × AuthDb
authenticated hash now s none m db = (none, db)
authenticated hash now s (some user) none db = (none, db)
authenticated hash now s (some user) (some m) db = (
  some (principal_of user s.tenant_id m.role),
  record db { sessions = modify_first (has_session_hash hash) (seen now) db.sessions },
)

unfoldable pub of_session : String → ℕ → Option NativeSession → AuthDb → Option Principal × AuthDb
of_session hash now none db = (none, db)
of_session hash now (some s) db =
    if is_live now s
    then authenticated hash now s (find (has_user_id s.user_id) db.users)
        (find (is_member_of s.tenant_id s.user_id) db.memberships) db
    else (none, db)

unfoldable pub principal_from_session :
    Crypto → ℕ → Option String → AuthDb → Option Principal × AuthDb
principal_from_session crypto now token db =
    if truthy token
    then of_session (crypto.session_digest (text_or token "")) now
        (find (has_session_hash (crypto.session_digest (text_or token ""))) db.sessions) db
    else (none, db)

abbrev pub revoked : ℕ → NativeSession → NativeSession
revoked now s = record s { revoked_at = some now }

unfoldable pub revoke_found : String → ℕ → Option NativeSession → AuthDb → Bool × AuthDb
unfolding audit
revoke_found hash now none db = (false, db)
revoke_found hash now (some s) db = if is_set s.revoked_at then (false, db) else (
  true,
  audit
      (record (no_audit "native_auth.logout" "success") {
        tenant_id = some s.tenant_id;
        actor_id = some s.user_id;
        resource_type = "native_session";
        resource_id = some s.id;
      })
      (record db { sessions = modify_first (has_session_hash hash) (revoked now) db.sessions }),
)

unfoldable pub revoke_session : Crypto → ℕ → Option String → AuthDb → Bool × AuthDb
revoke_session crypto now token db =
    if truthy token
    then revoke_found (crypto.session_digest (text_or token "")) now
        (find (has_session_hash (crypto.session_digest (text_or token ""))) db.sessions) db
    else (false, db)
