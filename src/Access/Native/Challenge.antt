-- ===== src/Access/Native/Challenge.antt =====
-- src/orkio_v2/services/native_auth.py: one-time challenges, and what a completed one does.
use efata_777_backend_premiu.Prelude.{
  ℕ, ◌+◌, ◌*◌, String, Bool, true, false, not, ◌&&◌, Option, none, some, [], ◌∷◌, ◌++◌, str_eq, leb,
  any, find, modify_first, if◌then◌else◌,
}
use efata_777_backend_premiu.Prelude.Text.{take_text, strip, truthy, text_or}
use efata_777_backend_premiu.Runtime.Contracts.{Result, ok, err}
use efata_777_backend_premiu.Access.Principal.{Principal}
use efata_777_backend_premiu.Access.Native.Tables.{
  User, Membership, NativeAuthChallenge, AccessGrantRedemption, AuthDb, AuthSettings, Crypto, Draw,
  no_audit, audit,
}
use efata_777_backend_premiu.Access.Native.Session.{
  normalize_email, is_set, has_user_id, is_member, is_member_of, principal_of,
}
use efata_777_backend_premiu.Access.Native.Password.{
  has_email, is_credential_of, create_or_update_credential,
}

-- What a call returns or raises, and the rows of its session, which the route commits or rolls back.
abbrev pub Step : Type 0 → Type 0
Step A = Result A × AuthDb

unfoldable pub and_then : {A B : Type 0} → Step A → (A → AuthDb → Step B) → Step B
and_then (ok a, db) next = next a db
and_then (err code, db) next = (err code, db)

-- `_challenge`, whose token is the drawn one.
unfoldable pub new_challenge :
    Crypto → Draw → String → String → Option String → Option String → ℕ → NativeAuthChallenge
unfolding take_text
new_challenge crypto draw purpose user_id tenant_id grant_jti ttl_minutes = record {
  token_hash = crypto.session_digest draw.token;
  token_prefix = take_text 12 draw.token;
  purpose = purpose;
  user_id = user_id;
  tenant_id = tenant_id;
  secret = none;
  grant_jti = grant_jti;
  issued_at = draw.now;
  expires_at = draw.now + ttl_minutes * 60;
  used_at = none;
  attempts = 0;
}

unfoldable pub add_challenge : NativeAuthChallenge → AuthDb → AuthDb
add_challenge item db = record db { challenges = db.challenges ++ item ∷ [] }

abbrev pub is_challenge : String → String → NativeAuthChallenge → Bool
is_challenge hash purpose c = str_eq c.token_hash hash && str_eq c.purpose purpose

abbrev pub is_valid : ℕ → NativeAuthChallenge → Bool
is_valid now c = not (is_set c.used_at) && not (leb c.expires_at now) && not (leb 8 c.attempts)

abbrev pub tried : NativeAuthChallenge → NativeAuthChallenge
tried c = record c { attempts = c.attempts + 1 }

unfoldable pub load_found :
    String → String → ℕ → Option NativeAuthChallenge → AuthDb → Step NativeAuthChallenge
load_found hash purpose now none db = (err "AUTH_CHALLENGE_INVALID", db)
load_found hash purpose now (some c) db =
    if is_valid now c
    then (
      ok (tried c),
      record db { challenges = modify_first (is_challenge hash purpose) tried db.challenges },
    )
    else (err "AUTH_CHALLENGE_INVALID", db)

-- `_load_challenge`.
unfoldable pub load_challenge : Crypto → ℕ → String → String → AuthDb → Step NativeAuthChallenge
load_challenge crypto now token purpose db =
    load_found (crypto.session_digest token) purpose now
      (find (is_challenge (crypto.session_digest token) purpose) db.challenges) db

abbrev pub spent : ℕ → NativeAuthChallenge → NativeAuthChallenge
spent now c = record c { used_at = some now }

-- `challenge.used_at = now()`.
unfoldable pub spend : Crypto → ℕ → String → String → AuthDb → AuthDb
spend crypto now token purpose db = record db {
  challenges =
      modify_first (is_challenge (crypto.session_digest token) purpose) (spent now) db.challenges;
}

-- The membership that decides: of the given tenant, or of any if it is not given.
unfoldable pub membership_for : String → Option String → AuthDb → Option Membership
membership_for user_id tenant_id db =
    if truthy tenant_id
    then find (is_member_of (text_or tenant_id "") user_id) db.memberships
    else find (is_member user_id) db.memberships

unfoldable pub principal_with : User → Option Membership → Result Principal
principal_with user none = err "PRINCIPAL_NOT_PROVISIONED"
principal_with user (some m) = ok (principal_of user m.tenant_id m.role)

unfoldable pub principal_found : Option User → Option Membership → Result Principal
principal_found none m = err "AUTH_CHALLENGE_INVALID"
principal_found (some user) m = principal_with user m

-- `_principal_for_user`.
unfoldable pub principal_for_user : String → Option String → AuthDb → Step Principal
principal_for_user user_id tenant_id db = (
  principal_found (find (has_user_id user_id) db.users) (membership_for user_id tenant_id db),
  db,
)

abbrev pub verified : ℕ → User → User
verified now u = record u { email_verified_at = some now }

unfoldable pub verify_user : ℕ → String → AuthDb → AuthDb
verify_user now user_id db = record db {
  users = modify_first (has_user_id user_id) (verified now) db.users;
}

unfoldable pub complete_account_recovery : Crypto → ℕ → String → String → AuthDb → Step (Unit {0})
unfolding and_then audit
complete_account_recovery crypto now token password db =
    and_then (load_challenge crypto now token "account_recovery" db) (λ challenge db.
      and_then (principal_for_user challenge.user_id challenge.tenant_id db) (λ principal db.
        let changed =
          verify_user now principal.user_id
            (create_or_update_credential crypto now principal.user_id password db) in
        (
          ok tt,
          audit
              (record (no_audit "native_auth.account_recovery_completed" "success") {
                actor_id = some principal.user_id;
                tenant_id = some principal.tenant_id;
              })
              (spend crypto now token "account_recovery" changed),
        )))

abbrev pub user_exists : Option User → Bool
user_exists none = false
user_exists (some u) = true

unfoldable pub complete_email_verification : Crypto → ℕ → String → AuthDb → Step (Unit {0})
unfolding and_then audit
complete_email_verification crypto now token db =
    and_then (load_challenge crypto now token "email_verification" db) (λ challenge db.
      if user_exists (find (has_user_id challenge.user_id) db.users)
      then (
        ok tt,
        audit
            (record (no_audit "native_auth.email_verified" "success") {
              actor_id = some challenge.user_id;
            })
            (spend crypto now token "email_verification" (verify_user now challenge.user_id db)),
      )
      else (err "AUTH_CHALLENGE_INVALID", db))

unfoldable pub verification_for :
    Crypto → Draw → Option User → AuthDb → Option (String × String) × AuthDb
verification_for crypto draw none db = (none, db)
verification_for crypto draw (some user) db = (
  some (draw.token, user.email),
  add_challenge (new_challenge crypto draw "email_verification" user.id none none 30) db,
)

unfoldable pub create_email_verification_challenge :
    Crypto → Draw → String → AuthDb → Option (String × String) × AuthDb
create_email_verification_challenge crypto draw email db =
    verification_for crypto draw (find (has_email (normalize_email email)) db.users) db

abbrev pub has_jti : String → AccessGrantRedemption → Bool
has_jti jti r = str_eq r.grant_jti jti

unfoldable pub redeem : Crypto → Draw → User → String → String → AuthDb → Step (Option String)
unfolding audit
redeem crypto draw user tenant_id jti db =
    if any (has_jti jti) db.redemptions then (err "ACCESS_GRANT_ALREADY_USED", db) else (
      ok (some draw.token),
      audit
          (record (no_audit "native_auth.account_recovery_requested" "accepted") {
            actor_id = some user.id;
            tenant_id = some tenant_id;
          })
          (add_challenge
            (new_challenge crypto draw "account_recovery" user.id (some tenant_id) (some jti) 30)
            (record db {
              redemptions =
                  db.redemptions
                  ++ record { grant_jti = jti; tenant_id = tenant_id; user_id = user.id } ∷ [];
            })),
    )

unfoldable pub recovery_for :
    Crypto → Draw → Option User → String → String → AuthDb → Step (Option String)
recovery_for crypto draw none tenant_id jti db = (ok none, db)
recovery_for crypto draw (some user) tenant_id jti db =
    if any (is_credential_of user.id) db.credentials
    then (err "NATIVE_ACCOUNT_ALREADY_EXISTS", db)
    else if not (any (is_member_of tenant_id user.id) db.memberships)
    then (err "ACCOUNT_RECOVERY_NOT_ALLOWED", db)
    else redeem crypto draw user tenant_id jti db

-- What `verify_access_grant` returns: the tenant and the identifier of the grant, or its error.
unfoldable pub create_account_recovery_challenge :
    Crypto
    → AuthSettings
    → Draw
    → Result (Option String × Option String)
    → String
    → AuthDb
    → Step (Option String)
unfolding strip
create_account_recovery_challenge crypto settings draw (err code) email db = (err code, db)
create_account_recovery_challenge crypto settings draw (ok (tenant_id, jti)) email db =
    recovery_for crypto draw (find (has_email (normalize_email email)) db.users)
      (text_or tenant_id (strip settings.access_gate_tenant_id)) (text_or jti "") db
