-- ===== src/Access/Native/Tests.antt =====
-- One owner with a password and a second factor, and the theorems on native authentication at them.
use efata_777_backend_premiu.Prelude.{
  ℕ, ◌+◌, ◌*◌, ◌/◌, ◌≤◌, ◌<◌, String, ◌≡◌, refl, true, false, Option, none, some, [], ◌∷◌, str_eq,
  eq_refl, find,
}
use efata_777_backend_premiu.Prelude.Text.{strip, lower, digits_only, text_length}
use efata_777_backend_premiu.Runtime.Contracts.{ok, err}
use efata_777_backend_premiu.Access.Native.Tables.{
  User, NativeCredential, NativePasswordReset, NativeAuthChallenge, NativeMfaFactor, AuthDb,
  AuthSettings, Crypto, Draw,
}
use efata_777_backend_premiu.Access.Native.Session.{normalize_email, principal_of}
use efata_777_backend_premiu.Access.Native.Password.{
  is_credential_of, has_token_hash, is_usable, reset_password, reset_found,
}
use efata_777_backend_premiu.Access.Native.Password.Reset.{IsReset, reset_password-IsReset}
use efata_777_backend_premiu.Access.Native.Challenge.{
  is_challenge, is_valid, load_challenge, load_found, and_then, principal_for_user, principal_found,
  principal_with, membership_for, spend,
}
use efata_777_backend_premiu.Access.Native.Login.{
  LoginAnswer, session, login, with_user, with_credential, with_membership, admitted, failed_once,
}
use efata_777_backend_premiu.Access.Native.Login.Guards.{
  IsAdmitted, login-IsAdmitted, wrong_password_locks,
}
use efata_777_backend_premiu.Access.Native.Mfa.{
  is_replayed, matching_step, verify_totp, mfa_verify, verify_factor, factor_step, accept_step,
  verified_session,
}
use efata_777_backend_premiu.Access.Native.Mfa.Attempts.{Attempt, attempts, verify_totp_accepts}
use efata_777_backend_premiu.Access.Native.Mfa.Spent.{verified_once}
use efata_777_backend_premiu.Access.Native.Bootstrap.{bootstrap_owner}
use efata_777_backend_premiu.Access.Native.Bootstrap.Owner.{owner_logs_in}

abbrev crypto : Crypto
crypto = record {
  hash_password = λ p. p;
  verify_password = λ p h. str_eq h p;
  session_digest = λ t. t;
  totp_code = λ secret step. "123456";
  encrypt = λ s. s;
  decrypt = λ s. some s;
}

abbrev settings : AuthSettings
settings = record {
  native_login_max_failures = 1;
  native_login_lock_minutes = 15;
  native_session_ttl_hours = 8;
  native_password_reset_ttl_minutes = 30;
  environment = "test";
  access_gate_tenant_id = "t";
}

abbrev at : ℕ → Draw
at now = record { now = now; token = "fresh"; id = "n"; secret = "k" }

abbrev owner : User
owner = record {
  id = "u";
  external_subject = "native:u@x";
  email = "u@x";
  display_name = "U";
  email_verified_at = none;
}

abbrev credential : NativeCredential
credential = record {
  user_id = "u";
  password_hash = "old";
  failed_login_count = 0;
  locked_until = none;
  password_updated_at = 0;
  last_login_at = none;
  created_at = 0;
}

abbrev reset : NativePasswordReset
reset = record {
  id = "r";
  token_hash = "token";
  token_prefix = "token";
  user_id = "u";
  issued_at = 0;
  expires_at = 1800;
  used_at = none;
}

abbrev pending : NativeAuthChallenge
pending = record {
  token_hash = "c";
  token_prefix = "c";
  purpose = "mfa_verify";
  user_id = "u";
  tenant_id = some "t";
  secret = none;
  grant_jti = none;
  issued_at = 0;
  expires_at = 600;
  used_at = none;
  attempts = 0;
}

abbrev factor : NativeMfaFactor
factor = record {
  user_id = "u";
  factor_type = "totp";
  encrypted_secret = "k";
  confirmed_at = some 0;
  last_used_step = none;
}

abbrev db : AuthDb
db = record {
  users = owner ∷ [];
  tenants = [];
  memberships = record { tenant_id = "t"; user_id = "u"; role = "admin"; active = true } ∷ [];
  credentials = credential ∷ [];
  sessions = [];
  resets = reset ∷ [];
  challenges = pending ∷ [];
  factors = factor ∷ [];
  recovery_codes = [];
  redemptions = [];
  audits = [];
}

reset_password-IsReset_example :
    (r : NativePasswordReset) × (find (has_token_hash "token") db.resets ≡ some r)
    × (is_usable 9 r ≡ true)
    × IsReset crypto "token" r.user_id "new" (reset_password crypto 9 "token" "new" db).1
unfolding reset_password reset_found find
reset_password-IsReset_example = reset_password-IsReset crypto 9 "token" "new" db refl

login-IsAdmitted_example :
    IsAdmitted crypto settings 90 "U@x " "old" db (session "fresh" (principal_of owner "t" "admin"))
unfolding login with_user with_credential with_membership admitted find normalize_email strip lower
login-IsAdmitted_example =
    login-IsAdmitted crypto settings (at 90) "U@x " "old" "ua" "ip" db
      (session "fresh" (principal_of owner "t" "admin")) refl

wrong_password_locks_example :
    let db' = (login crypto settings (at 90) "u@x" "bad" "ua" "ip" db).1 in
    ((login crypto settings (at 90) "u@x" "bad" "ua" "ip" db).0 ≡ err "INVALID_CREDENTIALS")
    × (find (is_credential_of "u") db'.credentials ≡ some (failed_once settings 90 credential))
    × (1 ≤ 0 + 1
        → (draw' : Draw) (password' agent' ip' : String) → draw'.now < 90 + 15 * 60
        → (login crypto settings draw' "u@x" password' agent' ip' db').0
          ≡ err "ACCOUNT_TEMPORARILY_LOCKED")
unfolding find normalize_email strip lower
wrong_password_locks_example =
    wrong_password_locks crypto settings (at 90) "u@x" "bad" "ua" "ip" db owner credential refl refl
      refl refl

abbrev guess : String → Attempt
guess code = record {
  draw = at 90;
  code = some code;
  recovery_code = none;
  user_agent = "ua";
  ip_prefix = "ip";
}

verify_totp_accepts_example :
    (str_eq (crypto.totp_code "k" 3) (digits_only (strip "123456")) ≡ true)
    × (is_replayed (some 2) 3 ≡ false)
    × (90 / 30 ≤ 3 + 1)
    × (3 ≤ 90 / 30 + 1)
    × ((now' : ℕ) (code' : String) (step' : ℕ)
        → verify_totp crypto now' "k" code' (some 3) ≡ some step'
        → 3 < step')
unfolding verify_totp matching_step digits_only text_length strip
verify_totp_accepts_example = verify_totp_accepts crypto 90 "k" "123456" (some 2) 3 refl

verified_once_example :
    let db' = (mfa_verify crypto settings (at 90) "c" (some "123456") none "ua" "ip" db).1 in
    (c : NativeAuthChallenge) × (find (is_challenge "c" "mfa_verify") db.challenges ≡ some c)
    × (is_valid 90 c ≡ true)
    × ((later : Draw) (code' recovery' : Option String) (agent' ip' : String)
        → mfa_verify crypto settings later "c" code' recovery' agent' ip' db'
          ≡ (err "AUTH_CHALLENGE_INVALID", db'))
unfolding mfa_verify load_challenge load_found and_then verify_factor factor_step accept_step
    verify_totp matching_step digits_only text_length strip find verified_session principal_for_user
    principal_found principal_with membership_for spend
verified_once_example =
    verified_once crypto settings (at 90) "c" (some "123456") none "ua" "ip" db
      (session "fresh" (principal_of owner "t" "admin")) refl

abbrev empty : AuthDb
empty = record db {
  users = [];
  memberships = [];
  credentials = [];
  resets = [];
  challenges = [];
  factors = [];
}

owner_logs_in_example :
    let db' = (bootstrap_owner crypto (at 0) "t" "T" "U@x" "U" "secret" empty).1 in
    ((settings : AuthSettings) (later : Draw) (email' agent ip : String)
      → normalize_email email' ≡ normalize_email "U@x"
      → (answer : LoginAnswer) × ((login crypto settings later email' "secret" agent ip db').0
          ≡ ok answer))
    × ((draw' : Draw) (tenant' tenant_name' email' name' password' : String)
        → bootstrap_owner crypto draw' tenant' tenant_name' email' name' password' db'
          ≡ (err "NATIVE_BOOTSTRAP_ALREADY_COMPLETED", db'))
unfolding bootstrap_owner find normalize_email strip lower
owner_logs_in_example =
    owner_logs_in crypto (at 0) "t" "T" "U@x" "U" "secret" empty
      (principal_of (record owner { id = "n" }) "t" "admin") (λ p. eq_refl p) refl
