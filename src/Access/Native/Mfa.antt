-- ===== src/Access/Native/Mfa.antt =====
-- src/orkio_v2/services/native_auth.py and auth_routes.py: the second factor and its route.
pub mod Attempts
pub mod Spent
use efata_777_backend_premiu.Prelude.{
  ℕ, zero, suc, ◌+◌, ◌-◌, ◌/◌, String, Bool, true, false, not, ◌&&◌, ◌||◌, ◌==◌, Option, none, some,
  List, [], ◌∷◌, ◌++◌, str_eq, leb, ltb, any, find, modify_first, map, if◌then◌else◌,
}
use efata_777_backend_premiu.Prelude.Text.{
  strip, is_empty, truthy, text_or, or_text, text_length, digits_only,
}
use efata_777_backend_premiu.Prelude.Http.{Outcome, returned, raised}
use efata_777_backend_premiu.Runtime.Contracts.{Result, ok, err}
use efata_777_backend_premiu.Access.Principal.{Principal}
use efata_777_backend_premiu.Access.Native.Tables.{
  User, NativeAuthChallenge, NativeMfaFactor, NativeMfaRecoveryCode, AuthDb, AuthSettings, Crypto,
  Draw,
}
use efata_777_backend_premiu.Access.Native.Session.{is_set, has_user_id, issue_session}
use efata_777_backend_premiu.Access.Native.Challenge.{
  Step, and_then, is_challenge, load_challenge, spend, principal_for_user, user_exists,
}
use efata_777_backend_premiu.Access.Native.Login.{LoginAnswer, session, is_confirmed_of}

-- A step that was used already, or comes before the one that was.
abbrev pub is_replayed : Option ℕ → ℕ → Bool
is_replayed none step = false
is_replayed (some last) step = leb step last

-- The first of the steps that is not replayed and whose code is the given one.
unfoldable pub matching_step : Crypto → String → String → Option ℕ → List ℕ → Option ℕ
matching_step crypto secret code last [] = none
matching_step crypto secret code last (step ∷ steps) =
    let rest = matching_step crypto secret code last steps in
    if is_replayed last step
    then rest
    else if str_eq (crypto.totp_code secret step) code
    then some step
    else rest

-- `_verify_totp`, at a time from 30 seconds on.
unfoldable pub verify_totp : Crypto → ℕ → String → String → Option ℕ → Option ℕ
unfolding strip
verify_totp crypto now secret code last =
    let normalized = digits_only (strip code) in
    let current = now / 30 in
    if text_length normalized == 6
    then matching_step crypto secret normalized last ((current - 1) ∷ current ∷ (current + 1) ∷ [])
    else none

abbrev pub is_factor_of : String → NativeMfaFactor → Bool
is_factor_of user_id f = str_eq f.user_id user_id

abbrev pub with_step : ℕ → NativeMfaFactor → NativeMfaFactor
with_step step f = record f { last_used_step = some step }

-- The code of a factor whose secret can be decrypted: the step that it is accepted at.
unfoldable pub factor_step :
    Crypto → ℕ → String → NativeMfaFactor → Option String → AuthDb → Step (Option ℕ)
factor_step crypto now code f none db = (err "MFA_FACTOR_INVALID", db)
factor_step crypto now code f (some secret) db =
    (ok (verify_totp crypto now secret code f.last_used_step), db)

unfoldable pub accept_step : NativeMfaFactor → Option ℕ → AuthDb → Step Bool
accept_step f none db = (ok false, db)
accept_step f (some step) db = (
  ok true,
  record db { factors = modify_first (is_confirmed_of f.user_id) (with_step step) db.factors },
)

abbrev pub is_open_code : String → String → NativeMfaRecoveryCode → Bool
is_open_code user_id hash r =
    str_eq r.user_id user_id && str_eq r.code_hash hash && not (is_set r.used_at)

abbrev pub used_code : ℕ → NativeMfaRecoveryCode → NativeMfaRecoveryCode
used_code now r = record r { used_at = some now }

unfoldable pub use_recovery_code : Crypto → ℕ → String → String → AuthDb → Step Bool
unfolding strip
use_recovery_code crypto now user_id recovery_code db =
    let q = is_open_code user_id (crypto.session_digest (strip recovery_code)) in
    if any q db.recovery_codes
    then (ok true, record db { recovery_codes = modify_first q (used_code now) db.recovery_codes })
    else (ok false, db)

-- `if code and factor is not None: ... elif recovery_code: ...`.
unfoldable pub verify_factor :
    Crypto
    → ℕ
    → String
    → Option NativeMfaFactor
    → Option String
    → Option String
    → AuthDb
    → Step Bool
unfolding and_then
verify_factor crypto now user_id none code recovery_code db =
    if truthy recovery_code
    then use_recovery_code crypto now user_id (text_or recovery_code "") db
    else (ok false, db)
verify_factor crypto now user_id (some f) code recovery_code db =
    if truthy code
    then and_then
        (factor_step crypto now (text_or code "") f (crypto.decrypt f.encrypted_secret) db)
        (accept_step f)
    else if truthy recovery_code
    then use_recovery_code crypto now user_id (text_or recovery_code "") db
    else (ok false, db)

-- The challenge is spent and the session of the user issued, with the factor verified.
unfoldable pub verified_session :
    Crypto
    → AuthSettings
    → Draw
    → String
    → String
    → String
    → String
    → NativeAuthChallenge
    → AuthDb
    → Step LoginAnswer
unfolding and_then
verified_session crypto settings draw token purpose user_agent ip_prefix challenge db =
    and_then
      (principal_for_user challenge.user_id challenge.tenant_id
        (spend crypto draw.now token purpose db))
      (λ principal db. (
        ok (session draw.token principal),
        (issue_session crypto settings draw principal user_agent ip_prefix true db).1,
      ))

unfoldable pub mfa_verify :
    Crypto
    → AuthSettings
    → Draw
    → String
    → Option String
    → Option String
    → String
    → String
    → AuthDb
    → Step LoginAnswer
unfolding and_then
mfa_verify crypto settings draw token code recovery_code user_agent ip_prefix db =
    and_then (load_challenge crypto draw.now token "mfa_verify" db) (λ challenge db.
      and_then
        (verify_factor crypto draw.now challenge.user_id
          (find (is_confirmed_of challenge.user_id) db.factors) code recovery_code db)
        (λ verified db.
          if verified
          then verified_session crypto settings draw token "mfa_verify" user_agent ip_prefix
              challenge db
          else (err "MFA_CODE_INVALID", db)))

abbrev pub with_secret : String → NativeAuthChallenge → NativeAuthChallenge
with_secret secret c = record c { secret = some secret }

-- `mfa_enrollment_start`: the secret, drawn once for the challenge, and the user's email in the URI.
unfoldable pub mfa_enrollment_start : Crypto → Draw → String → AuthDb → Step String
unfolding and_then
mfa_enrollment_start crypto draw token db =
    and_then (load_challenge crypto draw.now token "mfa_enroll" db) (λ challenge db.
      if any (is_confirmed_of challenge.user_id) db.factors
      then (err "MFA_ALREADY_ENROLLED", db)
      else let secret = text_or challenge.secret draw.secret in
        let kept = record db {
          challenges =
              modify_first (is_challenge (crypto.session_digest token) "mfa_enroll")
                (with_secret secret) db.challenges;
        } in
        if user_exists (find (has_user_id challenge.user_id) db.users)
        then (ok secret, kept)
        else (err "AUTH_CHALLENGE_INVALID", kept))

abbrev pub confirmed_factor : Crypto → ℕ → String → NativeMfaFactor → NativeMfaFactor
confirmed_factor crypto now secret f = record f {
  encrypted_secret = crypto.encrypt secret;
  confirmed_at = some now;
}

abbrev pub new_factor : Crypto → ℕ → String → String → NativeMfaFactor
new_factor crypto now user_id secret = record {
  user_id = user_id;
  factor_type = "totp";
  encrypted_secret = crypto.encrypt secret;
  confirmed_at = some now;
  last_used_step = none;
}

unfoldable pub enrol_factor : Crypto → ℕ → String → String → AuthDb → AuthDb
enrol_factor crypto now user_id secret db =
    if any (is_factor_of user_id) db.factors
    then record db {
      factors = modify_first (is_factor_of user_id) (confirmed_factor crypto now secret) db.factors;
    }
    else record db { factors = db.factors ++ new_factor crypto now user_id secret ∷ [] }

abbrev pub recovery_row : Crypto → String → String → NativeMfaRecoveryCode
recovery_row crypto user_id raw = record {
  user_id = user_id;
  code_hash = crypto.session_digest raw;
  used_at = none;
}

-- `mfa_enrollment_confirm`, with the ten recovery codes that it draws.
unfoldable pub mfa_enrollment_confirm :
    Crypto
    → AuthSettings
    → Draw
    → List String
    → String
    → String
    → String
    → String
    → AuthDb
    → Step LoginAnswer
unfolding and_then
mfa_enrollment_confirm crypto settings draw codes token code user_agent ip_prefix db =
    and_then (load_challenge crypto draw.now token "mfa_enroll" db) (λ challenge db.
      let secret = text_or challenge.secret "" in
      if is_empty secret || not (is_set (verify_totp crypto draw.now secret code none))
      then (err "MFA_CODE_INVALID", db)
      else let enrolled = enrol_factor crypto draw.now challenge.user_id secret db in
        verified_session crypto settings draw token "mfa_enroll" user_agent ip_prefix challenge
          (record enrolled {
            recovery_codes =
                enrolled.recovery_codes ++ map (recovery_row crypto challenge.user_id) codes;
          }))

-- The route: it commits what is returned, and rolls back what raises.
unfoldable pub answer_route : Step LoginAnswer → AuthDb → Outcome LoginAnswer × AuthDb
answer_route (ok answer, db') db = (returned answer, db')
answer_route (err code, db') db = (raised code 400, db)

unfoldable pub native_mfa_verify :
    Crypto
    → AuthSettings
    → Draw
    → String
    → Option String
    → Option String
    → String
    → String
    → AuthDb
    → Outcome LoginAnswer × AuthDb
native_mfa_verify crypto settings draw token code recovery_code user_agent ip_prefix db =
    if (truthy code && truthy recovery_code) || (not (truthy code) && not (truthy recovery_code))
    then (raised "MFA_EXACTLY_ONE_FACTOR_REQUIRED" 422, db)
    else answer_route
        (mfa_verify crypto settings draw token code recovery_code user_agent ip_prefix db) db
