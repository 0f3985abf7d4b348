-- ===== src/Access/Native/Mfa/Spent.antt =====
-- A challenge of src/orkio_v2/services/native_auth.py after a second factor was verified by it.
use efata_777_backend_premiu.Prelude.{
  ℕ, String, ◌≡◌, refl, Bool, true, false, Bool-cases, inl, inr, Option, none, some, List, any,
  find, find-modify_first_self, modify_first, if◌then◌else◌,
}
use efata_777_backend_premiu.Prelude.Text.{strip, truthy, text_or}
use efata_777_backend_premiu.Runtime.Contracts.{Result, ok, err}
use efata_777_backend_premiu.Access.Principal.{Principal}
use efata_777_backend_premiu.Access.Native.Tables.{
  NativeAuthChallenge, NativeMfaFactor, AuthDb, AuthSettings, Crypto, Draw, audit,
}
use efata_777_backend_premiu.Access.Native.Session.{has_user_id, issue_session}
use efata_777_backend_premiu.Access.Native.Challenge.{
  Step, and_then, is_challenge, is_valid, tried, spent, load_found, load_challenge, spend,
  principal_for_user, principal_found, membership_for,
}
use efata_777_backend_premiu.Access.Native.Login.{LoginAnswer, session, is_confirmed_of}
use efata_777_backend_premiu.Access.Native.Mfa.{
  is_open_code, verify_totp, factor_step, accept_step, use_recovery_code, verify_factor,
  verified_session, mfa_verify,
}

-- What `and_then` returns comes from both of its halves.
and_then-ok :
    {A B : Type 0} (s : Step A) (next : A → AuthDb → Step B) (b : B)
    → (and_then s next).0 ≡ ok b
    → (a : A) × (s.0 ≡ ok a) × (and_then s next ≡ next a s.1)
unfolding and_then
and_then-ok (ok a, db) next b h = (a, refl, refl)
and_then-ok (err code, db) next b h = cc h

module _ (crypto : Crypto) (now : ℕ) where
  recovery-challenges :
      (user_id code : String) (db : AuthDb)
      → (use_recovery_code crypto now user_id code db).1.challenges ≡ db.challenges
  unfolding use_recovery_code
  recovery-challenges user_id code db =
      elim (Bool-cases
        (any (is_open_code user_id (crypto.session_digest (strip code))) db.recovery_codes)) [
          | inl e ↦ rw e refl
          | inr e ↦ rw e refl
        ]

  accept-challenges :
      (f : NativeMfaFactor) (o : Option ℕ) (db : AuthDb)
      → (accept_step f o db).1.challenges ≡ db.challenges
  unfolding accept_step
  accept-challenges f none db = refl
  accept-challenges f (some step) db = refl

  of_step :
      (code : String) (f : NativeMfaFactor) (secret : Option String) (db : AuthDb)
      → (and_then (factor_step crypto now code f secret db) (accept_step f)).1.challenges
        ≡ db.challenges
  unfolding factor_step and_then
  of_step code f none db = refl
  of_step code f (some secret) db =
      accept-challenges f (verify_totp crypto now secret code f.last_used_step) db

  verify_factor-challenges :
      (user_id : String) (f : Option NativeMfaFactor) (code recovery : Option String) (db : AuthDb)
      → (verify_factor crypto now user_id f code recovery db).1.challenges ≡ db.challenges
  unfolding verify_factor and_then
  verify_factor-challenges user_id none code recovery db = elim (Bool-cases (truthy recovery)) [
    | inl e ↦ rw e (recovery-challenges user_id (text_or recovery "") db)
    | inr e ↦ rw e refl
  ]
  verify_factor-challenges user_id (some f) code recovery db = elim (Bool-cases (truthy code)) [
    | inl e ↦ rw e (of_step (text_or code "") f (crypto.decrypt f.encrypted_secret) db)
    | inr e ↦ elim (Bool-cases (truthy recovery)) [
      | inl e' ↦ rw (e, e') (recovery-challenges user_id (text_or recovery "") db)
      | inr e' ↦ rw (e, e') refl
    ]
  ]

new_session-challenges :
    (crypto : Crypto) (settings : AuthSettings) (draw : Draw) (p : Principal) (agent ip : String)
    (mfa : Bool) (db : AuthDb)
    → (issue_session crypto settings draw p agent ip mfa db).1.challenges ≡ db.challenges
unfolding issue_session audit
new_session-challenges crypto settings draw p agent ip mfa db = refl

verified-challenges :
    (crypto : Crypto) (settings : AuthSettings) (draw : Draw) (token agent ip : String)
    (c : NativeAuthChallenge) (db : AuthDb)
    → (verified_session crypto settings draw token "mfa_verify" agent ip c db).1.challenges
      ≡ (spend crypto draw.now token "mfa_verify" db).challenges
unfolding verified_session principal_for_user and_then spend
verified-challenges crypto settings draw token agent ip c db = of_principal (
    principal_found (find (has_user_id c.user_id) db.users)
      (membership_for c.user_id c.tenant_id (spend crypto draw.now token "mfa_verify" db)))
  where
    of_principal :
        (r : Result Principal)
        → (and_then
            (r, spend crypto draw.now token "mfa_verify" db)
            (λ principal db. (
              ok (session draw.token principal),
              (issue_session crypto settings draw principal agent ip true db).1,
            ))).1.challenges
          ≡ (spend crypto draw.now token "mfa_verify" db).challenges
    of_principal (ok p) =
        new_session-challenges crypto settings draw p agent ip true
          (spend crypto draw.now token "mfa_verify" db)
    of_principal (err code) = refl

spent_refused :
    (crypto : Crypto) (settings : AuthSettings) (later : Draw) (token : String)
    (code recovery : Option String) (agent ip : String) (c : NativeAuthChallenge) (db : AuthDb)
    → find (is_challenge (crypto.session_digest token) "mfa_verify") db.challenges ≡ some c
    → is_valid later.now c ≡ false
    → mfa_verify crypto settings later token code recovery agent ip db
      ≡ (err "AUTH_CHALLENGE_INVALID", db)
unfolding mfa_verify load_challenge load_found and_then
spent_refused crypto settings later token code recovery agent ip c db found invalid =
    rw (found, invalid) refl

load_found-ok :
    (hash purpose : String) (now : ℕ) (o : Option NativeAuthChallenge) (db : AuthDb)
    (c : NativeAuthChallenge)
    → (load_found hash purpose now o db).0 ≡ ok c
    → (c' : NativeAuthChallenge) × (o ≡ some c')
      × (is_valid now c' ≡ true)
      × (c ≡ tried c')
      × ((load_found hash purpose now o db).1.challenges
          ≡ modify_first (is_challenge hash purpose) tried db.challenges)
unfolding load_found
load_found-ok hash purpose now none db c h = cc h
load_found-ok hash purpose now (some c') db c h = elim (Bool-cases (is_valid now c')) [
  | inr e ↦ cc (rw e at h)
  | inl e ↦ let same : ok (tried c') ≡ ok c = rw e at h in (c', refl, e, cc same, rw e refl)
]

-- The row of a challenge that was loaded and spent.
spent_row :
    (hash purpose : String) (now : ℕ) (cs loaded last : List NativeAuthChallenge)
    (c : NativeAuthChallenge)
    → find (is_challenge hash purpose) cs ≡ some c
    → loaded ≡ modify_first (is_challenge hash purpose) tried cs
    → last ≡ modify_first (is_challenge hash purpose) (spent now) loaded
    → find (is_challenge hash purpose) last ≡ some (spent now (tried c))
spent_row hash purpose now cs loaded last c found e e' =
    let q = is_challenge hash purpose in
    rw
      (
        e',
        e,
        find-modify_first_self q (spent now) (modify_first q tried cs) (λ x h. h),
        find-modify_first_self q tried cs (λ x h. h),
        found,
      )
      refl

module _ (crypto : Crypto) (settings : AuthSettings) (draw : Draw) (token : String)
    (code recovery : Option String) (agent ip : String) where
  -- What follows the loaded challenge, and what follows its factor.
  abbrev after_factor : NativeAuthChallenge → Bool → AuthDb → Step LoginAnswer
  after_factor c verified db =
      if verified
      then verified_session crypto settings draw token "mfa_verify" agent ip c db
      else (err "MFA_CODE_INVALID", db)

  abbrev after_load : NativeAuthChallenge → AuthDb → Step LoginAnswer
  after_load c db =
      and_then
        (verify_factor crypto draw.now c.user_id (find (is_confirmed_of c.user_id) db.factors) code
          recovery db)
        (after_factor c)

  factor-challenges :
      (c : NativeAuthChallenge) (verified : Bool) (db : AuthDb) (answer : LoginAnswer)
      → (after_factor c verified db).0 ≡ ok answer
      → (after_factor c verified db).1.challenges
        ≡ modify_first
            (is_challenge (crypto.session_digest token) "mfa_verify")
            (spent draw.now)
            db.challenges
  unfolding spend
  factor-challenges c true db answer h =
      verified-challenges crypto settings draw token agent ip c db
  factor-challenges c false db answer h = cc h

  loaded-challenges :
      (c : NativeAuthChallenge) (db : AuthDb) (answer : LoginAnswer)
      → (after_load c db).0 ≡ ok answer
      → (after_load c db).1.challenges
        ≡ modify_first
            (is_challenge (crypto.session_digest token) "mfa_verify")
            (spent draw.now)
            db.challenges
  loaded-challenges c db answer h =
      let by = find (is_confirmed_of c.user_id) db.factors in
      let s = verify_factor crypto draw.now c.user_id by code recovery db in
      let (verified, passed, e) = and_then-ok s (after_factor c) answer h in
      let kept = verify_factor-challenges crypto draw.now c.user_id by code recovery db in
      let last = factor-challenges c verified s.1 answer (rw e at h) in rw (e, last, kept) refl

-- A second factor is verified only by a challenge of the token that is not used, has not expired and has been tried less than eight times; and the same token never verifies again, at any later time and with any code.
pub verified_once :
    (crypto : Crypto) (settings : AuthSettings) (draw : Draw) (token : String)
    (code recovery : Option String) (agent ip : String) (db : AuthDb) (answer : LoginAnswer)
    → (mfa_verify crypto settings draw token code recovery agent ip db).0 ≡ ok answer
    → let db' = (mfa_verify crypto settings draw token code recovery agent ip db).1 in
      (c : NativeAuthChallenge) × (find
          (is_challenge (crypto.session_digest token) "mfa_verify")
          db.challenges
        ≡ some c)
      × (is_valid draw.now c ≡ true)
      × ((later : Draw) (code' recovery' : Option String) (agent' ip' : String)
          → mfa_verify crypto settings later token code' recovery' agent' ip' db'
            ≡ (err "AUTH_CHALLENGE_INVALID", db'))
unfolding mfa_verify load_challenge
verified_once crypto settings draw token code recovery agent ip db answer h =
    let hash = crypto.session_digest token in
    let q = is_challenge hash "mfa_verify" in
    let s = load_found hash "mfa_verify" draw.now (find q db.challenges) db in
    let next = after_load crypto settings draw token code recovery agent ip in
    let (c', loaded, e) = and_then-ok s next answer h in
    let (c, found, valid, same, left) =
      load_found-ok hash "mfa_verify" draw.now (find q db.challenges) db c' loaded in
    let last =
      loaded-challenges crypto settings draw token code recovery agent ip c' s.1 answer
        (rw e at h) in
    let changed : (mfa_verify crypto settings draw token code recovery agent ip db).1.challenges
        ≡ modify_first q (spent draw.now) s.1.challenges =
      rw e last in
    let row =
      spent_row hash "mfa_verify" draw.now db.challenges s.1.challenges
        (mfa_verify crypto settings draw token code recovery agent ip db).1.challenges c found left
        changed in
    (
      c,
      found,
      valid,
      λ later code' recovery' agent' ip'.
          spent_refused crypto settings later token code' recovery' agent' ip'
            (spent draw.now (tried c))
            (mfa_verify crypto settings draw token code recovery agent ip db).1 row refl,
    )
