-- ===== src/Access/Native/Password/Reset.antt =====
-- What a reset of a password in src/orkio_v2/services/native_auth.py leaves.
use mathlib.Core.Option
use efata_777_backend_premiu.Prelude.{
  ℕ, String, ◌≡◌, refl, Bool, true, false, Bool-cases, Option-cases, inl, inr, Option, none, some,
  List, [], ◌∷◌, str_eq, eq_iff, eq_refl, arith, any, any-none, any-some, find, find_holds,
  find-append, find-modify_first_self, if◌then◌else◌,
}
use efata_777_backend_premiu.Prelude.Text.{truthy, text_or}
use efata_777_backend_premiu.Runtime.Contracts.{ok, err}
use efata_777_backend_premiu.Access.Principal.{Principal}
use efata_777_backend_premiu.Access.Native.Tables.{
  User, Membership, NativeCredential, NativeSession, NativePasswordReset, AuthDb, Crypto, audit,
  modify_all,
}
use efata_777_backend_premiu.Access.Native.Session.{
  has_user_id, has_session_hash, is_member_of, is_live, is_set, authenticated, of_session,
  principal_from_session, principal_of, revoked,
}
use efata_777_backend_premiu.Access.Native.Password.{
  is_credential_of, with_password, new_credential, create_or_update_credential, has_token_hash,
  is_open_of, is_session_of, used, is_usable, reset_of, reset_found, reset_password,
}

module _ {ℓ} {A : Type ℓ} where
  abbrev changed_if : (A → Bool) → (A → A) → A → A
  changed_if p f x = if p x then f x else x

  find-modify_all :
      (p q : A → Bool) (f : A → A) (xs : List A)
      → ((x : A) → q (f x) ≡ q x)
      → find q (modify_all p f xs) ≡ Option.map (changed_if p f) (find q xs)
  unfolding find modify_all
  find-modify_all p q f [] keep = refl
  find-modify_all p q f (x ∷ xs) keep = elim (Bool-cases (p x)) [
    | inl e ↦ rw (e, keep x) (ground (arith, e, find-modify_all p q f xs keep))
    | inr e ↦ rw e (ground (arith, e, find-modify_all p q f xs keep))
  ]

-- A completed reset: its token is spent, the user is signed out everywhere, and the credential has the new password.
pub record IsReset (crypto : Crypto) (token user_id password : String) (db : AuthDb) : Type 0 where
  pub spent :
      (now : ℕ) (password' : String)
      → reset_password crypto now token password' db ≡ (err "PASSWORD_RESET_TOKEN_INVALID", db)
  pub signed_out :
      (now : ℕ) (token' : Option String) (p : Principal)
      → (principal_from_session crypto now token' db).0 ≡ some p
      → str_eq p.user_id user_id ≡ false
  pub credential : NativeCredential
  pub found : find (is_credential_of user_id) db.credentials ≡ some credential
  pub changed : credential.password_hash ≡ crypto.hash_password password
  pub unlocked : credential.locked_until ≡ none

module _ (crypto : Crypto) (now : ℕ) (password : String) (reset : NativePasswordReset)
    (db : AuthDb) where
  unchanged_rows :
      (user : String)
      → ((create_or_update_credential crypto now user password db).sessions ≡ db.sessions)
        × ((create_or_update_credential crypto now user password db).resets ≡ db.resets)
  unfolding create_or_update_credential
  unchanged_rows user = elim (Bool-cases (any (is_credential_of user) db.credentials)) [
    | inl e ↦ rw e (refl, refl)
    | inr e ↦ rw e (refl, refl)
  ]

  spent_row :
      (token : String)
      → find (has_token_hash (crypto.session_digest token)) db.resets ≡ some reset
      → find
          (has_token_hash (crypto.session_digest token))
          (reset_of crypto now password reset db).resets
        ≡ some (changed_if (is_open_of reset.user_id) (used now) reset)
  unfolding reset_of audit
  spent_row token found =
      rw
        (
          (unchanged_rows reset.user_id).1,
          find-modify_all (is_open_of reset.user_id) (has_token_hash (crypto.session_digest token))
              (used now) db.resets (λ x. refl),
          found,
        )
        refl

  signed_out_row :
      (hash : String) (s : NativeSession)
      → find (has_session_hash hash) (reset_of crypto now password reset db).sessions ≡ some s
      → str_eq s.user_id reset.user_id ≡ true
      → is_set s.revoked_at ≡ true
  unfolding reset_of audit
  signed_out_row hash s found own =
      let was : Option.map (changed_if (is_session_of reset.user_id) (revoked now))
            (find (has_session_hash hash) db.sessions)
          ≡ some s =
        rw
          (
            (unchanged_rows reset.user_id).0,
            find-modify_all (is_session_of reset.user_id) (has_session_hash hash) (revoked now)
                db.sessions (λ x. refl),
          )
          at found in
      of_row (find (has_session_hash hash) db.sessions) was
    where
      of_row :
          (o : Option NativeSession)
          → Option.map (changed_if (is_session_of reset.user_id) (revoked now)) o ≡ some s
          → is_set s.revoked_at ≡ true
      of_row none h = cc h
      of_row (some t) h =
          let same : changed_if (is_session_of reset.user_id) (revoked now) t ≡ s = cc h in
          elim (Bool-cases (str_eq t.user_id reset.user_id)) [
            | inl e ↦ rw (← rw e at same) refl
            | inr e ↦ absurd (cc (e, rw (← rw e at same) at own))
          ]

  new_password :
      (c : NativeCredential) × (find
          (is_credential_of reset.user_id)
          (reset_of crypto now password reset db).credentials
        ≡ some c)
      × (c.password_hash ≡ crypto.hash_password password)
      × (c.locked_until ≡ none)
  unfolding reset_of create_or_update_credential audit new_credential
  new_password =
      let q = is_credential_of reset.user_id in
      elim (Option-cases (find q db.credentials)) [
        | inl unknown ↦ (
          new_credential reset.user_id (crypto.hash_password password) now,
          rw
              (
                any-none q db.credentials unknown,
                find-append q db.credentials
                    (new_credential reset.user_id (crypto.hash_password password) now),
                unknown,
              )
              (ground (arith, eq_refl reset.user_id)),
          refl,
          refl,
        )
        | inr (c, known) ↦ (
          with_password (crypto.hash_password password) now c,
          rw
              (
                any-some q db.credentials c known,
                find-modify_first_self q (with_password (crypto.hash_password password) now)
                    db.credentials (λ x e. e),
                known,
              )
              refl,
          refl,
          refl,
        )
      ]

reset_refused :
    (crypto : Crypto) (now : ℕ) (token password : String) (reset : NativePasswordReset)
    (db : AuthDb)
    → find (has_token_hash (crypto.session_digest token)) db.resets ≡ some reset
    → is_usable now reset ≡ false
    → reset_password crypto now token password db ≡ (err "PASSWORD_RESET_TOKEN_INVALID", db)
unfolding reset_password reset_found
reset_refused crypto now token password reset db found unusable = rw (found, unusable) refl

authenticated_user :
    (hash : String) (now : ℕ) (s : NativeSession) (u : Option User) (m : Option Membership)
    (db : AuthDb) (p : Principal)
    → (authenticated hash now s u m db).0 ≡ some p
    → (user : User) × (u ≡ some user) × (p.user_id ≡ user.id)
unfolding authenticated
authenticated_user hash now s none m db p h = cc h
authenticated_user hash now s (some user) none db p h = cc h
authenticated_user hash now s (some user) (some m) db p h =
    let same : principal_of user s.tenant_id m.role ≡ p = cc h in (user, refl, rw (← same) refl)

of_session_cases :
    (hash : String) (now : ℕ) (o : Option NativeSession) (db : AuthDb) (p : Principal)
    → (of_session hash now o db).0 ≡ some p
    → (s : NativeSession) × (o ≡ some s) × (is_live now s ≡ true) × (p.user_id ≡ s.user_id)
unfolding of_session
of_session_cases hash now none db p h = cc h
of_session_cases hash now (some s) db p h = elim (Bool-cases (is_live now s)) [
  | inr dead ↦ cc (rw dead at h)
  | inl live ↦
      let by = find (has_user_id s.user_id) db.users in
      let (user, known, same) =
        authenticated_user hash now s by (find (is_member_of s.tenant_id s.user_id) db.memberships)
          db p (rw live at h) in
      let id_is =
        (eq_iff user.id s.user_id).0 (find_holds (has_user_id s.user_id) db.users user known) in
      (s, refl, live, rw (same, id_is) refl)
]

-- Whoever a session identifies is the user of a session that is live.
live_session :
    (crypto : Crypto) (now : ℕ) (token : Option String) (p : Principal) (db : AuthDb)
    → (principal_from_session crypto now token db).0 ≡ some p
    → (s : NativeSession) × (find
          (has_session_hash (crypto.session_digest (text_or token "")))
          db.sessions
        ≡ some s)
      × (is_live now s ≡ true)
      × (p.user_id ≡ s.user_id)
unfolding principal_from_session
live_session crypto now token p db h = elim (Bool-cases (truthy token)) [
  | inr e ↦ cc (rw e at h)
  | inl e ↦
      let hash = crypto.session_digest (text_or token "") in
      of_session_cases hash now (find (has_session_hash hash) db.sessions) db p (rw e at h)
]

-- A completed reset of a password finds an unused token that has not expired; from then on the same token is refused at any time and with any password, no session token identifies the user of the reset any more until a new session is issued, and the user's credential has the new password and is not locked.
pub reset_password-IsReset :
    (crypto : Crypto) (now : ℕ) (token password : String) (db : AuthDb)
    → (reset_password crypto now token password db).0 ≡ ok tt
    → (reset : NativePasswordReset) × (find (has_token_hash (crypto.session_digest token)) db.resets
        ≡ some reset)
      × (is_usable now reset ≡ true)
      × IsReset crypto token reset.user_id password (reset_password crypto now token password db).1
unfolding reset_password reset_found
reset_password-IsReset crypto now token password db h =
    of_found (find (has_token_hash (crypto.session_digest token)) db.resets) refl h
  where
    done :
        (reset : NativePasswordReset)
        → find (has_token_hash (crypto.session_digest token)) db.resets ≡ some reset
        → IsReset crypto token reset.user_id password (reset_of crypto now password reset db)
    done reset found =
        let (c, held, changed, unlocked) = new_password crypto now password reset db in
        record {
          spent = λ later password'.
              reset_refused crypto later token password'
                (changed_if (is_open_of reset.user_id) (used now) reset)
                (reset_of crypto now password reset db)
                (spent_row crypto now password reset db token found)
                (ground (arith, eq_refl reset.user_id));
          signed_out = λ later token' p identified.
              let (s, held, live, same) =
                live_session crypto later token' p (reset_of crypto now password reset db)
                  identified in
              elim (Bool-cases (str_eq p.user_id reset.user_id)) [
                | inr other ↦ other
                | inl own ↦
                    let gone =
                      signed_out_row crypto now password reset db
                        (crypto.session_digest (text_or token' "")) s held (rw same at own) in
                    ground (arith, gone, live)
              ];
          credential = c;
          found = held;
          changed = changed;
          unlocked = unlocked;
        }

    of_found :
        (o : Option NativePasswordReset)
        → find (has_token_hash (crypto.session_digest token)) db.resets ≡ o
        → (reset_found crypto now password o db).0 ≡ ok tt
        → (reset : NativePasswordReset) × (o ≡ some reset)
          × (is_usable now reset ≡ true)
          × IsReset crypto token reset.user_id password (reset_found crypto now password o db).1
    of_found none e h = cc h
    of_found (some reset) e h = elim (Bool-cases (is_usable now reset)) [
      | inr bad ↦ cc (rw bad at h)
      | inl good ↦ (reset, refl, good, rw good (done reset e))
    ]
