-- ===== src/Access/Native/Mfa/Attempts.antt =====
-- What a refused and an accepted verification of src/orkio_v2/auth_routes.py leave.
use efata_777_backend_premiu.Prelude.{
  ℕ, ◌+◌, ◌-◌, ◌/◌, ◌≤◌, ◌<◌, String, ◌≡◌, refl, true, false, Bool-cases, inl, inr, Option, some,
  List, [], ◌∷◌, str_eq, arith, ◌==◌, any,
}
use efata_777_backend_premiu.Prelude.Text.{strip, digits_only, text_length}
use efata_777_backend_premiu.Prelude.Http.{Outcome, is_returned}
use efata_777_backend_premiu.Runtime.Contracts.{ok, err}
use efata_777_backend_premiu.Access.Native.Tables.{AuthDb, AuthSettings, Crypto, Draw}
use efata_777_backend_premiu.Access.Native.Challenge.{Step}
use efata_777_backend_premiu.Access.Native.Login.{LoginAnswer}
use efata_777_backend_premiu.Access.Native.Mfa.{
  is_replayed, matching_step, verify_totp, answer_route, native_mfa_verify,
}

-- One request to the route.
pub record Attempt : Type 0 where
  pub draw : Draw
  pub code : Option String
  pub recovery_code : Option String
  pub user_agent : String
  pub ip_prefix : String

rolled_back :
    (s : Step LoginAnswer) (db : AuthDb)
    → is_returned (answer_route s db).0 ≡ false
    → (answer_route s db).1 ≡ db
unfolding answer_route
rolled_back (ok answer, db') db h = cc h
rolled_back (err code, db') db h = refl

module _ (crypto : Crypto) (settings : AuthSettings) (token : String) where
  abbrev pub attempt : Attempt → AuthDb → Outcome LoginAnswer × AuthDb
  attempt a db =
      native_mfa_verify crypto settings a.draw token a.code a.recovery_code a.user_agent a.ip_prefix
        db

  -- The requests one after the other.
  abbrev pub attempts : List Attempt → AuthDb → AuthDb
  attempts [] db = db
  attempts (a ∷ rest) db = attempts rest (attempt a db).1

matching_step_cases :
    (crypto : Crypto) (secret code : String) (last : Option ℕ) (steps : List ℕ) (step : ℕ)
    → matching_step crypto secret code last steps ≡ some step
    → (is_replayed last step ≡ false)
      × (str_eq (crypto.totp_code secret step) code ≡ true)
      × (any (λ s. s == step) steps ≡ true)
unfolding matching_step any
matching_step_cases crypto secret code last [] step h = cc h
matching_step_cases crypto secret code last (s ∷ steps) step h =
    let later = matching_step_cases crypto secret code last steps step in
    elim (Bool-cases (is_replayed last s)) [
      | inl old ↦ let (a, b, c) = later (rw old at h) in (a, b, ground (arith, c))
      | inr new ↦ elim (Bool-cases (str_eq (crypto.totp_code secret s) code)) [
        | inl matches ↦
            let same : some s ≡ some step = rw (new, matches) at h in
            let eq : s ≡ step = cc same in (rw (← eq) new, rw (← eq) matches, ground (arith, eq))
        | inr differs ↦ let (a, b, c) = later (rw (new, differs) at h) in (a, b, ground (arith, c))
      ]
    ]

near :
    (q step : ℕ)
    → any (λ s. s == step) ((q - 1) ∷ q ∷ (q + 1) ∷ []) ≡ true
    → (q ≤ step + 1) × (step ≤ q + 1)
unfolding any
near q step h = (ground (arith, h), ground (arith, h))

accepted_step :
    (crypto : Crypto) (now : ℕ) (secret code : String) (last : Option ℕ) (step : ℕ)
    → verify_totp crypto now secret code last ≡ some step
    → (is_replayed last step ≡ false)
      × (str_eq (crypto.totp_code secret step) (digits_only (strip code)) ≡ true)
      × (any (λ s. s == step) ((now / 30 - 1) ∷ now / 30 ∷ (now / 30 + 1) ∷ []) ≡ true)
unfolding verify_totp
accepted_step crypto now secret code last step h =
    elim (Bool-cases (text_length (digits_only (strip code)) == 6)) [
      | inr e ↦ cc (rw e at h)
      | inl e ↦
          matching_step_cases crypto secret (digits_only (strip code)) last
            ((now / 30 - 1) ∷ now / 30 ∷ (now / 30 + 1) ∷ []) step (rw e at h)
    ]

-- A code is accepted only at a step of 30 seconds that is the current one or next to it, at which it is the code of the secret and which comes after the last accepted one; and once that step is the last accepted one, every later acceptance, at any time and of any code, is at a greater step.
pub verify_totp_accepts :
    (crypto : Crypto) (now : ℕ) (secret code : String) (last : Option ℕ) (step : ℕ)
    → verify_totp crypto now secret code last ≡ some step
    → (str_eq (crypto.totp_code secret step) (digits_only (strip code)) ≡ true)
      × (is_replayed last step ≡ false)
      × (now / 30 ≤ step + 1)
      × (step ≤ now / 30 + 1)
      × ((now' : ℕ) (code' : String) (step' : ℕ)
          → verify_totp crypto now' secret code' (some step) ≡ some step'
          → step < step')
verify_totp_accepts crypto now secret code last step h =
    let (new, matches, among) = accepted_step crypto now secret code last step h in
    let (low, high) = near (now / 30) step among in
    (
      matches,
      new,
      low,
      high,
      λ now' code' step' h'.
          ground (arith, (accepted_step crypto now' secret code' (some step) step' h').0),
    )
