-- ===== src/Access/Native/Tables.antt =====
-- The tables of src/orkio_v2/models.py that services/native_auth.py reads and writes, and what it takes from outside.
use efata_777_backend_premiu.Prelude.{
  ℕ, String, Bool, Option, none, List, [], ◌∷◌, ◌++◌, if◌then◌else◌,
}

pub record User : Type 0 where
  pub id : String
  pub external_subject : String
  pub email : String
  pub display_name : String
  pub email_verified_at : Option ℕ

pub record Tenant : Type 0 where
  pub id : String
  pub name : String

pub record Membership : Type 0 where
  pub tenant_id : String
  pub user_id : String
  pub role : String
  pub active : Bool

pub record NativeCredential : Type 0 where
  pub user_id : String
  pub password_hash : String
  pub failed_login_count : ℕ
  pub locked_until : Option ℕ
  pub password_updated_at : ℕ
  pub last_login_at : Option ℕ
  pub created_at : ℕ

pub record NativeSession : Type 0 where
  pub id : String
  pub session_hash : String
  pub token_prefix : String
  pub tenant_id : String
  pub user_id : String
  pub created_at : ℕ
  pub expires_at : ℕ
  pub last_seen_at : ℕ
  pub revoked_at : Option ℕ
  pub user_agent : String
  pub ip_prefix : String
  pub last_rotated_at : Option ℕ
  pub authenticated_at : Option ℕ
  pub mfa_verified_at : Option ℕ

pub record NativePasswordReset : Type 0 where
  pub id : String
  pub token_hash : String
  pub token_prefix : String
  pub user_id : String
  pub issued_at : ℕ
  pub expires_at : ℕ
  pub used_at : Option ℕ

-- A challenge, with the two entries that its payload can have.
pub record NativeAuthChallenge : Type 0 where
  pub token_hash : String
  pub token_prefix : String
  pub purpose : String
  pub user_id : String
  pub tenant_id : Option String
  pub secret : Option String
  pub grant_jti : Option String
  pub issued_at : ℕ
  pub expires_at : ℕ
  pub used_at : Option ℕ
  pub attempts : ℕ

pub record NativeMfaFactor : Type 0 where
  pub user_id : String
  pub factor_type : String
  pub encrypted_secret : String
  pub confirmed_at : Option ℕ
  pub last_used_step : Option ℕ

pub record NativeMfaRecoveryCode : Type 0 where
  pub user_id : String
  pub code_hash : String
  pub used_at : Option ℕ

pub record AccessGrantRedemption : Type 0 where
  pub grant_jti : String
  pub tenant_id : String
  pub user_id : String

-- The row of the audit trail; its metadata is one reason.
pub record AuthAudit : Type 0 where
  pub action : String
  pub outcome : String
  pub tenant_id : Option String
  pub actor_id : Option String
  pub resource_type : String
  pub resource_id : Option String
  pub reason : Option String

pub record AuthDb : Type 0 where
  pub users : List User
  pub tenants : List Tenant
  pub memberships : List Membership
  pub credentials : List NativeCredential
  pub sessions : List NativeSession
  pub resets : List NativePasswordReset
  pub challenges : List NativeAuthChallenge
  pub factors : List NativeMfaFactor
  pub recovery_codes : List NativeMfaRecoveryCode
  pub redemptions : List AccessGrantRedemption
  pub audits : List AuthAudit

pub record AuthSettings : Type 0 where
  pub native_login_max_failures : ℕ
  pub native_login_lock_minutes : ℕ
  pub native_session_ttl_hours : ℕ
  pub native_password_reset_ttl_minutes : ℕ
  pub environment : String
  pub access_gate_tenant_id : String

-- The cryptography, with the secrets of the settings.
pub record Crypto : Type 0 where
  pub hash_password : String → String
  pub verify_password : String → String → Bool
  pub session_digest : String → String
  pub totp_code : String → ℕ → String
  pub encrypt : String → String
  pub decrypt : String → Option String

-- What one request draws: the clock, a token, an identifier, a secret.
pub record Draw : Type 0 where
  pub now : ℕ
  pub token : String
  pub id : String
  pub secret : String

abbrev pub no_audit : String → String → AuthAudit
no_audit action outcome = record {
  action = action;
  outcome = outcome;
  tenant_id = none;
  actor_id = none;
  resource_type = "native_auth";
  resource_id = none;
  reason = none;
}

-- `audit`.
unfoldable pub audit : AuthAudit → AuthDb → AuthDb
audit row db = record db { audits = db.audits ++ row ∷ [] }

-- A `query(...).update(...)`: every row that passes.
unfoldable pub modify_all {ℓ} : {A : Type ℓ} → (A → Bool) → (A → A) → List A → List A
modify_all p f [] = []
modify_all p f (x ∷ xs) = (if p x then f x else x) ∷ modify_all p f xs
