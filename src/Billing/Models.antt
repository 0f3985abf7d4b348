-- ===== src/Billing/Models.antt =====
-- The billing tables (src/orkio_v2/models.py) as records, and the session's view of them.
-- USD amounts are integers of 1/10000 dollar (`Numeric(18, 4)`), BRL amounts of 1/100 real; times
-- are seconds.
use efata_777_backend_premiu.Prelude.{ℕ, String, Bool, Option, List}
use efata_777_backend_premiu.Prelude.Int.{ℤ}

pub data CheckoutKind : Type 0 where
  plan topup : CheckoutKind

abbrev pub kind_name : CheckoutKind → String
kind_name plan = "plan"
kind_name topup = "topup"

pub data CheckoutStatus : Type 0 where
  pending paid failed expired cancelled refunded chargeback : CheckoutStatus

-- The text of the `status` column, which other tables and the ledger keys repeat.
abbrev pub state_name : CheckoutStatus → String
state_name pending = "pending"
state_name paid = "paid"
state_name failed = "failed"
state_name expired = "expired"
state_name cancelled = "cancelled"
state_name refunded = "refunded"
state_name chargeback = "chargeback"

-- `ended s` is the state `s` of a checkout, written by `_revoke_entitlement`.
pub data EntitlementStatus : Type 0 where
  active : EntitlementStatus
  ended : CheckoutStatus → EntitlementStatus

-- `reversed s` is the state `s` of a reversed checkout.
pub data TransactionStatus : Type 0 where
  confirmed void : TransactionStatus
  reversed : CheckoutStatus → TransactionStatus

abbrev pub transaction_state_name : TransactionStatus → String
transaction_state_name confirmed = "confirmed"
transaction_state_name void = "void"
transaction_state_name (reversed s) = state_name s

pub data WalletStatus : Type 0 where
  active quarantined : WalletStatus

pub data EventStatus : Type 0 where
  received processed ignored : EventStatus

pub data Direction : Type 0 where
  credit debit adjustment : Direction

-- `metadata_json["provider_operation"]`.
pub record ProviderOperation : Type 0 where
  pub kind : String
  pub state : String
  pub external_reference : String
  pub last_error_code : Option String

-- `metadata_json` of a checkout, which only `create_checkout` and the operation state write.
pub record CheckoutMetadata : Type 0 where
  pub included_credit_usd : ℤ
  pub entitlement_days : ℤ
  pub provider_operation : Option ProviderOperation

pub record BillingCheckout : Type 0 where
  pub id : String
  pub tenant_id : String
  pub user_id : String
  pub checkout_kind : CheckoutKind
  pub item_code : String
  pub item_name : String
  pub payer_email : String
  pub payer_name : String
  pub company : Option String
  pub currency : String
  pub amount_brl : ℤ
  pub amount_usd : ℤ
  pub status : CheckoutStatus
  pub provider : String
  pub provider_checkout_id : Option String
  pub provider_payment_id : Option String
  pub provider_url : Option String
  pub callback_success_url : String
  pub idempotency_key : String
  pub metadata_json : CheckoutMetadata
  pub updated_at : ℕ
  pub confirmed_at : Option ℕ
  pub reversed_at : Option ℕ

pub record BillingWebhookEvent : Type 0 where
  pub id : String
  pub tenant_id : Option String
  pub user_id : Option String
  pub checkout_id : Option String
  pub provider : String
  pub provider_event_key : String
  pub event_type : String
  pub payload_sha256 : String
  pub provider_payment_id : Option String
  pub provider_checkout_id : Option String
  pub status : EventStatus
  pub processed_at : Option ℕ

pub record BillingEntitlement : Type 0 where
  pub id : String
  pub tenant_id : String
  pub user_id : String
  pub plan_code : String
  pub plan_name : String
  pub status : EntitlementStatus
  pub checkout_id : Option String
  pub starts_at : Option ℕ
  pub expires_at : Option ℕ
  pub last_payment_at : Option ℕ
  pub updated_at : ℕ

pub record BillingTransaction : Type 0 where
  pub id : String
  pub tenant_id : String
  pub user_id : String
  pub checkout_id : Option String
  pub provider : String
  pub external_ref : String
  pub plan_code : Option String
  pub charge_kind : String
  pub currency : String
  pub amount_original : ℤ
  pub amount_usd : ℤ
  pub normalized_mrr_usd : ℤ
  pub status : TransactionStatus
  pub notes : String
  pub created_by : String
  pub occurred_at : ℕ
  pub confirmed_at : Option ℕ

pub record BillingWallet : Type 0 where
  pub id : String
  pub tenant_id : String
  pub user_id : String
  pub currency : String
  pub status : WalletStatus
  pub balance_usd : ℤ
  pub lifetime_credited_usd : ℤ
  pub lifetime_debited_usd : ℤ
  pub quarantined_usd : ℤ
  pub auto_recharge_enabled : Bool
  pub low_balance_threshold_usd : Option ℤ

pub record BillingWalletLedger : Type 0 where
  pub id : String
  pub tenant_id : String
  pub user_id : String
  pub wallet_id : String
  pub direction : Direction
  pub source : String
  pub idempotency_key : String
  pub action_key : Option String
  pub amount_usd : ℤ
  pub balance_after_usd : ℤ
  pub currency : String
  pub provider : Option String
  pub external_ref : Option String
  pub related_checkout_id : Option String
  pub related_tx_id : Option String
  pub policy : String
  pub unrecovered_usd : Option ℤ
  pub created_by : String
  pub created_at : ℕ

-- A value of an audit row's metadata.
pub data MetaValue : Type 0 where
  text : String → MetaValue
  flag : Bool → MetaValue

pub record AuditEvent : Type 0 where
  pub tenant_id : Option String
  pub actor_id : Option String
  pub action : String
  pub resource_type : String
  pub resource_id : Option String
  pub outcome : String
  pub metadata_json : List (String × MetaValue)

pub record User : Type 0 where
  pub id : String
  pub email : String
  pub display_name : String

-- The rows that a session sees, in the order of insertion. `uids n` is the `n`th identifier that
-- `uid()` draws, and `drawn` is how many it has drawn.
pub record Db : Type 0 where
  pub users : List User
  pub checkouts : List BillingCheckout
  pub events : List BillingWebhookEvent
  pub entitlements : List BillingEntitlement
  pub transactions : List BillingTransaction
  pub wallets : List BillingWallet
  pub ledger : List BillingWalletLedger
  pub audits : List AuditEvent
  pub uids : ℕ → String
  pub drawn : ℕ
