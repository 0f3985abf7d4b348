-- ===== src/Billing/Views.antt =====
-- The read-only views of src/orkio_v2/billing/service.py: amounts at their column's scale, times as
-- they are stored.
pub mod Overview
use efata_777_backend_premiu.Prelude.{ℕ, String, Option, none, some}
use efata_777_backend_premiu.Prelude.Int.{ℤ, pos}
use efata_777_backend_premiu.Billing.Models.{
  BillingCheckout, BillingWallet, BillingWalletLedger, BillingEntitlement, CheckoutKind,
  CheckoutStatus, WalletStatus, EntitlementStatus, Direction, Db,
}
use efata_777_backend_premiu.Billing.Repository.{wallet_for_actor, entitlement_for_actor}

pub record CheckoutView : Type 0 where
  pub id : String
  pub checkout_kind : CheckoutKind
  pub item_code : String
  pub item_name : String
  pub status : CheckoutStatus
  pub checkout_url : Option String
  pub currency : String
  pub amount_brl : ℤ
  pub amount_usd : ℤ
  pub confirmed_at : Option ℕ

unfoldable pub checkout_view : BillingCheckout → CheckoutView
checkout_view row = record {
  id = row.id;
  checkout_kind = row.checkout_kind;
  item_code = row.item_code;
  item_name = row.item_name;
  status = row.status;
  checkout_url = row.provider_url;
  currency = row.currency;
  amount_brl = row.amount_brl;
  amount_usd = row.amount_usd;
  confirmed_at = row.confirmed_at;
}

pub record WalletView : Type 0 where
  pub id : Option String
  pub currency : String
  pub status : WalletStatus
  pub balance_usd : ℤ
  pub lifetime_credited_usd : ℤ
  pub lifetime_debited_usd : ℤ
  pub quarantined_usd : ℤ
  pub low_balance_threshold_usd : Option ℤ

unfoldable pub wallet_view : Option BillingWallet → WalletView
wallet_view none = record {
  id = none;
  currency = "USD";
  status = WalletStatus.active;
  balance_usd = pos 0;
  lifetime_credited_usd = pos 0;
  lifetime_debited_usd = pos 0;
  quarantined_usd = pos 0;
  low_balance_threshold_usd = some (pos 30000);
}
wallet_view (some row) = record {
  id = some row.id;
  currency = row.currency;
  status = row.status;
  balance_usd = row.balance_usd;
  lifetime_credited_usd = row.lifetime_credited_usd;
  lifetime_debited_usd = row.lifetime_debited_usd;
  quarantined_usd = row.quarantined_usd;
  low_balance_threshold_usd = row.low_balance_threshold_usd;
}

pub record EntitlementView : Type 0 where
  pub plan_code : String
  pub plan_name : String
  pub status : EntitlementStatus
  pub starts_at : Option ℕ
  pub expires_at : Option ℕ
  pub last_payment_at : Option ℕ

unfoldable pub entitlement_view : Option BillingEntitlement → Option EntitlementView
entitlement_view none = none
entitlement_view (some row) = some (record {
  plan_code = row.plan_code;
  plan_name = row.plan_name;
  status = row.status;
  starts_at = row.starts_at;
  expires_at = row.expires_at;
  last_payment_at = row.last_payment_at;
})

pub record LedgerView : Type 0 where
  pub id : String
  pub direction : Direction
  pub source : String
  pub action_key : Option String
  pub amount_usd : ℤ
  pub balance_after_usd : ℤ
  pub currency : String
  pub external_ref : Option String
  pub created_at : ℕ

unfoldable pub ledger_view : BillingWalletLedger → LedgerView
ledger_view row = record {
  id = row.id;
  direction = row.direction;
  source = row.source;
  action_key = row.action_key;
  amount_usd = row.amount_usd;
  balance_after_usd = row.balance_after_usd;
  currency = row.currency;
  external_ref = row.external_ref;
  created_at = row.created_at;
}

-- `overview`: the wallet, or zeros, and the entitlement.
unfoldable pub overview : Db → String → String → WalletView × Option EntitlementView
overview db tenant_id user_id = (
  wallet_view (wallet_for_actor db tenant_id user_id),
  entitlement_view (entitlement_for_actor db tenant_id user_id),
)
