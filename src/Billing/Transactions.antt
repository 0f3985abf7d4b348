-- ===== src/Billing/Transactions.antt =====
-- `_record_transaction` of src/orkio_v2/billing/service.py.
use Prim.Native.String.{◌++◌ as ◌+++◌}
use efata_777_backend_premiu.Prelude.{
  ℕ, String, Bool, ◌&&◌, Option, none, some, [], ◌∷◌, ◌++◌, str_eq, find,
}
use efata_777_backend_premiu.Prelude.Int.{ℤ, pos}
use efata_777_backend_premiu.Billing.Models.{
  BillingCheckout, BillingTransaction, CheckoutKind, TransactionStatus, transaction_state_name, Db,
}
use efata_777_backend_premiu.Billing.Wallets.{next_uid, draw}

abbrev pub same_transaction : String → TransactionStatus → String → BillingTransaction → Bool
same_transaction payment_id status charge_kind tx =
    str_eq tx.provider "asaas"
    && str_eq tx.external_ref payment_id
    && str_eq (transaction_state_name tx.status) (transaction_state_name status)
    && str_eq tx.charge_kind charge_kind

abbrev pub monthly : CheckoutKind → ℤ → ℤ
monthly CheckoutKind.plan amount = amount
monthly CheckoutKind.topup amount = pos 0

abbrev pub new_transaction :
    String → BillingCheckout → String → TransactionStatus → String → ℕ → BillingTransaction
new_transaction id checkout payment_id status charge_kind now = record {
  id = id;
  tenant_id = checkout.tenant_id;
  user_id = checkout.user_id;
  checkout_id = some checkout.id;
  provider = "asaas";
  external_ref = payment_id;
  plan_code = some checkout.item_code;
  charge_kind = charge_kind;
  currency = "USD";
  amount_original = checkout.amount_brl;
  amount_usd = checkout.amount_usd;
  normalized_mrr_usd = monthly checkout.checkout_kind checkout.amount_usd;
  status = status;
  notes = "Provider event for checkout " +++ checkout.id;
  created_by = "billing_webhook";
  occurred_at = now;
  confirmed_at = some now;
}

existing_or_new :
    Option BillingTransaction
    → BillingCheckout
    → String
    → TransactionStatus
    → String
    → ℕ
    → Db
    → BillingTransaction × Db
existing_or_new (some tx) checkout payment_id status charge_kind now db = (tx, db)
existing_or_new none checkout payment_id status charge_kind now db =
    let tx = new_transaction (next_uid db) checkout payment_id status charge_kind now in
    (tx, record (draw db) { transactions = db.transactions ++ tx ∷ [] })

unfoldable pub record_transaction :
    BillingCheckout → String → TransactionStatus → String → ℕ → Db → BillingTransaction × Db
unfolding existing_or_new
record_transaction checkout payment_id status charge_kind now db =
    existing_or_new (find (same_transaction payment_id status charge_kind) db.transactions) checkout
      payment_id status charge_kind now db
