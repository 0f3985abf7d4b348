-- ===== src/Billing/Webhook/Payment.antt =====
-- What the first confirmation of a payment does.
use efata_777_backend_premiu.Prelude.{ℕ, String, ◌≡◌, refl, ◌∙◌, ap, true, false, some}
use efata_777_backend_premiu.Prelude.Int.{pos, ◌+ℤ◌, leb_ℤ}
use efata_777_backend_premiu.Billing.Models.{
  BillingCheckout, BillingWallet, CheckoutStatus, TransactionStatus, Db,
}
use efata_777_backend_premiu.Billing.Repository.{wallet_for_actor}
use efata_777_backend_premiu.Billing.Entitlements.{activate_entitlement}
use efata_777_backend_premiu.Billing.Transactions.{record_transaction}
use efata_777_backend_premiu.Billing.Wallets.{ledger_exists, ledger_key}
use efata_777_backend_premiu.Billing.Wallets.Books.{column}
use efata_777_backend_premiu.Billing.Wallets.Effects.{credit_wallet_posts}
use efata_777_backend_premiu.Billing.Frames.{
  SameMoney, SameMoney-trans, activate-SameMoney, transaction-SameMoney,
}
use efata_777_backend_premiu.Billing.Webhook.{confirm_checkout, charge_kind_of}

same_wallet :
    {a b : Db} → SameMoney a b → (t u : String) → wallet_for_actor b t u ≡ wallet_for_actor a t u
unfolding wallet_for_actor
same_wallet same t u = rw same.wallets refl

same_exists :
    {a b : Db} → SameMoney a b → (t k : String) → ledger_exists b t k ≡ ledger_exists a t k
unfolding ledger_exists
same_exists same t k = rw same.ledger refl

-- The confirmation of a checkout with a positive included credit, for a payment without a ledger entry, marks the checkout with the new state and its time, raises the balance of its actor's wallet (created where it is missing) by exactly the included credit, and enters the payment's key in the ledger.
pub confirm_pays :
    (next : CheckoutStatus) (pid : String) (now : ℕ) (row : BillingCheckout) (db : Db)
    → leb_ℤ row.metadata_json.included_credit_usd (pos 0) ≡ false
    → ledger_exists db row.tenant_id (ledger_key pid "credit") ≡ false
    → let (checkout, db', action) = confirm_checkout next pid now row db in
      (checkout.status ≡ next)
      × (checkout.confirmed_at ≡ some now)
      × ((w : BillingWallet) × (wallet_for_actor db' row.tenant_id row.user_id ≡ some w)
          × (w.balance_usd
              ≡ column (λ v. v.balance_usd) (wallet_for_actor db row.tenant_id row.user_id)
                +ℤ row.metadata_json.included_credit_usd)
          × (ledger_exists db' row.tenant_id (ledger_key pid "credit") ≡ true))
unfolding confirm_checkout
confirm_pays next pid now row db positive fresh =
    let checkout = record row { status = next; confirmed_at = some now } in
    let kind = charge_kind_of row.checkout_kind in
    let active = activate_entitlement checkout now db in
    let recorded =
      (record_transaction checkout pid TransactionStatus.confirmed kind now active).1 in
    let same =
      SameMoney-trans (activate-SameMoney checkout now db)
        (transaction-SameMoney checkout now active pid TransactionStatus.confirmed kind) in
    let (w, found, balance, posted) =
      credit_wallet_posts checkout pid row.metadata_json.included_credit_usd now recorded positive
        (same_exists same row.tenant_id (ledger_key pid "credit") ∙ fresh) in
    (
      refl,
      refl,
      (
        w,
        found,
        balance
            ∙ ap (λ o. column (λ v. v.balance_usd) o +ℤ row.metadata_json.included_credit_usd)
                (same_wallet same row.tenant_id row.user_id),
        posted,
      ),
    )
