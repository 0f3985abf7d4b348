-- ===== src/Billing/Repository.antt =====
-- src/orkio_v2/billing/repository.py: the queries of the billing tables. `db.scalar(select(...))`
-- is the first row, in the order of insertion, that passes the `where` clause.
use Prim.Native.Nat.{max, min}
use efata_777_backend_premiu.Prelude.{
  ℕ, zero, suc, String, Bool, true, false, ◌&&◌, Option, List, [], ◌∷◌, str_eq, find, count_if, ltb,
  if◌then◌else◌,
}
use efata_777_backend_premiu.Prelude.Int.{ℤ, pos, ◌+ℤ◌}
use efata_777_backend_premiu.Billing.Models.{
  BillingCheckout, BillingEntitlement, BillingTransaction, BillingWallet, BillingWalletLedger,
  TransactionStatus, CheckoutStatus, Db,
}

abbrev pub wallet_is_of : String → String → BillingWallet → Bool
wallet_is_of tenant_id user_id w = str_eq w.tenant_id tenant_id && str_eq w.user_id user_id

abbrev pub entitlement_is_of : String → String → BillingEntitlement → Bool
entitlement_is_of tenant_id user_id e = str_eq e.tenant_id tenant_id && str_eq e.user_id user_id

abbrev pub checkout_has_key : String → String → String → BillingCheckout → Bool
checkout_has_key tenant_id user_id key c =
    str_eq c.tenant_id tenant_id && str_eq c.user_id user_id && str_eq c.idempotency_key key

unfoldable pub checkout_for_actor : Db → String → String → String → Option BillingCheckout
unfolding find
checkout_for_actor db tenant_id user_id checkout_id =
    find (λ c. str_eq c.id checkout_id && str_eq c.tenant_id tenant_id && str_eq c.user_id user_id)
      db.checkouts

unfoldable pub checkout_by_idempotency : Db → String → String → String → Option BillingCheckout
checkout_by_idempotency db tenant_id user_id key =
    find (checkout_has_key tenant_id user_id key) db.checkouts

unfoldable pub wallet_for_actor : Db → String → String → Option BillingWallet
wallet_for_actor db tenant_id user_id = find (wallet_is_of tenant_id user_id) db.wallets

unfoldable pub entitlement_for_actor : Db → String → String → Option BillingEntitlement
entitlement_for_actor db tenant_id user_id =
    find (entitlement_is_of tenant_id user_id) db.entitlements

-- `order_by(created_at.desc())`: each row goes before the rows that are older.
insert_newest : BillingWalletLedger → List BillingWalletLedger → List BillingWalletLedger
insert_newest e [] = e ∷ []
insert_newest e (x ∷ xs) =
    let rest = insert_newest e xs in if ltb e.created_at x.created_at then x ∷ rest else e ∷ x ∷ xs

newest_first : List BillingWalletLedger → List BillingWalletLedger
unfolding insert_newest
newest_first [] = []
newest_first (e ∷ es) = insert_newest e (newest_first es)

entries_of : String → String → List BillingWalletLedger → List BillingWalletLedger
entries_of tenant_id user_id [] = []
entries_of tenant_id user_id (e ∷ es) =
    let rest = entries_of tenant_id user_id es in
    if str_eq e.tenant_id tenant_id && str_eq e.user_id user_id then e ∷ rest else rest

take_at_most : ℕ → List BillingWalletLedger → List BillingWalletLedger
take_at_most zero es = []
take_at_most (suc n) [] = []
take_at_most (suc n) (e ∷ es) = e ∷ take_at_most n es

unfoldable pub ledger_for_actor : Db → String → String → ℕ → List BillingWalletLedger
unfolding newest_first entries_of take_at_most
ledger_for_actor db tenant_id user_id limit =
    take_at_most (max 1 (min limit 200)) (newest_first (entries_of tenant_id user_id db.ledger))

-- The sums of `admin_summary`.
is_confirmed : TransactionStatus → Bool
is_confirmed TransactionStatus.confirmed = true
is_confirmed _ = false

is_reversed : TransactionStatus → Bool
is_reversed (TransactionStatus.reversed CheckoutStatus.refunded) = true
is_reversed (TransactionStatus.reversed CheckoutStatus.chargeback) = true
is_reversed _ = false

sum_transactions : (TransactionStatus → Bool) → String → List BillingTransaction → ℤ
sum_transactions p tenant_id [] = pos 0
sum_transactions p tenant_id (t ∷ ts) =
    let rest = sum_transactions p tenant_id ts in
    if str_eq t.tenant_id tenant_id && p t.status then t.amount_usd +ℤ rest else rest

sum_wallets : (BillingWallet → ℤ) → String → List BillingWallet → ℤ
sum_wallets f tenant_id [] = pos 0
sum_wallets f tenant_id (w ∷ ws) =
    let rest = sum_wallets f tenant_id ws in
    if str_eq w.tenant_id tenant_id then f w +ℤ rest else rest

pub record AdminSummary : Type 0 where
  pub confirmed_revenue_usd : ℤ
  pub refunded_or_chargeback_usd : ℤ
  pub wallet_balance_usd : ℤ
  pub wallet_quarantined_usd : ℤ
  pub transaction_count : ℕ
  pub wallet_count : ℕ

unfoldable pub admin_summary : Db → String → AdminSummary
unfolding sum_transactions sum_wallets is_confirmed is_reversed count_if
admin_summary db tenant_id = record {
  confirmed_revenue_usd = sum_transactions is_confirmed tenant_id db.transactions;
  refunded_or_chargeback_usd = sum_transactions is_reversed tenant_id db.transactions;
  wallet_balance_usd = sum_wallets (λ w. w.balance_usd) tenant_id db.wallets;
  wallet_quarantined_usd = sum_wallets (λ w. w.quarantined_usd) tenant_id db.wallets;
  transaction_count = count_if (λ t. str_eq t.tenant_id tenant_id) db.transactions;
  wallet_count = count_if (λ w. str_eq w.tenant_id tenant_id) db.wallets;
}
