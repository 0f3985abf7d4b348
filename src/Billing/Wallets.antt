-- ===== src/Billing/Wallets.antt =====
-- The wallet operations of src/orkio_v2/billing/service.py: creation, the credit of a payment and
-- the reversal of a checkout's credit. Each assigns to the row that `wallet_for_actor` returns.
pub mod Lookup
pub mod Books
pub mod Preservation
pub mod Credits
pub mod Effects
use Prim.Native.String.{◌++◌ as ◌+++◌}
use efata_777_backend_premiu.Prelude.{
  ℕ, suc, String, Bool, true, false, ◌&&◌, ◌||◌, Option, none, some, List, [], ◌∷◌, ◌++◌, str_eq,
  find, modify_first, any, ltb, if◌then◌else◌,
}
use efata_777_backend_premiu.Prelude.Int.{ℤ, pos, ◌+ℤ◌, ◌-ℤ◌, ltb_ℤ, leb_ℤ, min_ℤ}
use efata_777_backend_premiu.Prelude.Text.{is_some_text}
use efata_777_backend_premiu.Billing.Models.{
  BillingCheckout, BillingTransaction, BillingWallet, BillingWalletLedger, CheckoutKind, Direction,
  WalletStatus, Db,
}
use efata_777_backend_premiu.Billing.Repository.{wallet_for_actor, wallet_is_of}

-- `uid()`.
abbrev pub next_uid : Db → String
next_uid db = db.uids db.drawn

abbrev pub draw : Db → Db
draw db = record db { drawn = suc db.drawn }

abbrev pub new_wallet : String → String → String → BillingWallet
new_wallet id tenant_id user_id = record {
  id = id;
  tenant_id = tenant_id;
  user_id = user_id;
  currency = "USD";
  status = WalletStatus.active;
  balance_usd = pos 0;
  lifetime_credited_usd = pos 0;
  lifetime_debited_usd = pos 0;
  quarantined_usd = pos 0;
  auto_recharge_enabled = false;
  low_balance_threshold_usd = some (pos 30000);
}

-- The wallet that a query found, or a new one that is added.
or_create : Option BillingWallet → String → String → Db → BillingWallet × Db
or_create (some wallet) tenant_id user_id db = (wallet, db)
or_create none tenant_id user_id db =
    let wallet = new_wallet (next_uid db) tenant_id user_id in
    (wallet, record (draw db) { wallets = db.wallets ++ wallet ∷ [] })

unfoldable pub get_or_create_wallet : String → String → Db → BillingWallet × Db
unfolding or_create
get_or_create_wallet tenant_id user_id db =
    or_create (wallet_for_actor db tenant_id user_id) tenant_id user_id db

unfoldable pub ledger_exists : Db → String → String → Bool
unfolding any
ledger_exists db tenant_id key =
    any (λ e. str_eq e.tenant_id tenant_id && str_eq e.idempotency_key key) db.ledger

-- The key `asaas:{provider_payment_id}:{what}`.
abbrev pub ledger_key : String → String → String
ledger_key payment_id what = "asaas:" +++ (payment_id +++ (":" +++ what))

abbrev pub credit_source : CheckoutKind → String
credit_source CheckoutKind.topup = "topup"
credit_source CheckoutKind.plan = "plan_included"

abbrev pub set_wallet : String → String → (BillingWallet → BillingWallet) → Db → Db
set_wallet tenant_id user_id f db = record db {
  wallets = modify_first (wallet_is_of tenant_id user_id) f db.wallets;
}

abbrev pub add_entry : BillingWalletLedger → Db → Db
add_entry entry db = record (draw db) { ledger = db.ledger ++ entry ∷ [] }

abbrev pub credited : ℤ → BillingWallet → BillingWallet
credited amount w = record w {
  balance_usd = w.balance_usd +ℤ amount;
  lifetime_credited_usd = w.lifetime_credited_usd +ℤ amount;
}

abbrev pub credit_entry :
    String → BillingCheckout → BillingWallet → String → ℤ → ℕ → BillingWalletLedger
credit_entry id checkout wallet payment_id amount now = record {
  id = id;
  tenant_id = checkout.tenant_id;
  user_id = checkout.user_id;
  wallet_id = wallet.id;
  direction = Direction.credit;
  source = credit_source checkout.checkout_kind;
  idempotency_key = ledger_key payment_id "credit";
  action_key = some checkout.item_code;
  amount_usd = amount;
  balance_after_usd = wallet.balance_usd +ℤ amount;
  currency = "USD";
  provider = some "asaas";
  external_ref = some payment_id;
  related_checkout_id = some checkout.id;
  related_tx_id = none;
  policy = "checkout_credit_exactly_once";
  unrecovered_usd = none;
  created_by = "billing_webhook";
  created_at = now;
}

-- The part of `_credit_wallet` below its `return`.
post_credit : BillingCheckout → String → ℤ → ℕ → BillingWallet × Db → Db
post_credit checkout payment_id amount now (wallet, db) =
    add_entry (credit_entry (next_uid db) checkout wallet payment_id amount now)
      (set_wallet checkout.tenant_id checkout.user_id (credited amount) db)

unfoldable pub credit_wallet : BillingCheckout → String → ℤ → ℕ → Db → Db
unfolding post_credit
credit_wallet checkout payment_id amount now db =
    let found = get_or_create_wallet checkout.tenant_id checkout.user_id db in
    if leb_ℤ amount (pos 0)
      || ledger_exists found.1 checkout.tenant_id (ledger_key payment_id "credit")
    then found.1
    else post_credit checkout payment_id amount now found

-- The credit of a checkout that was posted first.
abbrev pub is_credit : Direction → Bool
is_credit Direction.credit = true
is_credit _ = false

abbrev pub is_credit_of : BillingCheckout → BillingWalletLedger → Bool
is_credit_of checkout e =
    str_eq e.tenant_id checkout.tenant_id
    && str_eq e.user_id checkout.user_id
    && is_some_text e.related_checkout_id checkout.id
    && is_credit e.direction

-- `order_by(created_at.asc())`, of which `db.scalar` takes the first row.
older_of : BillingWalletLedger → Option BillingWalletLedger → Option BillingWalletLedger
older_of e none = some e
older_of e (some x) = if ltb x.created_at e.created_at then some x else some e

unfoldable pub oldest :
    (BillingWalletLedger → Bool) → List BillingWalletLedger → Option BillingWalletLedger
unfolding older_of
oldest p [] = none
oldest p (e ∷ es) = let rest = oldest p es in if p e then older_of e rest else rest

unfoldable pub quarantine : ℤ → BillingWallet → BillingWallet
quarantine shortfall w =
    if ltb_ℤ (pos 0) shortfall
    then record w {
      status = WalletStatus.quarantined;
      quarantined_usd = w.quarantined_usd +ℤ shortfall;
    }
    else w

abbrev pub take_back : ℤ → BillingWallet → BillingWallet
take_back actual w = record w {
  balance_usd = w.balance_usd -ℤ actual;
  lifetime_debited_usd = w.lifetime_debited_usd +ℤ actual;
}

unfoldable pub debited : ℤ → BillingWallet → BillingWallet
debited target w =
    let actual = min_ℤ w.balance_usd target in quarantine (target -ℤ actual) (take_back actual w)

abbrev pub debit_entry :
    String
    → BillingCheckout
    → BillingWallet
    → String
    → String
    → BillingTransaction
    → ℤ
    → ℕ
    → BillingWalletLedger
debit_entry id checkout wallet payment_id source tx target now =
    let actual = min_ℤ wallet.balance_usd target in
    record {
      id = id;
      tenant_id = checkout.tenant_id;
      user_id = checkout.user_id;
      wallet_id = wallet.id;
      direction = Direction.debit;
      source = source;
      idempotency_key = ledger_key payment_id source;
      action_key = some checkout.item_code;
      amount_usd = actual;
      balance_after_usd = wallet.balance_usd -ℤ actual;
      currency = "USD";
      provider = some "asaas";
      external_ref = some payment_id;
      related_checkout_id = some checkout.id;
      related_tx_id = some tx.id;
      policy = "reverse_available_then_quarantine_shortfall";
      unrecovered_usd = some (target -ℤ actual);
      created_by = "billing_webhook";
      created_at = now;
    }

-- The part of `_reverse_checkout_credit` below its second `return`.
post_reversal :
    BillingCheckout → String → String → BillingTransaction → ℤ → ℕ → BillingWallet × Db → Db
post_reversal checkout payment_id source tx target now (wallet, db) =
    add_entry (debit_entry (next_uid db) checkout wallet payment_id source tx target now)
      (set_wallet checkout.tenant_id checkout.user_id (debited target) db)

reverse_found :
    Option BillingWalletLedger
    → BillingCheckout
    → String
    → String
    → BillingTransaction
    → ℕ
    → Db
    → Db
unfolding post_reversal
reverse_found none checkout payment_id source tx now db = db
reverse_found (some original) checkout payment_id source tx now db =
    post_reversal checkout payment_id source tx original.amount_usd now
      (get_or_create_wallet checkout.tenant_id checkout.user_id db)

unfoldable pub reverse_checkout_credit :
    BillingCheckout → String → String → BillingTransaction → ℕ → Db → Db
unfolding reverse_found
reverse_checkout_credit checkout payment_id source tx now db =
    if ledger_exists db checkout.tenant_id (ledger_key payment_id source)
    then db
    else reverse_found (oldest (is_credit_of checkout) db.ledger) checkout payment_id source tx now
        db
