-- ===== src/Billing/Frames.antt =====
-- The tables that each billing operation leaves alone.
use efata_777_backend_premiu.Prelude.{ℕ, String, ◌≡◌, ◌∙◌, arith}
use efata_777_backend_premiu.Prelude.Int.{ℤ}
use efata_777_backend_premiu.Billing.Models.{
  BillingCheckout, BillingTransaction, CheckoutStatus, TransactionStatus, Db,
}
use efata_777_backend_premiu.Billing.Repository.{wallet_for_actor}
use efata_777_backend_premiu.Billing.Entitlements.{activate_entitlement, revoke_entitlement}
use efata_777_backend_premiu.Billing.Transactions.{record_transaction}
use efata_777_backend_premiu.Billing.Wallets.{
  get_or_create_wallet, credit_wallet, reverse_checkout_credit,
}
use efata_777_backend_premiu.Billing.Wallets.Preservation.{Balanced}

-- The checkouts and the claimed events are as they were.
pub record SameRequests (db db' : Db) : Type 0 where
  pub checkouts : db'.checkouts ≡ db.checkouts
  pub events : db'.events ≡ db.events

-- The money is where it was.
pub record SameMoney (db db' : Db) : Type 0 where
  pub wallets : db'.wallets ≡ db.wallets
  pub ledger : db'.ledger ≡ db.ledger

pub SameMoney-Balanced : {db db' : Db} → SameMoney db db' → Balanced db → Balanced db'
unfolding wallet_for_actor
SameMoney-Balanced same h t u = rw (same.wallets, same.ledger) (h t u)

pub SameRequests-trans : {a b c : Db} → SameRequests a b → SameRequests b c → SameRequests a c
SameRequests-trans p q = record {
  checkouts = q.checkouts ∙ p.checkouts;
  events = q.events ∙ p.events;
}

pub SameMoney-trans : {a b c : Db} → SameMoney a b → SameMoney b c → SameMoney a c
SameMoney-trans p q = record { wallets = q.wallets ∙ p.wallets; ledger = q.ledger ∙ p.ledger }

module _ (checkout : BillingCheckout) (now : ℕ) (db : Db) where
  pub activate-SameRequests : SameRequests db (activate_entitlement checkout now db)
  unfolding activate_entitlement
  activate-SameRequests = ground arith

  pub activate-SameMoney : SameMoney db (activate_entitlement checkout now db)
  unfolding activate_entitlement
  activate-SameMoney = ground arith

  pub revoke-SameRequests :
      (s : CheckoutStatus) → SameRequests db (revoke_entitlement checkout s now db)
  unfolding revoke_entitlement
  revoke-SameRequests s = ground arith

  pub revoke-SameMoney : (s : CheckoutStatus) → SameMoney db (revoke_entitlement checkout s now db)
  unfolding revoke_entitlement
  revoke-SameMoney s = ground arith

  module _ (payment : String) where
    pub transaction-SameRequests :
        (s : TransactionStatus) (kind : String)
        → SameRequests db (record_transaction checkout payment s kind now db).1
    unfolding record_transaction
    transaction-SameRequests s kind = ground arith

    pub transaction-SameMoney :
        (s : TransactionStatus) (kind : String)
        → SameMoney db (record_transaction checkout payment s kind now db).1
    unfolding record_transaction
    transaction-SameMoney s kind = ground arith

    pub credit-SameRequests :
        (amount : ℤ) → SameRequests db (credit_wallet checkout payment amount now db)
    unfolding credit_wallet get_or_create_wallet
    credit-SameRequests amount = ground arith

    pub reverse-SameRequests :
        (source : String) (tx : BillingTransaction)
        → SameRequests db (reverse_checkout_credit checkout payment source tx now db)
    unfolding reverse_checkout_credit get_or_create_wallet
    reverse-SameRequests source tx = ground arith
