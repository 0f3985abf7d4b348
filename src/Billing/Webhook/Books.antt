-- ===== src/Billing/Webhook/Books.antt =====
-- The wallets and the ledger over any deliveries to `process_asaas_webhook`.
use efata_777_backend_premiu.Prelude.{ℕ, String, refl, Bool, true, false, some, List}
use efata_777_backend_premiu.Billing.Models.{
  BillingCheckout, BillingWebhookEvent, CheckoutStatus, TransactionStatus, state_name, Db,
}
use efata_777_backend_premiu.Billing.Transition.{
  Decision, ignore, ignore_unsupported, confirm, expire, cancel, reverse,
}
use efata_777_backend_premiu.Billing.Entitlements.{activate_entitlement, revoke_entitlement}
use efata_777_backend_premiu.Billing.Transactions.{record_transaction}
use efata_777_backend_premiu.Billing.Wallets.{draw}
use efata_777_backend_premiu.Billing.Wallets.Preservation.{
  Balanced, credit_wallet-Balanced, reverse_checkout_credit-Balanced,
}
use efata_777_backend_premiu.Billing.Frames.{
  SameMoney-Balanced, SameMoney-trans, activate-SameMoney, revoke-SameMoney, transaction-SameMoney,
}
use efata_777_backend_premiu.Billing.Request.{Outside}
use efata_777_backend_premiu.Billing.Webhook.Steps.{
  Step, stay, unknown, dispatched, Delivery, deliver, deliver-Reach, Reach_induction,
}
use efata_777_backend_premiu.Billing.Webhook.{
  with_payment, Applied, charge_kind_of, confirm_checkout, end_checkout, reverse_checkout,
  finish_webhook, ignore_webhook_event, dispatch, ignore_unknown,
}

confirm-Balanced :
    (next : CheckoutStatus) (ref : String) (now : ℕ) (row : BillingCheckout) (db : Db)
    → Balanced db
    → Balanced (confirm_checkout next ref now row db).1
unfolding confirm_checkout
confirm-Balanced next ref now row db h =
    let checkout = record row { status = next; confirmed_at = some now } in
    let kind = charge_kind_of row.checkout_kind in
    let active = activate_entitlement checkout now db in
    credit_wallet-Balanced checkout ref row.metadata_json.included_credit_usd now
      (record_transaction checkout ref TransactionStatus.confirmed kind now active).1
      (SameMoney-Balanced
        (SameMoney-trans (activate-SameMoney checkout now db)
          (transaction-SameMoney checkout now active ref TransactionStatus.confirmed kind))
        h)

end-Balanced :
    (next : CheckoutStatus) (action : String) (now : ℕ) (row : BillingCheckout) (db : Db)
    → Balanced db
    → Balanced (end_checkout next action now row db).1
unfolding end_checkout
end-Balanced next action now row db h =
    SameMoney-Balanced (revoke-SameMoney (record row { status = next }) now db next) h

reverse-Balanced :
    (next : CheckoutStatus) (ref : String) (now : ℕ) (row : BillingCheckout) (db : Db)
    → Balanced db
    → Balanced (reverse_checkout next ref now row db).1
unfolding reverse_checkout
reverse-Balanced next ref now row db h =
    let checkout = record row { status = next; reversed_at = some now } in
    let revoked = revoke_entitlement checkout next now db in
    let status = TransactionStatus.reversed next in
    let (tx, recorded) = record_transaction checkout ref status (state_name next) now revoked in
    reverse_checkout_credit-Balanced checkout ref (state_name next) tx now recorded (
      SameMoney-Balanced
        (SameMoney-trans (revoke-SameMoney checkout now db next)
          (transaction-SameMoney checkout now revoked ref status (state_name next)))
        h)

abbrev Kept : {A : Type 0} → A × Db → Type 0
Kept r = Balanced r.1

finish-Balanced :
    (conflict : Bool) (event : BillingWebhookEvent) (type : String) (now : ℕ) (start : Db)
    (a : Applied)
    → Balanced start
    → Balanced a.1
    → Kept (finish_webhook conflict event type now start a)
unfolding finish_webhook
finish-Balanced true event type now start a hs ha = hs
finish-Balanced false event type now start (row, db, action) hs ha =
    SameMoney-Balanced (record { wallets = refl; ledger = refl }) ha

ignore-Balanced :
    (event : BillingWebhookEvent) (checkout : BillingCheckout) (type reason : String) (now : ℕ)
    (db : Db)
    → Balanced db
    → Kept (ignore_webhook_event event checkout type reason now db)
unfolding ignore_webhook_event
ignore-Balanced event checkout type reason now db h =
    SameMoney-Balanced (record { wallets = refl; ledger = refl }) h

module _ (out : Outside) (event : BillingWebhookEvent) (type : String) (now : ℕ) (start : Db) where
  dispatch-Balanced :
      (d : Decision) (next : CheckoutStatus) (ref : String) (checkout : BillingCheckout) (db : Db)
      → Balanced start
      → Balanced db
      → Kept (dispatch d next ref out event type now start checkout db)
  unfolding dispatch
  dispatch-Balanced ignore next ref checkout db hs h =
      ignore-Balanced event checkout type _ now db h
  dispatch-Balanced ignore_unsupported next ref checkout db hs h =
      ignore-Balanced event checkout type _ now db h
  dispatch-Balanced confirm next ref checkout db hs h =
      finish-Balanced out.commit_conflict event type now start _ hs
        (confirm-Balanced next ref now checkout db h)
  dispatch-Balanced expire next ref checkout db hs h =
      finish-Balanced out.commit_conflict event type now start _ hs
        (end-Balanced next _ now checkout db h)
  dispatch-Balanced cancel next ref checkout db hs h =
      finish-Balanced out.commit_conflict event type now start _ hs
        (end-Balanced next _ now checkout db h)
  dispatch-Balanced reverse next ref checkout db hs h =
      finish-Balanced out.commit_conflict event type now start _ hs
        (reverse-Balanced next ref now checkout db h)

Step-Balanced : (a b : Db) → Step a b → Balanced a → Balanced b
unfolding ignore_unknown
Step-Balanced a b stay h = h
Step-Balanced a b (unknown event type now) h =
    SameMoney-Balanced (record { wallets = refl; ledger = refl }) h
Step-Balanced a b (dispatched out event type ref payment link now row d next found decided) h =
    dispatch-Balanced out event type now a d next ref (with_payment payment row) (draw a) h
      (SameMoney-Balanced (record { wallets = refl; ledger = refl }) h)

-- After any deliveries, whatever their tokens, bodies and times and whatever other sessions commit,
-- every wallet's columns are the sums over its actor's ledger entries, its balance is credits less
-- debits and not negative, and an actor without a wallet has no sum, if this held at the start.
pub deliver-Balanced :
    (token : String) (db : Db) (ds : List Delivery) → Balanced db → Balanced (deliver token db ds)
deliver-Balanced token db ds h =
    Reach_induction Balanced Step-Balanced db (deliver token db ds) (deliver-Reach token db ds) h
