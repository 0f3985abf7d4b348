-- ===== src/Billing/Webhook.antt =====
-- `process_asaas_webhook` of src/orkio_v2/billing/service.py and its route in
-- src/orkio_v2/billing/routes.py. The rows of a transaction are those of `db`; a rollback returns the
-- rows that the transaction started from. One reading of the clock serves a whole request.
pub mod Steps
pub mod Books
pub mod Status
pub mod History
pub mod Once
pub mod Redelivery
pub mod Payment
use Prim.Native.String.{◌++◌ as ◌+++◌}
use efata_777_backend_premiu.Prelude.{
  ℕ, String, Bool, true, false, not, ◌&&◌, ◌||◌, Option, none, some, List, [], ◌∷◌, ◌++◌, str_eq,
  find, modify_first, if◌then◌else◌,
}
use efata_777_backend_premiu.Prelude.Text.{strip, is_empty, truthy, text_or, is_some_text}
use efata_777_backend_premiu.Prelude.Json
use efata_777_backend_premiu.Prelude.Json.{Json}
use efata_777_backend_premiu.Billing.Models.{
  BillingCheckout, BillingWebhookEvent, CheckoutKind, CheckoutStatus, EventStatus,
  TransactionStatus, MetaValue, state_name, kind_name, Db,
}
use efata_777_backend_premiu.Billing.Transition.{
  Decision, ignore, ignore_unsupported, confirm, expire, cancel, reverse, billing_transition,
}
use efata_777_backend_premiu.Billing.Audit.{audit}
use efata_777_backend_premiu.Billing.Entitlements.{activate_entitlement, revoke_entitlement}
use efata_777_backend_premiu.Billing.Transactions.{record_transaction}
use efata_777_backend_premiu.Billing.Wallets.{credit_wallet, reverse_checkout_credit}
use efata_777_backend_premiu.Billing.Request.{
  Result, ok, err, Reply, deduplicated, ignored, Outside, extract_provider_ids, claim_event,
  event_type_of, event_id_of,
}

abbrev pub checkout_has_link : String → BillingCheckout → Bool
checkout_has_link link c = str_eq c.provider "asaas" && is_some_text c.provider_checkout_id link

abbrev pub checkout_has_payment : String → BillingCheckout → Bool
checkout_has_payment payment c =
    str_eq c.provider "asaas" && is_some_text c.provider_payment_id payment

-- The query by a provider identifier, where it is not empty.
by_id :
    (String → BillingCheckout → Bool)
    → Option String
    → List BillingCheckout
    → Option BillingCheckout
unfolding find
by_id has none rows = none
by_id has (some id) rows = if is_empty id then none else find (has id) rows

or_by_payment :
    Option BillingCheckout → Option String → List BillingCheckout → Option BillingCheckout
unfolding by_id
or_by_payment (some row) payment_id rows = some row
or_by_payment none payment_id rows = by_id checkout_has_payment payment_id rows

unfoldable pub checkout_for_provider : Db → Option String → Option String → Option BillingCheckout
unfolding or_by_payment
checkout_for_provider db payment_id checkout_id =
    or_by_payment (by_id checkout_has_link checkout_id db.checkouts) payment_id db.checkouts

-- The rows that the handler holds are written back.
abbrev pub save_event : BillingWebhookEvent → Db → Db
save_event event db = record db { events = db.events ++ event ∷ [] }

abbrev pub has_id : String → BillingCheckout → Bool
has_id id c = str_eq c.id id

abbrev pub save_checkout : BillingCheckout → Db → Db
save_checkout checkout db = record db {
  checkouts = modify_first (has_id checkout.id) (λ _. checkout) db.checkouts;
}

abbrev pub finish_event : EventStatus → ℕ → BillingWebhookEvent → BillingWebhookEvent
finish_event status now event = record event { status = status; processed_at = some now }

unfoldable pub ignore_webhook_event :
    BillingWebhookEvent → BillingCheckout → String → String → ℕ → Db → Result Reply × Db
unfolding audit
ignore_webhook_event event checkout event_type reason now db = (
  ok (ignored (some reason)),
  audit (some checkout.tenant_id) none "billing.webhook.ignored" "billing_webhook_event"
      (some event.id) "ignored"
      (("event_type", MetaValue.text event_type)
        ∷ ("reason", MetaValue.text reason)
        ∷ ("checkout_state", MetaValue.text (state_name checkout.status))
        ∷ [])
      (save_checkout checkout (save_event (finish_event EventStatus.ignored now event) db)),
)

abbrev pub charge_kind_of : CheckoutKind → String
charge_kind_of CheckoutKind.topup = "wallet_topup"
charge_kind_of CheckoutKind.plan = "recurring"

-- The four branches that change state: the checkout, the rows and the audit action.
abbrev pub Applied : Type 0
Applied = BillingCheckout × Db × String

unfoldable pub confirm_checkout : CheckoutStatus → String → ℕ → BillingCheckout → Db → Applied
confirm_checkout next payment_ref now row db =
    let checkout = record row { status = next; confirmed_at = some now } in
    let (_, recorded) =
      record_transaction checkout payment_ref TransactionStatus.confirmed
        (charge_kind_of checkout.checkout_kind) now (activate_entitlement checkout now db) in
    (
      checkout,
      credit_wallet checkout payment_ref checkout.metadata_json.included_credit_usd now recorded,
      "billing.payment.confirmed",
    )

unfoldable pub end_checkout : CheckoutStatus → String → ℕ → BillingCheckout → Db → Applied
end_checkout next action now row db =
    let checkout = record row { status = next } in
    (checkout, revoke_entitlement checkout next now db, action)

unfoldable pub reverse_checkout : CheckoutStatus → String → ℕ → BillingCheckout → Db → Applied
reverse_checkout next payment_ref now row db =
    let checkout = record row { status = next; reversed_at = some now } in
    let (tx, recorded) =
      record_transaction checkout payment_ref (TransactionStatus.reversed next) (state_name next)
        now (revoke_entitlement checkout next now db) in
    (
      checkout,
      reverse_checkout_credit checkout payment_ref (state_name next) tx now recorded,
      "billing.payment." +++ state_name next,
    )

-- The end of the handler: both rows are written, the audit row is added, and the commit may meet a
-- row of another session, which rolls everything back to `start`.
unfoldable pub finish_webhook :
    Bool → BillingWebhookEvent → String → ℕ → Db → Applied → Result Reply × Db
unfolding audit
finish_webhook conflict event event_type now start (row, db, action) =
    let checkout = record row { updated_at = now } in
    let saved =
      save_checkout checkout (save_event (finish_event EventStatus.processed now event) db) in
    let audited =
      audit (some checkout.tenant_id) none action "billing_checkout" (some checkout.id) "success"
        (("event_type", MetaValue.text event_type)
          ∷ ("provider", MetaValue.text "asaas")
          ∷ ("checkout_kind", MetaValue.text (kind_name checkout.checkout_kind))
          ∷ ("item_code", MetaValue.text checkout.item_code)
          ∷ ("previous_state_guarded", MetaValue.flag true)
          ∷ [])
        saved in
    if conflict then (ok (deduplicated true), start) else (ok (deduplicated false), audited)

unfoldable pub dispatch :
    Decision
    → CheckoutStatus
    → String
    → Outside
    → BillingWebhookEvent
    → String
    → ℕ
    → Db
    → BillingCheckout
    → Db
    → Result Reply × Db
dispatch ignore next payment_ref out event event_type now start checkout db =
    ignore_webhook_event event checkout event_type "state_transition_guard" now db
dispatch ignore_unsupported next payment_ref out event event_type now start checkout db =
    ignore_webhook_event event checkout event_type "unsupported_event" now db
dispatch confirm next payment_ref out event event_type now start checkout db =
    finish_webhook out.commit_conflict event event_type now start
      (confirm_checkout next payment_ref now checkout db)
dispatch expire next payment_ref out event event_type now start checkout db =
    finish_webhook out.commit_conflict event event_type now start
      (end_checkout next "billing.payment.overdue" now checkout db)
dispatch cancel next payment_ref out event event_type now start checkout db =
    finish_webhook out.commit_conflict event event_type now start
      (end_checkout next "billing.payment.cancelled" now checkout db)
dispatch reverse next payment_ref out event event_type now start checkout db =
    finish_webhook out.commit_conflict event event_type now start
      (reverse_checkout next payment_ref now checkout db)

-- `provider_payment_id or checkout.provider_payment_id`.
abbrev pub or_id : Option String → Option String → Option String
or_id a b = if truthy a then a else b

abbrev pub with_payment : Option String → BillingCheckout → BillingCheckout
with_payment payment_id row = record row {
  provider_payment_id = or_id payment_id row.provider_payment_id;
}

abbrev pub bound_event : BillingCheckout → BillingWebhookEvent → BillingWebhookEvent
bound_event checkout event = record event {
  tenant_id = some checkout.tenant_id;
  user_id = some checkout.user_id;
  checkout_id = some checkout.id;
}

-- From the checkout that was found on. `start` is what a rollback returns to.
unfoldable pub handle_checkout :
    Outside
    → BillingWebhookEvent
    → String
    → Option String
    → ℕ
    → Db
    → BillingCheckout
    → Db
    → Result Reply × Db
handle_checkout out event event_type payment_id now start row db =
    let checkout = with_payment payment_id row in
    let payment_ref =
      or_id payment_id (or_id checkout.provider_payment_id checkout.provider_checkout_id) in
    if truthy payment_ref
    then (let (decision, next) = billing_transition checkout.status event_type in
        dispatch decision next (text_or payment_ref "") out (bound_event checkout event) event_type
          now start checkout db)
    else (err "BILLING_WEBHOOK_PAYMENT_REFERENCE_REQUIRED" 400, db)

unfoldable pub ignore_unknown : BillingWebhookEvent → String → ℕ → Db → Result Reply × Db
unfolding audit
ignore_unknown event event_type now db = (
  ok (ignored none),
  audit none none "billing.webhook.ignored" "billing_webhook_event" (some event.id) "ignored"
      (("event_type", MetaValue.text event_type)
        ∷ ("reason", MetaValue.text "checkout_not_found")
        ∷ [])
      (save_event (finish_event EventStatus.ignored now event) db),
)

unfoldable pub handle_found :
    Option BillingCheckout
    → Outside
    → BillingWebhookEvent
    → String
    → Option String
    → ℕ
    → Db
    → Db
    → Result Reply × Db
handle_found none out event event_type payment_id now start db =
    ignore_unknown event event_type now db
handle_found (some row) out event event_type payment_id now start db =
    handle_checkout out event event_type payment_id now start row db

unfoldable pub handle_claimed :
    Option BillingWebhookEvent × Db
    → Outside
    → String
    → Option String
    → Option String
    → ℕ
    → Db
    → Result Reply × Db
handle_claimed (none, db) out event_type payment_id checkout_id now start =
    (ok (deduplicated true), db)
handle_claimed (some event, db) out event_type payment_id checkout_id now start =
    handle_found (checkout_for_provider db payment_id checkout_id) out event event_type payment_id
      now start db

unfoldable pub handle_payload : Outside → Json.Fields → String → ℕ → Db → Result Reply × Db
handle_payload out payload raw_body now db =
    let event_type = event_type_of payload in
    let (payment_id, checkout_id) = extract_provider_ids payload in
    handle_claimed
      (claim_event out (event_id_of payload) event_type payment_id checkout_id raw_body db) out
      event_type payment_id checkout_id now db

unfoldable pub handle_json : Option Json → Outside → String → ℕ → Db → Result Reply × Db
handle_json none out raw_body now db = (err "BILLING_WEBHOOK_INVALID_JSON" 400, db)
handle_json (some payload) out raw_body now db =
    if Json.is_object payload
    then handle_payload out (Json.as_fields payload) raw_body now db
    else (err "BILLING_WEBHOOK_INVALID_JSON" 400, db)

unfoldable pub process_asaas_webhook :
    Outside → String → String → String → ℕ → Db → Result Reply × Db
process_asaas_webhook out asaas_webhook_token raw_body supplied_token now db =
    let expected = strip asaas_webhook_token in
    if is_empty expected
    then (err "BILLING_WEBHOOK_NOT_CONFIGURED" 503, db)
    else if is_empty supplied_token || not (str_eq supplied_token expected)
    then (err "BILLING_WEBHOOK_TOKEN_INVALID" 401, db)
    else handle_json (out.loads (if is_empty raw_body then "{}" else raw_body)) out raw_body now db

-- `db.rollback()` of the route on an error.
unfoldable pub rolled_back : Db → Result Reply × Db → Result Reply × Db
rolled_back start (ok reply, db) = (ok reply, db)
rolled_back start (err code status, db) = (err code status, start)

-- The route `POST /webhooks/asaas`.
unfoldable pub asaas_webhook : Outside → String → String → String → ℕ → Db → Result Reply × Db
asaas_webhook out asaas_webhook_token raw_body header now db =
    rolled_back db (process_asaas_webhook out asaas_webhook_token raw_body (strip header) now db)
