-- ===== src/Billing/Checkout.antt =====
-- `create_checkout` and its helpers in src/orkio_v2/billing/service.py: the durable intent before the
-- provider's POST, and the reconciliation of a request that comes again.
pub mod Single
pub mod Once
pub mod Returned
use efata_777_backend_premiu.Prelude.{
  ℕ, String, Bool, true, false, not, ◌&&◌, ◌||◌, Option, none, some, List, [], ◌∷◌, ◌++◌, str_eq,
  find, modify_first, ltb, if◌then◌else◌,
}
use efata_777_backend_premiu.Prelude.Int.{ℤ, pos, leb_ℤ, min_ℤ, max_ℤ}
use efata_777_backend_premiu.Prelude.Text.{
  strip, lower, is_empty, or_none, truthy, text_or, text_length,
}
use efata_777_backend_premiu.Prelude.Json
use efata_777_backend_premiu.Prelude.Json.{Json}
use efata_777_backend_premiu.Billing.Models.{
  BillingCheckout, CheckoutKind, CheckoutStatus, ProviderOperation, CheckoutMetadata, MetaValue,
  kind_name, User, Db,
}
use efata_777_backend_premiu.Billing.Repository.{checkout_by_idempotency}
use efata_777_backend_premiu.Billing.Audit.{audit}
use efata_777_backend_premiu.Billing.Wallets.{next_uid, draw}
use efata_777_backend_premiu.Billing.Request.{Result, ok, err}
use efata_777_backend_premiu.Billing.Catalog.Money.{quantize}
use efata_777_backend_premiu.Billing.Catalog.{
  Settings, Readers, ◌>>=◌, resolve_item, amount_brl, amount_usd, included_credit_usd, days_or,
  text_of,
}
use efata_777_backend_premiu.Billing.Asaas.{
  BillingProviderError, Provided, got, failure, LinkRequest, PaymentLink, Answer, Page, World,
  create_payment_link, find_payment_link_by_external_reference,
}
use efata_777_backend_premiu.Billing.Webhook.{save_checkout}
use efata_777_backend_premiu.Billing.Intent.{
  Principal, CheckoutCreate, Commit, committed, integrity_error, Surroundings, operation, Intent,
  prepare, add_intent,
}
use efata_777_backend_premiu.Billing.Reconciliation.{
  set_provider_operation_state, bind_provider_checkout, reconcile_existing_checkout,
}

-- What a provider error leaves in the row: an unknown outcome keeps the checkout open.
abbrev pub failed_row : BillingProviderError → ℕ → BillingCheckout → BillingCheckout
failed_row e now row =
    if e.outcome_unknown
    then record (set_provider_operation_state "outcome_unknown" row.id (some e.code) row) {
      updated_at = now;
    }
    else record (set_provider_operation_state "failed" row.id (some e.code) row) {
      status = CheckoutStatus.failed;
      updated_at = now;
    }

unfoldable pub record_failure : BillingProviderError → String → ℕ → BillingCheckout → Db → Db
unfolding audit
record_failure e actor now row db =
    let checkout = failed_row e now row in
    audit (some checkout.tenant_id) (some actor) "billing.checkout.provider_failed"
      "billing_checkout" (some checkout.id) (if e.outcome_unknown then "unknown" else "failed")
      (("provider", MetaValue.text "asaas")
        ∷ ("error_code", MetaValue.text e.code)
        ∷ ("provider_outcome_unknown", MetaValue.flag e.outcome_unknown)
        ∷ [])
      (save_checkout checkout db)

-- After the provider's answer to the POST.
unfoldable pub settle :
    String → ℕ → BillingCheckout → Provided PaymentLink × World → Result BillingCheckout × World
settle actor now row (got link, world) =
    let (checkout, db) = bind_provider_checkout link actor false now row world.db in
    (ok checkout, record world { db = db })
settle actor now row (failure e, world) =
    (err e.code e.status_code, record world { db = record_failure e actor now row world.db })

-- After the rollback of a commit that met another session's row.
unfoldable pub after_conflict :
    Option BillingCheckout
    → Surroundings
    → Settings
    → String
    → ℕ
    → World
    → Result BillingCheckout × World
after_conflict none out settings actor now world = (err "BILLING_CHECKOUT_CONFLICT" 409, world)
after_conflict (some row) out settings actor now world =
    reconcile_existing_checkout out settings actor now row world

unfoldable pub submit :
    Commit
    → Surroundings
    → Settings
    → Principal
    → CheckoutCreate
    → ℕ
    → World
    → Intent
    → Result BillingCheckout × World
submit committed out settings who payload now world intent = settle who.user_id now intent.row (
    create_payment_link settings out.post intent.request
      (record world { db = add_intent who payload intent.row world.db }))
submit (integrity_error others) out settings who payload now world intent =
    let seen = record world.db { checkouts = world.db.checkouts ++ others } in
    after_conflict
      (checkout_by_idempotency seen who.tenant_id who.user_id intent.row.idempotency_key) out
      settings who.user_id now (record world { db = seen })

unfoldable pub submit_if :
    Result Intent
    → Surroundings
    → Settings
    → Principal
    → CheckoutCreate
    → ℕ
    → World
    → Result BillingCheckout × World
submit_if (err code status) out settings who payload now world = (err code status, world)
submit_if (ok intent) out settings who payload now world =
    submit out.commit out settings who payload now world intent

unfoldable pub existing_or_new :
    Option BillingCheckout
    → Surroundings
    → Settings
    → Principal
    → CheckoutCreate
    → String
    → ℕ
    → World
    → Result BillingCheckout × World
existing_or_new (some row) out settings who payload key now world =
    reconcile_existing_checkout out settings who.user_id now row world
existing_or_new none out settings who payload key now world =
    submit_if (prepare out settings who payload key now world.db) out settings who payload now world

unfoldable pub create_checkout :
    Surroundings
    → Settings
    → Principal
    → CheckoutCreate
    → String
    → ℕ
    → World
    → Result BillingCheckout × World
unfolding text_length
create_checkout out settings who payload key now world =
    if not settings.billing_enabled
    then (err "BILLING_DISABLED" 503, world)
    else if is_empty key || ltb 128 (text_length key)
    then (err "BILLING_IDEMPOTENCY_KEY_REQUIRED" 400, world)
    else existing_or_new (checkout_by_idempotency world.db who.tenant_id who.user_id key) out
        settings who payload key now world
