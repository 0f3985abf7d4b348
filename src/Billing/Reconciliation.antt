-- ===== src/Billing/Reconciliation.antt =====
-- `_bind_provider_checkout` and `_reconcile_existing_checkout` of
-- src/orkio_v2/billing/service.py: what a payment link, or a second request, does to a checkout.
use efata_777_backend_premiu.Prelude.{
  ℕ, String, Bool, true, false, ◌&&◌, Option, none, some, [], ◌∷◌, if◌then◌else◌,
}
use efata_777_backend_premiu.Prelude.Text.{truthy}
use efata_777_backend_premiu.Billing.Models.{
  BillingCheckout, CheckoutStatus, MetaValue, kind_name, Db,
}
use efata_777_backend_premiu.Billing.Audit.{audit}
use efata_777_backend_premiu.Billing.Request.{Result, ok, err}
use efata_777_backend_premiu.Billing.Catalog.{Settings}
use efata_777_backend_premiu.Billing.Asaas.{
  Provided, got, failure, PaymentLink, World, find_payment_link_by_external_reference,
}
use efata_777_backend_premiu.Billing.Webhook.{save_checkout}
use efata_777_backend_premiu.Billing.Intent.{Surroundings, operation}

-- `_set_provider_operation_state`; an empty error code removes the last one.
abbrev pub set_provider_operation_state :
    String → String → Option String → BillingCheckout → BillingCheckout
set_provider_operation_state state reference error row = record row {
  metadata_json = record row.metadata_json {
    provider_operation = some (operation state reference (if truthy error then error else none));
  };
}

abbrev pub bound : PaymentLink → ℕ → BillingCheckout → BillingCheckout
bound link now row = record (set_provider_operation_state "completed" row.id none row) {
  provider_checkout_id = some link.id;
  provider_url = some link.url;
  updated_at = now;
}

unfoldable pub bind_provider_checkout :
    PaymentLink → String → Bool → ℕ → BillingCheckout → Db → BillingCheckout × Db
unfolding audit
bind_provider_checkout link actor_id reconciled now row db =
    let checkout = bound link now row in
    (
      checkout,
      audit (some checkout.tenant_id) (some actor_id)
          (if reconciled then "billing.checkout.reconciled" else "billing.checkout.created")
          "billing_checkout" (some checkout.id) "success"
          (("checkout_kind", MetaValue.text (kind_name checkout.checkout_kind))
            ∷ ("item_code", MetaValue.text checkout.item_code)
            ∷ ("provider", MetaValue.text "asaas")
            ∷ ("reconciled", MetaValue.flag reconciled)
            ∷ [])
          (save_checkout checkout db),
    )

abbrev pub is_failed : CheckoutStatus → Bool
is_failed CheckoutStatus.failed = true
is_failed _ = false

-- What a lookup of the provider is used for.
unfoldable pub reconcile_with :
    Provided (Option PaymentLink)
    → String
    → ℕ
    → BillingCheckout
    → World
    → Result BillingCheckout × World
reconcile_with (failure e) actor now row world = (err e.code e.status_code, world)
reconcile_with (got none) actor now row world =
    (err "BILLING_CHECKOUT_RECONCILIATION_REQUIRED" 409, world)
reconcile_with (got (some link)) actor now row world =
    let (checkout, db) = bind_provider_checkout link actor true now row world.db in
    (ok checkout, record world { db = db })

unfoldable pub reconcile_existing_checkout :
    Surroundings → Settings → String → ℕ → BillingCheckout → World → Result BillingCheckout × World
reconcile_existing_checkout out settings actor now row world =
    if truthy row.provider_checkout_id && truthy row.provider_url
    then (ok row, world)
    else if is_failed row.status
    then (ok row, world)
    else reconcile_with (find_payment_link_by_external_reference settings out.page row.id) actor now
        row world
