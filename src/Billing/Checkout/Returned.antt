-- ===== src/Billing/Checkout/Returned.antt =====
-- The checkouts that `create_checkout` returns.
use efata_777_backend_premiu.Prelude.{
  ℕ, String, ◌≡◌, refl, ◌⊎◌, inl, inr, true, not, ◌&&◌, ◌||◌, Option, none, some, Bool-cases, arith,
  ◌++◌, ltb,
}
use efata_777_backend_premiu.Prelude.Text.{truthy, is_empty, text_length}
use efata_777_backend_premiu.Billing.Models.{BillingCheckout}
use efata_777_backend_premiu.Billing.Repository.{checkout_by_idempotency}
use efata_777_backend_premiu.Billing.Request.{Result, ok, err}
use efata_777_backend_premiu.Billing.Catalog.{Settings}
use efata_777_backend_premiu.Billing.Asaas.{
  Provided, got, failure, PaymentLink, World, create_payment_link,
  find_payment_link_by_external_reference,
}
use efata_777_backend_premiu.Billing.Intent.{
  Principal, CheckoutCreate, Commit, committed, integrity_error, Surroundings, Intent, prepare,
  add_intent,
}
use efata_777_backend_premiu.Billing.Reconciliation.{
  bind_provider_checkout, is_failed, reconcile_with, reconcile_existing_checkout,
}
use efata_777_backend_premiu.Billing.Checkout.{
  settle, after_conflict, submit, submit_if, existing_or_new, create_checkout,
}

-- A checkout that has failed, or that has the identifier and the URL of a payment link.
abbrev pub IsAnswer : BillingCheckout → Type 0
IsAnswer row =
    (is_failed row.status ≡ true)
    ⊎ ((i u : String) × (row.provider_checkout_id ≡ some i) × (row.provider_url ≡ some u))

abbrev Answered : Result BillingCheckout × World → Type 0
Answered (ok row, w) = IsAnswer row
Answered (err code status, w) = Unit

truthy-some : (o : Option String) → truthy o ≡ true → (s : String) × (o ≡ some s)
truthy-some none h = cc h
truthy-some (some s) h = (s, refl)

linked :
    (row : BillingCheckout)
    → (truthy row.provider_checkout_id && truthy row.provider_url) ≡ true
    → IsAnswer row
linked row h =
    let (i, hi) = truthy-some row.provider_checkout_id (ground arith) in
    let (u, hu) = truthy-some row.provider_url (ground arith) in inr (i, u, hi, hu)

reconcile_with-Answered :
    (p : Provided (Option PaymentLink)) (actor : String) (now : ℕ) (row : BillingCheckout)
    (w : World)
    → Answered (reconcile_with p actor now row w)
unfolding reconcile_with bind_provider_checkout
reconcile_with-Answered (failure e) actor now row w = tt
reconcile_with-Answered (got none) actor now row w = tt
reconcile_with-Answered (got (some link)) actor now row w = inr (link.id, link.url, refl, refl)

reconcile-Answered :
    (out : Surroundings) (settings : Settings) (actor : String) (now : ℕ) (row : BillingCheckout)
    (w : World)
    → Answered (reconcile_existing_checkout out settings actor now row w)
unfolding reconcile_existing_checkout
reconcile-Answered out settings actor now row w =
    elim (Bool-cases (truthy row.provider_checkout_id && truthy row.provider_url)) [
      | inl bound ↦ rw bound (linked row bound)
      | inr unbound ↦ elim (Bool-cases (is_failed row.status)) [
        | inl failed ↦ rw (unbound, failed) (inl failed)
        | inr live ↦
            rw (unbound, live)
              (reconcile_with-Answered
                (find_payment_link_by_external_reference settings out.page row.id) actor now row w)
      ]
    ]

settle-Answered :
    (actor : String) (now : ℕ) (row : BillingCheckout) (p : Provided PaymentLink × World)
    → Answered (settle actor now row p)
unfolding settle bind_provider_checkout
settle-Answered actor now row (got link, w) = inr (link.id, link.url, refl, refl)
settle-Answered actor now row (failure e, w) = tt

after_conflict-Answered :
    (o : Option BillingCheckout) (out : Surroundings) (settings : Settings) (actor : String)
    (now : ℕ) (w : World)
    → Answered (after_conflict o out settings actor now w)
unfolding after_conflict
after_conflict-Answered none out settings actor now w = tt
after_conflict-Answered (some row) out settings actor now w =
    reconcile-Answered out settings actor now row w

submit-Answered :
    (c : Commit) (out : Surroundings) (settings : Settings) (who : Principal)
    (payload : CheckoutCreate) (now : ℕ) (w : World) (intent : Intent)
    → Answered (submit c out settings who payload now w intent)
unfolding submit
submit-Answered committed out settings who payload now w intent =
    settle-Answered who.user_id now intent.row (
      create_payment_link settings out.post intent.request
        (record w { db = add_intent who payload intent.row w.db }))
submit-Answered (integrity_error others) out settings who payload now w intent =
    let seen = record w.db { checkouts = w.db.checkouts ++ others } in
    after_conflict-Answered
      (checkout_by_idempotency seen who.tenant_id who.user_id intent.row.idempotency_key) out
      settings who.user_id now (record w { db = seen })

submit_if-Answered :
    (r : Result Intent) (out : Surroundings) (settings : Settings) (who : Principal)
    (payload : CheckoutCreate) (now : ℕ) (w : World)
    → Answered (submit_if r out settings who payload now w)
unfolding submit_if
submit_if-Answered (err code status) out settings who payload now w = tt
submit_if-Answered (ok intent) out settings who payload now w =
    submit-Answered out.commit out settings who payload now w intent

existing_or_new-Answered :
    (o : Option BillingCheckout) (out : Surroundings) (settings : Settings) (who : Principal)
    (payload : CheckoutCreate) (key : String) (now : ℕ) (w : World)
    → Answered (existing_or_new o out settings who payload key now w)
unfolding existing_or_new
existing_or_new-Answered (some row) out settings who payload key now w =
    reconcile-Answered out settings who.user_id now row w
existing_or_new-Answered none out settings who payload key now w =
    submit_if-Answered (prepare out settings who payload key now w.db) out settings who payload now
      w

create_checkout-Answered :
    (out : Surroundings) (settings : Settings) (who : Principal) (payload : CheckoutCreate)
    (key : String) (now : ℕ) (w : World)
    → Answered (create_checkout out settings who payload key now w)
unfolding create_checkout
create_checkout-Answered out settings who payload key now w =
    elim (Bool-cases (not settings.billing_enabled)) [
      | inl off ↦ rw off tt
      | inr on ↦ elim (Bool-cases (is_empty key || ltb 128 (text_length key))) [
        | inl bad ↦ rw (on, bad) tt
        | inr good ↦
            rw (on, good)
              (existing_or_new-Answered (checkout_by_idempotency w.db who.tenant_id who.user_id key)
                out settings who payload key now w)
      ]
    ]

-- A request for a checkout that returns a checkout, whether new, repeated or raced by another session, returns one that has the identifier and the URL of a payment link, or one that is marked as failed: never a pending one whose link is not known.
pub create_checkout-IsAnswer :
    (out : Surroundings) (settings : Settings) (who : Principal) (payload : CheckoutCreate)
    (key : String) (now : ℕ) (w w' : World) (row : BillingCheckout)
    → create_checkout out settings who payload key now w ≡ (ok row, w')
    → IsAnswer row
create_checkout-IsAnswer out settings who payload key now w w' row h =
    rw h at (create_checkout-Answered out settings who payload key now w)
