-- ===== src/Billing/Webhook/Steps.antt =====
-- The deliveries of the provider as a step relation on the rows, and the sequences of deliveries.
use efata_777_backend_premiu.Prelude.{
  ℕ, String, ◌≡◌, refl, not, ◌||◌, Option, none, some, List, [], ◌∷◌, arith, str_eq, if◌then◌else◌,
  Bool-cases, inl, inr, ◌⊎◌, any,
}
use efata_777_backend_premiu.Prelude.Text.{strip, is_empty, truthy, text_or}
use efata_777_backend_premiu.Prelude.Json
use efata_777_backend_premiu.Prelude.Json.{Json}
use efata_777_backend_premiu.Billing.Models.{
  BillingCheckout, BillingWebhookEvent, CheckoutStatus, Db,
}
use efata_777_backend_premiu.Billing.Transition.{
  Decision, ignore, ignore_unsupported, confirm, expire, cancel, reverse, billing_transition,
}
use efata_777_backend_premiu.Billing.Wallets.{draw, next_uid}
use efata_777_backend_premiu.Billing.Request.{
  Outside, claim_event, event_type_of, event_id_of, extract_provider_ids, event_key, event_has_key,
  received_event,
}
use efata_777_backend_premiu.Billing.Webhook.{
  finish_webhook, ignore_webhook_event, dispatch, handle_checkout, handle_found, handle_claimed,
  handle_payload, handle_json, process_asaas_webhook, rolled_back, asaas_webhook, ignore_unknown,
  checkout_for_provider, with_payment, bound_event, or_id,
}

-- What one delivery does to the rows: nothing, a note that no checkout is known, or the branch that
-- the transition table chooses for the checkout that was found.
pub data Step (db : Db) : Db → Type 0 where
  stay : Step db db
  unknown :
      (event : BillingWebhookEvent) (type : String) (now : ℕ)
      → Step db (ignore_unknown event type now (draw db)).1
  dispatched :
      (out : Outside) (event : BillingWebhookEvent) (type ref : String)
      (payment link : Option String) (now : ℕ) (row : BillingCheckout) (d : Decision)
      (next : CheckoutStatus)
      → checkout_for_provider db payment link ≡ some row
      → billing_transition row.status type ≡ (d, next)
      → Step db (dispatch d next ref out event type now db (with_payment payment row) (draw db)).1

module _ (out : Outside) (type : String) (now : ℕ) (db : Db) where
  dispatch_returns :
      (d : Decision) (next : CheckoutStatus) (ref : String) (event : BillingWebhookEvent)
      (start : Db) (checkout : BillingCheckout)
      → rolled_back start (dispatch d next ref out event type now start checkout db)
        ≡ dispatch d next ref out event type now start checkout db
  unfolding dispatch rolled_back finish_webhook ignore_webhook_event
  dispatch_returns ignore next ref event start checkout = refl
  dispatch_returns ignore_unsupported next ref event start checkout = refl
  dispatch_returns confirm next ref event start checkout = ground arith
  dispatch_returns expire next ref event start checkout = ground arith
  dispatch_returns cancel next ref event start checkout = ground arith
  dispatch_returns reverse next ref event start checkout = ground arith

module _ (out : Outside) (type : String) (now : ℕ) (db : Db) where
  handle_checkout-Step :
      (event : BillingWebhookEvent) (payment link : Option String) (row : BillingCheckout)
      → checkout_for_provider db payment link ≡ some row
      → Step db (rolled_back db (handle_checkout out event type payment now db row (draw db))).1
  unfolding handle_checkout rolled_back
  handle_checkout-Step event payment link row found =
      let ref =
        or_id payment (or_id (or_id payment row.provider_payment_id) row.provider_checkout_id) in
      let (d, next) = billing_transition row.status type in
      elim (Bool-cases (truthy ref)) [
        | inl named ↦
            rw (named, handle_checkout)
              (rw
                (dispatch_returns out type now (draw db) d next (text_or ref "")
                  (bound_event (with_payment payment row) event) db (with_payment payment row))
                (dispatched out (bound_event (with_payment payment row) event) type (text_or ref "")
                  payment link now row d next found refl))
        | inr missing ↦ rw (missing, handle_checkout) stay
      ]

  handle_found-Step :
      (event : BillingWebhookEvent) (payment link : Option String) (o : Option BillingCheckout)
      → checkout_for_provider db payment link ≡ o
      → Step db (rolled_back db (handle_found o out event type payment now db (draw db))).1
  unfolding handle_found rolled_back ignore_unknown
  handle_found-Step event payment link none found = unknown event type now
  handle_found-Step event payment link (some row) found =
      handle_checkout-Step event payment link row found

draw-checkouts :
    (db : Db) (payment link : Option String)
    → checkout_for_provider db payment link ≡ checkout_for_provider (draw db) payment link
unfolding checkout_for_provider
draw-checkouts db payment link = refl

claim_cases :
    (out : Outside) (event_id : Option String) (type : String) (payment link : Option String)
    (raw : String) (db : Db)
    → (claim_event out event_id type payment link raw db ≡ (none, db))
      ⊎ ((event : BillingWebhookEvent) × (claim_event out event_id type payment link raw db
            ≡ (some event, draw db)))
unfolding claim_event
claim_cases out event_id type payment link raw db =
    let key = event_key out.sha256 event_id type payment link raw in
    elim (Bool-cases (any (event_has_key key) db.events || out.claim_conflict)) [
      | inl taken ↦ inl (rw taken)
      | inr free ↦
          inr (received_event (next_uid db) key type (out.sha256 raw) payment link, rw free)
    ]

handle_payload-Step :
    (out : Outside) (payload : Json.Fields) (raw : String) (now : ℕ) (db : Db)
    → Step db (rolled_back db (handle_payload out payload raw now db)).1
unfolding handle_payload handle_claimed rolled_back
handle_payload-Step out payload raw now db =
    let type = event_type_of payload in
    let (payment, link) = extract_provider_ids payload in
    elim (claim_cases out (event_id_of payload) type payment link raw db) [
      | inl taken ↦ rw (taken, handle_payload) stay
      | inr (event, claimed) ↦
          rw (claimed, handle_payload)
            (handle_found-Step out type now db event payment link
              (checkout_for_provider (draw db) payment link) (draw-checkouts db payment link))
    ]

handle_json-Step :
    (o : Option Json) (out : Outside) (raw : String) (now : ℕ) (db : Db)
    → Step db (rolled_back db (handle_json o out raw now db)).1
unfolding handle_json rolled_back
handle_json-Step none out raw now db = stay
handle_json-Step (some payload) out raw now db = elim (Bool-cases (Json.is_object payload)) [
  | inl object ↦
      rw (object, handle_json) (handle_payload-Step out (Json.as_fields payload) raw now db)
  | inr not_object ↦ rw (not_object, handle_json) stay
]

-- Every delivery is a step, whatever its token and its body, and whatever other sessions commit.
pub asaas_webhook-Step :
    (out : Outside) (token raw header : String) (now : ℕ) (db : Db)
    → Step db (asaas_webhook out token raw header now db).1
unfolding asaas_webhook process_asaas_webhook rolled_back
asaas_webhook-Step out token raw header now db =
    let expected = strip token in
    elim (Bool-cases (is_empty expected)) [
      | inl unset ↦ rw (unset, asaas_webhook, process_asaas_webhook) stay
      | inr set ↦
          elim (Bool-cases (is_empty (strip header) || not (str_eq (strip header) expected))) [
            | inl wrong ↦ rw (set, wrong, asaas_webhook, process_asaas_webhook) stay
            | inr right ↦
                rw (set, right, asaas_webhook, process_asaas_webhook)
                  (handle_json-Step (out.loads (if is_empty raw then "{}" else raw)) out raw now db)
          ]
    ]

-- Rows that some sequence of deliveries leads to.
pub data Reach (db : Db) : Db → Type 0 where
  here : Reach db db
  next : {a b : Db} → Reach db a → Step a b → Reach db b

-- One delivery, as the route receives it.
pub record Delivery : Type 0 where
  pub out : Outside
  pub raw_body : String
  pub header : String
  pub now : ℕ

-- The deliveries in turn, to a service with one webhook token.
unfoldable pub deliver : String → Db → List Delivery → Db
deliver token db [] = db
deliver token db (d ∷ ds) =
    deliver token (asaas_webhook d.out token d.raw_body d.header d.now db).1 ds

deliver_from :
    (token : String) (start db : Db) (ds : List Delivery)
    → Reach start db
    → Reach start (deliver token db ds)
unfolding deliver
deliver_from token start db [] r = r
deliver_from token start db (d ∷ ds) r =
    deliver_from token start (asaas_webhook d.out token d.raw_body d.header d.now db).1 ds
      (next r (asaas_webhook-Step d.out token d.raw_body d.header d.now db))

pub deliver-Reach : (token : String) (db : Db) (ds : List Delivery) → Reach db (deliver token db ds)
deliver-Reach token db ds = deliver_from token db db ds here

-- An invariant of steps holds after any deliveries.
pub Reach_induction {ℓ} :
    (P : Db → Type ℓ) → ((a b : Db) → Step a b → P a → P b) → (a b : Db) → Reach a b → P a → P b
Reach_induction P keep a b here h = h
Reach_induction P keep a b (next {a = m} r s) h = keep m b s (Reach_induction P keep a m r h)
