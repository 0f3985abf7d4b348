-- ===== src/Billing/Webhook/Redelivery.antt =====
-- The claim of an event, when its delivery comes again.
use efata_777_backend_premiu.Prelude.{
  ℕ, String, ◌≡◌, refl, ap, sym, ◌∙◌, ◌⊎◌, ◌≢◌, inl, inr, Bool, true, false, not, ◌||◌, ◌&&◌,
  Option, none, some, List, [], ◌∷◌, ◌++◌, arith, str_eq, eq_refl, any, if◌then◌else◌, Bool-cases,
}
use efata_777_backend_premiu.Prelude.Text.{strip, is_empty, truthy, text_or}
use efata_777_backend_premiu.Prelude.Json
use efata_777_backend_premiu.Prelude.Json.{Json}
use efata_777_backend_premiu.Billing.Models.{
  BillingCheckout, BillingWebhookEvent, CheckoutStatus, Db,
}
use efata_777_backend_premiu.Billing.Transition.{
  Decision, ignore, ignore_unsupported, confirm, expire, cancel, reverse, billing_transition,
}
use efata_777_backend_premiu.Billing.Wallets.{draw, next_uid}
use efata_777_backend_premiu.Billing.Request.{
  Result, ok, err, Reply, deduplicated, ignored, Outside, claim_event, event_type_of, event_id_of,
  extract_provider_ids, event_key, event_has_key, received_event,
}
use efata_777_backend_premiu.Billing.Webhook.{
  Applied, finish_webhook, ignore_webhook_event, dispatch, handle_checkout, handle_found,
  handle_claimed, handle_payload, handle_json, process_asaas_webhook, rolled_back, asaas_webhook,
  ignore_unknown, checkout_for_provider, with_payment, bound_event, or_id,
}

-- What the response "not a duplicate" promises: the event's key is in the table.
abbrev Recorded : String → Result Reply × Db → Type 0
Recorded key (ok (deduplicated true), db) = Unit
Recorded key (ok (deduplicated false), db) = any (event_has_key key) db.events ≡ true
Recorded key (ok (ignored reason), db) = any (event_has_key key) db.events ≡ true
Recorded key (err code status, db) = Unit

any-snoc :
    (p : BillingWebhookEvent → Bool) (xs : List BillingWebhookEvent) (e : BillingWebhookEvent)
    → p e ≡ true
    → any p (xs ++ e ∷ []) ≡ true
unfolding any
any-snoc p [] e h = rw h
any-snoc p (x ∷ xs) e h = ground (arith, any-snoc p xs e h)

module _ (key : String) (event : BillingWebhookEvent) (has : event_has_key key event ≡ true)
    (type : String) (now : ℕ) where
  finish-Recorded :
      (conflict : Bool) (start : Db) (a : Applied)
      → Recorded key (finish_webhook conflict event type now start a)
  unfolding finish_webhook
  finish-Recorded true start (row, db, action) = tt
  finish-Recorded false start (row, db, action) = any-snoc (event_has_key key) db.events _ has

  ignore-Recorded :
      (checkout : BillingCheckout) (reason : String) (db : Db)
      → Recorded key (ignore_webhook_event event checkout type reason now db)
  unfolding ignore_webhook_event
  ignore-Recorded checkout reason db = any-snoc (event_has_key key) db.events _ has

  dispatch-Recorded :
      (out : Outside) (d : Decision) (next : CheckoutStatus) (ref : String) (start : Db)
      (checkout : BillingCheckout) (db : Db)
      → Recorded key (dispatch d next ref out event type now start checkout db)
  unfolding dispatch
  dispatch-Recorded out ignore next ref start checkout db = ignore-Recorded checkout _ db
  dispatch-Recorded out ignore_unsupported next ref start checkout db =
      ignore-Recorded checkout _ db
  dispatch-Recorded out confirm next ref start checkout db =
      finish-Recorded out.commit_conflict start _
  dispatch-Recorded out expire next ref start checkout db =
      finish-Recorded out.commit_conflict start _
  dispatch-Recorded out cancel next ref start checkout db =
      finish-Recorded out.commit_conflict start _
  dispatch-Recorded out reverse next ref start checkout db =
      finish-Recorded out.commit_conflict start _

module _ (key : String) (event : BillingWebhookEvent) (has : event_has_key key event ≡ true)
    (type : String) (now : ℕ) where
  handle_checkout-Recorded :
      (out : Outside) (payment : Option String) (start : Db) (row : BillingCheckout) (db : Db)
      → Recorded key (handle_checkout out event type payment now start row db)
  unfolding handle_checkout
  handle_checkout-Recorded out payment start row db =
      let ref =
        or_id payment (or_id (or_id payment row.provider_payment_id) row.provider_checkout_id) in
      let (d, next) = billing_transition row.status type in
      elim (Bool-cases (truthy ref)) [
        | inl named ↦
            rw (named, handle_checkout)
              (dispatch-Recorded key (bound_event (with_payment payment row) event) has type now out
                d next (text_or ref "") start (with_payment payment row) db)
        | inr missing ↦ rw (missing, handle_checkout) tt
      ]

  handle_found-Recorded :
      (out : Outside) (payment : Option String) (o : Option BillingCheckout) (start db : Db)
      → Recorded key (handle_found o out event type payment now start db)
  unfolding handle_found ignore_unknown
  handle_found-Recorded out payment none start db = any-snoc (event_has_key key) db.events _ has
  handle_found-Recorded out payment (some row) start db =
      handle_checkout-Recorded out payment start row db

-- The key under which the event of a payload is claimed.
abbrev pub payload_key : Outside → Json.Fields → String → String
payload_key out payload raw =
    let (payment, link) = extract_provider_ids payload in
    event_key out.sha256 (event_id_of payload) (event_type_of payload) payment link raw

handle_payload-Recorded :
    (out : Outside) (payload : Json.Fields) (raw : String) (now : ℕ) (db : Db)
    → Recorded (payload_key out payload raw) (handle_payload out payload raw now db)
unfolding handle_payload handle_claimed claim_event
handle_payload-Recorded out payload raw now db =
    let type = event_type_of payload in
    let (payment, link) = extract_provider_ids payload in
    let key = payload_key out payload raw in
    let event = received_event (next_uid db) key type (out.sha256 raw) payment link in
    elim (Bool-cases (any (event_has_key key) db.events || out.claim_conflict)) [
      | inl taken ↦ rw (taken, handle_payload) tt
      | inr free ↦
          rw (free, handle_payload)
            (handle_found-Recorded key event (key_matches key) type now out payment
              (checkout_for_provider (draw db) payment link) db (draw db))
    ]
  where
    key_matches : (key : String) → (str_eq "asaas" "asaas" && str_eq key key) ≡ true
    key_matches key = rw (eq_refl key)

-- A claimed key stops the handler.
claimed_again :
    (out : Outside) (payload : Json.Fields) (raw : String) (now : ℕ) (db : Db)
    → any (event_has_key (payload_key out payload raw)) db.events ≡ true
    → handle_payload out payload raw now db ≡ (ok (deduplicated true), db)
unfolding handle_payload handle_claimed claim_event
claimed_again out payload raw now db known = rw (known, handle_payload)

-- Whether a request reaches the payload depends on its token and its body alone.
record Reaches (token raw header : String) (loads : String → Option Json) (payload : Json.Fields)
    : Type 0 where
  to_payload :
      (out : Outside) (now : ℕ) (db : Db)
      → out.loads ≡ loads
      → asaas_webhook out token raw header now db
        ≡ rolled_back db (handle_payload out payload raw now db)

abbrev Refuses : String → String → String → (String → Option Json) → Type 0
Refuses token raw header loads =
    (code : String) × (status : ℕ) × ((out : Outside) (now : ℕ) (db : Db)
      → out.loads ≡ loads
      → asaas_webhook out token raw header now db ≡ (err code status, db))

json_cases :
    (token raw header : String) (loads : String → Option Json) (o : Option Json)
    → loads (if is_empty raw then "{}" else raw) ≡ o
    → is_empty (strip token) ≡ false
    → (is_empty (strip header) || not (str_eq (strip header) (strip token))) ≡ false
    → ((payload : Json.Fields) × Reaches token raw header loads payload)
      ⊎ Refuses token raw header loads
unfolding asaas_webhook process_asaas_webhook handle_json rolled_back
json_cases token raw header loads none body set right = inr (
  "BILLING_WEBHOOK_INVALID_JSON",
  400,
  λ out now db same. rw (set, right, same, body, asaas_webhook, process_asaas_webhook),
)
json_cases token raw header loads (some json) body set right =
    elim (Bool-cases (Json.is_object json)) [
      | inl object ↦ inl (
        Json.as_fields json,
        record {
          to_payload = λ out now db same.
              rw (set, right, same, body, object, asaas_webhook, process_asaas_webhook);
        },
      )
      | inr other ↦ inr (
        "BILLING_WEBHOOK_INVALID_JSON",
        400,
        λ out now db same. rw (set, right, same, body, other, asaas_webhook, process_asaas_webhook),
      )
    ]

route_cases :
    (token raw header : String) (loads : String → Option Json)
    → ((payload : Json.Fields) × Reaches token raw header loads payload)
      ⊎ Refuses token raw header loads
unfolding asaas_webhook process_asaas_webhook rolled_back
route_cases token raw header loads = elim (Bool-cases (is_empty (strip token))) [
  | inl unset ↦ inr (
    "BILLING_WEBHOOK_NOT_CONFIGURED",
    503,
    λ out now db same. rw (unset, asaas_webhook, process_asaas_webhook),
  )
  | inr set ↦
      elim (Bool-cases (is_empty (strip header) || not (str_eq (strip header) (strip token)))) [
        | inl wrong ↦ inr (
          "BILLING_WEBHOOK_TOKEN_INVALID",
          401,
          λ out now db same. rw (set, wrong, asaas_webhook, process_asaas_webhook),
        )
        | inr right ↦
            json_cases token raw header loads (loads (if is_empty raw then "{}" else raw)) refl set
              right
      ]
]

same_db : {r s : Result Reply} {a b : Db} → ◌≡◌ {A = Result Reply × Db} (r, a) (s, b) → a ≡ b
same_db e = ap (λ (p : Result Reply × Db). p.1) e

Recorded-known :
    (key : String) (r : Result Reply × Db) (reply : Reply) (start db : Db)
    → Recorded key r
    → rolled_back start r ≡ (ok reply, db)
    → reply ≢ deduplicated true
    → any (event_has_key key) db.events ≡ true
unfolding rolled_back
Recorded-known key (ok (deduplicated true), d) reply start db h e fresh = absurd (fresh (cc e))
Recorded-known key (ok (deduplicated false), d) reply start db h e fresh = rw (← same_db e) h
Recorded-known key (ok (ignored reason), d) reply start db h e fresh = rw (← same_db e) h
Recorded-known key (err code status, d) reply start db h e fresh = cc e

-- A request that was answered, and not as a duplicate, is answered as a duplicate when it comes
-- again at any time, with the same decoder and digest, and the second delivery leaves every row as the
-- first one left it.
pub redelivery :
    (out out' : Outside) (token raw header : String) (now now' : ℕ) (db db' : Db) (reply : Reply)
    → out'.loads ≡ out.loads
    → out'.sha256 ≡ out.sha256
    → asaas_webhook out token raw header now db ≡ (ok reply, db')
    → reply ≢ deduplicated true
    → asaas_webhook out' token raw header now' db' ≡ (ok (deduplicated true), db')
unfolding rolled_back
redelivery out out' token raw header now now' db db' reply same_loads same_sha answered fresh =
    elim (route_cases token raw header out.loads) [
      | inr (code, status, refuses) ↦ cc (refuses out now db refl, answered)
      | inl (payload, r) ↦
          let key = payload_key out payload raw in
          let known =
            Recorded-known key (handle_payload out payload raw now db) reply db db'
              (handle_payload-Recorded out payload raw now db)
              (sym (r.to_payload out now db refl) ∙ answered) fresh in
          r.to_payload out' now' db' same_loads
          ∙ ap (rolled_back db')
              (claimed_again out' payload raw now' db' (rw (same_key payload) known))
    ]
  where
    same_key : (payload : Json.Fields) → payload_key out' payload raw ≡ payload_key out payload raw
    same_key payload = rw same_sha
