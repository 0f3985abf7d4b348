-- ===== src/Billing/Request.antt =====
-- The request of `process_asaas_webhook` (src/orkio_v2/billing/service.py): the results it can have,
-- the fields of its payload and the claim of the event.
use Prim.Native.String.{◌++◌ as ◌+++◌}
use efata_777_backend_premiu.Prelude.{
  ℕ, String, Bool, ◌&&◌, ◌||◌, Option, none, some, str_eq, any, if◌then◌else◌,
}
use efata_777_backend_premiu.Prelude.Text.{strip, upper, or_none, truthy, text_or}
use efata_777_backend_premiu.Prelude.Json
use efata_777_backend_premiu.Prelude.Json.{Json}
use efata_777_backend_premiu.Billing.Models.{BillingWebhookEvent, EventStatus, Db}
use efata_777_backend_premiu.Billing.Wallets.{next_uid, draw}

-- `BillingDomainError(code, status_code)`, or a value.
pub data Result (A : Type 0) : Type 0 where
  ok : A → Result A
  err : String → ℕ → Result A

-- The dictionaries that the handler returns.
pub data Reply : Type 0 where
  deduplicated : Bool → Reply
  ignored : Option String → Reply

-- What stands outside the program: the decoder of the body (`none` for what is not UTF-8 JSON), the
-- digest, and whether another session has committed a row that a unique constraint forbids twice
-- before this session's claim, or before its commit.
pub record Outside : Type 0 where
  pub loads : String → Option Json
  pub sha256 : String → String
  pub claim_conflict : Bool
  pub commit_conflict : Bool

unfoldable pub event_key :
    (String → String) → Option String → String → Option String → Option String → String → String
event_key sha256 event_id event_type payment_id checkout_id raw_body =
    if truthy event_id
    then sha256 ("asaas-event|" +++ text_or event_id "")
    else if truthy payment_id || truthy checkout_id
    then sha256
        (event_type +++ ("|" +++ (text_or payment_id "" +++ ("|" +++ text_or checkout_id ""))))
    else sha256 raw_body

-- `link.get("id")` where the link is a dictionary.
abbrev link_id : Json → Json
link_id (Json.object s fields) = Json.get fields "id"
link_id v = v

abbrev stripped : Json → Option String
stripped v = if Json.is_true v then some (strip (Json.shown v)) else none

unfoldable pub extract_provider_ids : Json.Fields → Option String × Option String
unfolding Json.get strip
extract_provider_ids payload =
    let payment = Json.as_fields (Json.get payload "payment") in
    let payment_id = Json.or_else (Json.get payment "id") (Json.get payload "paymentId") in
    let link =
      link_id (Json.or_else (Json.get payment "paymentLink") (Json.get payload "paymentLink")) in
    (stripped payment_id, stripped link)

abbrev pub event_has_key : String → BillingWebhookEvent → Bool
event_has_key key e = str_eq e.provider "asaas" && str_eq e.provider_event_key key

abbrev pub received_event :
    String → String → String → String → Option String → Option String → BillingWebhookEvent
received_event id key event_type digest payment_id checkout_id = record {
  id = id;
  tenant_id = none;
  user_id = none;
  checkout_id = none;
  provider = "asaas";
  provider_event_key = key;
  event_type = event_type;
  payload_sha256 = digest;
  provider_payment_id = payment_id;
  provider_checkout_id = checkout_id;
  status = EventStatus.received;
  processed_at = none;
}

-- The claimed row is held beside `db` until the handler has filled it in; no query of the handler
-- reads the events again.
unfoldable pub claim_event :
    Outside
    → Option String
    → String
    → Option String
    → Option String
    → String
    → Db
    → Option BillingWebhookEvent × Db
unfolding any
claim_event out event_id event_type payment_id checkout_id raw_body db =
    let key = event_key out.sha256 event_id event_type payment_id checkout_id raw_body in
    if any (event_has_key key) db.events || out.claim_conflict then (none, db) else (
      some (
          received_event (next_uid db) key event_type (out.sha256 raw_body) payment_id checkout_id),
      draw db,
    )

-- The fields of the payload.
unfoldable pub event_type_of : Json.Fields → String
unfolding Json.get strip upper
event_type_of payload = upper (
    strip (
      Json.shown (
        Json.or_else (Json.or_else (Json.get payload "event") (Json.get payload "eventType"))
          (Json.text "UNKNOWN"))))

unfoldable pub event_id_of : Json.Fields → Option String
unfolding Json.get strip
event_id_of payload =
    let id = Json.get payload "id" in or_none (strip (Json.shown (Json.or_else id (Json.text ""))))
