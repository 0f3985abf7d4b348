-- ===== src/Billing/Asaas.antt =====
-- src/orkio_v2/billing/asaas_client.py: the payment provider. What the network answers is a
-- parameter; every POST that is sent is recorded.
use efata_777_backend_premiu.Prelude.{
  ℕ, String, Bool, true, false, not, ◌&&◌, ◌||◌, Option, none, some, List, [], ◌∷◌, ◌++◌, str_eq,
  leb, if◌then◌else◌,
}
use efata_777_backend_premiu.Prelude.Int.{ℤ}
use efata_777_backend_premiu.Prelude.Text.{strip, is_empty}
use efata_777_backend_premiu.Prelude.Json
use efata_777_backend_premiu.Prelude.Json.{Json}
use efata_777_backend_premiu.Billing.Models.{Db}
use efata_777_backend_premiu.Billing.Catalog.{Settings}

pub record BillingProviderError : Type 0 where
  pub code : String
  pub status_code : ℕ
  pub outcome_unknown : Bool

pub data Provided (A : Type 0) : Type 0 where
  got : A → Provided A
  failure : BillingProviderError → Provided A

abbrev pub provider_error : {A : Type 0} → String → ℕ → Bool → Provided A
provider_error code status unknown =
    failure (record { code = code; status_code = status; outcome_unknown = unknown })

-- The payload of `POST /paymentLinks`; the value in hundredths of a real.
pub record LinkRequest : Type 0 where
  pub name : String
  pub description : String
  pub value : ℤ
  pub due_date_limit_days : ℤ
  pub external_reference : String
  pub success_url : String

-- The `id` and `url` of a payment link.
pub record PaymentLink : Type 0 where
  pub id : String
  pub url : String

-- What an HTTP call comes to: an exception, or a status and what `response.json()` returns.
pub data Answer (A : Type 0) : Type 0 where
  timed_out : Answer A
  transport_error : Answer A
  response : ℕ → Option A → Answer A

-- The decoded page of a lookup, as far as it is read: the entries of its `data` list, or something
-- else than a dictionary with such a list.
pub data Page : Type 0 where
  listing : List Json → Page
  other_page : Page

-- The rows and the POSTs sent so far.
pub record World : Type 0 where
  pub db : Db
  pub posts : List LinkRequest

unfoldable pub assert_configured : Settings → Option BillingProviderError
unfolding strip
assert_configured settings =
    if not settings.billing_enabled
    then some (record { code = "BILLING_DISABLED"; status_code = 503; outcome_unknown = false })
    else if not (str_eq settings.billing_provider "asaas")
        || is_empty (strip settings.asaas_api_key)
    then some (record {
      code = "BILLING_PROVIDER_NOT_CONFIGURED";
      status_code = 503;
      outcome_unknown = false;
    })
    else none

abbrev link_of : Json.Fields → PaymentLink
link_of body = record {
  id = Json.shown (Json.get body "id");
  url = Json.shown (Json.get body "url");
}

abbrev has_link : Json.Fields → Bool
has_link body = Json.is_true (Json.get body "id") && Json.is_true (Json.get body "url")

-- The body of a response to the POST.
created_link : Option Json → Provided PaymentLink
unfolding Json.get
created_link none = provider_error "BILLING_PROVIDER_INVALID_RESPONSE" 502 true
created_link (some body) =
    if Json.is_object body && has_link (Json.as_fields body)
    then got (link_of (Json.as_fields body))
    else provider_error "BILLING_PROVIDER_INVALID_RESPONSE" 502 true

unfoldable pub read_post : Answer Json → Provided PaymentLink
unfolding created_link
read_post timed_out = provider_error "BILLING_PROVIDER_TIMEOUT" 504 true
read_post transport_error = provider_error "BILLING_PROVIDER_UNAVAILABLE" 502 true
read_post (response status body) =
    if leb 500 status
    then provider_error "BILLING_PROVIDER_UPSTREAM_5XX" 502 true
    else if leb 400 status
    then provider_error "BILLING_PROVIDER_REJECTED" 502 false
    else created_link body

send :
    Option BillingProviderError → Answer Json → LinkRequest → World → Provided PaymentLink × World
send (some e) answer request world = (failure e, world)
send none answer request world =
    (read_post answer, record world { posts = world.posts ++ request ∷ [] })

unfoldable pub create_payment_link :
    Settings → Answer Json → LinkRequest → World → Provided PaymentLink × World
unfolding send
create_payment_link settings answer request world =
    send (assert_configured settings) answer request world

-- `str(item.get("externalReference") or "") == external_reference`, of a dictionary.
abbrev is_exact : String → Json → Bool
is_exact reference item =
    Json.is_object item
    && str_eq
        (Json.shown
          (Json.or_else (Json.get (Json.as_fields item) "externalReference") (Json.text "")))
        reference

exact_items : String → List Json → List Json
unfolding Json.get
exact_items reference [] = []
exact_items reference (item ∷ rest) =
    let others = exact_items reference rest in
    if is_exact reference item then item ∷ others else others

only_item : List Json → Provided (Option PaymentLink)
unfolding Json.get
only_item [] = got none
only_item (item ∷ []) =
    if has_link (Json.as_fields item)
    then got (some (link_of (Json.as_fields item)))
    else provider_error "BILLING_PROVIDER_RECONCILIATION_INVALID_RESPONSE" 502 true
only_item _ = provider_error "BILLING_PROVIDER_RECONCILIATION_AMBIGUOUS" 502 true

found_page : String → Option Page → Provided (Option PaymentLink)
unfolding only_item exact_items
found_page reference (some (listing items)) = only_item (exact_items reference items)
found_page reference _ = provider_error "BILLING_PROVIDER_RECONCILIATION_INVALID_RESPONSE" 502 true

unfoldable pub read_lookup : String → Answer Page → Provided (Option PaymentLink)
unfolding found_page
read_lookup reference timed_out = provider_error "BILLING_PROVIDER_RECONCILIATION_TIMEOUT" 504 true
read_lookup reference transport_error =
    provider_error "BILLING_PROVIDER_RECONCILIATION_UNAVAILABLE" 502 true
read_lookup reference (response status page) =
    if leb 400 status
    then provider_error "BILLING_PROVIDER_RECONCILIATION_FAILED" 502 true
    else found_page reference page

look_up : Option BillingProviderError → String → Answer Page → Provided (Option PaymentLink)
look_up (some e) reference answer = failure e
look_up none reference answer = read_lookup reference answer

unfoldable pub find_payment_link_by_external_reference :
    Settings → Answer Page → String → Provided (Option PaymentLink)
unfolding look_up
find_payment_link_by_external_reference settings answer reference =
    look_up (assert_configured settings) reference answer
