-- ===== src/Billing/Intent.antt =====
-- The part of `create_checkout` in src/orkio_v2/billing/service.py before the payment provider is
-- called: the checks, the new checkout and its durable intent.
use efata_777_backend_premiu.Prelude.{
  ℕ, String, Option, none, some, List, [], ◌∷◌, ◌++◌, str_eq, find, if◌then◌else◌,
}
use efata_777_backend_premiu.Prelude.Int.{ℤ, pos, leb_ℤ, min_ℤ, max_ℤ}
use efata_777_backend_premiu.Prelude.Text.{strip, lower, is_empty, or_none, text_or}
use efata_777_backend_premiu.Prelude.Json
use efata_777_backend_premiu.Prelude.Json.{Json}
use efata_777_backend_premiu.Billing.Models.{
  BillingCheckout, CheckoutKind, CheckoutStatus, ProviderOperation, CheckoutMetadata, MetaValue,
  kind_name, User, Db,
}
use efata_777_backend_premiu.Billing.Audit.{audit}
use efata_777_backend_premiu.Billing.Wallets.{next_uid, draw}
use efata_777_backend_premiu.Billing.Request.{Result, ok, err}
use efata_777_backend_premiu.Billing.Catalog.Money.{quantize}
use efata_777_backend_premiu.Billing.Catalog.{
  Settings, Readers, ◌>>=◌, resolve_item, amount_brl, amount_usd, included_credit_usd, days_or,
  text_of,
}
use efata_777_backend_premiu.Billing.Asaas.{LinkRequest, Answer, Page}

pub record Principal : Type 0 where
  pub user_id : String
  pub tenant_id : String

pub record CheckoutCreate : Type 0 where
  pub item_code : String
  pub checkout_kind : CheckoutKind
  pub full_name : Option String
  pub company : Option String

-- How the commit of the new row ends: the checkouts that other sessions have committed first are
-- seen after the rollback.
pub data Commit : Type 0 where
  committed : Commit
  integrity_error : List BillingCheckout → Commit

-- What stands outside: the standard library's readers, the URL that it builds from the configured one
-- and the identifier, the network's answers to the POST and to the lookup, and the commit.
pub record Surroundings : Type 0 where
  pub readers : Readers
  pub return_url : String → String → String
  pub post : Answer Json
  pub page : Answer Page
  pub commit : Commit

unfoldable pub checkout_return_url : Surroundings → Settings → String → Result String
unfolding strip
checkout_return_url out settings checkout_id =
    let base = strip settings.billing_checkout_success_url in
    if is_empty base
    then err "BILLING_CHECKOUT_RETURN_URL_NOT_CONFIGURED" 503
    else ok (out.return_url base checkout_id)

abbrev pub operation : String → String → Option String → ProviderOperation
operation state reference error = record {
  kind = "create_payment_link";
  state = state;
  external_reference = reference;
  last_error_code = error;
}

-- The row and the provider's payload of a new checkout, or the error that comes before both.
pub record Intent : Type 0 where
  pub row : BillingCheckout
  pub request : LinkRequest

abbrev pub found_item : Option Json.Fields → Result Json.Fields
found_item none = err "BILLING_ITEM_NOT_FOUND" 404
found_item (some item) = ok item

abbrev pub provisioned : Option User → Result User
provisioned none = err "BILLING_USER_NOT_PROVISIONED" 403
provisioned (some user) = ok user

-- `_user`.
unfoldable pub user_of : Db → Principal → Result User
unfolding find
user_of db who = provisioned (find (λ u. str_eq u.id who.user_id) db.users)

unfoldable pub payer_name_of : CheckoutCreate → User → Result String
unfolding strip
payer_name_of payload user =
    let name = strip (text_or payload.full_name user.display_name) in
    if is_empty name then err "BILLING_PAYER_NAME_REQUIRED" 400 else ok name

unfoldable pub purchasable : ℤ → Result (Unit {0})
purchasable brl = if leb_ℤ brl (pos 0) then err "BILLING_ITEM_NOT_PURCHASABLE" 400 else ok tt

abbrev pub company_of : Option String → Option String
company_of none = none
company_of (some s) = or_none (strip s)

unfoldable pub intent_of :
    String
    → Principal
    → CheckoutCreate
    → String
    → ℕ
    → Json.Fields
    → User
    → String
    → String
    → ℤ
    → ℤ
    → ℤ
    → CheckoutMetadata
    → Intent
unfolding strip lower Json.get
intent_of id who payload key now item user payer callback brl usd due metadata =
    let name = text_of item "name" (Json.text payload.item_code) in
    record {
      row = record {
        id = id;
        tenant_id = who.tenant_id;
        user_id = who.user_id;
        checkout_kind = payload.checkout_kind;
        item_code = payload.item_code;
        item_name = name;
        payer_email = lower (strip user.email);
        payer_name = payer;
        company = company_of payload.company;
        currency = "BRL";
        amount_brl = brl;
        amount_usd = usd;
        status = CheckoutStatus.pending;
        provider = "asaas";
        provider_checkout_id = none;
        provider_payment_id = none;
        provider_url = none;
        callback_success_url = callback;
        idempotency_key = key;
        metadata_json = metadata;
        updated_at = now;
        confirmed_at = none;
        reversed_at = none;
      };
      request = record {
        name = name;
        description = text_of item "description" (Json.text name);
        value = brl;
        due_date_limit_days = max_ℤ (pos 1) (min_ℤ due (pos 31));
        external_reference = id;
        success_url = callback;
      };
    }

-- Everything up to the new row, in the order of the code. The database column keeps four places of
-- the amount in USD.
unfoldable pub prepare :
    Surroundings → Settings → Principal → CheckoutCreate → String → ℕ → Db → Result Intent
prepare out settings who payload key now db =
    let id = next_uid db in
    resolve_item out.readers settings payload.checkout_kind payload.item_code >>= λ found.
    found_item found >>= λ item. user_of db who >>= λ user. payer_name_of payload user >>= λ payer.
    checkout_return_url out settings id >>= λ callback.
    amount_brl out.readers settings payload.checkout_kind item >>= λ brl.
    amount_usd out.readers payload.checkout_kind item >>= λ usd. purchasable brl >>= λ _.
    days_or out.readers "7" item >>= λ due.
    included_credit_usd out.readers payload.checkout_kind item >>= λ credit.
    days_or out.readers "31" item >>= λ days. ok (
      intent_of id who payload key now item user payer callback brl (quantize 4 usd) due (record {
        included_credit_usd = credit;
        entitlement_days = days;
        provider_operation = some (operation "provider_call_started" id none);
      }))

-- The row and its audit entry, committed before the provider is called.
unfoldable pub add_intent : Principal → CheckoutCreate → BillingCheckout → Db → Db
unfolding audit
add_intent who payload row db =
    audit (some who.tenant_id) (some who.user_id) "billing.checkout.provider_intent_committed"
      "billing_checkout" (some row.id) "pending"
      (("checkout_kind", MetaValue.text (kind_name payload.checkout_kind))
        ∷ ("item_code", MetaValue.text payload.item_code)
        ∷ ("provider", MetaValue.text "asaas")
        ∷ [])
      (record (draw db) { checkouts = db.checkouts ++ row ∷ [] })
