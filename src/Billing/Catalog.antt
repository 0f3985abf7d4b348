-- ===== src/Billing/Catalog.antt =====
-- src/orkio_v2/billing/catalog.py: the configured plans and top-ups, and their prices.
pub mod Money
use efata_777_backend_premiu.Prelude.{
  ℕ, String, Bool, true, false, not, ◌||◌, Option, none, some, List, [], ◌∷◌, ◌++◌, map, str_eq,
  if◌then◌else◌,
}
use Prim.Native.String.{◌++◌ as ◌+++◌}
use efata_777_backend_premiu.Prelude.Int.{ℤ, pos}
use efata_777_backend_premiu.Prelude.Text.{strip, upper, is_empty}
use efata_777_backend_premiu.Prelude.Json
use efata_777_backend_premiu.Prelude.Json.{Json}
use efata_777_backend_premiu.Billing.Models.{CheckoutKind, kind_name}
use efata_777_backend_premiu.Billing.Request.{Result, ok, err}
use efata_777_backend_premiu.Billing.Catalog.Money.{Decimal, quantize, times}

-- What the catalog reads of `Settings`; `billing_usd_brl` is the exact decimal of the float.
pub record Settings : Type 0 where
  pub billing_enabled : Bool
  pub billing_provider : String
  pub billing_plan_catalog_json : String
  pub billing_topup_catalog_json : String
  pub billing_usd_brl : Decimal
  pub billing_checkout_success_url : String
  pub asaas_api_key : String
  pub asaas_webhook_token : String

-- The standard library's readers: `json.loads`, `Decimal(str(value))` and `int(value)`, with `none`
-- for the exception.
pub record Readers : Type 0 where
  pub loads : String → Option Json
  pub decimal : String → Option Decimal
  pub int : Json → Option ℤ

infixl 5 ◌>>=◌
unfoldable pub ◌>>=◌ : {A B : Type 0} → Result A → (A → Result B) → Result B
ok a >>= f = f a
err code status >>= f = err code status

-- An exception that no handler names is answered with 500.
abbrev pub or_crash : {A : Type 0} → Option A → Result A
or_crash none = err "Internal Server Error" 500
or_crash (some a) = ok a

-- `copied[key] = value`.
unfoldable pub set_field : String → Json → Json.Fields → Json.Fields
set_field key value Json.end = Json.field key value Json.end
set_field key value (Json.field k v rest) =
    let kept = set_field key value rest in
    if str_eq k key then Json.field k value rest else Json.field k v kept

abbrev pub Catalog : Type 0
Catalog = List (String × Json.Fields)

abbrev pub catalog_error : String → String → String
catalog_error kind what = "BILLING_" +++ (kind +++ ("_CATALOG_" +++ what))

-- One entry of the payload, by its key.
unfoldable pub load_item : String → String → Json → Result (String × Json.Fields)
unfolding Json.get strip
load_item kind key item =
    if is_empty (strip key) || not (Json.is_object item)
    then err (catalog_error kind "INVALID_ITEM") 503
    else (let fields = Json.as_fields item in
        let code = strip (Json.shown (Json.or_else (Json.get fields "code") (Json.text key))) in
        if str_eq code key
        then ok (code, set_field "code" (Json.text code) fields)
        else err (catalog_error kind "CODE_MISMATCH") 503)

unfoldable pub load_items : String → Json.Fields → Result Catalog
load_items kind Json.end = ok []
load_items kind (Json.field key item rest) =
    let others = load_items kind rest in
    load_item kind key item >>= λ loaded. others >>= λ tail. ok (loaded ∷ tail)

-- The payload, once it is decoded.
unfoldable pub load_payload : String → Option Json → Result Catalog
load_payload kind none = err (catalog_error kind "INVALID_JSON") 503
load_payload kind (some payload) =
    if Json.is_object payload
    then load_items kind (Json.as_fields payload)
    else err (catalog_error kind "MUST_BE_OBJECT") 503

unfoldable pub load : Readers → String → String → Result Catalog
unfolding strip
load readers kind raw =
    if is_empty (strip raw) then ok [] else load_payload kind (readers.loads raw)

unfoldable pub catalog_of : Readers → Settings → CheckoutKind → Result Catalog
catalog_of readers settings CheckoutKind.topup =
    load readers "TOPUP" settings.billing_topup_catalog_json
catalog_of readers settings CheckoutKind.plan =
    load readers "PLAN" settings.billing_plan_catalog_json

-- `catalog.get(item_code)`.
unfoldable pub item_of : String → Catalog → Option Json.Fields
item_of code [] = none
item_of code ((key, item) ∷ rest) =
    let later = item_of code rest in if str_eq key code then some item else later

unfoldable pub resolve_item :
    Readers → Settings → CheckoutKind → String → Result (Option Json.Fields)
resolve_item readers settings kind code =
    catalog_of readers settings kind >>= λ catalog. ok (item_of code catalog)

abbrev pub zero_decimal : Decimal
zero_decimal = record { coefficient = pos 0; places = 0 }

abbrev pub is_blank : Json → Bool
is_blank Json.null = true
is_blank (Json.text s) = is_empty s
is_blank _ = false

abbrev pub is_null : Json → Bool
is_null Json.null = true
is_null _ = false

unfoldable pub money_decimal : Readers → Json → Result Decimal
money_decimal readers value =
    if is_blank value then ok zero_decimal else or_crash (readers.decimal (Json.shown value))

-- The two kinds name their price fields differently.
abbrev pub usd_field : CheckoutKind → String
usd_field CheckoutKind.topup = "pay_usd"
usd_field CheckoutKind.plan = "price_usd"

abbrev pub brl_field : CheckoutKind → String
brl_field CheckoutKind.topup = "pay_brl"
brl_field CheckoutKind.plan = "price_brl"

abbrev pub credit_field : CheckoutKind → String
credit_field CheckoutKind.topup = "credit_usd"
credit_field CheckoutKind.plan = "included_credit_usd"

unfoldable pub amount_usd : Readers → CheckoutKind → Json.Fields → Result Decimal
unfolding Json.get
amount_usd readers kind item = money_decimal readers (Json.get item (usd_field kind))

-- In hundredths of a real.
unfoldable pub amount_brl : Readers → Settings → CheckoutKind → Json.Fields → Result ℤ
unfolding Json.get
amount_brl readers settings kind item =
    let direct = Json.get item (brl_field kind) in
    if is_null direct
    then (amount_usd readers kind item >>= λ usd.
        ok (quantize 2 (times usd settings.billing_usd_brl)))
    else money_decimal readers direct >>= λ brl. ok (quantize 2 brl)

-- In 1/10000 of a dollar.
unfoldable pub included_credit_usd : Readers → CheckoutKind → Json.Fields → Result ℤ
unfolding Json.get
included_credit_usd readers kind item =
    money_decimal readers (Json.get item (credit_field kind)) >>= λ credit. ok (quantize 4 credit)

-- `int(item.get("entitlement_days") or default)`.
unfoldable pub days_or : Readers → String → Json.Fields → Result ℤ
unfolding Json.get
days_or readers default item =
    or_crash
      (readers.int (Json.or_else (Json.get item "entitlement_days") (Json.other true default)))

pub record PublicItem : Type 0 where
  pub code : String
  pub name : String
  pub kind : CheckoutKind
  pub description : String
  pub display_currency : String
  pub price_usd : Decimal
  pub price_brl : ℤ
  pub included_credit_usd : ℤ
  pub badge : Json
  pub features : Json
  pub entitlement_days : Option ℤ

abbrev pub text_of : Json.Fields → String → Json → String
text_of item key default = Json.shown (Json.or_else (Json.get item key) default)

abbrev pub plan_days : Readers → CheckoutKind → Json.Fields → Result (Option ℤ)
plan_days readers CheckoutKind.topup item = ok none
plan_days readers CheckoutKind.plan item = days_or readers "31" item >>= λ days. ok (some days)

unfoldable pub public_item : Readers → Settings → CheckoutKind → Json.Fields → Result PublicItem
public_item readers settings kind item = amount_usd readers kind item >>= λ usd.
    amount_brl readers settings kind item >>= λ brl.
    included_credit_usd readers kind item >>= λ credit. plan_days readers kind item >>= λ days.
    ok (record {
      code = text_of item "code" (Json.text "");
      name = text_of item "name" (Json.or_else (Json.get item "code") (Json.text ""));
      kind = kind;
      description = text_of item "description" (Json.text "");
      display_currency = text_of item "display_currency" (Json.text "USD");
      price_usd = usd;
      price_brl = brl;
      included_credit_usd = credit;
      badge = Json.get item "badge";
      features = Json.or_else (Json.get item "features") (Json.other false "[]");
      entitlement_days = days;
    })

unfoldable pub public_items : Readers → Settings → CheckoutKind → Catalog → Result (List PublicItem)
public_items readers settings kind [] = ok []
public_items readers settings kind ((_, item) ∷ rest) =
    let others = public_items readers settings kind rest in
    public_item readers settings kind item >>= λ shown. others >>= λ tail. ok (shown ∷ tail)

-- `list_plans` and `list_topups` (src/orkio_v2/billing/service.py).
unfoldable pub list_items : Readers → Settings → CheckoutKind → Result (List PublicItem)
list_items readers settings kind =
    catalog_of readers settings kind >>= public_items readers settings kind
