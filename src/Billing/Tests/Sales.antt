-- ===== src/Billing/Tests/Sales.antt =====
-- A buyer, a plan and a provider, and the theorems on checkouts, plans and views at them.
use efata_777_backend_premiu.Prelude.{
  ℕ, ◌*◌, ◌≤◌, ◌≡◌, ◌⊎◌, refl, true, none, some, [], ◌∷◌, ◌++◌, any,
}
use efata_777_backend_premiu.Prelude.Int.{pos, ◌+ℤ◌}
use efata_777_backend_premiu.Prelude.Json
use efata_777_backend_premiu.Prelude.Json.{Json}
use efata_777_backend_premiu.Billing.Models.{
  BillingCheckout, BillingWallet, BillingEntitlement, CheckoutKind, CheckoutStatus,
}
use efata_777_backend_premiu.Billing.Repository.{wallet_for_actor, entitlement_for_actor}
use efata_777_backend_premiu.Billing.Wallets.{ledger_exists, ledger_key}
use efata_777_backend_premiu.Billing.Wallets.Books.{column}
use efata_777_backend_premiu.Billing.Entitlements.{
  activate_entitlement, revoke_entitlement, entitlement_seconds, revoked,
}
use efata_777_backend_premiu.Billing.Entitlements.Term.{IsGiven, plan_term}
use efata_777_backend_premiu.Billing.Catalog.{Settings}
use efata_777_backend_premiu.Billing.Asaas.{World, LinkRequest, timed_out, response, listing}
use efata_777_backend_premiu.Billing.Intent.{Principal, Surroundings, committed}
use efata_777_backend_premiu.Billing.Checkout.Single.{Claimed}
use efata_777_backend_premiu.Billing.Request.{ok}
use efata_777_backend_premiu.Billing.Repository.{checkout_by_idempotency}
use efata_777_backend_premiu.Billing.Reconciliation.{reconcile_existing_checkout}
use efata_777_backend_premiu.Billing.Checkout.{existing_or_new, create_checkout}
use efata_777_backend_premiu.Billing.Checkout.Returned.{IsAnswer, create_checkout-IsAnswer}
use efata_777_backend_premiu.Prelude.{find}
use efata_777_backend_premiu.Prelude.Text.{text_length}
use efata_777_backend_premiu.Billing.Checkout.Once.{Request, request_all, posted_once}
use efata_777_backend_premiu.Billing.Webhook.{confirm_checkout}
use efata_777_backend_premiu.Billing.Webhook.Payment.{confirm_pays}
use efata_777_backend_premiu.Billing.Tests.{shop, top_up}

abbrev catalog : Json
catalog = Json.object "" (
    Json.field "basic" (Json.object "" (Json.field "price_brl" (Json.other true "100") Json.end))
      Json.end)

abbrev settings : Settings
settings = record {
  billing_enabled = true;
  billing_provider = "asaas";
  billing_plan_catalog_json = "{...}";
  billing_topup_catalog_json = "";
  billing_usd_brl = record { coefficient = pos 5; places = 0 };
  billing_checkout_success_url = "https://shop/done";
  asaas_api_key = "key";
  asaas_webhook_token = "secret";
}

-- The POST runs into a timeout, and the lookup then finds the link.
abbrev slow : Surroundings
slow = record {
  readers = record {
    loads = λ s. some catalog;
    decimal = λ s. some (record { coefficient = pos 100; places = 0 });
    int = λ v. some (pos 31);
  };
  return_url = λ base id. base;
  post = timed_out;
  page = response 200 (some (listing []));
  commit = committed;
}

abbrev buyer : Principal
buyer = record { user_id = "u1"; tenant_id = "t1" }

abbrev order : Request
order = record {
  out = slow;
  settings = settings;
  payload = record {
    item_code = "basic";
    checkout_kind = CheckoutKind.plan;
    full_name = some "Ana";
    company = none;
  };
  now = 5;
}

abbrev open_shop : World
open_shop = record {
  db = record shop { users = record { id = "u1"; email = "a@b.c"; display_name = "Ana" } ∷ [] };
  posts = [];
}

posted_once_example :
    ((request_all buyer "k2" open_shop (order ∷ order ∷ [])).posts ≡ [])
    ⊎ ((Claimed buyer "k2" open_shop → ⊥)
        × ((r : LinkRequest) × ((request_all buyer "k2" open_shop (order ∷ order ∷ [])).posts
              ≡ [] ++ r ∷ [])))
posted_once_example = posted_once buyer "k2" open_shop (order ∷ order ∷ [])

abbrev plan_checkout : BillingCheckout
plan_checkout = record top_up { checkout_kind = CheckoutKind.plan; item_code = "basic" }

plan_term_example :
    ((e : BillingEntitlement) × (entitlement_for_actor
          (activate_entitlement plan_checkout 9 shop)
          "t1"
          "u1"
        ≡ some e)
      × IsGiven plan_checkout 9 e)
    × (86400 ≤ entitlement_seconds plan_checkout)
    × (entitlement_seconds plan_checkout ≤ 366 * 86400)
    × ((s : CheckoutStatus) (later : ℕ) (e : BillingEntitlement)
        → entitlement_for_actor shop "t1" "u1" ≡ some e
        → entitlement_for_actor (revoke_entitlement plan_checkout s later shop) "t1" "u1"
          ≡ some (revoked s later e))
plan_term_example = plan_term plan_checkout 9 shop refl

confirm_pays_example :
    let (checkout, db', action) = confirm_checkout CheckoutStatus.paid "pay1" 7 top_up shop in
    (checkout.status ≡ CheckoutStatus.paid)
    × (checkout.confirmed_at ≡ some 7)
    × ((w : BillingWallet) × (wallet_for_actor db' "t1" "u1" ≡ some w)
        × (w.balance_usd
            ≡ column (λ v. v.balance_usd) (wallet_for_actor shop "t1" "u1") +ℤ pos 50000)
        × (ledger_exists db' "t1" (ledger_key "pay1" "credit") ≡ true))
unfolding ledger_exists any
confirm_pays_example = confirm_pays CheckoutStatus.paid "pay1" 7 top_up shop refl refl

-- The key of the top-up is taken, and its link is known.
repeated :
    create_checkout slow settings buyer order.payload "k1" 5 open_shop ≡ (ok top_up, open_shop)
unfolding create_checkout text_length checkout_by_idempotency find existing_or_new
    reconcile_existing_checkout
repeated = refl

create_checkout-IsAnswer_example : IsAnswer top_up
create_checkout-IsAnswer_example =
    create_checkout-IsAnswer slow settings buyer order.payload "k1" 5 open_shop open_shop top_up
      repeated
