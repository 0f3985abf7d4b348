-- ===== src/Billing/Tests.antt =====
-- A service with one pending top-up, and the billing theorems at its deliveries.
pub mod Sales
use efata_777_backend_premiu.Prelude.{
  ℕ, String, ◌≡◌, ◌≢◌, ◌↔◌, refl, Bool, true, false, Option, none, some, List, [], ◌∷◌, find, any,
  count_if, str_eq, arith, inl, inr,
}
use efata_777_backend_premiu.Prelude.Int.{ℤ, pos, ◌+ℤ◌, leb_ℤ}
use efata_777_backend_premiu.Prelude.Text.{strip, upper}
use efata_777_backend_premiu.Prelude.Json
use efata_777_backend_premiu.Prelude.Json.{Json}
use efata_777_backend_premiu.Billing.Models.{
  BillingCheckout, BillingTransaction, BillingWallet, CheckoutKind, CheckoutStatus,
  TransactionStatus, Db,
}
use efata_777_backend_premiu.Billing.Repository.{wallet_for_actor}
use efata_777_backend_premiu.Billing.Transition.Edges.{transition_exact, ◌⟶◌, ◌⟶*◌, Applies}
use efata_777_backend_premiu.Billing.Transition.{
  is_confirm_event, Decision, billing_transition, is_terminal,
}
use efata_777_backend_premiu.Billing.Request.{
  Result, ok, err, Reply, deduplicated, Outside, claim_event, event_key, event_type_of, event_id_of,
  extract_provider_ids,
}
use efata_777_backend_premiu.Billing.Wallets.{
  credit_wallet, ledger_exists, ledger_key, new_wallet, credited, credit_entry, oldest,
  is_credit_of, reverse_checkout_credit,
}
use efata_777_backend_premiu.Billing.Wallets.Books.{total}
use efata_777_backend_premiu.Billing.Wallets.Preservation.{Balanced}
use efata_777_backend_premiu.Billing.Wallets.Effects.{
  credit_wallet_posts, reverse_takes_back, Reversed,
}
use efata_777_backend_premiu.Billing.Wallets.Credits.{credits_of}
use efata_777_backend_premiu.Billing.Webhook.{
  asaas_webhook, rolled_back, process_asaas_webhook, handle_json, handle_payload, handle_claimed,
  handle_found, handle_checkout, dispatch, finish_webhook, checkout_for_provider, has_id,
}
use efata_777_backend_premiu.Billing.Webhook.Steps.{Delivery, deliver}
use efata_777_backend_premiu.Billing.Webhook.Books.{deliver-Balanced}
use efata_777_backend_premiu.Billing.Webhook.Status.{IdsDistinct}
use efata_777_backend_premiu.Billing.Webhook.History.{deliver_follows}
use efata_777_backend_premiu.Billing.Webhook.Once.{deliver-CreditedOnce, CreditedOnce}
use efata_777_backend_premiu.Billing.Webhook.Redelivery.{redelivery}

abbrev pub top_up : BillingCheckout
top_up = record {
  id = "c1";
  tenant_id = "t1";
  user_id = "u1";
  checkout_kind = CheckoutKind.topup;
  item_code = "topup5";
  item_name = "Five dollars";
  payer_email = "a@b.c";
  payer_name = "Ana";
  company = none;
  currency = "BRL";
  amount_brl = pos 2750;
  amount_usd = pos 50000;
  status = CheckoutStatus.pending;
  provider = "asaas";
  provider_checkout_id = some "pl1";
  provider_payment_id = none;
  provider_url = some "https://pay/pl1";
  callback_success_url = "";
  idempotency_key = "k1";
  metadata_json = record {
    included_credit_usd = pos 50000;
    entitlement_days = pos 31;
    provider_operation = none;
  };
  updated_at = 0;
  confirmed_at = none;
  reversed_at = none;
}

abbrev pub shop : Db
shop = record {
  users = [];
  checkouts = top_up ∷ [];
  events = [];
  entitlements = [];
  transactions = [];
  wallets = [];
  ledger = [];
  audits = [];
  uids = λ n. "id";
  drawn = 0;
}

-- The body is `{"event": "PAYMENT_CONFIRMED", "payment": {"id": "pay1", "paymentLink": "pl1"}}`.
abbrev pub body : Json
body = Json.object "" (
    Json.field "event" (Json.text "PAYMENT_CONFIRMED") (
      Json.field "payment"
        (Json.object "" (
          Json.field "id" (Json.text "pay1") (Json.field "paymentLink" (Json.text "pl1") Json.end)))
        Json.end))

abbrev pub calm : Outside
calm = record {
  loads = λ s. some body;
  sha256 = λ s. s;
  claim_conflict = false;
  commit_conflict = false;
}

abbrev pub paid_at : ℕ → Delivery
paid_at now = record { out = calm; raw_body = "{}"; header = "secret"; now = now }

pub shop-Balanced : Balanced shop
unfolding wallet_for_actor total find ◌+ℤ◌
shop-Balanced t u = record {
  credits = refl;
  debits = refl;
  balance = refl;
  quarantined = refl;
  nonneg = omega arith;
}

deliver-Balanced_example : Balanced (deliver "secret" shop (paid_at 1 ∷ paid_at 2 ∷ []))
deliver-Balanced_example = deliver-Balanced "secret" shop (paid_at 1 ∷ paid_at 2 ∷ []) shop-Balanced

transition_exact_example :
    ((e : String) × (d : Decision) × (billing_transition CheckoutStatus.pending e
        ≡ (d, CheckoutStatus.paid))
      × Applies d)
    ↔ (CheckoutStatus.pending ⟶ CheckoutStatus.paid)
transition_exact_example = transition_exact CheckoutStatus.pending CheckoutStatus.paid

deliver_follows_example :
    (c' : BillingCheckout) × (find
        (has_id "c1")
        (deliver "secret" shop (paid_at 1 ∷ paid_at 2 ∷ [])).checkouts
      ≡ some c')
    × (CheckoutStatus.pending ⟶* c'.status)
    × (is_terminal CheckoutStatus.pending ≡ true → c'.status ≡ CheckoutStatus.pending)
unfolding find any
deliver_follows_example =
    deliver_follows "secret" shop (paid_at 1 ∷ paid_at 2 ∷ []) "c1" top_up (refl, tt) refl

no_credits : CreditedOnce shop
unfolding credits_of count_if
no_credits id c found = (omega arith, λ u. refl)

deliver-CreditedOnce_example : CreditedOnce (deliver "secret" shop (paid_at 1 ∷ paid_at 2 ∷ []))
unfolding any
deliver-CreditedOnce_example =
    deliver-CreditedOnce "secret" shop (paid_at 1 ∷ paid_at 2 ∷ []) (refl, tt) no_credits

abbrev after : Db
after = (asaas_webhook calm "secret" "{}" "secret" 1 shop).1

-- The first delivery credits the wallet.
first_delivery : asaas_webhook calm "secret" "{}" "secret" 1 shop ≡ (ok (deduplicated false), after)
unfolding asaas_webhook rolled_back process_asaas_webhook handle_json handle_payload handle_claimed
    handle_found handle_checkout dispatch finish_webhook claim_event event_key any
    checkout_for_provider find strip upper Json.get event_type_of event_id_of extract_provider_ids
    billing_transition is_confirm_event
first_delivery = refl

redelivery_example :
    asaas_webhook calm "secret" "{}" "secret" 2 after ≡ (ok (deduplicated true), after)
redelivery_example =
    redelivery calm calm "secret" "{}" "secret" 1 2 shop after (deduplicated false) refl refl
      first_delivery cc

abbrev spent : BillingWallet
spent = record (new_wallet "w1" "t1" "u1") { balance_usd = pos 20000 }

abbrev spent_shop : Db
spent_shop = record shop {
  wallets = spent ∷ [];
  ledger = credit_entry "l1" top_up (new_wallet "w1" "t1" "u1") "pay1" (pos 50000) 1 ∷ [];
}

abbrev refund_tx : BillingTransaction
refund_tx = record {
  id = "x1";
  tenant_id = "t1";
  user_id = "u1";
  checkout_id = some "c1";
  provider = "asaas";
  external_ref = "pay1";
  plan_code = none;
  charge_kind = "refunded";
  currency = "BRL";
  amount_original = pos 2750;
  amount_usd = pos 50000;
  normalized_mrr_usd = pos 0;
  status = TransactionStatus.reversed CheckoutStatus.refunded;
  notes = "";
  created_by = "";
  occurred_at = 2;
  confirmed_at = none;
}

reverse_takes_back_example :
    let db' = reverse_checkout_credit top_up "pay1" "refunded" refund_tx 2 spent_shop in
    (v : BillingWallet) × (wallet_for_actor db' "t1" "u1" ≡ some v)
    × Reversed spent v (pos 50000)
    × (ledger_exists db' "t1" (ledger_key "pay1" "refunded") ≡ true)
unfolding ledger_exists any oldest wallet_for_actor find
reverse_takes_back_example =
    reverse_takes_back top_up "pay1" "refunded" refund_tx 2 spent_shop
      (credit_entry "l1" top_up (new_wallet "w1" "t1" "u1") "pay1" (pos 50000) 1) spent refl refl
      refl
