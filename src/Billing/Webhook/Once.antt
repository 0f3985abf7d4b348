-- ===== src/Billing/Webhook/Once.antt =====
-- The credits of a checkout over any deliveries to `process_asaas_webhook`.
use efata_777_backend_premiu.Prelude.{
  ℕ, suc, ◌≤◌, String, ◌≡◌, refl, ap, sym, ◌∙◌, ◌⊎◌, inl, inr, Bool, true, false, some, List, arith,
  str_eq, eq_iff, find, Bool-cases,
}
use efata_777_backend_premiu.Billing.Models.{
  BillingCheckout, CheckoutStatus, paid, refunded, chargeback, Db,
}
use efata_777_backend_premiu.Billing.Transition.Edges.{
  ◌⟶◌, pay_pending, pay_failed, pay_expired, expire_pending, expire_failed, cancel_pending,
  cancel_failed, cancel_expired, refund, charge_back,
}
use efata_777_backend_premiu.Billing.Wallets.Credits.{credits_of}
use efata_777_backend_premiu.Billing.Webhook.{has_id}
use efata_777_backend_premiu.Billing.Webhook.Status.{Rewrites, IdsDistinct, find-modify}
use efata_777_backend_premiu.Billing.Webhook.Steps.{
  Step, Delivery, deliver, deliver-Reach, Reach_induction,
}
use efata_777_backend_premiu.Billing.Webhook.History.{Step-Outcome, Step-IdsDistinct}

-- The states in which a checkout has been paid.
abbrev pub is_settled : CheckoutStatus → Bool
is_settled paid = true
is_settled refunded = true
is_settled chargeback = true
is_settled _ = false

-- The credits that a checkout in a state may have.
abbrev pub AtMostOnce : CheckoutStatus → ℕ → Type 0
AtMostOnce s n = (n ≤ 1) × (is_settled s ≡ false → n ≡ 0)

-- Every checkout has at most one credit, and none before it is paid.
abbrev pub CreditedOnce : Db → Type 0
CreditedOnce db =
    (id : String) (c : BillingCheckout)
    → find (has_id id) db.checkouts ≡ some c
    → AtMostOnce c.status (credits_of id db)

unsettled_of_payable : {s t : CheckoutStatus} → s ⟶ t → t ≡ paid → is_settled s ≡ false
unsettled_of_payable pay_pending h = refl
unsettled_of_payable pay_failed h = refl
unsettled_of_payable pay_expired h = refl
unsettled_of_payable expire_pending h = cc
unsettled_of_payable expire_failed h = cc
unsettled_of_payable cancel_pending h = cc
unsettled_of_payable cancel_failed h = cc
unsettled_of_payable cancel_expired h = cc
unsettled_of_payable (refund live) h = cc
unsettled_of_payable (charge_back live) h = cc

settled_stays : {s t : CheckoutStatus} → s ⟶ t → is_settled t ≡ false → is_settled s ≡ false
settled_stays pay_pending h = refl
settled_stays pay_failed h = refl
settled_stays pay_expired h = refl
settled_stays expire_pending h = refl
settled_stays expire_failed h = refl
settled_stays cancel_pending h = refl
settled_stays cancel_failed h = refl
settled_stays cancel_expired h = refl
settled_stays (refund live) h = cc
settled_stays (charge_back live) h = cc

moved-AtMostOnce :
    (s t : CheckoutStatus) (n : ℕ) → (t ≡ s) ⊎ (s ⟶ t) → AtMostOnce s n → AtMostOnce t n
moved-AtMostOnce s t n (inl same) h = rw same h
moved-AtMostOnce s t n (inr edge) h = (h.0, λ u. h.1 (settled_stays edge u))

paid-AtMostOnce :
    (s t : CheckoutStatus) (n m : ℕ)
    → s ⟶ paid
    → t ≡ paid
    → m ≡ suc n
    → AtMostOnce s n
    → AtMostOnce t m
paid-AtMostOnce s t n m edge to_paid more h =
    let none_yet = h.1 (unsettled_of_payable edge refl) in (omega arith, λ u. cc (to_paid, u))

Rewrites-AtMostOnce :
    (a b : Db) (old new : BillingCheckout) (id : String)
    → Rewrites a b old new
    → AtMostOnce old.status (credits_of id a)
    → AtMostOnce new.status (credits_of id b)
Rewrites-AtMostOnce a b old new id r h = elim (r.credits id) [
  | inl kept ↦ rw kept (moved-AtMostOnce old.status new.status (credits_of id a) r.moved h)
  | inr (its, edge, to_paid, more) ↦
      paid-AtMostOnce old.status new.status (credits_of id a) (credits_of id b) edge to_paid more h
]

-- A checkout of another identifier keeps its credits.
other-credits :
    (a b : Db) (old new : BillingCheckout) (id : String)
    → Rewrites a b old new
    → str_eq old.id id ≡ false
    → credits_of id b ≡ credits_of id a
other-credits a b old new id r other = elim (r.credits id) [
  | inl kept ↦ kept
  | inr (its, _, _, _) ↦ cc ((eq_iff old.id id).1 its, other)
]

credits-same : (id : String) (a b : Db) → b.ledger ≡ a.ledger → credits_of id b ≡ credits_of id a
unfolding credits_of
credits-same id a b same = rw same

Invariant : Db → Type 0
Invariant db = IdsDistinct db.checkouts × CreditedOnce db

status_of_some : (x y : BillingCheckout) → some x ≡ some y → x.status ≡ y.status
status_of_some x y h = cc h

Rewrites-CreditedOnce :
    (a b : Db) (row new : BillingCheckout)
    → find (has_id row.id) a.checkouts ≡ some row
    → Rewrites a b row new
    → CreditedOnce a
    → CreditedOnce b
Rewrites-CreditedOnce a b row new at_row r once id c found =
    let looked = find-modify id row new a.checkouts r.same_id at_row in
    let found' = rw r.checkouts at found in
    let seen = sym looked ∙ found' in
    elim (Bool-cases (str_eq row.id id)) [
      | inl this ↦
          let same_id = (eq_iff row.id id).0 this in
          let is_new = status_of_some new c (rw this at seen) in
          rw (← is_new) (
            Rewrites-AtMostOnce a b row new id r (
              once id row
                (ap (λ (i : String). find (has_id i) a.checkouts) (sym same_id) ∙ at_row)))
      | inr other ↦ rw (other-credits a b row new id r other) (once id c (rw other at seen))
    ]

Step-Invariant : (a b : Db) → Step a b → Invariant a → Invariant b
unfolding Invariant
Step-Invariant a b step (d, once) = (
  Step-IdsDistinct a b step d,
  elim (Step-Outcome a b step d) [
    | inl (same, money) ↦
        λ id c found. rw (credits-same id a b money) (once id c (rw same at found))
    | inr (row, new, at_row, r) ↦ Rewrites-CreditedOnce a b row new at_row r once
  ],
)

-- After any deliveries, with any event identifiers, repeated or not, every checkout has at most one
-- credit in the ledger, and none while it is not paid, refunded or charged back, if this and the
-- distinctness of the identifiers held at the start.
pub deliver-CreditedOnce :
    (token : String) (db : Db) (ds : List Delivery)
    → IdsDistinct db.checkouts
    → CreditedOnce db
    → CreditedOnce (deliver token db ds)
unfolding Invariant
deliver-CreditedOnce token db ds d once =
    (Reach_induction Invariant Step-Invariant db (deliver token db ds) (deliver-Reach token db ds)
      (d, once)).1
