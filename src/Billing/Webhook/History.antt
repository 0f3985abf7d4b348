-- ===== src/Billing/Webhook/History.antt =====
-- The states that a checkout goes through over any deliveries.
use efata_777_backend_premiu.Prelude.{
  String, ◌≡◌, refl, ap, ◌⊎◌, inl, inr, Bool, true, false, Option, none, some, List, [], ◌∷◌, arith,
  str_eq, eq_iff, find, any, Bool-cases,
}
use efata_777_backend_premiu.Billing.Models.{BillingCheckout, CheckoutStatus, Db}
use efata_777_backend_premiu.Billing.Transition.Edges.{
  ◌⟶◌, ◌⟶*◌, start, move, pay_pending, pay_failed, pay_expired, expire_pending, expire_failed,
  cancel_pending, cancel_failed, cancel_expired, refund, charge_back,
}
use efata_777_backend_premiu.Billing.Transition.{is_terminal}
use efata_777_backend_premiu.Billing.Wallets.{draw}
use efata_777_backend_premiu.Billing.Webhook.{
  checkout_for_provider, checkout_has_link, checkout_has_payment, has_id, by_id, or_by_payment,
  ignore_unknown,
}
use efata_777_backend_premiu.Billing.Webhook.Status.{
  Rewrites, dispatch-Outcome, IdsDistinct, modify-IdsDistinct, find-modify,
}
use efata_777_backend_premiu.Billing.Webhook.Steps.{
  Step, stay, unknown, dispatched, Delivery, deliver, deliver-Reach, Reach_induction,
}

any_of_find :
    (q r : BillingCheckout → Bool) (xs : List BillingCheckout) (c : BillingCheckout)
    → find q xs ≡ some c
    → any r xs ≡ false
    → r c ≡ false
unfolding find any
any_of_find q r [] c h a = ground arith
any_of_find q r (x ∷ xs) c h a = ground (arith, any_of_find q r xs c)

found_by_id :
    (q : BillingCheckout → Bool) (xs : List BillingCheckout) (c : BillingCheckout)
    → IdsDistinct xs
    → find q xs ≡ some c
    → find (has_id c.id) xs ≡ some c
unfolding find
found_by_id q [] c d h = ground arith
found_by_id q (x ∷ xs) c d h = ground (
  arith,
  found_by_id q xs c d.1,
  any_of_find q (has_id x.id) xs c,
  eq_iff x.id c.id,
  eq_iff c.id x.id,
  eq_iff x.id x.id,
)

by_id-find :
    (has : String → BillingCheckout → Bool) (o : Option String) (rows : List BillingCheckout)
    (row : BillingCheckout)
    → by_id has o rows ≡ some row
    → (id : String) × (find (has id) rows ≡ some row)
unfolding by_id
by_id-find has none rows row h = cc
by_id-find has (some id) rows row h = (id, ground arith)

or_by_payment-cases :
    (o : Option BillingCheckout) (payment : Option String) (rows : List BillingCheckout)
    (row : BillingCheckout)
    → or_by_payment o payment rows ≡ some row
    → (o ≡ some row) ⊎ (by_id checkout_has_payment payment rows ≡ some row)
unfolding or_by_payment
or_by_payment-cases none payment rows row h = inr h
or_by_payment-cases (some c) payment rows row h = inl h

-- The checkout of a delivery is the one with its identifier.
pub provider-by_id :
    (db : Db) (payment link : Option String) (row : BillingCheckout)
    → IdsDistinct db.checkouts
    → checkout_for_provider db payment link ≡ some row
    → find (has_id row.id) db.checkouts ≡ some row
unfolding checkout_for_provider
provider-by_id db payment link row d h =
    elim (or_by_payment-cases (by_id checkout_has_link link db.checkouts) payment db.checkouts row
      h) [
        | inl linked ↦
            let (id, q) = by_id-find checkout_has_link link db.checkouts row linked in
            found_by_id (checkout_has_link id) db.checkouts row d q
        | inr paid ↦
            let (id, q) = by_id-find checkout_has_payment payment db.checkouts row paid in
            found_by_id (checkout_has_payment id) db.checkouts row d q
      ]

-- A step changes no checkout, or rewrites the one row that its identifier finds.
pub Step-Outcome :
    (a b : Db)
    → Step a b
    → IdsDistinct a.checkouts
    → ((b.checkouts ≡ a.checkouts) × (b.ledger ≡ a.ledger))
      ⊎ ((row new : BillingCheckout) × (find (has_id row.id) a.checkouts ≡ some row)
          × Rewrites a b row new)
unfolding ignore_unknown
Step-Outcome a b stay d = inl (refl, refl)
Step-Outcome a b (unknown event type now) d = inl (refl, refl)
Step-Outcome a b (dispatched out event type ref payment link now row dec next found decided) d =
    elim (dispatch-Outcome event type now a out dec next ref row payment (draw a) refl refl
      decided) [
        | inl same ↦ inl same
        | inr (new, r) ↦ inr (row, new, provider-by_id a payment link row d found, r)
      ]

pub Step-IdsDistinct : (a b : Db) → Step a b → IdsDistinct a.checkouts → IdsDistinct b.checkouts
Step-IdsDistinct a b s d = elim (Step-Outcome a b s d) [
  | inl (same, _) ↦ rw same d
  | inr (row, new, found, r) ↦ rw r.checkouts (modify-IdsDistinct row new a.checkouts r.same_id d)
]

no_edge_from_terminal : {s t : CheckoutStatus} → s ⟶ t → is_terminal s ≡ true → ⊥
no_edge_from_terminal pay_pending h = cc
no_edge_from_terminal pay_failed h = cc
no_edge_from_terminal pay_expired h = cc
no_edge_from_terminal expire_pending h = cc
no_edge_from_terminal expire_failed h = cc
no_edge_from_terminal cancel_pending h = cc
no_edge_from_terminal cancel_failed h = cc
no_edge_from_terminal cancel_expired h = cc
no_edge_from_terminal (refund live) h = cc (live, h)
no_edge_from_terminal (charge_back live) h = cc (live, h)

terminal_stays : {s t : CheckoutStatus} → s ⟶* t → is_terminal s ≡ true → t ≡ s
terminal_stays start h = refl
terminal_stays (move path edge) h =
    let same = terminal_stays path h in absurd (no_edge_from_terminal edge (rw same h))

-- The row of `id` is there, and its state can be reached from `s` along the diagram.
abbrev pub Follows : String → CheckoutStatus → Db → Type 0
Follows id s db =
    IdsDistinct db.checkouts
    × ((c : BillingCheckout) × (find (has_id id) db.checkouts ≡ some c) × (s ⟶* c.status))

moved_on : (s t u : CheckoutStatus) → s ⟶* t → (u ≡ t) ⊎ (t ⟶ u) → s ⟶* u
moved_on s t u path (inl same) = rw same path
moved_on s t u path (inr edge) = move path edge

pub same_row :
    (cs : List BillingCheckout) (row c : BillingCheckout) (id : String)
    → row.id ≡ id
    → find (has_id row.id) cs ≡ some row
    → find (has_id id) cs ≡ some c
    → row ≡ c
same_row cs row c id e p q = cc (ap (λ (i : String). find (has_id i) cs) e, p, q)

Step-Follows :
    (id : String) (s : CheckoutStatus) (a b : Db) → Step a b → Follows id s a → Follows id s b
Step-Follows id s a b step (d, (c, found, path)) = (
  Step-IdsDistinct a b step d,
  elim (Step-Outcome a b step d) [
    | inl (same, _) ↦ (c, rw same found, path)
    | inr (row, new, at_row, r) ↦ elim (Bool-cases (str_eq row.id id)) [
      | inl this ↦ (
        new,
        rw (r.checkouts, find-modify id row new a.checkouts r.same_id at_row, this),
        moved_on s c.status new.status path
            (rw (← same_row a.checkouts row c id ((eq_iff row.id id).0 this) at_row found) r.moved),
      )
      | inr other ↦ (
        c,
        rw (r.checkouts, find-modify id row new a.checkouts r.same_id at_row, other) found,
        path,
      )
    ]
  ],
)

-- After any deliveries a checkout is still there, and its state is one that the diagram leads to
-- from the state it had; so a refunded or charged back checkout keeps its state. Identifiers are
-- distinct at the start, as the primary key demands.
pub deliver_follows :
    (token : String) (db : Db) (ds : List Delivery) (id : String) (c : BillingCheckout)
    → IdsDistinct db.checkouts
    → find (has_id id) db.checkouts ≡ some c
    → (c' : BillingCheckout) × (find (has_id id) (deliver token db ds).checkouts ≡ some c')
      × (c.status ⟶* c'.status)
      × (is_terminal c.status ≡ true → c'.status ≡ c.status)
deliver_follows token db ds id c d found =
    let (_, (c', found', path)) =
      Reach_induction (Follows id c.status) (Step-Follows id c.status) db (deliver token db ds)
        (deliver-Reach token db ds) (d, (c, found, start)) in
    (c', found', path, terminal_stays path)
