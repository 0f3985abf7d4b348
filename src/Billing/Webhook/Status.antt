-- ===== src/Billing/Webhook/Status.antt =====
-- How a delivery rewrites the checkout that it found.
use efata_777_backend_premiu.Prelude.{
  ℕ, suc, String, ◌≡◌, refl, ap, sym, ◌∙◌, ◌⊎◌, inl, inr, Bool, true, false, Option, some, List, [],
  ◌∷◌, arith, str_eq, eq_iff, find, modify_first, any, if◌then◌else◌, Bool-cases,
}
use efata_777_backend_premiu.Billing.Models.{
  BillingCheckout, BillingWebhookEvent, CheckoutStatus, TransactionStatus, state_name, Db, paid,
}
use efata_777_backend_premiu.Billing.Transition.{
  Decision, ignore, ignore_unsupported, confirm, expire, cancel, reverse, billing_transition,
}
use efata_777_backend_premiu.Billing.Transition.Edges.{◌⟶◌, transition_sound, confirm_case}
use efata_777_backend_premiu.Billing.Entitlements.{activate_entitlement, revoke_entitlement}
use efata_777_backend_premiu.Billing.Transactions.{record_transaction}
use efata_777_backend_premiu.Billing.Wallets.Credits.{
  credits_of, credit_wallet-Grows, reverse-credits,
}
use efata_777_backend_premiu.Billing.Frames.{
  SameMoney, SameMoney-trans, activate-SameMoney, revoke-SameMoney, transaction-SameMoney,
  activate-SameRequests, revoke-SameRequests, transaction-SameRequests, credit-SameRequests,
  reverse-SameRequests,
}
use efata_777_backend_premiu.Billing.Request.{Outside}
use efata_777_backend_premiu.Billing.Webhook.{
  Applied, charge_kind_of, confirm_checkout, end_checkout, reverse_checkout, finish_webhook,
  ignore_webhook_event, dispatch, with_payment, has_id,
}

-- The credits of `id` stay, or `old` is its checkout, which is paid now and gets one credit.
abbrev pub PaidOnce : BillingCheckout → BillingCheckout → String → ℕ → ℕ → Type 0
PaidOnce old new id n m =
    (m ≡ n) ⊎ ((old.id ≡ id) × (old.status ⟶ paid) × (new.status ≡ paid) × (m ≡ suc n))

-- The checkouts of `b` are those of `a` with the row `old` replaced by `new`, which has the same
-- identifier, and whose state is the same or one edge further.
pub record Rewrites (a b : Db) (old new : BillingCheckout) : Type 0 where
  pub checkouts : b.checkouts ≡ modify_first (has_id old.id) (λ _. new) a.checkouts
  pub same_id : new.id ≡ old.id
  pub moved : (new.status ≡ old.status) ⊎ (old.status ⟶ new.status)
  pub credits : (id : String) → PaidOnce old new id (credits_of id a) (credits_of id b)

-- The checkout that a branch works on, after it set the state and the times.
record Sets (row : BillingCheckout) (next : CheckoutStatus) (db : Db) (a : Applied) : Type 0 where
  id : a.0.id ≡ row.id
  status : a.0.status ≡ next
  rows : a.1.checkouts ≡ db.checkouts
  credits :
      (i : String)
      → (credits_of i a.1 ≡ credits_of i db)
        ⊎ ((row.id ≡ i) × (next ≡ paid) × (credits_of i a.1 ≡ suc (credits_of i db)))

credits-ledger : (id : String) (a b : Db) → a.ledger ≡ b.ledger → credits_of id a ≡ credits_of id b
unfolding credits_of
credits-ledger id a b same = rw same

credits-SameMoney : (id : String) {a b : Db} → SameMoney a b → credits_of id b ≡ credits_of id a
unfolding credits_of
credits-SameMoney id same = rw same.ledger

module _ (next : CheckoutStatus) (now : ℕ) (row : BillingCheckout) (db : Db) where
  confirm_checkout-Sets :
      (ref : String) → next ≡ paid → Sets row next db (confirm_checkout next ref now row db)
  unfolding confirm_checkout
  confirm_checkout-Sets ref to_paid =
      let checkout = record row { status = next; confirmed_at = some now } in
      let active = activate_entitlement checkout now db in
      let kind = charge_kind_of row.checkout_kind in
      let recorded =
        (record_transaction checkout ref TransactionStatus.confirmed kind now active).1 in
      let money =
        SameMoney-trans (activate-SameMoney checkout now db)
          (transaction-SameMoney checkout now active ref TransactionStatus.confirmed kind) in
      record {
        id = refl;
        status = refl;
        rows =
            (credit-SameRequests checkout now recorded ref
              row.metadata_json.included_credit_usd).checkouts
            ∙ (transaction-SameRequests checkout now active ref TransactionStatus.confirmed
                kind).checkouts
            ∙ (activate-SameRequests checkout now db).checkouts;
        credits = λ i.
            elim (credit_wallet-Grows checkout ref row.metadata_json.included_credit_usd now
              recorded i) [
                | inl same ↦ inl (same ∙ credits-SameMoney i money)
                | inr (its, more) ↦ inr (its, to_paid, more ∙ ap suc (credits-SameMoney i money))
              ];
      }

  end_checkout-Sets : (action : String) → Sets row next db (end_checkout next action now row db)
  unfolding end_checkout
  end_checkout-Sets action = record {
    id = refl;
    status = refl;
    rows = (revoke-SameRequests (record row { status = next }) now db next).checkouts;
    credits = λ i.
        inl (credits-SameMoney i (revoke-SameMoney (record row { status = next }) now db next));
  }

  reverse_checkout-Sets : (ref : String) → Sets row next db (reverse_checkout next ref now row db)
  unfolding reverse_checkout
  reverse_checkout-Sets ref =
      let checkout = record row { status = next; reversed_at = some now } in
      let revoked = revoke_entitlement checkout next now db in
      let status = TransactionStatus.reversed next in
      let (tx, recorded) = record_transaction checkout ref status (state_name next) now revoked in
      record {
        id = refl;
        status = refl;
        rows =
            (reverse-SameRequests checkout now recorded ref (state_name next) tx).checkouts
            ∙ (transaction-SameRequests checkout now revoked ref status (state_name next)).checkouts
            ∙ (revoke-SameRequests checkout now db next).checkouts;
        credits = λ i. inl (
            reverse-credits checkout ref (state_name next) tx now recorded i
            ∙ credits-SameMoney i (
                SameMoney-trans (revoke-SameMoney checkout now db next)
                  (transaction-SameMoney checkout now revoked ref status (state_name next))));
      }

-- What a delivery can do to the checkouts: nothing, or one rewriting of `row`.
abbrev pub Outcome : Db → Db → BillingCheckout → Type 0
Outcome a b row =
    ((b.checkouts ≡ a.checkouts) × (b.ledger ≡ a.ledger))
    ⊎ ((new : BillingCheckout) × Rewrites a b row new)

module _ (event : BillingWebhookEvent) (type : String) (now : ℕ) (start : Db) where
  finish-Outcome :
      (conflict : Bool) (payment : Option String) (row : BillingCheckout) (next : CheckoutStatus)
      (db : Db) (a : Applied)
      → db.checkouts ≡ start.checkouts
      → db.ledger ≡ start.ledger
      → Sets (with_payment payment row) next db a
      → row.status ⟶ next
      → Outcome start (finish_webhook conflict event type now start a).1 row
  unfolding finish_webhook credits_of
  finish-Outcome true payment row next db a same money sets edge = inl (refl, refl)
  finish-Outcome false payment row next db (new, db', action) same money sets edge = inr (
    record new { updated_at = now },
    record {
      checkouts = rw (sets.rows, same, sets.id);
      same_id = sets.id;
      moved = inr (rw sets.status edge);
      credits = λ i. elim (sets.credits i) [
        | inl kept ↦ inl (kept ∙ credits-ledger i db start money)
        | inr (its, to_paid, more) ↦ inr (
          its,
          rw (← to_paid) edge,
          sets.status ∙ to_paid,
          more ∙ ap suc (credits-ledger i db start money),
        )
      ];
    },
  )

  ignore-Outcome :
      (row : BillingCheckout) (payment : Option String) (reason : String) (db : Db)
      → db.checkouts ≡ start.checkouts
      → db.ledger ≡ start.ledger
      → Outcome start
          (ignore_webhook_event event (with_payment payment row) type reason now db).1
          row
  unfolding ignore_webhook_event credits_of
  ignore-Outcome row payment reason db same money = inr (
    with_payment payment row,
    record {
      checkouts = rw same;
      same_id = refl;
      moved = inl refl;
      credits = λ i. inl (credits-ledger i db start money);
    },
  )

  pub dispatch-Outcome :
      (out : Outside) (d : Decision) (next : CheckoutStatus) (ref : String) (row : BillingCheckout)
      (payment : Option String) (db : Db)
      → db.checkouts ≡ start.checkouts
      → db.ledger ≡ start.ledger
      → billing_transition row.status type ≡ (d, next)
      → Outcome start
          (dispatch d next ref out event type now start (with_payment payment row) db).1
          row
  unfolding dispatch
  dispatch-Outcome out ignore next ref row payment db same money decided =
      ignore-Outcome row payment _ db same money
  dispatch-Outcome out ignore_unsupported next ref row payment db same money decided =
      ignore-Outcome row payment _ db same money
  dispatch-Outcome out confirm next ref row payment db same money decided =
      let c = with_payment payment row in
      finish-Outcome out.commit_conflict payment row next db (confirm_checkout next ref now c db)
        same money
        (confirm_checkout-Sets next now c db ref (confirm_case row.status next type decided).0)
        (transition_sound row.status next type confirm decided tt)
  dispatch-Outcome out expire next ref row payment db same money decided =
      let c = with_payment payment row in
      finish-Outcome out.commit_conflict payment row next db (end_checkout next _ now c db) same
        money (end_checkout-Sets next now c db _)
        (transition_sound row.status next type expire decided tt)
  dispatch-Outcome out cancel next ref row payment db same money decided =
      let c = with_payment payment row in
      finish-Outcome out.commit_conflict payment row next db (end_checkout next _ now c db) same
        money (end_checkout-Sets next now c db _)
        (transition_sound row.status next type cancel decided tt)
  dispatch-Outcome out reverse next ref row payment db same money decided =
      let c = with_payment payment row in
      finish-Outcome out.commit_conflict payment row next db (reverse_checkout next ref now c db)
        same money (reverse_checkout-Sets next now c db ref)
        (transition_sound row.status next type reverse decided tt)

-- Identifiers are a primary key.
abbrev pub IdsDistinct : List BillingCheckout → Type 0
IdsDistinct [] = Unit
IdsDistinct (c ∷ cs) = (any (has_id c.id) cs ≡ false) × IdsDistinct cs

any-modify :
    (id : String) (old new : BillingCheckout) (cs : List BillingCheckout)
    → new.id ≡ old.id
    → any (has_id id) (modify_first (has_id old.id) (λ _. new) cs) ≡ any (has_id id) cs
unfolding any modify_first
any-modify id old new [] e = refl
any-modify id old new (c ∷ cs) e =
    ground (arith, any-modify id old new cs e, eq_iff c.id old.id, eq_iff c.id id, eq_iff new.id id)

pub modify-IdsDistinct :
    (old new : BillingCheckout) (cs : List BillingCheckout)
    → new.id ≡ old.id
    → IdsDistinct cs
    → IdsDistinct (modify_first (has_id old.id) (λ _. new) cs)
unfolding modify_first
modify-IdsDistinct old new [] e h = tt
modify-IdsDistinct old new (c ∷ cs) e h = elim (Bool-cases (has_id old.id c)) [
  | inl hit ↦ rw hit (rw (e ∙ sym ((eq_iff c.id old.id).0 hit)) h.0, h.1)
  | inr miss ↦ rw miss (any-modify c.id old new cs e ∙ h.0, modify-IdsDistinct old new cs e h.1)
]

-- What a query by identifier finds after a rewriting.
pub find-modify :
    (id : String) (old new : BillingCheckout) (cs : List BillingCheckout)
    → new.id ≡ old.id
    → find (has_id old.id) cs ≡ some old
    → find (has_id id) (modify_first (has_id old.id) (λ _. new) cs)
      ≡ (if str_eq old.id id then some new else find (has_id id) cs)
unfolding find modify_first
find-modify id old new [] e h = ground arith
find-modify id old new (c ∷ cs) e h = ground (
  arith,
  find-modify id old new cs e,
  eq_iff c.id old.id,
  eq_iff c.id id,
  eq_iff new.id id,
  eq_iff old.id id,
)
