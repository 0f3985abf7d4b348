-- ===== src/Billing/Wallets/Credits.antt =====
-- How many credits the ledger holds for a checkout, after each wallet operation.
use efata_777_backend_premiu.Prelude.{
  ℕ, suc, String, ◌≡◌, refl, ap, ◌∙◌, ◌⊎◌, inl, inr, Bool, true, false, ◌&&◌, ◌||◌, Option, none,
  some, List, [], ◌∷◌, ◌++◌, arith, str_eq, eq_iff, count_if, if◌then◌else◌, Bool-cases,
}
use efata_777_backend_premiu.Prelude.Int.{ℤ, pos, leb_ℤ}
use efata_777_backend_premiu.Prelude.Text.{is_some_text}
use efata_777_backend_premiu.Billing.Models.{
  BillingCheckout, BillingTransaction, BillingWalletLedger, Db,
}
use efata_777_backend_premiu.Billing.Wallets.{
  get_or_create_wallet, credit_wallet, reverse_checkout_credit, reverse_found, oldest, is_credit_of,
  is_credit, ledger_exists, post_credit, credit_entry, debit_entry, next_uid, ledger_key,
}
use efata_777_backend_premiu.Billing.Wallets.Lookup.{ledger-get_or_create}

abbrev pub credits_checkout : String → BillingWalletLedger → Bool
credits_checkout id e = is_credit e.direction && is_some_text e.related_checkout_id id

unfoldable pub credits_of : String → Db → ℕ
credits_of id db = count_if (credits_checkout id) db.ledger

-- A count that stays, or that grows by one entry of the checkout `of`.
abbrev pub Grows : String → String → ℕ → ℕ → Type 0
Grows of id n m = (m ≡ n) ⊎ ((of ≡ id) × (m ≡ suc n))

-- One more entry.
credits-snoc :
    (id : String) (ledger : List BillingWalletLedger) (e : BillingWalletLedger)
    → count_if (credits_checkout id) (ledger ++ e ∷ []) ≡ (
        if credits_checkout id e
        then suc (count_if (credits_checkout id) ledger)
        else count_if (credits_checkout id) ledger)
unfolding count_if
credits-snoc id [] e = ground arith
credits-snoc id (x ∷ ledger) e = ground (arith, credits-snoc id ledger e)

credit_entry-Grows :
    (of id : String) (ledger ledger' : List BillingWalletLedger) (e : BillingWalletLedger)
    → ledger' ≡ ledger
    → e.related_checkout_id ≡ some of
    → is_credit e.direction ≡ true
    → Grows of id
        (count_if (credits_checkout id) ledger)
        (count_if (credits_checkout id) (ledger' ++ e ∷ []))
credit_entry-Grows of id ledger ledger' e same related credit =
    rw (same, credits-snoc id ledger e, related, credit)
      (elim (Bool-cases (str_eq of id)) [
        | inl its ↦ rw its (inr ((eq_iff of id).0 its, refl))
        | inr other ↦ rw other (inl refl)
      ])

Grows-if :
    (of id : String) (n : ℕ) (b : Bool) (x y : Db)
    → Grows of id n (credits_of id x)
    → Grows of id n (credits_of id y)
    → Grows of id n (credits_of id (if b then x else y))
Grows-if of id n true x y hx hy = hx
Grows-if of id n false x y hx hy = hy

-- A credit adds at most one entry, to its own checkout.
pub credit_wallet-Grows :
    (checkout : BillingCheckout) (pid : String) (amount : ℤ) (now : ℕ) (db : Db) (id : String)
    → Grows checkout.id id
        (credits_of id db)
        (credits_of id (credit_wallet checkout pid amount now db))
unfolding credits_of credit_wallet
credit_wallet-Grows checkout pid amount now db id =
    let ct = checkout.tenant_id in
    let (w, db') = get_or_create_wallet ct checkout.user_id db in
    let same = ledger-get_or_create ct checkout.user_id db in
    Grows-if checkout.id id (credits_of id db)
      (leb_ℤ amount (pos 0) || ledger_exists db' ct (ledger_key pid "credit")) db'
      (post_credit checkout pid amount now (w, db'))
      (inl (ap (count_if (credits_checkout id)) same))
      (credit_entry-Grows checkout.id id db.ledger db'.ledger
        (credit_entry (next_uid db') checkout w pid amount now) same refl refl)

reverse_found-credits :
    (o : Option BillingWalletLedger) (checkout : BillingCheckout) (pid source : String)
    (tx : BillingTransaction) (now : ℕ) (db : Db) (id : String)
    → credits_of id (reverse_found o checkout pid source tx now db) ≡ credits_of id db
unfolding credits_of reverse_found
reverse_found-credits none checkout pid source tx now db id = refl
reverse_found-credits (some original) checkout pid source tx now db id =
    let same = ledger-get_or_create checkout.tenant_id checkout.user_id db in
    let (w, db') = get_or_create_wallet checkout.tenant_id checkout.user_id db in
    credits-snoc id db'.ledger
      (debit_entry (next_uid db') checkout w pid source tx original.amount_usd now)
    ∙ ap (count_if (credits_checkout id)) same

-- A reversal adds no credit.
pub reverse-credits :
    (checkout : BillingCheckout) (pid source : String) (tx : BillingTransaction) (now : ℕ) (db : Db)
    (id : String)
    → credits_of id (reverse_checkout_credit checkout pid source tx now db) ≡ credits_of id db
unfolding reverse_checkout_credit
reverse-credits checkout pid source tx now db id =
    let o = oldest (is_credit_of checkout) db.ledger in
    elim (Bool-cases (ledger_exists db checkout.tenant_id (ledger_key pid source))) [
      | inl done ↦ rw (done, reverse_checkout_credit)
      | inr new ↦
          rw (new, reverse_checkout_credit)
            (reverse_found-credits o checkout pid source tx now db id)
    ]
