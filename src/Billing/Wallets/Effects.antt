-- ===== src/Billing/Wallets/Effects.antt =====
-- What a credit and a reversal do to the wallet of the actor, branch by branch.
use efata_777_backend_premiu.Prelude.{
  ℕ, String, ◌≡◌, refl, ap, sym, ◌∙◌, inl, inr, Bool, true, false, ◌||◌, ◌&&◌, some, List, [], ◌∷◌,
  ◌++◌, arith, str_eq, eq_refl, any, if◌then◌else◌, Bool-cases, Option-cases,
}
use efata_777_backend_premiu.Prelude.Int.{ℤ, pos, ◌+ℤ◌, ◌-ℤ◌, leb_ℤ, ltb_ℤ, min_ℤ}
use efata_777_backend_premiu.Billing.Models.{
  BillingCheckout, BillingTransaction, BillingWallet, BillingWalletLedger, WalletStatus, Db,
}
use efata_777_backend_premiu.Billing.Repository.{wallet_for_actor}
use efata_777_backend_premiu.Billing.Wallets.{
  get_or_create_wallet, credit_wallet, post_credit, credited, credit_entry, set_wallet, add_entry,
  ledger_exists, ledger_key, next_uid, new_wallet, reverse_checkout_credit, reverse_found, oldest,
  is_credit_of, debited, debit_entry, quarantine, take_back,
}
use efata_777_backend_premiu.Billing.Wallets.Lookup.{
  wallet_for_actor-set_wallet, same_actor_refl, ledger-get_or_create,
}
use efata_777_backend_premiu.Billing.Wallets.Books.{column, wallet_for_actor-add_entry}
use efata_777_backend_premiu.Billing.Wallets.Preservation.{
  created_is_found, debited-Keeps, quarantine_columns, quarantined-quarantine, min_bounds,
  taken_back, plus_zero,
}

any-append :
    (p : BillingWalletLedger → Bool) (xs : List BillingWalletLedger) (e : BillingWalletLedger)
    → p e ≡ true
    → any p (xs ++ e ∷ []) ≡ true
unfolding any
any-append p [] e h = rw h
any-append p (x ∷ xs) e h = ground (arith, any-append p xs e h)

get_or_create_existing :
    (t u : String) (db : Db) (w : BillingWallet)
    → wallet_for_actor db t u ≡ some w
    → get_or_create_wallet t u db ≡ (w, db)
unfolding get_or_create_wallet
get_or_create_existing t u db w found = rw (found, get_or_create_wallet)

-- After the assignment `f` and a new entry, the actor's wallet is the old one under `f`.
posted_wallet :
    (t u : String) (f : BillingWallet → BillingWallet) (e : BillingWalletLedger) (db : Db)
    (w : BillingWallet)
    → ((v : BillingWallet) → ((f v).tenant_id ≡ v.tenant_id) × ((f v).user_id ≡ v.user_id))
    → wallet_for_actor db t u ≡ some w
    → wallet_for_actor (add_entry e (set_wallet t u f db)) t u ≡ some (f w)
posted_wallet t u f e db w keep found = rw (
  wallet_for_actor-add_entry e (set_wallet t u f db) t u,
  wallet_for_actor-set_wallet t u t u f db keep,
  same_actor_refl t u,
  found,
)

new_or_found :
    (f : BillingWallet → ℤ) (t u : String) (db : Db)
    → ((id : String) → f (new_wallet id t u) ≡ pos 0)
    → f (get_or_create_wallet t u db).0 ≡ column f (wallet_for_actor db t u)
unfolding get_or_create_wallet
new_or_found f t u db zero = elim (Option-cases (wallet_for_actor db t u)) [
  | inl missing ↦ rw (missing, get_or_create_wallet) (zero (next_uid db))
  | inr (w, found) ↦ rw (found, get_or_create_wallet)
]

exists-get_or_create :
    (t u key : String) (db : Db)
    → ledger_exists (get_or_create_wallet t u db).1 t key ≡ ledger_exists db t key
unfolding ledger_exists
exists-get_or_create t u key db = rw (ledger-get_or_create t u db)

credit_is_posted :
    (checkout : BillingCheckout) (pid : String) (amount : ℤ) (now : ℕ) (db : Db)
    → leb_ℤ amount (pos 0) ≡ false
    → ledger_exists db checkout.tenant_id (ledger_key pid "credit") ≡ false
    → credit_wallet checkout pid amount now db
      ≡ post_credit checkout pid amount now
          (get_or_create_wallet checkout.tenant_id checkout.user_id db)
unfolding credit_wallet
credit_is_posted checkout pid amount now db positive fresh = rw (
  credit_wallet,
  positive,
  exists-get_or_create checkout.tenant_id checkout.user_id (ledger_key pid "credit") db,
  fresh,
)

posted_is_recorded :
    (e : BillingWalletLedger) (t u : String) (f : BillingWallet → BillingWallet) (db : Db)
    → ledger_exists (add_entry e (set_wallet t u f db)) e.tenant_id e.idempotency_key ≡ true
unfolding ledger_exists
posted_is_recorded e t u f db =
    any-append (λ x. str_eq x.tenant_id e.tenant_id && str_eq x.idempotency_key e.idempotency_key)
      db.ledger e (rw (eq_refl e.tenant_id) (eq_refl e.idempotency_key))

-- A positive amount for a payment that has no entry yet raises the balance of the actor's wallet,
-- which is created where it is missing, by that amount, and the ledger then has the payment's entry.
pub credit_wallet_posts :
    (checkout : BillingCheckout) (pid : String) (amount : ℤ) (now : ℕ) (db : Db)
    → leb_ℤ amount (pos 0) ≡ false
    → ledger_exists db checkout.tenant_id (ledger_key pid "credit") ≡ false
    → let db' = credit_wallet checkout pid amount now db in
      let before = wallet_for_actor db checkout.tenant_id checkout.user_id in
      (w : BillingWallet) × (wallet_for_actor db' checkout.tenant_id checkout.user_id ≡ some w)
      × (w.balance_usd ≡ column (λ v. v.balance_usd) before +ℤ amount)
      × (ledger_exists db' checkout.tenant_id (ledger_key pid "credit") ≡ true)
credit_wallet_posts checkout pid amount now db positive fresh =
    let t = checkout.tenant_id in
    let u = checkout.user_id in
    let (w, db1) = get_or_create_wallet t u db in
    let e = credit_entry (next_uid db1) checkout w pid amount now in
    let posted = credit_is_posted checkout pid amount now db positive fresh in
    (
      credited amount w,
      rw posted (
          unfold post_credit in
          posted_wallet t u (credited amount) e db1 w (λ v. (refl, refl))
            (created_is_found t u db)),
      ap (λ (b : ℤ). b +ℤ amount) (new_or_found (λ v. v.balance_usd) t u db (λ id. refl)),
      rw posted (unfold post_credit in posted_is_recorded e t u (credited amount) db1),
    )

settled_credit :
    (checkout : BillingCheckout) (pid : String) (amount : ℤ) (now : ℕ) (db : Db) (w : BillingWallet)
    → wallet_for_actor db checkout.tenant_id checkout.user_id ≡ some w
    → ledger_exists db checkout.tenant_id (ledger_key pid "credit") ≡ true
    → credit_wallet checkout pid amount now db ≡ db
unfolding credit_wallet
settled_credit checkout pid amount now db w found posted =
    rw
      (credit_wallet, get_or_create_existing checkout.tenant_id checkout.user_id db w found, posted)
      (same_either (leb_ℤ amount (pos 0)))
  where
    same_either :
        (b : Bool) → (if b || true then db else post_credit checkout pid amount now (w, db)) ≡ db
    same_either true = refl
    same_either false = refl

skipped_credit :
    (checkout : BillingCheckout) (pid : String) (amount : ℤ) (now : ℕ) (db : Db)
    → leb_ℤ amount (pos 0) ≡ false
    → ledger_exists db checkout.tenant_id (ledger_key pid "credit") ≡ true
    → credit_wallet checkout pid amount now db
      ≡ (get_or_create_wallet checkout.tenant_id checkout.user_id db).1
unfolding credit_wallet
skipped_credit checkout pid amount now db positive known = rw (
  credit_wallet,
  positive,
  exists-get_or_create checkout.tenant_id checkout.user_id (ledger_key pid "credit") db,
  known,
)

-- Once a payment has been credited by a positive amount, crediting it again, by any amount and at any
-- time, changes nothing.
credit_wallet_once :
    (checkout : BillingCheckout) (pid : String) (amount amount' : ℤ) (now now' : ℕ) (db : Db)
    → leb_ℤ amount (pos 0) ≡ false
    → let db' = credit_wallet checkout pid amount now db in
      credit_wallet checkout pid amount' now' db' ≡ db'
credit_wallet_once checkout pid amount amount' now now' db positive =
    let t = checkout.tenant_id in
    let u = checkout.user_id in
    let (w, db1) = get_or_create_wallet t u db in
    elim (Bool-cases (ledger_exists db t (ledger_key pid "credit"))) [
      | inl known ↦ rw (skipped_credit checkout pid amount now db positive known) (
          settled_credit checkout pid amount' now' db1 w (created_is_found t u db)
            (exists-get_or_create t u (ledger_key pid "credit") db ∙ known))
      | inr fresh ↦
          let (v, found, _, posted) =
            credit_wallet_posts checkout pid amount now db positive fresh in
          settled_credit checkout pid amount' now' (credit_wallet checkout pid amount now db) v
            found posted
    ]

-- The reversal of a wallet.
pub record Reversed (w v : BillingWallet) (target : ℤ) : Type 0 where
  pub balance : (v.balance_usd +ℤ min_ℤ w.balance_usd target) ≡ w.balance_usd
  pub debits : v.lifetime_debited_usd ≡ w.lifetime_debited_usd +ℤ min_ℤ w.balance_usd target
  pub shortfall : v.quarantined_usd ≡ w.quarantined_usd +ℤ (target -ℤ min_ℤ w.balance_usd target)
  pub status :
      v.status ≡ (if ltb_ℤ w.balance_usd target then WalletStatus.quarantined else w.status)

short_iff : (a b : ℤ) → ltb_ℤ (pos 0) (b -ℤ min_ℤ a b) ≡ ltb_ℤ a b
unfolding ◌-ℤ◌
short_iff a b = ground arith

status-quarantine :
    (s : ℤ) (w : BillingWallet)
    → (quarantine s w).status ≡ (if ltb_ℤ (pos 0) s then WalletStatus.quarantined else w.status)
unfolding quarantine
status-quarantine s w = elim (Bool-cases (ltb_ℤ (pos 0) s)) [ inl e ↦ rw e | inr e ↦ rw e ]

debited-Reversed : (w : BillingWallet) (target : ℤ) → Reversed w (debited target w) target
unfolding debited
debited-Reversed w target =
    let actual : ℤ = min_ℤ w.balance_usd target in
    let (_, _, _, d, b) = quarantine_columns (target -ℤ actual) (take_back actual w) in
    let (_, rest) = min_bounds w.balance_usd target in
    record {
      balance = rw b (taken_back w.balance_usd actual ∙ sym (plus_zero w.balance_usd));
      debits = d;
      shortfall = quarantined-quarantine (target -ℤ actual) (take_back actual w) rest;
      status =
          status-quarantine (target -ℤ actual) (take_back actual w)
          ∙ ap (λ (b : Bool). if b then WalletStatus.quarantined else w.status)
              (short_iff w.balance_usd target);
    }

-- The first reversal of a payment whose checkout has been credited takes back what the balance
-- covers of the credit that was posted first: balance and debits move by that amount, the rest is
-- added to the quarantined amount, the wallet is quarantined exactly if there is a rest, and the
-- reversal's key is in the ledger.
pub reverse_takes_back :
    (checkout : BillingCheckout) (pid source : String) (tx : BillingTransaction) (now : ℕ) (db : Db)
    (original : BillingWalletLedger) (w : BillingWallet)
    → ledger_exists db checkout.tenant_id (ledger_key pid source) ≡ false
    → oldest (is_credit_of checkout) db.ledger ≡ some original
    → wallet_for_actor db checkout.tenant_id checkout.user_id ≡ some w
    → let db' = reverse_checkout_credit checkout pid source tx now db in
      (v : BillingWallet) × (wallet_for_actor db' checkout.tenant_id checkout.user_id ≡ some v)
      × Reversed w v original.amount_usd
      × (ledger_exists db' checkout.tenant_id (ledger_key pid source) ≡ true)
unfolding reverse_checkout_credit reverse_found
reverse_takes_back checkout pid source tx now db original w fresh first found =
    let t = checkout.tenant_id in
    let u = checkout.user_id in
    let e = debit_entry (next_uid db) checkout w pid source tx original.amount_usd now in
    let there = get_or_create_existing t u db w found in
    (
      debited original.amount_usd w,
      rw (reverse_checkout_credit, fresh, first, there)
          (posted_wallet t u (debited original.amount_usd) e db w
            (debited-Keeps original.amount_usd) found),
      debited-Reversed w original.amount_usd,
      rw (reverse_checkout_credit, fresh, first, there)
          (posted_is_recorded e t u (debited original.amount_usd) db),
    )
