-- ===== src/Billing/Wallets/Preservation.antt =====
-- Double entry, for credits and reversals.
use efata_777_backend_premiu.Prelude.{
  ℕ, String, ◌≡◌, refl, Bool, true, false, ◌||◌, Option, none, some, arith, Bool-cases, inl, inr,
  ◌∙◌, if◌then◌else◌,
}
use efata_777_backend_premiu.Prelude.Int.{ℤ, pos, ◌+ℤ◌, ◌-ℤ◌, ◌≤ℤ◌, leb_ℤ, int_laws, min_ℤ, ltb_ℤ}
use efata_777_backend_premiu.Billing.Models.{
  BillingCheckout, BillingTransaction, BillingWallet, BillingWalletLedger, Db,
}
use efata_777_backend_premiu.Billing.Repository.{wallet_for_actor}
use efata_777_backend_premiu.Billing.Wallets.{
  get_or_create_wallet, credit_wallet, reverse_checkout_credit, reverse_found, oldest, is_credit_of,
  credited, credit_entry, debited, debit_entry, ledger_exists, ledger_key, post_credit, next_uid,
  quarantine, take_back,
}
use efata_777_backend_premiu.Billing.Wallets.Lookup.{
  wallet_for_actor-get_or_create, same_actor_refl,
}
use efata_777_backend_premiu.Billing.Wallets.Books.{
  IsBalanced, Keeps, Posts, post-IsBalanced, get_or_create-IsBalanced,
}

-- The books of every actor are balanced.
abbrev pub Balanced : Db → Type 0
Balanced db = (t u : String) → IsBalanced db t u

pub created_is_found :
    (t u : String) (db : Db)
    → wallet_for_actor (get_or_create_wallet t u db).1 t u ≡ some (get_or_create_wallet t u db).0
created_is_found t u db = rw (wallet_for_actor-get_or_create t u t u db, same_actor_refl t u)

found_nonneg :
    (db : Db) (t u : String) (w : BillingWallet)
    → wallet_for_actor db t u ≡ some w
    → IsBalanced db t u
    → pos 0 ≤ℤ w.balance_usd
found_nonneg db t u w found h = (rw found at h).nonneg

credited-Posts :
    (id : String) (checkout : BillingCheckout) (w : BillingWallet) (pid : String) (amount : ℤ)
    (now : ℕ)
    → pos 0 ≤ℤ w.balance_usd
    → leb_ℤ amount (pos 0) ≡ false
    → Posts (credited amount) w (credit_entry id checkout w pid amount now)
credited-Posts id checkout w pid amount now nonneg positive = record {
  credits = refl;
  debits = grind int_laws;
  balance = grind int_laws;
  quarantined = grind int_laws;
  nonneg = grind int_laws;
}

pub quarantine_columns :
    (s : ℤ) (w : BillingWallet)
    → let v = quarantine s w in
      (v.tenant_id ≡ w.tenant_id)
      × (v.user_id ≡ w.user_id)
      × (v.lifetime_credited_usd ≡ w.lifetime_credited_usd)
      × (v.lifetime_debited_usd ≡ w.lifetime_debited_usd)
      × (v.balance_usd ≡ w.balance_usd)
unfolding quarantine
quarantine_columns s w = ground arith

pub quarantined-quarantine :
    (s : ℤ) (w : BillingWallet)
    → pos 0 ≤ℤ s
    → (quarantine s w).quarantined_usd ≡ w.quarantined_usd +ℤ s
unfolding quarantine
quarantined-quarantine s w h = elim (Bool-cases (ltb_ℤ (pos 0) s)) [
  | inl more ↦ rw more
  | inr zero ↦ rw zero (grind int_laws)
]

-- What is taken back is at most the balance and at most the target.
pub min_bounds : (a b : ℤ) → (min_ℤ a b ≤ℤ a) × (pos 0 ≤ℤ (b -ℤ min_ℤ a b))
min_bounds a b = grind int_laws

pub plus_zero : (a : ℤ) → a ≡ a +ℤ pos 0
plus_zero a = grind int_laws

pub taken_back : (a b : ℤ) → (a -ℤ b) +ℤ b ≡ a +ℤ pos 0
taken_back a b = grind int_laws

rest_nonneg : (a b : ℤ) → b ≤ℤ a → pos 0 ≤ℤ (a -ℤ b)
rest_nonneg a b h = grind int_laws

debited-Posts :
    (id : String) (checkout : BillingCheckout) (w : BillingWallet) (pid source : String)
    (tx : BillingTransaction) (target : ℤ) (now : ℕ)
    → Posts (debited target) w (debit_entry id checkout w pid source tx target now)
unfolding debited
debited-Posts id checkout w pid source tx target now =
    let actual : ℤ = min_ℤ w.balance_usd target in
    let (_, _, c, d, b) = quarantine_columns (target -ℤ actual) (take_back actual w) in
    let (within, rest) = min_bounds w.balance_usd target in
    record {
      credits = c ∙ plus_zero w.lifetime_credited_usd;
      debits = d;
      balance = rw b (taken_back w.balance_usd actual);
      quarantined = quarantined-quarantine (target -ℤ actual) (take_back actual w) rest;
      nonneg = rw b (rest_nonneg w.balance_usd actual within);
    }

by_test :
    (b : Bool) (x y : Db) (t u : String)
    → (b ≡ true → IsBalanced x t u)
    → (b ≡ false → IsBalanced y t u)
    → IsBalanced (if b then x else y) t u
by_test true x y t u hx hy = hx refl
by_test false x y t u hx hy = hy refl

or_false_left : (a b : Bool) → (a || b) ≡ false → a ≡ false
or_false_left a b h = ground arith

-- A credit keeps the books of every actor balanced.
pub credit_wallet-Balanced :
    (checkout : BillingCheckout) (pid : String) (amount : ℤ) (now : ℕ) (db : Db)
    → Balanced db
    → Balanced (credit_wallet checkout pid amount now db)
unfolding credit_wallet
credit_wallet-Balanced checkout pid amount now db h t u =
    let ct = checkout.tenant_id in
    let cu = checkout.user_id in
    let (w, db') = get_or_create_wallet ct cu db in
    let kept = λ (a b : String). get_or_create-IsBalanced ct cu a b db (h a b) in
    let found = created_is_found ct cu db in
    by_test (leb_ℤ amount (pos 0) || ledger_exists db' ct (ledger_key pid "credit")) db'
      (post_credit checkout pid amount now (w, db')) t u (λ _. kept t u)
      (λ e.
        post-IsBalanced (credited amount) (credit_entry (next_uid db') checkout w pid amount now)
          db' w t u found (λ v. (refl, refl))
          (credited-Posts (next_uid db') checkout w pid amount now
            (found_nonneg db' ct cu w found (kept ct cu)) (or_false_left _ _ e))
          (kept t u))

pub debited-Keeps : (target : ℤ) → Keeps (debited target)
unfolding debited
debited-Keeps target w =
    let actual : ℤ = min_ℤ w.balance_usd target in
    let (t, u, _, _, _) = quarantine_columns (target -ℤ actual) (take_back actual w) in (t, u)

reverse_found-Balanced :
    (o : Option BillingWalletLedger) (checkout : BillingCheckout) (pid source : String)
    (tx : BillingTransaction) (now : ℕ) (db : Db)
    → Balanced db
    → Balanced (reverse_found o checkout pid source tx now db)
unfolding reverse_found
reverse_found-Balanced none checkout pid source tx now db h t u = h t u
reverse_found-Balanced (some original) checkout pid source tx now db h t u =
    let ct = checkout.tenant_id in
    let cu = checkout.user_id in
    let (w, db') = get_or_create_wallet ct cu db in
    post-IsBalanced (debited original.amount_usd)
      (debit_entry (next_uid db') checkout w pid source tx original.amount_usd now) db' w t u
      (created_is_found ct cu db) (debited-Keeps original.amount_usd)
      (debited-Posts (next_uid db') checkout w pid source tx original.amount_usd now)
      (get_or_create-IsBalanced ct cu t u db (h t u))

-- A reversal keeps the books of every actor balanced.
pub reverse_checkout_credit-Balanced :
    (checkout : BillingCheckout) (pid source : String) (tx : BillingTransaction) (now : ℕ) (db : Db)
    → Balanced db
    → Balanced (reverse_checkout_credit checkout pid source tx now db)
unfolding reverse_checkout_credit
reverse_checkout_credit-Balanced checkout pid source tx now db h t u =
    let found = oldest (is_credit_of checkout) db.ledger in
    by_test (ledger_exists db checkout.tenant_id (ledger_key pid source)) db
      (reverse_found found checkout pid source tx now db) t u (λ _. h t u)
      (λ _. reverse_found-Balanced found checkout pid source tx now db h t u)
