-- ===== src/Billing/Wallets/Books.antt =====
-- Double entry: the columns of a wallet and the sums of its actor's ledger entries.
use efata_777_backend_premiu.Prelude.{
  String, ◌≡◌, refl, Bool, true, false, Option, none, some, List, [], ◌∷◌, ◌++◌, if◌then◌else◌,
  Bool-cases, Option-cases, ◌∙◌, inl, inr,
}
use efata_777_backend_premiu.Prelude.Int.{ℤ, pos, ◌+ℤ◌, ◌≤ℤ◌, int_laws}
use efata_777_backend_premiu.Billing.Models.{BillingWallet, BillingWalletLedger, Direction, Db}
use efata_777_backend_premiu.Billing.Repository.{wallet_for_actor}
use efata_777_backend_premiu.Billing.Wallets.{
  get_or_create_wallet, set_wallet, add_entry, is_credit, new_wallet, next_uid,
}
use efata_777_backend_premiu.Billing.Wallets.Lookup.{
  same_actor, wallet_for_actor-set_wallet, wallet_for_actor-get_or_create, ledger-get_or_create,
  same_actor-eq,
}

-- The columns of a wallet that may be missing, whose columns are then zero.
abbrev pub column : (BillingWallet → ℤ) → Option BillingWallet → ℤ
column f none = pos 0
column f (some w) = f w

-- What a ledger entry adds to each column.
abbrev pub credit_part : BillingWalletLedger → ℤ
credit_part e = if is_credit e.direction then e.amount_usd else pos 0

abbrev pub is_debit : Direction → Bool
is_debit Direction.debit = true
is_debit _ = false

abbrev pub debit_part : BillingWalletLedger → ℤ
debit_part e = if is_debit e.direction then e.amount_usd else pos 0

abbrev pub unrecovered_part : BillingWalletLedger → ℤ
unrecovered_part e = elim e.unrecovered_usd [ none ↦ pos 0 | some x ↦ x ]

-- The sum of a part over the entries of one actor.
unfoldable pub total : (BillingWalletLedger → ℤ) → String → String → List BillingWalletLedger → ℤ
total f t u [] = pos 0
total f t u (e ∷ es) =
    let rest = total f t u es in if same_actor e.tenant_id e.user_id t u then f e +ℤ rest else rest

-- A wallet, or its absence, agrees with the sums of what was credited, debited and not recovered,
-- and its balance is not negative.
pub record Agrees (o : Option BillingWallet) (c d q : ℤ) : Type 0 where
  pub credits : column (λ w. w.lifetime_credited_usd) o ≡ c
  pub debits : column (λ w. w.lifetime_debited_usd) o ≡ d
  pub balance : column (λ w. w.balance_usd) o +ℤ d ≡ c
  pub quarantined : column (λ w. w.quarantined_usd) o ≡ q
  pub nonneg : pos 0 ≤ℤ column (λ w. w.balance_usd) o

-- The wallet of the actor agrees with the ledger.
abbrev pub IsBalanced : Db → String → String → Type 0
IsBalanced db t u =
    Agrees (wallet_for_actor db t u) (total credit_part t u db.ledger)
      (total debit_part t u db.ledger) (total unrecovered_part t u db.ledger)

total-snoc :
    (f : BillingWalletLedger → ℤ) (t u : String) (es : List BillingWalletLedger)
    (e : BillingWalletLedger)
    → total f t u (es ++ e ∷ [])
      ≡ (if same_actor e.tenant_id e.user_id t u then total f t u es +ℤ f e else total f t u es)
unfolding total
total-snoc f t u [] e = grind int_laws
total-snoc f t u (x ∷ es) e = grind (int_laws, total-snoc f t u es e)

pub wallet_for_actor-add_entry :
    (e : BillingWalletLedger) (db : Db) (t u : String)
    → wallet_for_actor (add_entry e db) t u ≡ wallet_for_actor db t u
unfolding wallet_for_actor
wallet_for_actor-add_entry e db t u = refl

abbrev pub Keeps : (BillingWallet → BillingWallet) → Type 0
Keeps f = (w : BillingWallet) → ((f w).tenant_id ≡ w.tenant_id) × ((f w).user_id ≡ w.user_id)

-- The assignment `f` does to the columns of `w` what the entry `e` says.
pub record Posts (f : BillingWallet → BillingWallet) (w : BillingWallet) (e : BillingWalletLedger)
    : Type 0 where
  pub credits : (f w).lifetime_credited_usd ≡ w.lifetime_credited_usd +ℤ credit_part e
  pub debits : (f w).lifetime_debited_usd ≡ w.lifetime_debited_usd +ℤ debit_part e
  pub balance : (f w).balance_usd +ℤ debit_part e ≡ w.balance_usd +ℤ credit_part e
  pub quarantined : (f w).quarantined_usd ≡ w.quarantined_usd +ℤ unrecovered_part e
  pub nonneg : pos 0 ≤ℤ (f w).balance_usd

Agrees-post :
    (f : BillingWallet → BillingWallet) (w : BillingWallet) (e : BillingWalletLedger) (c d q : ℤ)
    → Posts f w e
    → Agrees (some w) c d q
    → Agrees (some (f w)) (c +ℤ credit_part e) (d +ℤ debit_part e) (q +ℤ unrecovered_part e)
Agrees-post f w e c d q p h = record {
  credits = cc (p.credits, h.credits);
  debits = cc (p.debits, h.debits);
  balance = grind (int_laws, p.balance, h.balance);
  quarantined = cc (p.quarantined, h.quarantined);
  nonneg = p.nonneg;
}

pub post-IsBalanced :
    (f : BillingWallet → BillingWallet) (e : BillingWalletLedger) (db : Db) (w : BillingWallet)
    (t' u' : String)
    → wallet_for_actor db e.tenant_id e.user_id ≡ some w
    → Keeps f
    → Posts f w e
    → IsBalanced db t' u'
    → IsBalanced (add_entry e (set_wallet e.tenant_id e.user_id f db)) t' u'
post-IsBalanced f e db w t' u' found keep p h =
    let look = wallet_for_actor-set_wallet e.tenant_id e.user_id t' u' f db keep in
    rw
      (
        wallet_for_actor-add_entry e (set_wallet e.tenant_id e.user_id f db) t' u',
        look,
        total-snoc credit_part t' u' db.ledger e,
        total-snoc debit_part t' u' db.ledger e,
        total-snoc unrecovered_part t' u' db.ledger e,
      )
      (elim (Bool-cases (same_actor e.tenant_id e.user_id t' u')) [
        | inl same ↦ rw (same, found) (Agrees-post f w e _ _ _ p (rw (found_there same) at h))
        | inr other ↦ rw other h
      ])
  where
    found_there : same_actor e.tenant_id e.user_id t' u' ≡ true → wallet_for_actor db t' u' ≡ some w
    found_there same =
        let (a, b) = same_actor-eq e.tenant_id e.user_id t' u' same in rw (← a, ← b) found

pub get_or_create_found :
    (t u : String) (db : Db) (w : BillingWallet)
    → wallet_for_actor db t u ≡ some w
    → (get_or_create_wallet t u db).0 ≡ w
unfolding get_or_create_wallet
get_or_create_found t u db w found = rw found

created :
    (t u : String) (db : Db)
    → wallet_for_actor db t u ≡ none
    → (get_or_create_wallet t u db).0 ≡ new_wallet (next_uid db) t u
unfolding get_or_create_wallet
created t u db missing = rw missing

Agrees-new :
    (id t u : String) (c d q : ℤ) → Agrees none c d q → Agrees (some (new_wallet id t u)) c d q
Agrees-new id t u c d q h = record {
  credits = h.credits;
  debits = h.debits;
  balance = h.balance;
  quarantined = h.quarantined;
  nonneg = h.nonneg;
}

-- Creating a wallet keeps the books: the new row is zero in every column.
pub get_or_create-IsBalanced :
    (t u t' u' : String) (db : Db)
    → IsBalanced db t' u'
    → IsBalanced (get_or_create_wallet t u db).1 t' u'
get_or_create-IsBalanced t u t' u' db h =
    rw (ledger-get_or_create t u db, wallet_for_actor-get_or_create t u t' u' db)
      (elim (Bool-cases (same_actor t u t' u')) [
        | inr other ↦ rw other h
        | inl same ↦ rw same (elim (Option-cases (wallet_for_actor db t u)) [
          | inl missing ↦
              rw (created t u db missing) (Agrees-new _ _ _ _ _ _ (rw (there same ∙ missing) at h))
          | inr (w, found) ↦ rw (unchanged w found) (rw (there same ∙ found) at h)
        ])
      ])
  where
    there : same_actor t u t' u' ≡ true → wallet_for_actor db t' u' ≡ wallet_for_actor db t u
    there same = let (a, b) = same_actor-eq t u t' u' same in rw (a, b)

    unchanged :
        (w : BillingWallet) → wallet_for_actor db t u ≡ some w → (get_or_create_wallet t u db).0 ≡ w
    unchanged w found = get_or_create_found t u db w found
