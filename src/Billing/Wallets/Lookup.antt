-- ===== src/Billing/Wallets/Lookup.antt =====
-- What `wallet_for_actor` returns after each write to the wallets.
use mathlib.Core.Option
use efata_777_backend_premiu.Prelude.{
  Option-cases, inl, inr, String, ◌≡◌, refl, Bool, true, ◌&&◌, none, some, List, [], ◌∷◌, ◌++◌,
  arith, str_eq, eq_iff, find, modify_first, if◌then◌else◌,
}
use efata_777_backend_premiu.Billing.Models.{BillingWallet, Db}
use efata_777_backend_premiu.Billing.Repository.{wallet_for_actor, wallet_is_of}
use efata_777_backend_premiu.Billing.Wallets.{
  set_wallet, new_wallet, next_uid, get_or_create_wallet,
}

abbrev pub same_actor : String → String → String → String → Bool
same_actor t u t' u' = str_eq t t' && str_eq u u'

pub same_actor-eq : (t u t' u' : String) → same_actor t u t' u' ≡ true → (t ≡ t') × (u ≡ u')
same_actor-eq t u t' u' h = ground (arith, eq_iff t t', eq_iff u u')

pub same_actor_refl : (t u : String) → same_actor t u t u ≡ true
same_actor_refl t u = ground (arith, eq_iff t t, eq_iff u u)

find-set :
    (t u t' u' : String) (f : BillingWallet → BillingWallet) (ws : List BillingWallet)
    → ((w : BillingWallet) → ((f w).tenant_id ≡ w.tenant_id) × ((f w).user_id ≡ w.user_id))
    → find (wallet_is_of t' u') (modify_first (wallet_is_of t u) f ws) ≡ (
        if same_actor t u t' u'
        then Option.map f (find (wallet_is_of t u) ws)
        else find (wallet_is_of t' u') ws)
unfolding find modify_first
find-set t u t' u' f [] keep = ground arith
find-set t u t' u' f (w ∷ ws) keep = ground (
  arith,
  keep w,
  eq_iff w.tenant_id t,
  eq_iff w.user_id u,
  eq_iff w.tenant_id t',
  eq_iff w.user_id u',
  eq_iff t t',
  eq_iff u u',
  eq_iff (f w).tenant_id t',
  eq_iff (f w).user_id u',
  find-set t u t' u' f ws keep,
)

pub wallet_for_actor-set_wallet :
    (t u t' u' : String) (f : BillingWallet → BillingWallet) (db : Db)
    → ((w : BillingWallet) → ((f w).tenant_id ≡ w.tenant_id) × ((f w).user_id ≡ w.user_id))
    → wallet_for_actor (set_wallet t u f db) t' u' ≡ (
        if same_actor t u t' u'
        then Option.map f (wallet_for_actor db t u)
        else wallet_for_actor db t' u')
unfolding wallet_for_actor
wallet_for_actor-set_wallet t u t' u' f db keep = find-set t u t' u' f db.wallets keep

find-snoc :
    (t u t' u' : String) (w : BillingWallet) (ws : List BillingWallet)
    → w.tenant_id ≡ t
    → w.user_id ≡ u
    → find (wallet_is_of t u) ws ≡ none
    → find (wallet_is_of t' u') (ws ++ w ∷ [])
      ≡ (if same_actor t u t' u' then some w else find (wallet_is_of t' u') ws)
unfolding find
find-snoc t u t' u' w [] p q h =
    ground (arith, eq_iff w.tenant_id t', eq_iff w.user_id u', eq_iff t t', eq_iff u u')
find-snoc t u t' u' w (x ∷ ws) p q h = ground (
  arith,
  eq_iff x.tenant_id t,
  eq_iff x.user_id u,
  eq_iff x.tenant_id t',
  eq_iff x.user_id u',
  eq_iff t t',
  eq_iff u u',
  find-snoc t u t' u' w ws p q,
)

-- A wallet that is created changes only what a query for its own actor finds.
pub wallet_for_actor-get_or_create :
    (t u t' u' : String) (db : Db)
    → wallet_for_actor (get_or_create_wallet t u db).1 t' u' ≡ (
        if same_actor t u t' u'
        then some (get_or_create_wallet t u db).0
        else wallet_for_actor db t' u')
unfolding wallet_for_actor get_or_create_wallet
wallet_for_actor-get_or_create t u t' u' db = elim (Option-cases (wallet_for_actor db t u)) [
  | inl missing ↦ rw missing (
      ground (
        arith,
        missing,
        find-snoc t u t' u' (new_wallet (next_uid db) t u) db.wallets refl refl missing,
      ))
  | inr (w, found) ↦ rw found (ground (arith, found, eq_iff t t', eq_iff u u'))
]

pub ledger-get_or_create :
    (t u : String) (db : Db) → (get_or_create_wallet t u db).1.ledger ≡ db.ledger
unfolding get_or_create_wallet
ledger-get_or_create t u db = ground (arith, Option-cases (wallet_for_actor db t u))
