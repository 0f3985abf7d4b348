-- ===== src/Billing/Entitlements/Term.antt =====
-- What a paid plan gives its actor, and what an ended plan checkout takes.
use mathlib.Core.Option
use efata_777_backend_premiu.Prelude.{
  ℕ, ◌+◌, ◌*◌, ◌≤◌, String, ◌≡◌, refl, ap, ◌∙◌, true, Option, none, some, List, eq_refl, arith,
  find, modify_first, find-append, find-modify_first_self,
}
use efata_777_backend_premiu.Billing.Models.{
  BillingCheckout, BillingEntitlement, CheckoutKind, CheckoutStatus, EntitlementStatus, Db,
}
use efata_777_backend_premiu.Billing.Repository.{entitlement_for_actor, entitlement_is_of}
use efata_777_backend_premiu.Billing.Wallets.{next_uid}
use efata_777_backend_premiu.Billing.Entitlements.{
  entitlement_seconds, renewed, new_entitlement, activate, activate_for, activate_entitlement,
  revoked, revoke_for, revoke_entitlement,
}

-- An active entitlement that the checkout gave at `now`.
pub record IsGiven (c : BillingCheckout) (now : ℕ) (e : BillingEntitlement) : Type 0 where
  pub status : e.status ≡ EntitlementStatus.active
  pub plan : e.plan_code ≡ c.item_code
  pub checkout : e.checkout_id ≡ some c.id
  pub expires : e.expires_at ≡ some (now + entitlement_seconds c)

seconds_bounds :
    (c : BillingCheckout) → (86400 ≤ entitlement_seconds c) × (entitlement_seconds c ≤ 366 * 86400)
unfolding entitlement_seconds
seconds_bounds c = ground arith

own_entitlement :
    (t u : String) (e : BillingEntitlement)
    → e.tenant_id ≡ t
    → e.user_id ≡ u
    → entitlement_is_of t u e ≡ true
own_entitlement t u e ht hu = rw (ht, hu, eq_refl t, eq_refl u) refl

found_changed :
    (t u : String) (f : BillingEntitlement → BillingEntitlement) (es : List BillingEntitlement)
    (e : BillingEntitlement)
    → ((x : BillingEntitlement)
        → entitlement_is_of t u x ≡ true
        → entitlement_is_of t u (f x) ≡ true)
    → find (entitlement_is_of t u) es ≡ some e
    → find (entitlement_is_of t u) (modify_first (entitlement_is_of t u) f es) ≡ some (f e)
found_changed t u f es e keep h =
    find-modify_first_self (entitlement_is_of t u) f es keep ∙ ap (Option.map f) h

activated_cases :
    (o : Option BillingEntitlement) (c : BillingCheckout) (now : ℕ) (db : Db)
    → entitlement_for_actor db c.tenant_id c.user_id ≡ o
    → (e : BillingEntitlement) × (entitlement_for_actor (activate o c now db) c.tenant_id c.user_id
        ≡ some e)
      × IsGiven c now e
unfolding activate entitlement_for_actor
activated_cases none c now db h = (
  new_entitlement (next_uid db) c now,
  find-append (entitlement_is_of c.tenant_id c.user_id) db.entitlements
        (new_entitlement (next_uid db) c now)
      ∙ rw (h, eq_refl c.tenant_id, eq_refl c.user_id) refl,
  record { status = refl; plan = refl; checkout = refl; expires = refl },
)
activated_cases (some e) c now db h = (
  renewed c now e,
  found_changed c.tenant_id c.user_id (renewed c now) db.entitlements e (λ x k. k) h,
  record { status = refl; plan = refl; checkout = refl; expires = refl },
)

plan_activates :
    (c : BillingCheckout) (now : ℕ) (db : Db)
    → c.checkout_kind ≡ CheckoutKind.plan
    → activate_entitlement c now db
      ≡ activate (entitlement_for_actor db c.tenant_id c.user_id) c now db
unfolding activate_entitlement activate_for
plan_activates c now db plan = ap (λ k. activate_for k c now db) plan

plan_revokes :
    (c : BillingCheckout) (s : CheckoutStatus) (later : ℕ) (db : Db)
    → c.checkout_kind ≡ CheckoutKind.plan
    → (revoke_entitlement c s later db).entitlements
      ≡ modify_first (entitlement_is_of c.tenant_id c.user_id) (revoked s later) db.entitlements
unfolding revoke_entitlement revoke_for
plan_revokes c s later db plan = ap (λ k. (revoke_for k c s later db).entitlements) plan

-- A paid plan checkout gives its actor an active entitlement to its plan, under its own identifier, that expires between one day and 366 days after `now`, whether the actor had one before or not; a plan checkout that ends then ends the entitlement that the actor has, whichever checkout gave it.
pub plan_term :
    (c : BillingCheckout) (now : ℕ) (db : Db)
    → c.checkout_kind ≡ CheckoutKind.plan
    → ((e : BillingEntitlement) × (entitlement_for_actor
            (activate_entitlement c now db)
            c.tenant_id
            c.user_id
          ≡ some e)
        × IsGiven c now e)
      × (86400 ≤ entitlement_seconds c)
      × (entitlement_seconds c ≤ 366 * 86400)
      × ((s : CheckoutStatus) (later : ℕ) (e : BillingEntitlement)
          → entitlement_for_actor db c.tenant_id c.user_id ≡ some e
          → entitlement_for_actor (revoke_entitlement c s later db) c.tenant_id c.user_id
            ≡ some (revoked s later e))
unfolding entitlement_for_actor
plan_term c now db plan =
    let (least, most) = seconds_bounds c in
    (
      rw (plan_activates c now db plan)
          (activated_cases (entitlement_for_actor db c.tenant_id c.user_id) c now db refl),
      least,
      most,
      λ s later e h.
          rw (plan_revokes c s later db plan)
            (found_changed c.tenant_id c.user_id (revoked s later) db.entitlements e (λ x k. k) h),
    )
