-- ===== src/Billing/Entitlements.antt =====
-- `_activate_entitlement` and `_revoke_entitlement` of src/orkio_v2/billing/service.py.
pub mod Term
use efata_777_backend_premiu.Prelude.{
  ℕ, zero, ◌+◌, ◌*◌, String, Option, none, some, [], ◌∷◌, ◌++◌, modify_first,
}
use efata_777_backend_premiu.Prelude.Int.{ℤ, pos, pos_part, min_ℤ, max_ℤ}
use efata_777_backend_premiu.Billing.Models.{
  BillingCheckout, BillingEntitlement, CheckoutKind, CheckoutStatus, EntitlementStatus, Db,
}
use efata_777_backend_premiu.Billing.Repository.{entitlement_for_actor, entitlement_is_of}
use efata_777_backend_premiu.Billing.Wallets.{next_uid, draw}

-- `value or 31` on an integer.
abbrev pub or_days : ℤ → ℤ
or_days (pos zero) = pos 31
or_days n = n

-- The length of an entitlement in seconds.
unfoldable pub entitlement_seconds : BillingCheckout → ℕ
entitlement_seconds checkout =
    pos_part (max_ℤ (pos 1) (min_ℤ (or_days checkout.metadata_json.entitlement_days) (pos 366)))
    * 86400

abbrev pub or_time : Option ℕ → ℕ → Option ℕ
or_time none now = some now
or_time (some t) now = some t

abbrev pub renewed : BillingCheckout → ℕ → BillingEntitlement → BillingEntitlement
renewed checkout now ent = record ent {
  plan_code = checkout.item_code;
  plan_name = checkout.item_name;
  status = EntitlementStatus.active;
  checkout_id = some checkout.id;
  starts_at = or_time ent.starts_at now;
  expires_at = some (now + entitlement_seconds checkout);
  last_payment_at = some now;
  updated_at = now;
}

abbrev pub new_entitlement : String → BillingCheckout → ℕ → BillingEntitlement
new_entitlement id checkout now = record {
  id = id;
  tenant_id = checkout.tenant_id;
  user_id = checkout.user_id;
  plan_code = checkout.item_code;
  plan_name = checkout.item_name;
  status = EntitlementStatus.active;
  checkout_id = some checkout.id;
  starts_at = some now;
  expires_at = some (now + entitlement_seconds checkout);
  last_payment_at = some now;
  updated_at = now;
}

abbrev pub set_entitlement : BillingCheckout → (BillingEntitlement → BillingEntitlement) → Db → Db
set_entitlement checkout f db = record db {
  entitlements =
      modify_first (entitlement_is_of checkout.tenant_id checkout.user_id) f db.entitlements;
}

activate : Option BillingEntitlement → BillingCheckout → ℕ → Db → Db
unfolding entitlement_seconds
activate none checkout now db = record (draw db) {
  entitlements = db.entitlements ++ new_entitlement (next_uid db) checkout now ∷ [];
}
activate (some ent) checkout now db = set_entitlement checkout (renewed checkout now) db

activate_for : CheckoutKind → BillingCheckout → ℕ → Db → Db
unfolding activate
activate_for CheckoutKind.topup checkout now db = db
activate_for CheckoutKind.plan checkout now db =
    activate (entitlement_for_actor db checkout.tenant_id checkout.user_id) checkout now db

unfoldable pub activate_entitlement : BillingCheckout → ℕ → Db → Db
unfolding activate_for
activate_entitlement checkout now db = activate_for checkout.checkout_kind checkout now db

abbrev pub revoked : CheckoutStatus → ℕ → BillingEntitlement → BillingEntitlement
revoked status now ent = record ent { status = EntitlementStatus.ended status; updated_at = now }

-- Without an entitlement `modify_first` finds no row, and nothing is written.
revoke_for : CheckoutKind → BillingCheckout → CheckoutStatus → ℕ → Db → Db
revoke_for CheckoutKind.topup checkout status now db = db
revoke_for CheckoutKind.plan checkout status now db =
    set_entitlement checkout (revoked status now) db

unfoldable pub revoke_entitlement : BillingCheckout → CheckoutStatus → ℕ → Db → Db
unfolding revoke_for
revoke_entitlement checkout status now db = revoke_for checkout.checkout_kind checkout status now db
