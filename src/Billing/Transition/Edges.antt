-- ===== src/Billing/Transition/Edges.antt =====
-- The state diagram of a checkout, beside `_billing_transition`.
use efata_777_backend_premiu.Prelude.{
  String, ◌≡◌, refl, ◌↔◌, ◌⊎◌, inl, inr, false, arith, none, some,
}
use efata_777_backend_premiu.Billing.Models.{
  CheckoutStatus, pending, paid, failed, expired, cancelled, refunded, chargeback,
}
use efata_777_backend_premiu.Billing.Transition.{
  Decision, ignore, ignore_unsupported, confirm, expire, cancel, reverse, billing_transition,
  is_terminal, is_confirm_event, reversal_state,
}

infix 40 ◌⟶◌ ◌⟶*◌
-- One edge for each change of state that an event can cause.
pub data ◌⟶◌ : CheckoutStatus → CheckoutStatus → Type 0 where
  pay_pending : pending ⟶ paid
  pay_failed : failed ⟶ paid
  pay_expired : expired ⟶ paid
  expire_pending : pending ⟶ expired
  expire_failed : failed ⟶ expired
  cancel_pending : pending ⟶ cancelled
  cancel_failed : failed ⟶ cancelled
  cancel_expired : expired ⟶ cancelled
  refund : {s : CheckoutStatus} → is_terminal s ≡ false → s ⟶ refunded
  charge_back : {s : CheckoutStatus} → is_terminal s ≡ false → s ⟶ chargeback

pub data ◌⟶*◌ (s : CheckoutStatus) : CheckoutStatus → Type 0 where
  start : s ⟶* s
  move : {t u : CheckoutStatus} → s ⟶* t → t ⟶ u → s ⟶* u

-- The decisions that change the checkout.
abbrev pub Applies : Decision → Type 0
Applies ignore = ⊥
Applies ignore_unsupported = ⊥
Applies _ = Unit

ruleset edges = (
  pay_pending, pay_failed, pay_expired, expire_pending, expire_failed, cancel_pending,
  cancel_failed, cancel_expired, refund, charge_back,
)

-- What each decision says of the old and the new state.
pub confirm_case :
    (s t : CheckoutStatus) (e : String)
    → billing_transition s e ≡ (confirm, t)
    → (t ≡ paid) × ((s ≡ pending) ⊎ (s ≡ failed) ⊎ (s ≡ expired))
unfolding billing_transition
confirm_case s t e h = ground arith

expire_case :
    (s t : CheckoutStatus) (e : String)
    → billing_transition s e ≡ (expire, t)
    → (t ≡ expired) × ((s ≡ pending) ⊎ (s ≡ failed))
unfolding billing_transition
expire_case s t e h = ground arith

cancel_case :
    (s t : CheckoutStatus) (e : String)
    → billing_transition s e ≡ (cancel, t)
    → (t ≡ cancelled) × ((s ≡ pending) ⊎ (s ≡ failed) ⊎ (s ≡ expired))
unfolding billing_transition
cancel_case s t e h = ground arith

reversal_cases :
    (e : String)
    → (reversal_state e ≡ none)
      ⊎ (reversal_state e ≡ some refunded)
      ⊎ (reversal_state e ≡ some chargeback)
unfolding reversal_state
reversal_cases e = ground arith

reverse_case :
    (s t : CheckoutStatus) (e : String)
    → billing_transition s e ≡ (reverse, t)
    → (is_terminal s ≡ false) × ((t ≡ refunded) ⊎ (t ≡ chargeback))
unfolding billing_transition
reverse_case s t e h = ground (arith, reversal_cases e)

pay_edge : (s : CheckoutStatus) → (s ≡ pending) ⊎ (s ≡ failed) ⊎ (s ≡ expired) → s ⟶ paid
pay_edge s (inl e) = rw e pay_pending
pay_edge s (inr (inl e)) = rw e pay_failed
pay_edge s (inr (inr e)) = rw e pay_expired

expire_edge : (s : CheckoutStatus) → (s ≡ pending) ⊎ (s ≡ failed) → s ⟶ expired
expire_edge s (inl e) = rw e expire_pending
expire_edge s (inr e) = rw e expire_failed

cancel_edge : (s : CheckoutStatus) → (s ≡ pending) ⊎ (s ≡ failed) ⊎ (s ≡ expired) → s ⟶ cancelled
cancel_edge s (inl e) = rw e cancel_pending
cancel_edge s (inr (inl e)) = rw e cancel_failed
cancel_edge s (inr (inr e)) = rw e cancel_expired

pub transition_sound :
    (s t : CheckoutStatus) (e : String) (d : Decision)
    → billing_transition s e ≡ (d, t)
    → Applies d
    → s ⟶ t
transition_sound s t e ignore h applies = absurd applies
transition_sound s t e ignore_unsupported h applies = absurd applies
transition_sound s t e confirm h applies =
    let (to, from) = confirm_case s t e h in rw to (pay_edge s from)
transition_sound s t e expire h applies =
    let (to, from) = expire_case s t e h in rw to (expire_edge s from)
transition_sound s t e cancel h applies =
    let (to, from) = cancel_case s t e h in rw to (cancel_edge s from)
transition_sound s t e reverse h applies =
    let (live, to) = reverse_case s t e h in
    elim to [ inl e ↦ rw e (refund live) | inr e ↦ rw e (charge_back live) ]

pub transition_complete :
    {s t : CheckoutStatus}
    → s ⟶ t
    → (e : String) × (d : Decision) × (billing_transition s e ≡ (d, t)) × Applies d
unfolding billing_transition is_confirm_event reversal_state
transition_complete pay_pending = ("PAYMENT_CONFIRMED", confirm, refl, tt)
transition_complete pay_failed = ("PAYMENT_RECEIVED", confirm, refl, tt)
transition_complete pay_expired = ("PAYMENT_CONFIRMED", confirm, refl, tt)
transition_complete expire_pending = ("PAYMENT_OVERDUE", expire, refl, tt)
transition_complete expire_failed = ("PAYMENT_OVERDUE", expire, refl, tt)
transition_complete cancel_pending = ("PAYMENT_DELETED", cancel, refl, tt)
transition_complete cancel_failed = ("PAYMENT_DELETED", cancel, refl, tt)
transition_complete cancel_expired = ("PAYMENT_DELETED", cancel, refl, tt)
transition_complete (refund live) = ("PAYMENT_REFUNDED", reverse, rw live, tt)
transition_complete (charge_back live) = ("PAYMENT_CHARGEBACK_REQUESTED", reverse, rw live, tt)

-- A checkout can move from one state to another by one provider event exactly along an edge of the
-- diagram: some event decides on a change from `s` to `t` if and only if there is an edge.
pub transition_exact :
    (s t : CheckoutStatus)
    → ((e : String) × (d : Decision) × (billing_transition s e ≡ (d, t)) × Applies d) ↔ (s ⟶ t)
transition_exact s t =
    (λ (e, d, h, applies). transition_sound s t e d h applies, transition_complete)
