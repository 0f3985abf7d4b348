-- ===== src/Billing/Transition.antt =====
-- `_billing_transition` of src/orkio_v2/billing/service.py: what a provider event does to the
-- state of a checkout.
pub mod Edges
use efata_777_backend_premiu.Prelude.{
  String, Bool, true, false, ◌||◌, Option, none, some, str_eq, if◌then◌else◌,
}
use efata_777_backend_premiu.Billing.Models.{CheckoutStatus}

pub data Decision : Type 0 where
  ignore ignore_unsupported confirm expire cancel reverse : Decision

-- `_CONFIRM_EVENTS`.
unfoldable pub is_confirm_event : String → Bool
is_confirm_event e = str_eq e "PAYMENT_CONFIRMED" || str_eq e "PAYMENT_RECEIVED"

-- `_REVERSAL_EVENTS`, a dictionary from the event to the state.
unfoldable pub reversal_state : String → Option CheckoutStatus
reversal_state e =
    if str_eq e "PAYMENT_REFUNDED"
    then some CheckoutStatus.refunded
    else if str_eq e "PAYMENT_CHARGEBACK_REQUESTED"
    then some CheckoutStatus.chargeback
    else if str_eq e "PAYMENT_CHARGEBACK_DISPUTE"
    then some CheckoutStatus.chargeback
    else none

-- `_TERMINAL_FINANCIAL_STATES`.
abbrev pub is_terminal : CheckoutStatus → Bool
is_terminal CheckoutStatus.refunded = true
is_terminal CheckoutStatus.chargeback = true
is_terminal _ = false

abbrev pub is_paid : CheckoutStatus → Bool
is_paid CheckoutStatus.paid = true
is_paid _ = false

abbrev pub is_expired : CheckoutStatus → Bool
is_expired CheckoutStatus.expired = true
is_expired _ = false

abbrev pub is_cancelled : CheckoutStatus → Bool
is_cancelled CheckoutStatus.cancelled = true
is_cancelled _ = false

by_reversal : CheckoutStatus → Option CheckoutStatus → Decision × CheckoutStatus
by_reversal current none = (ignore_unsupported, current)
by_reversal current (some next) = (reverse, next)

unfoldable pub billing_transition : CheckoutStatus → String → Decision × CheckoutStatus
unfolding by_reversal
billing_transition current event_type =
    if is_terminal current
    then (ignore, current)
    else if is_confirm_event event_type
    then if is_paid current || is_cancelled current
      then (ignore, current)
      else (confirm, CheckoutStatus.paid)
    else if str_eq event_type "PAYMENT_OVERDUE"
    then if is_paid current || is_expired current || is_cancelled current
      then (ignore, current)
      else (expire, CheckoutStatus.expired)
    else if str_eq event_type "PAYMENT_DELETED"
    then if is_paid current || is_cancelled current
      then (ignore, current)
      else (cancel, CheckoutStatus.cancelled)
    else by_reversal current (reversal_state event_type)
