-- ===== src/Billing/Finalize.antt =====
-- PaymentService of core/billing/service.py: the transitions of a payment after it was opened, and
-- what they do to the subscription that it pays for. The caller holds the payment's row lock, so
-- the row given is the stored one; each call returns the row as it leaves it.
use backend_core.Common.{
  ℕ, Bool, true, false, not, ◌&&◌, Option, none, some, List, [], ◌∷◌, ◌==◌, find, select, map,
  if◌then◌else◌,
}
use backend_core.Shared.Errors.{
  Error, Result, ok, err, Action, pure, or_raise, modify, when, gets, ◌>>=◌, ◌>>◌,
}
use backend_core.Shared.Clock.{DateTime, before}
use backend_core.Billing.State.{PaymentStatus, assert_transition}
use backend_core.Billing.Periods.{Period, period_end}
use backend_core.Billing.Models.{
  Plan, Subscription, SubscriptionStatus, Payment, Purpose, Reference, FailureCode, is_live,
  is_pending,
}
use backend_core.Billing.Store.{
  Db, Context, Event, emit, record_audit, save_payment, save_subscription, read_clock, get_plan,
  plan_code,
}
use backend_core.Billing.Payments.{payment_event_payload}

abbrev pub for_subscription : Purpose → Bool
for_subscription Purpose.subscription = true
for_subscription _ = false

abbrev pub was_expired : PaymentStatus → Bool
was_expired PaymentStatus.expired = true
was_expired _ = false

-- `payment.subscription_id or UUID(payment.reference)`
unfoldable pub subscription_ref : Payment → Result ℕ
subscription_ref p = elim p.subscription_id [
  | some i ↦ ok i
  | none ↦ elim p.reference [ Reference.uuid i ↦ ok i | Reference.text t ↦ err Error.value_error ]
]

-- `_locked_subscription`
unfoldable pub locked_subscription : Payment → Action Db (Option Subscription)
unfolding subscription_ref
locked_subscription p db = elim (subscription_ref p) [
  | ok i ↦ (ok (find (λ s. s.id == i && s.tenant_id == p.tenant_id) db.subscriptions), db)
  | err e ↦ (err e, db)
]

-- The row that `_drop_pending_subscription` writes.
unfoldable pub dropped : PaymentStatus → DateTime → Subscription → Subscription
dropped PaymentStatus.expired now s = record s { status = SubscriptionStatus.expired }
dropped _ now s = record s { status = SubscriptionStatus.canceled; canceled_at = some now }

-- `_drop_pending_subscription`, with the subscription found
unfoldable pub drop_found : PaymentStatus → DateTime → Option Subscription → Action Db (Unit {0})
unfolding dropped
drop_found target now none = pure tt
drop_found target now (some s) =
    when (is_pending s.status) (save_subscription (dropped target now s))

unfoldable pub drop_pending_subscription : Payment → PaymentStatus → Action Db (Unit {0})
unfolding locked_subscription
drop_pending_subscription p target = do
  found ← locked_subscription p
  now ← read_clock
  drop_found target now found

-- The query for the live subscriptions that an activation replaces.
unfoldable pub is_replaced : ℕ → ℕ → Subscription → Bool
is_replaced tenant id s = (s.tenant_id == tenant && is_live s.status) && not (s.id == id)

-- The loop over them: where the new period starts, `start` before the loop.
unfoldable pub extended_start : ℕ → DateTime → List Subscription → DateTime
extended_start plan_id start [] = start
extended_start plan_id start (old ∷ rest) =
    extended_start plan_id
      (if old.plan_id == plan_id && before start old.current_period_end
        then old.current_period_end
        else start)
      rest

-- The same loop's writes, on one row and on all.
unfoldable pub retire : ℕ → ℕ → DateTime → Subscription → Subscription
retire tenant id now s =
    if is_replaced tenant id s
    then record s { status = SubscriptionStatus.canceled; canceled_at = some now }
    else s

unfoldable pub cancel_replaced : ℕ → ℕ → DateTime → List Subscription → List Subscription
cancel_replaced tenant id now = map (retire tenant id now)

abbrev pub period_of : Option Plan → Period
period_of none = Period.month
period_of (some p) = p.period

-- The row that an activation writes.
unfoldable pub activated : Option Plan → DateTime → Subscription → Subscription
activated plan start s = record s {
  status = SubscriptionStatus.active;
  cancel_at_period_end = false;
  current_period_start = start;
  current_period_end = period_end start (period_of plan);
}

-- One `billing.subscription.replaced` for each.
unfoldable pub emit_replaced : Context → ℕ → List Subscription → Action Db (Unit {0})
emit_replaced c by [] = pure tt
emit_replaced c by (old ∷ rest) =
    emit c (Event.subscription_replaced old.id by) >> emit_replaced c by rest

-- `_activate_subscription`, once the payment's subscription `s` is found
unfoldable pub activate_found : Context → Payment → Subscription → Action Db (Unit {0})
activate_found c p s = do
  plan ← gets (get_plan s.plan_id)
  now ← read_clock
  replaced ← gets (λ db. select (is_replaced p.tenant_id s.id) db.subscriptions)
  modify (λ db. record db { subscriptions = cancel_replaced p.tenant_id s.id now db.subscriptions })
  let s' = activated plan (extended_start s.plan_id now replaced) s
  save_subscription s'
  emit_replaced c s.id replaced
  emit c (Event.subscription_activated s.id (plan_code plan) s'.current_period_end)

unfoldable pub activate_subscription : Context → Payment → Action Db (Unit {0})
activate_subscription c p = do
  s ← or_raise (← locked_subscription p) Error.not_found
  activate_found c p s

unfoldable pub mark_pending : Payment → ℕ → Action Db Payment
mark_pending p provider_txn_id = do
  assert_transition p.status PaymentStatus.pending
  now ← read_clock
  let p' = record p {
    provider_transaction_id = some provider_txn_id;
    status = PaymentStatus.pending;
    pending_at = some now;
  }
  save_payment p'
  pure p'

unfoldable pub mark_succeeded : Context → Payment → Action Db Payment
mark_succeeded c p = do
  assert_transition p.status PaymentStatus.succeeded
  now ← read_clock
  let p' = record p { status = PaymentStatus.succeeded; paid_at = some now }
  save_payment p'
  when (for_subscription p.purpose) (activate_subscription c p')
  let event = Event.payment_succeeded (payment_event_payload p') now (was_expired p.status)
  emit c event
  record_audit p.id event
  pure p'

-- `f"billing.payment.{target}"`; only a failure carries its reason.
unfoldable pub close_event : PaymentStatus → Payment → Option FailureCode → Event
close_event PaymentStatus.failed p reason = Event.payment_failed (payment_event_payload p) reason
close_event PaymentStatus.expired p reason = Event.payment_expired (payment_event_payload p)
close_event _ p reason = Event.payment_canceled (payment_event_payload p)

-- `if reason is not None: payment.failure_code = reason`
abbrev pub new_failure : Option FailureCode → Option FailureCode → Option FailureCode
new_failure none old = old
new_failure (some r) old = some r

-- `_close`
unfoldable pub close : Context → Payment → PaymentStatus → Option FailureCode → Action Db Payment
close c p target reason = do
  assert_transition p.status target
  now ← read_clock
  let p' = record p {
    status = target;
    failure_code = new_failure reason p.failure_code;
    closed_at = some now;
  }
  save_payment p'
  when (for_subscription p.purpose) (drop_pending_subscription p' target)
  let event = close_event target p' reason
  emit c event
  record_audit p.id event
  pure p'

unfoldable pub mark_failed : Context → Payment → Option FailureCode → Action Db Payment
mark_failed c p reason = close c p PaymentStatus.failed reason

unfoldable pub mark_canceled_by_provider :
    Context → Payment → Option FailureCode → Action Db Payment
mark_canceled_by_provider c p reason = close c p PaymentStatus.canceled reason

unfoldable pub mark_expired : Context → Payment → Action Db Payment
mark_expired c p = close c p PaymentStatus.expired none

-- `cancel_payment`, which finds and locks the row itself
unfoldable pub cancel_payment : Context → ℕ → Action Db Payment
cancel_payment c id = do
  found ← gets (λ db. find (λ p. p.id == id && p.tenant_id == c.tenant_id) db.payments)
  p ← or_raise found Error.not_found
  close c p PaymentStatus.canceled none
