-- ===== src/Billing/Subscriptions.antt =====
-- BillingService of core/billing/service.py: the life of a tenant's subscription.
use backend_core.Common.{
  ℕ, zero, suc, ◌-◌, Bool, true, false, not, ◌&&◌, ◌||◌, Option, none, some, ◌==◌, ltb, find, head?,
  if◌then◌else◌, is_some,
}
use backend_core.Shared.Errors.{
  Error, ok, err, is_domain_error, Action, pure, raise_if, or_raise, lift, modify, when, gets,
  ◌>>=◌, ◌>>◌,
}
use backend_core.Shared.Context.{require_permission}
use backend_core.Shared.Clock.{DateTime, not_after, month_index}
use backend_core.Billing.Periods.{Period, period_end}
use backend_core.Billing.Models.{
  Plan, Subscription, SubscriptionStatus, Purpose, Reference, IdempotencyKey, is_live, is_pending,
}
use backend_core.Billing.Store.{
  Db, Context, Permission, subscription_read, subscription_manage, Event, emit, save_subscription,
  add_subscription, find_subscriptions, read_clock, new_id, get_plan, plan_code,
}
use backend_core.Billing.Finalize.{period_of}
use backend_core.Billing.Payments.{Environment, Checkout, PaymentRequest, create_payment}

abbrev guard : Context → Permission → Action Db (Unit {0})
guard c p = lift (require_permission c.actor c.access p)

-- `get_subscription`: the live one, a pending one only when nothing is live
unfoldable pub get_subscription : Context → Action Db (Option Subscription)
get_subscription c = do
  guard c subscription_read
  rows ← gets (find_subscriptions c.tenant_id (λ s. is_live s.status || is_pending s.status))
  elim (find (λ s. not (is_pending s.status)) rows) [
    | some s ↦ pure (some s)
    | none ↦ pure (head? rows)
  ]

-- `_plan_by_code`
unfoldable pub plan_by_code : ℕ → Action Db Plan
plan_by_code code = do
  found ← gets (λ db. find (λ p. p.code == code && p.is_active) db.plans)
  or_raise found Error.not_found

-- The payment request of `_checkout_for`
unfoldable pub checkout_request : Subscription → ℕ → PaymentRequest
checkout_request s provider = record {
  amount = s.price_amount;
  currency = s.currency;
  purpose = Purpose.subscription;
  reference = Reference.uuid s.id;
  provider = provider;
  idempotency_key = IdempotencyKey.subscription_key s.id;
  return_url = none;
  subscription_id = some s.id;
}

-- `_checkout_for`
unfoldable pub checkout_for :
    Environment → Context → (Db → Db) → Subscription → ℕ → Action Db Checkout
unfolding checkout_request
checkout_for env c others s provider = create_payment env c others (checkout_request s provider)

-- A subscription row as `start_subscription` and `auto_subscribe` fill it in.
unfoldable pub new_subscription : Context → Plan → SubscriptionStatus → ℕ → DateTime → Subscription
new_subscription c plan status id now = record {
  id = id;
  tenant_id = c.tenant_id;
  plan_id = plan.id;
  status = status;
  price_amount = plan.price_amount;
  currency = plan.currency;
  current_period_start = now;
  current_period_end = period_end now plan.period;
  cancel_at_period_end = false;
  canceled_at = none;
}

-- The INSERT in a savepoint: one pending checkout per tenant.
abbrev add_pending : Subscription → Action Db (Unit {0})
add_pending s db = elim (add_subscription s db).0 [
  | ok _ ↦ add_subscription s db
  | err Error.integrity_error ↦ (err Error.conflict, db)
  | err e ↦ (err e, db)
]

-- `others` commits between the lookup and the INSERT, `others'` between those of the payment.
unfoldable pub start_subscription :
    Environment → Context → (Db → Db) → (Db → Db) → ℕ → ℕ → Action Db Checkout
start_subscription env c others others' code provider = do
  guard c subscription_manage
  plan ← plan_by_code code
  raise_if (plan.price_amount == 0) Error.invariant_violation
  pending ← gets (find_subscriptions c.tenant_id (λ s. is_pending s.status))
  elim (head? pending) [
    | some s ↦
        raise_if (not (s.plan_id == plan.id)) Error.conflict
        >> checkout_for env c others' s provider
    | none ↦ do
      modify others
      now ← read_clock
      id ← new_id
      let s = new_subscription c plan SubscriptionStatus.pending id now
      add_pending s
      checkout_for env c others' s provider
  ]

unfoldable pub cancel_subscription : Context → Action Db Subscription
cancel_subscription c = do
  guard c subscription_manage
  live ← gets (find_subscriptions c.tenant_id (λ s. is_live s.status))
  s ← or_raise (head? live) Error.not_found
  now ← read_clock
  let s' = record s { cancel_at_period_end = true; canceled_at = some now }
  save_subscription s'
  plan ← gets (get_plan s.plan_id)
  emit c (Event.subscription_canceled s.id (plan_code plan))
  pure s'

abbrev pub starting_status : Plan → SubscriptionStatus
starting_status plan =
    if ltb 0 plan.trial_days then SubscriptionStatus.trialing else SubscriptionStatus.active

-- `auto_subscribe` for a tenant that has no live subscription
unfoldable pub subscribe_free : Context → Plan → Action Db (Unit {0})
subscribe_free c plan = do
  now ← read_clock
  id ← new_id
  let s = new_subscription c plan (starting_status plan) id now
  add_subscription s
  emit c (Event.subscription_activated s.id plan.code s.current_period_end)

unfoldable pub auto_subscribe : Context → ℕ → Action Db (Unit {0})
auto_subscribe c code = do
  plan ← plan_by_code code
  raise_if (not (plan.price_amount == 0)) Error.invariant_violation
  live ← gets (find_subscriptions c.tenant_id (λ s. is_live s.status))
  elim (head? live) [ some _ ↦ pure tt | none ↦ subscribe_free c plan ]

-- The loop `while subscription.current_period_end <= now`, on fuel.
unfoldable pub roll_forward : ℕ → DateTime → Period → DateTime × DateTime → DateTime × DateTime
roll_forward zero now period (start, end) = (start, end)
roll_forward (suc fuel) now period (start, end) =
    let next = roll_forward fuel now period (end, period_end end period) in
    if not_after end now then next else (start, end)

-- Each round adds at least a month, so the months from the period's end to now are enough rounds.
abbrev pub rolls : DateTime → DateTime → ℕ
rolls now end = suc (suc (month_index now) - month_index end)

-- The zero-price branch of `close_ended_period`: the row that rolls forward.
unfoldable pub rolled : DateTime → Period → Subscription → Subscription
rolled now period s =
    let ends =
      roll_forward (rolls now s.current_period_end) now period
        (s.current_period_start, s.current_period_end) in
    record s {
      current_period_start = ends.0;
      current_period_end = ends.1;
      status = SubscriptionStatus.active;
    }

-- The other branch: the row that closes.
unfoldable pub ended : DateTime → Subscription → Subscription
ended now s = record s {
  status =
      if s.cancel_at_period_end then SubscriptionStatus.canceled else SubscriptionStatus.expired;
  canceled_at =
      if not (is_some s.canceled_at) && s.cancel_at_period_end then some now else s.canceled_at;
}

-- The `try` around the fallback: a domain error is logged, any other propagates.
unfoldable pub fall_back : Context → Option ℕ → Action Db (Unit {0})
fall_back c none = pure tt
fall_back c (some code) = when (not (code == 0)) λ db.
    let (r, db') = auto_subscribe c code db in
    elim r [ ok _ ↦ (ok tt, db') | err e ↦ (if is_domain_error e then ok tt else err e, db') ]

abbrev pub is_free : Option Plan → Bool
is_free none = false
is_free (some plan) = plan.price_amount == 0

abbrev pub is_due : DateTime → Subscription → Bool
is_due now s = is_live s.status && not_after s.current_period_end now

-- `close_ended_period`, for a subscription that is live and whose period has ended
unfoldable pub close_due : Context → Option ℕ → Subscription → Action Db Bool
close_due c fallback s = do
  now ← read_clock
  found ← gets (get_plan s.plan_id)
  elim (is_free found && not s.cancel_at_period_end) [
    | true ↦ save_subscription (rolled now (period_of found) s) >> pure true
    | false ↦ do
      save_subscription (ended now s)
      emit c (Event.subscription_ended s.id (plan_code found) (ended now s).status)
      fall_back c fallback
      pure true
  ]

unfoldable pub close_ended_period : Context → ℕ → Option ℕ → Action Db Bool
close_ended_period c id fallback = do
  found ← gets (λ db. find (λ s. s.id == id && s.tenant_id == c.tenant_id) db.subscriptions)
  now ← read_clock
  elim found [
    | none ↦ pure false
    | some s ↦ elim (is_due now s) [ true ↦ close_due c fallback s | false ↦ pure false ]
  ]
