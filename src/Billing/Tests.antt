-- ===== src/Billing/Tests.antt =====
-- Runs of core/billing on small tables, and the theorems at such inputs.
use backend_core.Common.{
  ◌+◌, ◌≡◌, ◌≢◌, ◌⊎◌, refl, true, false, none, some, [], ◌∷◌, arith, ◌==◌, map,
}
use backend_core.Shared.Errors.{Error, ok, err}
use backend_core.Shared.Context.{Actor, AccessService}
use backend_core.Shared.Clock.{DateTime, IsValidDate, days_in_month}
use backend_core.Billing.State.{PaymentStatus, can_transition, assert_transition, Life, here, step}
use backend_core.Billing.Periods.{Period, period_end}
use backend_core.Billing.Models.{
  Plan, Subscription, SubscriptionStatus, Payment, Purpose, Reference, IdempotencyKey,
  CallbackAction, is_live, is_pending, same_key, both_some, same_dedup, same_action,
}
use backend_core.Billing.Store.{
  Db, Context, Permission, IsConsistent, emit, record_audit, save_payment, save_subscription,
  get_plan,
}
use backend_core.Billing.Payments.{
  Environment, Port, Checkout, PaymentRequest, validate_return_url, refused_url, by_idempotency_key,
  new_payment, open_checkout, insert_payment, create_payment, payment_event_payload,
}
use backend_core.Billing.Finalize.{
  locked_subscription, is_replaced, extended_start, retire, cancel_replaced, activated,
  emit_replaced, activate_found, activate_subscription, mark_succeeded,
}
use backend_core.Billing.Subscriptions.{roll_forward, rolls}
use backend_core.Billing.Rolling.{Covers, roll_forward_ends}
use backend_core.Billing.Success.{Succeeds, mark_succeeded_activates}
use backend_core.Billing.Opening.{IsHonest, Progress, progressed, create_payment_idempotent}
use backend_core.Billing.Webhooks.{
  ProviderCallback, CallbackOutcome, OutcomeStatus, is_read_only, one_or_none, get_one_or_none,
  by_reference, first_found, find_payment, amount_ok, claimed, is_delivered, insert_webhook, settle,
  apply_action, elevated, attempt, transition, deliver, dispatch, by_transaction,
}
use backend_core.Billing.Mismatch.{Refused, dispatch-Refused}
use backend_core.Billing.Redelivery.{dispatch_redelivery}
use backend_core.Billing.Intake.{OnlyJournalled, Confirms, dispatch_unsigned, dispatch_confirmed}

abbrev noon : DateTime
noon = record { year = 2026; month = 1; day = 31; micros = 43200000000 }

noon-IsValidDate : IsValidDate noon
unfolding days_in_month
noon-IsValidDate = record {
  month_pos = omega arith;
  month_le = omega arith;
  day_pos = omega arith;
  day_le = omega arith;
  micros_lt = omega arith;
}

revival : Life PaymentStatus.expired PaymentStatus.succeeded 1
unfolding can_transition
revival = step refl here

late_success : Life PaymentStatus.created PaymentStatus.succeeded 2
unfolding can_transition
late_success = step {t = PaymentStatus.expired} refl revival

abbrev monthly : Plan
monthly = record {
  id = 1;
  code = 10;
  price_amount = 500;
  currency = 860;
  period = Period.month;
  trial_days = 0;
  is_active = true;
}

-- Tenant 7 has a live free subscription and a pending paid one.
abbrev free_subscription : Subscription
free_subscription = record {
  id = 20;
  tenant_id = 7;
  plan_id = 2;
  status = SubscriptionStatus.active;
  price_amount = 0;
  currency = 860;
  current_period_start = noon;
  current_period_end = period_end noon Period.month;
  cancel_at_period_end = false;
  canceled_at = none;
}

abbrev paid_subscription : Subscription
paid_subscription = record free_subscription {
  id = 21;
  plan_id = 1;
  status = SubscriptionStatus.pending;
  price_amount = 500;
}

abbrev open_payment : Payment
open_payment = record {
  id = 30;
  tenant_id = 7;
  subscription_id = some 21;
  purpose = Purpose.subscription;
  reference = Reference.uuid 21;
  amount = 500;
  currency = 860;
  status = PaymentStatus.pending;
  provider = 3;
  provider_transaction_id = some 99;
  idempotency_key = IdempotencyKey.subscription_key 21;
  failure_code = none;
  created_at = noon;
  paid_at = none;
  pending_at = some noon;
  closed_at = none;
  checkout_url = 5;
  expires_at = none;
}

abbrev start : Db
start = record {
  now = noon;
  next_id = 40;
  plans = monthly ∷ [];
  subscriptions = free_subscription ∷ paid_subscription ∷ [];
  payments = open_payment ∷ [];
  webhooks = [];
  outbox = [];
  audit = [];
}

start-IsConsistent : IsConsistent start
unfolding is_live is_pending same_key both_some
start-IsConsistent = record {
  one_live = (refl, (refl, tt));
  one_key = (refl, tt);
  one_delivery = tt;
}

abbrev context : Context
context = record { tenant_id = 7; actor = Actor.integration; access = none }

abbrev after_success : Db
after_success = (mark_succeeded context open_payment start).1

abbrev paid_payment : Payment
paid_payment = record open_payment { status = PaymentStatus.succeeded; paid_at = some noon }

success_runs : mark_succeeded context open_payment start ≡ (ok paid_payment, after_success)
unfolding mark_succeeded assert_transition save_payment activate_subscription locked_subscription
    activate_found save_subscription emit_replaced emit record_audit is_live is_pending same_key
    both_some get_plan retire is_replaced cancel_replaced activated extended_start
success_runs = refl

mark_succeeded_activates_example : Succeeds open_payment paid_payment start after_success
mark_succeeded_activates_example =
    mark_succeeded_activates context open_payment paid_payment start after_success
      start-IsConsistent refl success_runs

abbrev confirmation : ProviderCallback
confirmation = record {
  provider = 3;
  provider_txn_id = some 99;
  action = CallbackAction.confirm;
  payment_reference = Reference.uuid 30;
  amount = some (500, 860);
  signature_valid = true;
  reason = none;
}

abbrev after_confirmation : Db
after_confirmation = (dispatch 3 0 confirmation start).1

abbrev confirmed : CallbackOutcome
confirmed = record { status = OutcomeStatus.ok; payment = some paid_payment }

confirmation_runs : dispatch 3 0 confirmation start ≡ (ok confirmed, after_confirmation)
unfolding dispatch deliver transition attempt apply_action elevated is_read_only one_or_none
    get_one_or_none by_reference by_transaction first_found find_payment amount_ok claimed
    is_delivered insert_webhook settle same_dedup same_action mark_succeeded assert_transition
    save_payment activate_subscription locked_subscription activate_found save_subscription
    emit_replaced emit record_audit is_live is_pending same_key both_some get_plan retire
    is_replaced cancel_replaced activated extended_start
confirmation_runs = refl

dispatch_redelivery_example :
    (out' : CallbackOutcome) × (dispatch 3 1 confirmation after_confirmation
      ≡ (ok out', record after_confirmation { next_id = after_confirmation.next_id + 1 }))
    × (out'.status ≡ OutcomeStatus.already_processed)
    × ((OutcomeStatus.already_processed ≢ OutcomeStatus.already_processed)
        ⊎ (out'.payment ≡ some paid_payment))
dispatch_redelivery_example =
    dispatch_redelivery 3 0 1 confirmation start after_confirmation confirmed start-IsConsistent
      (unfold is_read_only in refl) refl confirmation_runs

dispatch_confirmed_example : Confirms confirmation confirmed start after_confirmation
dispatch_confirmed_example =
    dispatch_confirmed 3 0 confirmation start after_confirmation confirmed start-IsConsistent refl
      confirmation_runs refl

-- The same delivery for one unit less.
abbrev short_callback : ProviderCallback
short_callback = record confirmation { amount = some (499, 860) }

short_found : find_payment short_callback start.payments ≡ ok (some open_payment)
unfolding find_payment first_found by_reference get_one_or_none one_or_none by_transaction
short_found = refl

dispatch-Refused_example :
    Refused (dispatch 3 0 short_callback start).0 start (dispatch 3 0 short_callback start).1
dispatch-Refused_example =
    dispatch-Refused 3 0 short_callback start open_payment short_found (unfold amount_ok in refl)

abbrev forged : ProviderCallback
forged = record confirmation { signature_valid = false }

dispatch_unsigned_example :
    OnlyJournalled start (dispatch 3 8 forged start).1
    × (((dispatch 3 8 forged start).0
          ≡ ok (record { status = OutcomeStatus.invalid_signature; payment = none }))
        ⊎ ((dispatch 3 8 forged start).0 ≡ err Error.integrity_error))
dispatch_unsigned_example = dispatch_unsigned 3 8 forged start refl

abbrev port : Port
port p url =
    ok (record { payment_id = p.id; provider = p.provider; checkout_url = 77; expires_at = none })

abbrev environment : Environment
environment = record {
  providers = λ n. some port;
  is_space = λ ch. ch == 32;
  is_printable = λ ch. true;
  urlsplit = λ url. ok (b'h' ∷ b't' ∷ b't' ∷ b'p' ∷ b's' ∷ [], url);
}

environment-IsHonest : IsHonest environment
environment-IsHonest provider q p url k e named h = ground (arith, e, named, h)

abbrev request : PaymentRequest
request = record {
  amount = 700;
  currency = 860;
  purpose = Purpose.commerce_order;
  reference = Reference.uuid 50;
  provider = 3;
  idempotency_key = IdempotencyKey.order_key 50;
  return_url = some (b'x' ∷ []);
  subscription_id = none;
}

abbrev nothing_else : Db → Db
nothing_else db = db

abbrev link : Checkout
link = record { payment_id = 40; provider = 3; checkout_url = 77; expires_at = none }

abbrev after_request : Db
after_request = (create_payment environment context nothing_else request start).1

request_runs :
    create_payment environment context nothing_else request start ≡ (ok link, after_request)
unfolding create_payment validate_return_url refused_url by_idempotency_key insert_payment
    new_payment open_checkout save_payment emit same_key both_some payment_event_payload
request_runs = refl

-- The payment has succeeded meanwhile.
abbrev success : Progress
success = record {
  status = PaymentStatus.succeeded;
  provider_transaction_id = some 555;
  failure_code = none;
  paid_at = some noon;
  pending_at = none;
  closed_at = none;
}

abbrev much_later : Db
much_later = record after_request {
  now = record noon { year = 2027 };
  next_id = 1000;
  payments = map (progressed success) after_request.payments;
}

create_payment_idempotent_example :
    create_payment environment context nothing_else request much_later ≡ (ok link, much_later)
unfolding create_payment validate_return_url by_idempotency_key insert_payment new_payment
    open_checkout save_payment emit same_key both_some payment_event_payload
create_payment_idempotent_example =
    create_payment_idempotent environment context nothing_else nothing_else request link start
      after_request much_later success environment-IsHonest request_runs refl

-- A second request with the key of `open_payment`, for another sum.
abbrev other_sum : PaymentRequest
other_sum = record request { idempotency_key = IdempotencyKey.subscription_key 21 }

roll_forward_ends_example :
    let march = record noon { month = 3; day = 15 } in
    let s' = roll_forward (rolls march noon) march Period.month (noon, noon) in
    Covers march Period.month noon noon s'.0 s'.1
roll_forward_ends_example =
    roll_forward_ends (record noon { month = 3; day = 15 }) Period.month noon noon
      (unfold days_in_month in
        record {
          month_pos = omega arith;
          month_le = omega arith;
          day_pos = omega arith;
          day_le = omega arith;
          micros_lt = omega arith;
        })
      noon-IsValidDate

abbrev only_five : AccessService Permission
only_five u p = u == 5
