-- ===== src/Billing/Ledger.antt =====
-- The delivery ledger (`payment_webhooks`): transitions of a payment leave it alone, each delivery
-- has one row in it, and a repeated delivery only reads it.
use backend_core.Common.{
  ◌≡◌, refl, ◌&&◌, ◌==◌, Option, none, some, arith, inl, inr, find, select, Option-cases,
}
use backend_core.Common.Table.{replace}
use backend_core.Shared.Errors.{ok, Result-cases}
use backend_core.Shared.Clock.{DateTime}
use backend_core.Billing.State.{PaymentStatus, assert_transition}
use backend_core.Billing.Models.{Payment, Subscription, FailureCode, CallbackAction}
use backend_core.Billing.Store.{
  Db, Context, payments_schema, emit, record_audit, save_payment, save_subscription, get_plan,
}
use backend_core.Billing.Finalize.{
  is_replaced, cancel_replaced, extended_start, activated, activate_found, activate_subscription,
  locked_subscription, subscription_ref, drop_found, new_failure, drop_pending_subscription,
  mark_pending, mark_succeeded, close, mark_canceled_by_provider,
}
use backend_core.Billing.Activation.{emit_replaced-tables}
use backend_core.Billing.Webhooks.{ProviderCallback, apply_action}

drop_found-keeps :
    (t : PaymentStatus) (now : DateTime) (found : Option Subscription) (db : Db)
    → ((drop_found t now found db).1.webhooks ≡ db.webhooks)
      × ((drop_found t now found db).1.payments ≡ db.payments)
unfolding drop_found save_subscription
drop_found-keeps t now none db = (refl, refl)
drop_found-keeps t now (some s) db = ground arith

drop_pending_subscription-keeps :
    (p : Payment) (t : PaymentStatus) (db : Db)
    → ((drop_pending_subscription p t db).1.webhooks ≡ db.webhooks)
      × ((drop_pending_subscription p t db).1.payments ≡ db.payments)
unfolding drop_pending_subscription locked_subscription
drop_pending_subscription-keeps p t db = elim (Result-cases (subscription_ref p)) [
  | inr (x, e) ↦ ground (arith, e)
  | inl (i, e) ↦
      let found = find (λ s. s.id == i && s.tenant_id == p.tenant_id) db.subscriptions in
      ground (arith, e, drop_found-keeps t db.now found db)
]

close-webhooks :
    (c : Context) (p : Payment) (t : PaymentStatus) (r : Option FailureCode) (db : Db)
    → (close c p t r db).1.webhooks ≡ db.webhooks
unfolding close assert_transition save_payment emit record_audit
close-webhooks c p t r db =
    let p' = record p {
      status = t;
      failure_code = new_failure r p.failure_code;
      closed_at = some db.now;
    } in
    ground (arith, drop_pending_subscription-keeps p' t (save_payment p' db).1)

activate_found-keeps :
    (c : Context) (p : Payment) (s : Subscription) (db : Db)
    → ((activate_found c p s db).1.webhooks ≡ db.webhooks)
      × ((activate_found c p s db).1.payments ≡ db.payments)
unfolding activate_found save_subscription emit
activate_found-keeps c p s db =
    let freed = cancel_replaced p.tenant_id s.id db.now db.subscriptions in
    let rows = select (is_replaced p.tenant_id s.id) db.subscriptions in
    let s' = activated (get_plan s.plan_id db) (extended_start s.plan_id db.now rows) s in
    let db2 = (save_subscription s' (record db { subscriptions = freed })).1 in
    ground (arith, emit_replaced-tables c s.id rows db2)

activate_subscription-keeps :
    (c : Context) (p : Payment) (db : Db)
    → ((activate_subscription c p db).1.webhooks ≡ db.webhooks)
      × ((activate_subscription c p db).1.payments ≡ db.payments)
unfolding activate_subscription locked_subscription
activate_subscription-keeps c p db = elim (Result-cases (subscription_ref p)) [
  | inr (x, e) ↦ ground (arith, e)
  | inl (i, e) ↦
      elim (Option-cases (find (λ s. s.id == i && s.tenant_id == p.tenant_id) db.subscriptions)) [
        | inl f ↦ ground (arith, e, f)
        | inr (s, f) ↦ ground (arith, e, f, activate_found-keeps c p s db)
      ]
]

mark_succeeded-webhooks :
    (c : Context) (p : Payment) (db : Db) → (mark_succeeded c p db).1.webhooks ≡ db.webhooks
unfolding mark_succeeded assert_transition save_payment emit record_audit
mark_succeeded-webhooks c p db =
    let p' = record p { status = PaymentStatus.succeeded; paid_at = some db.now } in
    ground (arith, activate_subscription-keeps c p' (save_payment p' db).1)

-- A payment's transition does not write the ledger.
pub apply_action-webhooks :
    (a : CallbackAction) (s : PaymentStatus) (c : Context) (p : Payment) (cb : ProviderCallback)
    (db : Db)
    → (apply_action a s c p cb db).1.webhooks ≡ db.webhooks
unfolding apply_action mark_canceled_by_provider mark_pending assert_transition save_payment
apply_action-webhooks CallbackAction.create PaymentStatus.created c p cb db = ground arith
apply_action-webhooks CallbackAction.create _ c p cb db = refl
apply_action-webhooks CallbackAction.confirm _ c p cb db = mark_succeeded-webhooks c p db
apply_action-webhooks CallbackAction.cancel _ c p cb db =
    close-webhooks c p PaymentStatus.canceled cb.reason db
apply_action-webhooks _ _ c p cb db = refl

close-payments :
    (c : Context) (p : Payment) (t : PaymentStatus) (r : Option FailureCode) (db : Db) (q : Payment)
    (db' : Db)
    → close c p t r db ≡ (ok q, db')
    → (q.id ≡ p.id)
      × (q.tenant_id ≡ p.tenant_id)
      × (q.status ≡ t)
      × (db'.payments ≡ replace payments_schema q db.payments)
unfolding close assert_transition save_payment emit record_audit
close-payments c p t r db q db' h =
    let p' = record p {
      status = t;
      failure_code = new_failure r p.failure_code;
      closed_at = some db.now;
    } in
    ground (arith, drop_pending_subscription-keeps p' t (save_payment p' db).1)

mark_succeeded-payments :
    (c : Context) (p : Payment) (db : Db) (q : Payment) (db' : Db)
    → mark_succeeded c p db ≡ (ok q, db')
    → (q.id ≡ p.id)
      × (q.tenant_id ≡ p.tenant_id)
      × (q.status ≡ PaymentStatus.succeeded)
      × (db'.payments ≡ replace payments_schema q db.payments)
unfolding mark_succeeded assert_transition save_payment emit record_audit
mark_succeeded-payments c p db q db' h =
    let p' = record p { status = PaymentStatus.succeeded; paid_at = some db.now } in
    ground (arith, activate_subscription-keeps c p' (save_payment p' db).1)

-- The status that an action asks for.
abbrev pub target : CallbackAction → PaymentStatus
target CallbackAction.create = PaymentStatus.pending
target CallbackAction.confirm = PaymentStatus.succeeded
target _ = PaymentStatus.canceled

-- An action that succeeds writes one payment, the given one, in the status that it asks for.
pub apply_action-payments :
    (a : CallbackAction) (s : PaymentStatus) (c : Context) (p : Payment) (cb : ProviderCallback)
    (db : Db) (q : Payment) (db' : Db)
    → apply_action a s c p cb db ≡ (ok q, db')
    → (q.id ≡ p.id)
      × (q.tenant_id ≡ p.tenant_id)
      × (q.status ≡ target a)
      × (db'.payments ≡ replace payments_schema q db.payments)
unfolding apply_action mark_canceled_by_provider mark_pending assert_transition save_payment
apply_action-payments CallbackAction.create PaymentStatus.created c p cb db q db' h = ground arith
apply_action-payments CallbackAction.create _ c p cb db q db' h = cc
apply_action-payments CallbackAction.confirm _ c p cb db q db' h =
    mark_succeeded-payments c p db q db' h
apply_action-payments CallbackAction.cancel _ c p cb db q db' h =
    close-payments c p PaymentStatus.canceled cb.reason db q db' h
apply_action-payments _ _ c p cb db q db' h = cc
