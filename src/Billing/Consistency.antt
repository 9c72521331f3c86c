-- ===== src/Billing/Consistency.antt =====
-- Every billing operation keeps the tables' unique indexes, also when it raises.
use backend_core.Common.{
  ℕ, ◌≡◌, ◌&&◌, ◌==◌, List, Option, none, some, arith, inl, inr, find, select, Option-cases,
}
use backend_core.Common.Table.{replace-IsUnique, append-IsUnique}
use backend_core.Shared.Errors.{Result-cases}
use backend_core.Shared.Clock.{DateTime}
use backend_core.Billing.State.{PaymentStatus, assert_transition}
use backend_core.Billing.Models.{Payment, Subscription, FailureCode, CallbackAction}
use backend_core.Billing.Store.{
  Db, Context, Event, IsConsistent, payments_schema, subscriptions_schema, emit, record_audit,
  save_payment, save_subscription, add_subscription, plan_code, get_plan,
}
use backend_core.Billing.Payments.{payment_event_payload}
use backend_core.Billing.Finalize.{
  is_replaced, cancel_replaced, emit_replaced, extended_start, activated, activate_found,
  activate_subscription, locked_subscription, subscription_ref, dropped, drop_found, new_failure,
  close_event, drop_pending_subscription, was_expired, mark_pending, mark_succeeded, close,
  mark_canceled_by_provider,
}
use backend_core.Billing.Activation.{cancel_replaced-IsUnique, emit_replaced-tables}
use backend_core.Billing.Webhooks.{ProviderCallback, apply_action, text_or_empty}

pub save_payment-IsConsistent :
    (p : Payment) (db : Db) → IsConsistent db → IsConsistent (save_payment p db).1
unfolding save_payment
save_payment-IsConsistent p db v =
    ground (arith, replace-IsUnique payments_schema p db.payments v.one_key)

save_subscription-IsConsistent :
    (s : Subscription) (db : Db) → IsConsistent db → IsConsistent (save_subscription s db).1
unfolding save_subscription
save_subscription-IsConsistent s db v =
    ground (arith, replace-IsUnique subscriptions_schema s db.subscriptions v.one_live)

add_subscription-IsConsistent :
    (s : Subscription) (db : Db) → IsConsistent db → IsConsistent (add_subscription s db).1
unfolding add_subscription
add_subscription-IsConsistent s db v =
    ground (arith, append-IsUnique subscriptions_schema s db.subscriptions v.one_live)

pub emit-IsConsistent :
    (c : Context) (e : Event) (db : Db) → IsConsistent db → IsConsistent (emit c e db).1
unfolding emit
emit-IsConsistent c e db v = ground arith

record_audit-IsConsistent :
    (i : ℕ) (e : Event) (db : Db) → IsConsistent db → IsConsistent (record_audit i e db).1
unfolding record_audit
record_audit-IsConsistent i e db v = ground arith

mark_pending-IsConsistent :
    (p : Payment) (t : ℕ) (db : Db) → IsConsistent db → IsConsistent (mark_pending p t db).1
unfolding mark_pending assert_transition
mark_pending-IsConsistent p t db v = grind (arith, save_payment-IsConsistent)

drop_found-IsConsistent :
    (t : PaymentStatus) (now : DateTime) (found : Option Subscription) (db : Db)
    → IsConsistent db
    → IsConsistent (drop_found t now found db).1
unfolding drop_found
drop_found-IsConsistent t now none db v = v
drop_found-IsConsistent t now (some s) db v =
    ground (arith, save_subscription-IsConsistent (dropped t now s) db v)

locked_subscription_state : (p : Payment) (db : Db) → (locked_subscription p db).1 ≡ db
unfolding locked_subscription
locked_subscription_state p db = ground arith

drop_pending_subscription-IsConsistent :
    (p : Payment) (t : PaymentStatus) (db : Db)
    → IsConsistent db
    → IsConsistent (drop_pending_subscription p t db).1
unfolding drop_pending_subscription
drop_pending_subscription-IsConsistent p t db v = grind (arith, drop_found-IsConsistent)

close-IsConsistent :
    (c : Context) (p : Payment) (t : PaymentStatus) (r : Option FailureCode) (db : Db)
    → IsConsistent db
    → IsConsistent (close c p t r db).1
unfolding close assert_transition
close-IsConsistent c p t r db v =
    let p' = record p {
      status = t;
      failure_code = new_failure r p.failure_code;
      closed_at = some db.now;
    } in
    let db1 = (save_payment p' db).1 in
    let db2 = (drop_pending_subscription p' t db1).1 in
    let e = close_event t p' r in
    let v1 = save_payment-IsConsistent p' db v in
    let v2 = drop_pending_subscription-IsConsistent p' t db1 v1 in
    ground (
      arith,
      emit-IsConsistent c e db1 v1,
      emit-IsConsistent c e db2 v2,
      record_audit-IsConsistent p.id e (emit c e db1).1,
      record_audit-IsConsistent p.id e (emit c e db2).1,
    )

emit_replaced-IsConsistent :
    (c : Context) (by : ℕ) (rows : List Subscription) (db : Db)
    → IsConsistent db
    → IsConsistent (emit_replaced c by rows db).1
emit_replaced-IsConsistent c by rows db v = ground (arith, emit_replaced-tables c by rows db)

activate_found-IsConsistent :
    (c : Context) (p : Payment) (s : Subscription) (db : Db)
    → IsConsistent db
    → IsConsistent (activate_found c p s db).1
unfolding activate_found
activate_found-IsConsistent c p s db v =
    let freed = cancel_replaced p.tenant_id s.id db.now db.subscriptions in
    let db1 = record db { subscriptions = freed } in
    let rows = select (is_replaced p.tenant_id s.id) db.subscriptions in
    let plan = get_plan s.plan_id db in
    let s' = activated plan (extended_start s.plan_id db.now rows) s in
    let v1 : IsConsistent db1 = record {
      one_live = cancel_replaced-IsUnique p.tenant_id s.id db.now db.subscriptions v.one_live;
      one_key = v.one_key;
      one_delivery = v.one_delivery;
    } in
    let v2 = save_subscription-IsConsistent s' db1 v1 in
    let db2 = (save_subscription s' db1).1 in
    let v3 = emit_replaced-IsConsistent c s.id rows db2 v2 in
    let e = Event.subscription_activated s.id (plan_code plan) s'.current_period_end in
    ground (arith, v2, v3, emit-IsConsistent c e (emit_replaced c s.id rows db2).1 v3)

activate_subscription-IsConsistent :
    (c : Context) (p : Payment) (db : Db)
    → IsConsistent db
    → IsConsistent (activate_subscription c p db).1
unfolding activate_subscription locked_subscription
activate_subscription-IsConsistent c p db v = elim (Result-cases (subscription_ref p)) [
  | inr (x, e) ↦ ground (arith, e)
  | inl (i, e) ↦
      elim (Option-cases (find (λ s. s.id == i && s.tenant_id == p.tenant_id) db.subscriptions)) [
        | inl f ↦ ground (arith, e, f)
        | inr (s, f) ↦ ground (arith, e, f, activate_found-IsConsistent c p s db v)
      ]
]

mark_succeeded-IsConsistent :
    (c : Context) (p : Payment) (db : Db) → IsConsistent db → IsConsistent (mark_succeeded c p db).1
unfolding mark_succeeded assert_transition
mark_succeeded-IsConsistent c p db v =
    let p' = record p { status = PaymentStatus.succeeded; paid_at = some db.now } in
    let db1 = (save_payment p' db).1 in
    let db2 = (activate_subscription c p' db1).1 in
    let e = Event.payment_succeeded (payment_event_payload p') db.now (was_expired p.status) in
    let v1 = save_payment-IsConsistent p' db v in
    let v2 = activate_subscription-IsConsistent c p' db1 v1 in
    ground (
      arith,
      v1,
      v2,
      emit-IsConsistent c e db1 v1,
      emit-IsConsistent c e db2 v2,
      record_audit-IsConsistent p.id e (emit c e db1).1,
      record_audit-IsConsistent p.id e (emit c e db2).1,
    )

pub apply_action-IsConsistent :
    (a : CallbackAction) (s : PaymentStatus) (c : Context) (p : Payment) (cb : ProviderCallback)
    (db : Db)
    → IsConsistent db
    → IsConsistent (apply_action a s c p cb db).1
unfolding apply_action mark_canceled_by_provider
apply_action-IsConsistent CallbackAction.create PaymentStatus.created c p cb db v =
    mark_pending-IsConsistent p (text_or_empty cb.provider_txn_id) db v
apply_action-IsConsistent CallbackAction.create _ c p cb db v = v
apply_action-IsConsistent CallbackAction.confirm _ c p cb db v =
    mark_succeeded-IsConsistent c p db v
apply_action-IsConsistent CallbackAction.cancel _ c p cb db v =
    close-IsConsistent c p PaymentStatus.canceled cb.reason db v
apply_action-IsConsistent _ _ c p cb db v = v
