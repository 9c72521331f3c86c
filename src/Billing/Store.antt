-- ===== src/Billing/Store.antt =====
-- What a billing transaction reads and writes: the tables with their unique indexes, the events
-- queued for publication after the commit (shared/service.py `emit`), and the audit records.
use backend_core.Common.{
  ℕ, ◌+◌, Bool, ◌&&◌, ◌||◌, Option, none, some, List, ◌∷◌, ◌++◌, [], ◌≡◌, arith, ◌==◌, select, find,
}
use backend_core.Common.Table.{Schema, replace, conflicts, taken, IsUnique}
use backend_core.Shared.Errors.{Error, Action, ok, raise_if, modify, gets, ◌>>=◌, ◌>>◌}
use backend_core.Shared.Context.{Actor, AccessService}
use backend_core.Shared.Clock.{DateTime}
use backend_core.Billing.Models.{
  Plan, Subscription, SubscriptionStatus, Payment, PaymentWebhook, Purpose, Reference, FailureCode,
  is_live, is_pending, same_key, both_some, same_dedup,
}

abbrev pub subscription_clash : Subscription → Subscription → Bool
subscription_clash a b =
    a.tenant_id == b.tenant_id
    && (is_live a.status && is_live b.status || is_pending a.status && is_pending b.status)

abbrev pub payment_clash : Payment → Payment → Bool
payment_clash a b =
    a.tenant_id == b.tenant_id && same_key a.idempotency_key b.idempotency_key
    || a.provider == b.provider && both_some a.provider_transaction_id b.provider_transaction_id

abbrev pub webhook_clash : PaymentWebhook → PaymentWebhook → Bool
webhook_clash a b = a.provider == b.provider && same_dedup a.dedup_key b.dedup_key

pub subscription_clash_sym : (a b : Subscription) → subscription_clash a b ≡ subscription_clash b a
subscription_clash_sym a b = ground arith

both_some_sym : (a b : Option ℕ) → both_some a b ≡ both_some b a
unfolding both_some
both_some_sym a b = ground arith

pub payment_clash_sym : (a b : Payment) → payment_clash a b ≡ payment_clash b a
unfolding same_key
payment_clash_sym a b =
    ground (arith, both_some_sym a.provider_transaction_id b.provider_transaction_id)

pub webhook_clash_sym : (a b : PaymentWebhook) → webhook_clash a b ≡ webhook_clash b a
unfolding same_dedup
webhook_clash_sym a b = ground arith

-- `uq_subscriptions_one_live_per_tenant` and `uq_subscriptions_one_pending_per_tenant`
abbrev pub subscriptions_schema : Schema Subscription
subscriptions_schema = record {
  id = λ s. s.id;
  clash = subscription_clash;
  clash_sym = subscription_clash_sym;
}

-- `uq_payments_tenant_id_idempotency_key` and `uq_payments_provider_provider_transaction_id`
abbrev pub payments_schema : Schema Payment
payments_schema = record { id = λ p. p.id; clash = payment_clash; clash_sym = payment_clash_sym }

-- `uq_payment_webhooks_provider_dedup_key`
abbrev pub webhooks_schema : Schema PaymentWebhook
webhooks_schema = record { id = λ w. w.id; clash = webhook_clash; clash_sym = webhook_clash_sym }

-- `_payment_event_payload`
pub record PaymentPayload : Type 0 where
  pub payment_id : ℕ
  pub amount : ℕ
  pub currency : ℕ
  pub purpose : Purpose
  pub reference : Reference
  pub provider : ℕ

-- `billing.payment.*` and `billing.subscription.*`
pub data Event : Type 0 where
  payment_created payment_canceled payment_expired : PaymentPayload → Event
  payment_succeeded : PaymentPayload → DateTime → Bool → Event
  payment_failed : PaymentPayload → Option FailureCode → Event
  subscription_replaced : ℕ → ℕ → Event
  subscription_activated : ℕ → ℕ → DateTime → Event
  subscription_canceled : ℕ → ℕ → Event
  subscription_ended : ℕ → ℕ → SubscriptionStatus → Event

-- `next_id` is what `new_uuid7` returns next; `now` is the clock, read as one value throughout a
-- transaction. `outbox` holds the context's tenant with each event, newest first, and `audit` the
-- event with the payment that it concerns.
pub record Db : Type 0 where
  pub now : DateTime
  pub next_id : ℕ
  pub plans : List Plan
  pub subscriptions : List Subscription
  pub payments : List Payment
  pub webhooks : List PaymentWebhook
  pub outbox : List (ℕ × Event)
  pub audit : List (ℕ × Event)

pub data Permission : Type 0 where
  plan_read subscription_read subscription_manage : Permission

-- The tenant context that a service is built with. A repository refuses a context with no tenant.
pub record Context : Type 0 where
  pub tenant_id : ℕ
  pub actor : Actor
  pub access : Option (AccessService Permission)

abbrev pub read_clock : Action Db DateTime
read_clock = gets (λ db. db.now)

abbrev pub new_id : Action Db ℕ
new_id db = (ok db.next_id, record db { next_id = db.next_id + 1 })

-- `Service.emit`
unfoldable pub emit : Context → Event → Action Db (Unit {0})
emit c e = modify (λ db. record db { outbox = (c.tenant_id, e) ∷ db.outbox })

-- `AuditService.record`, linked to the event
unfoldable pub record_audit : ℕ → Event → Action Db (Unit {0})
record_audit object e = modify (λ db. record db { audit = (object, e) ∷ db.audit })

-- `session.flush()` of a changed row: the indexes are checked, then the row is written.
unfoldable pub save_payment : Payment → Action Db (Unit {0})
save_payment p = do
  raise_if (conflicts payments_schema p (← gets (λ db. db.payments))) Error.integrity_error
  modify (λ db. record db { payments = replace payments_schema p db.payments })

unfoldable pub save_subscription : Subscription → Action Db (Unit {0})
save_subscription s = do
  raise_if (conflicts subscriptions_schema s (← gets (λ db. db.subscriptions)))
      Error.integrity_error
  modify (λ db. record db { subscriptions = replace subscriptions_schema s db.subscriptions })

-- `Repository.add`
unfoldable pub add_subscription : Subscription → Action Db (Unit {0})
add_subscription s = do
  raise_if (taken subscriptions_schema s (← gets (λ db. db.subscriptions))) Error.integrity_error
  modify (λ db. record db { subscriptions = db.subscriptions ++ s ∷ [] })

-- `Repository._select` with a condition: the tenant filter is in every query.
unfoldable pub find_subscriptions : ℕ → (Subscription → Bool) → Db → List Subscription
find_subscriptions tenant p db = select (λ s. s.tenant_id == tenant && p s) db.subscriptions

-- The plan's code, and the empty text if there is no such plan.
unfoldable pub plan_code : Option Plan → ℕ
plan_code none = 0
plan_code (some p) = p.code

-- `session.get(Plan, id)`
unfoldable pub get_plan : ℕ → Db → Option Plan
get_plan i db = find (λ p. p.id == i) db.plans

-- The indexes of every table hold.
pub record IsConsistent (db : Db) : Type 0 where
  pub one_live : IsUnique subscriptions_schema db.subscriptions
  pub one_key : IsUnique payments_schema db.payments
  pub one_delivery : IsUnique webhooks_schema db.webhooks
