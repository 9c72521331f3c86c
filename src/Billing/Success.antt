-- ===== src/Billing/Success.antt =====
-- `mark_succeeded` of core/billing/service.py: money taken, subscription active.
use backend_core.Common.{◌≡◌, ◌≢◌, ◌∙◌, true, false, some, arith, ◌⊎◌, inl, inr, Bool-cases}
use backend_core.Common.Table.{
  replace, get_row, get_row-conflicts, get_row-replace_self, replace-IsUnique,
}
use backend_core.Shared.Errors.{Result, ok}
use backend_core.Billing.State.{PaymentStatus, can_transition, assert_transition}
use backend_core.Billing.Models.{Payment, Purpose}
use backend_core.Billing.Store.{
  Db, Context, IsConsistent, payments_schema, emit, record_audit, save_payment,
}
use backend_core.Billing.Finalize.{for_subscription, activate_subscription, mark_succeeded}
use backend_core.Billing.Installs.{Activates, activate_subscription-Activates}

-- The payment's row is the stored one, as the caller's row lock guarantees.
abbrev pub IsStored : Payment → Db → Type 0
IsStored p db = get_row payments_schema p.id db.payments ≡ some p

abbrev paid : Payment → Db → Payment
paid p db = record p { status = PaymentStatus.succeeded; paid_at = some db.now }

abbrev with_paid : Payment → Db → Db
with_paid p db = record db { payments = replace payments_schema (paid p db) db.payments }

save_paid :
    (p : Payment) (db : Db)
    → IsConsistent db
    → IsStored p db
    → save_payment (paid p db) db ≡ (ok tt, with_paid p db)
unfolding save_payment
save_paid p db v s = ground (arith, get_row-conflicts payments_schema p db.payments v.one_key s)

with_paid-IsConsistent :
    (p : Payment) (db : Db) → IsConsistent db → IsStored p db → IsConsistent (with_paid p db)
with_paid-IsConsistent p db v s = record {
  one_live = v.one_live;
  one_key =
      replace-IsUnique payments_schema (paid p db) db.payments v.one_key
        (get_row-conflicts payments_schema p db.payments v.one_key s);
  one_delivery = v.one_delivery;
}

-- The activation that `mark_succeeded` runs for a subscription's payment.
abbrev activation : Context → Payment → Db → Result (Unit {0}) × Db
activation c p db = activate_subscription c (paid p db) (with_paid p db)

-- How a call that returned got there, by the payment's purpose.
plain_success :
    (c : Context) (p p' : Payment) (db db' : Db)
    → save_payment (paid p db) db ≡ (ok tt, with_paid p db)
    → for_subscription p.purpose ≡ false
    → mark_succeeded c p db ≡ (ok p', db')
    → (can_transition p.status PaymentStatus.succeeded ≡ true)
      × (p' ≡ paid p db)
      × (db'.payments ≡ (with_paid p db).payments)
unfolding mark_succeeded assert_transition emit record_audit
plain_success c p p' db db' saved plain h = ground (arith, saved)

subscription_success :
    (c : Context) (p p' : Payment) (db db' : Db)
    → save_payment (paid p db) db ≡ (ok tt, with_paid p db)
    → for_subscription p.purpose ≡ true
    → mark_succeeded c p db ≡ (ok p', db')
    → (can_transition p.status PaymentStatus.succeeded ≡ true)
      × (p' ≡ paid p db)
      × (db'.payments ≡ (activation c p db).1.payments)
      × (db'.subscriptions ≡ (activation c p db).1.subscriptions)
      × ((activation c p db).0 ≡ ok tt)
unfolding mark_succeeded assert_transition emit record_audit
subscription_success c p p' db db' saved pays h = ground (arith, saved)

-- What a successful payment leaves behind.
pub record Succeeds (p p' : Payment) (db db' : Db) : Type 0 where
  pub allowed : can_transition p.status PaymentStatus.succeeded ≡ true
  pub row : p' ≡ record p { status = PaymentStatus.succeeded; paid_at = some db.now }
  pub stored : IsStored p' db'
  pub activates : (p.purpose ≢ Purpose.subscription) ⊎ Activates p' (with_paid p db) db'

IsStored-after :
    (p p' : Payment) (db db' : Db)
    → IsStored p db
    → p' ≡ paid p db
    → db'.payments ≡ (with_paid p db).payments
    → IsStored p' db'
IsStored-after p p' db db' s e k =
    rw (e, k) (get_row-replace_self payments_schema (paid p db) db.payments p s)

-- A payment that is marked as succeeded was in a status from which the table allows it, is stored
-- as succeeded at the present time and otherwise unchanged; and if it pays for a subscription,
-- then that subscription, of the payment's own tenant, is active and the tenant's only live one.
pub mark_succeeded_activates :
    (c : Context) (p p' : Payment) (db db' : Db)
    → IsConsistent db
    → IsStored p db
    → mark_succeeded c p db ≡ (ok p', db')
    → Succeeds p p' db db'
mark_succeeded_activates c p p' db db' v s h = elim (Bool-cases (for_subscription p.purpose)) [
  | inr plain ↦ plain_case (plain_success c p p' db db' saved plain h) plain
  | inl pays ↦ subscription_case (subscription_success c p p' db db' saved pays h)
]
  where
    saved : save_payment (paid p db) db ≡ (ok tt, with_paid p db)
    saved = save_paid p db v s

    plain_case :
        (can_transition p.status PaymentStatus.succeeded ≡ true)
          × (p' ≡ paid p db)
          × (db'.payments ≡ (with_paid p db).payments)
        → for_subscription p.purpose ≡ false
        → Succeeds p p' db db'
    plain_case (a, e, k) plain = record {
      allowed = a;
      row = e;
      stored = IsStored-after p p' db db' s e k;
      activates = inl (λ q. ground (arith, plain, q));
    }

    subscription_case :
        (can_transition p.status PaymentStatus.succeeded ≡ true)
          × (p' ≡ paid p db)
          × (db'.payments ≡ (activation c p db).1.payments)
          × (db'.subscriptions ≡ (activation c p db).1.subscriptions)
          × ((activation c p db).0 ≡ ok tt)
        → Succeeds p p' db db'
    subscription_case (a, e, k, l, r) =
        let act =
          activate_subscription-Activates c (paid p db) (with_paid p db)
            (with_paid-IsConsistent p db v s) r in
        record {
          allowed = a;
          row = e;
          stored = IsStored-after p p' db db' s e (k ∙ act.payments_kept);
          activates = inr (
              rw e (record {
                subscription = act.subscription;
                referred = act.referred;
                same_tenant = act.same_tenant;
                installed = rw l act.installed;
                payments_kept = k ∙ act.payments_kept;
              }));
        }
