-- ===== src/Billing/Installs.antt =====
-- What a successful payment does to the subscription that it pays for (`_activate_subscription`
-- and `mark_succeeded` of core/billing/service.py).
use backend_core.Common.{
  ℕ, ◌≡◌, refl, false, ◌&&◌, Option, none, some, List, [], ◌∷◌, arith, ◌==◌, find, find-holds, any,
  Option-cases, inl, inr, select,
}
use backend_core.Common.Table.{
  replace, conflicts, get_row, get_row-replace_self, get_row-find, get_row-map,
}
use backend_core.Shared.Errors.{Error, ok, err, Result-cases}
use backend_core.Shared.Clock.{DateTime}
use backend_core.Billing.Models.{Payment, Subscription, SubscriptionStatus, Plan, is_live}
use backend_core.Billing.Store.{
  Db, Context, IsConsistent, subscriptions_schema, emit, save_subscription, get_plan,
}
use backend_core.Billing.Finalize.{
  is_replaced, retire, cancel_replaced, activated, extended_start, activate_found,
  activate_subscription, locked_subscription, subscription_ref,
}
use backend_core.Billing.Activation.{cancel_replaced-free, emit_replaced-tables, retire-id}

-- The one-live slot of `s` is its own: it is in the table, active, and no other subscription of
-- its tenant is live.
pub record IsInstalled (s : Subscription) (rows : List Subscription) : Type 0 where
  pub stored : get_row subscriptions_schema s.id rows ≡ some s
  pub active : s.status ≡ SubscriptionStatus.active
  pub alone : any (is_replaced s.tenant_id s.id) rows ≡ false

-- The row that `activate_found` writes for `s`.
abbrev pub new_row : Subscription → Db → Subscription
new_row s db =
    activated (get_plan s.plan_id db)
      (extended_start s.plan_id db.now (select (is_replaced s.tenant_id s.id) db.subscriptions)) s

-- The state when the new row is flushed.
abbrev slot_freed : Subscription → Db → Db
slot_freed s db = record db {
  subscriptions = cancel_replaced s.tenant_id s.id db.now db.subscriptions;
}

save_free :
    (s : Subscription) (db : Db)
    → conflicts subscriptions_schema s db.subscriptions ≡ false
    → save_subscription s db
      ≡ (ok tt, record db { subscriptions = replace subscriptions_schema s db.subscriptions })
unfolding save_subscription
save_free s db h = rw h

any-cancel_replaced :
    (t i : ℕ) (now : DateTime) (rows : List Subscription)
    → any (is_replaced t i) (cancel_replaced t i now rows) ≡ false
unfolding cancel_replaced retire is_replaced is_live
any-cancel_replaced t i now [] = refl
any-cancel_replaced t i now (s ∷ rows) = ground (arith, any-cancel_replaced t i now rows)

any-replace :
    (s : Subscription) (rows : List Subscription)
    → any (is_replaced s.tenant_id s.id) rows ≡ false
    → any (is_replaced s.tenant_id s.id) (replace subscriptions_schema s rows) ≡ false
unfolding is_replaced
any-replace s [] h = refl
any-replace s (d ∷ rows) h = ground (arith, any-replace s rows)

activated-id :
    (plan : Option Plan) (start : DateTime) (s : Subscription)
    → ((activated plan start s).id ≡ s.id)
      × ((activated plan start s).tenant_id ≡ s.tenant_id)
      × ((activated plan start s).status ≡ SubscriptionStatus.active)
unfolding activated
activated-id plan start s = (refl, refl, refl)

installed_rows : Subscription → Db → List Subscription
installed_rows s db =
    replace subscriptions_schema (new_row s db)
      (cancel_replaced s.tenant_id s.id db.now db.subscriptions)

installed_rows-IsInstalled :
    (s : Subscription) (db : Db)
    → get_row subscriptions_schema s.id db.subscriptions ≡ some s
    → IsInstalled (new_row s db) (installed_rows s db)
unfolding installed_rows activated
installed_rows-IsInstalled s db h = record {
  stored =
      get_row-replace_self subscriptions_schema (new_row s db)
        (cancel_replaced s.tenant_id s.id db.now db.subscriptions)
        (retire s.tenant_id s.id db.now s)
        (unfold cancel_replaced in
          get_row-map subscriptions_schema (retire s.tenant_id s.id db.now) s.id db.subscriptions s
            (retire-id s.tenant_id s.id db.now) h);
  active = refl;
  alone =
      any-replace (new_row s db) (cancel_replaced s.tenant_id s.id db.now db.subscriptions)
        (any-cancel_replaced s.tenant_id s.id db.now db.subscriptions);
}

-- How an activation ends: without an error, the tables as told.
activate_found-tables :
    (c : Context) (p : Payment) (s : Subscription) (db : Db)
    → s.tenant_id ≡ p.tenant_id
    → let (r, db') = activate_found c p s db in
      (r ≡ ok tt) × (db'.subscriptions ≡ installed_rows s db) × (db'.payments ≡ db.payments)
unfolding activate_found installed_rows emit activated
activate_found-tables c p s db e =
    let plan = get_plan s.plan_id db in
    let rows = select (is_replaced s.tenant_id s.id) db.subscriptions in
    let start = extended_start s.plan_id db.now rows in
    let db2 = record db { subscriptions = installed_rows s db } in
    ground (
      arith,
      e,
      activated-id plan start s,
      save_free (new_row s db) (slot_freed s db) (
          cancel_replaced-free db.now (new_row s db) db.subscriptions
            (activated-id plan start s).2),
      emit_replaced-tables c s.id rows db2,
    )

-- The subscription that a payment pays for, as `_locked_subscription` finds it.
abbrev pub paid_for : Payment → ℕ → List Subscription → Option Subscription
paid_for p i = find (λ s. s.id == i && s.tenant_id == p.tenant_id)

activate_by_ref :
    (c : Context) (p : Payment) (i : ℕ) (s : Subscription) (db : Db)
    → subscription_ref p ≡ ok i
    → paid_for p i db.subscriptions ≡ some s
    → activate_subscription c p db ≡ activate_found c p s db
unfolding activate_subscription locked_subscription
activate_by_ref c p i s db e f = ground (arith, e, f)

activate_refused :
    (c : Context) (p : Payment) (i : ℕ) (db : Db)
    → subscription_ref p ≡ ok i
    → paid_for p i db.subscriptions ≡ none
    → (activate_subscription c p db).0 ≡ err Error.not_found
unfolding activate_subscription locked_subscription
activate_refused c p i db e f = ground (arith, e, f)

activate_unreadable :
    (c : Context) (p : Payment) (x : Error) (db : Db)
    → subscription_ref p ≡ err x
    → (activate_subscription c p db).0 ≡ err x
unfolding activate_subscription locked_subscription
activate_unreadable c p x db e = ground (arith, e)

-- An activation that returns has installed the subscription that the payment refers to.
pub record Activates (p : Payment) (db db' : Db) : Type 0 where
  pub subscription : Subscription
  pub referred : subscription_ref p ≡ ok subscription.id
  pub same_tenant : subscription.tenant_id ≡ p.tenant_id
  pub installed : IsInstalled subscription db'.subscriptions
  pub payments_kept : db'.payments ≡ db.payments

found-Activates :
    (c : Context) (p : Payment) (i : ℕ) (s : Subscription) (db : Db)
    → IsConsistent db
    → subscription_ref p ≡ ok i
    → paid_for p i db.subscriptions ≡ some s
    → Activates p db (activate_subscription c p db).1
unfolding activated
found-Activates c p i s db v e f =
    let found = find-holds (λ s. s.id == i && s.tenant_id == p.tenant_id) db.subscriptions s f in
    let tenant : s.tenant_id ≡ p.tenant_id = ground (arith, found) in
    let key : s.id ≡ i = ground (arith, found) in
    let ends = activate_found-tables c p s db tenant in
    let row =
      get_row-find subscriptions_schema (λ s. s.id == i && s.tenant_id == p.tenant_id)
        db.subscriptions s v.one_live f in
    rw (activate_by_ref c p i s db e f) (record {
      subscription = new_row s db;
      referred = rw key e;
      same_tenant = tenant;
      installed = rw ends.1 (installed_rows-IsInstalled s db row);
      payments_kept = ends.2;
    })

pub activate_subscription-Activates :
    (c : Context) (p : Payment) (db : Db)
    → IsConsistent db
    → (activate_subscription c p db).0 ≡ ok tt
    → Activates p db (activate_subscription c p db).1
activate_subscription-Activates c p db v h = elim (Result-cases (subscription_ref p)) [
  | inr (x, e) ↦ absurd (cc (activate_unreadable c p x db e))
  | inl (i, e) ↦ elim (Option-cases (paid_for p i db.subscriptions)) [
    | inl f ↦ absurd (cc (activate_refused c p i db e f))
    | inr (s, f) ↦ found-Activates c p i s db v e f
  ]
]
