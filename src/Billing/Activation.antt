-- ===== src/Billing/Activation.antt =====
-- The activation of a paid subscription (`_activate_subscription`): the live one makes way first.
use backend_core.Common.{
  ℕ, ◌≤◌, ◌≡◌, ◌≢◌, ◌⊎◌, refl, Bool, false, not, ◌&&◌, List, [], ◌∷◌, arith, ◌==◌, Bool-cases, All,
  inl, inr, if◌then◌else◌,
}
use backend_core.Common.Table.{conflicts, IsUnique, map-IsUnique, conflicts-map}
use backend_core.Shared.Errors.{ok}
use backend_core.Shared.Clock.{DateTime, before, moment}
use backend_core.Billing.Models.{Subscription, SubscriptionStatus, is_live, is_pending}
use backend_core.Billing.Store.{Db, Context, Event, subscriptions_schema, subscription_clash, emit}
use backend_core.Billing.Finalize.{
  is_replaced, retire, cancel_replaced, emit_replaced, extended_start,
}

abbrev clash : Subscription → Subscription → Bool
clash = subscription_clash

-- A retired row keeps its key and gives up its index entries.
pub retire-id : (t i : ℕ) (now : DateTime) (d : Subscription) → (retire t i now d).id ≡ d.id
unfolding retire
retire-id t i now d = ground arith

clash-retire :
    (t i : ℕ) (now : DateTime) (b d : Subscription)
    → clash b d ≡ false
    → clash b (retire t i now d) ≡ false
unfolding retire is_live is_pending
clash-retire t i now b d h = ground arith

-- No entry of the retired row is needed by one that stays live in the same tenant.
retire-free :
    (now : DateTime) (s d : Subscription)
    → s.status ≡ SubscriptionStatus.active
    → (not (d.id == s.id) && clash s (retire s.tenant_id s.id now d)) ≡ false
unfolding retire is_replaced is_live is_pending
retire-free now s d a = ground arith

pub cancel_replaced-IsUnique :
    (t i : ℕ) (now : DateTime) (rows : List Subscription)
    → IsUnique subscriptions_schema rows
    → IsUnique subscriptions_schema (cancel_replaced t i now rows)
unfolding cancel_replaced
cancel_replaced-IsUnique t i now =
    map-IsUnique subscriptions_schema (retire t i now) (retire-id t i now) (clash-retire t i now)

-- After the loop the one-live slot of the tenant is free for subscription `s`.
pub cancel_replaced-free :
    (now : DateTime) (s : Subscription) (rows : List Subscription)
    → s.status ≡ SubscriptionStatus.active
    → conflicts subscriptions_schema s (cancel_replaced s.tenant_id s.id now rows) ≡ false
unfolding cancel_replaced
cancel_replaced-free now s rows a =
    conflicts-map subscriptions_schema (retire s.tenant_id s.id now) s
      (retire-id s.tenant_id s.id now) (λ d. retire-free now s d a) rows

emit-tables :
    (c : Context) (e : Event) (db : Db)
    → ((emit c e db).1.subscriptions ≡ db.subscriptions) × ((emit c e db).1.payments ≡ db.payments)
unfolding emit
emit-tables c e db = (refl, refl)

pub emit_replaced-tables :
    (c : Context) (by : ℕ) (rows : List Subscription) (db : Db)
    → ((emit_replaced c by rows db).0 ≡ ok tt)
      × ((emit_replaced c by rows db).1.subscriptions ≡ db.subscriptions)
      × ((emit_replaced c by rows db).1.payments ≡ db.payments)
      × ((emit_replaced c by rows db).1.webhooks ≡ db.webhooks)
unfolding emit_replaced emit
emit_replaced-tables c by [] db = (refl, refl, refl, refl)
emit_replaced-tables c by (old ∷ rest) db =
    emit_replaced-tables c by rest
      (record db { outbox = (c.tenant_id, Event.subscription_replaced old.id by) ∷ db.outbox })

extended_start-le :
    (plan : ℕ) (start : DateTime) (rows : List Subscription)
    → moment start ≤ moment (extended_start plan start rows)
unfolding extended_start
extended_start-le plan start [] = omega arith
extended_start-le plan start (old ∷ rest) =
    ground
      (arith, extended_start-le plan start rest, extended_start-le plan old.current_period_end rest)

abbrev next_start : ℕ → DateTime → Subscription → DateTime
next_start plan start old =
    if old.plan_id == plan && before start old.current_period_end
    then old.current_period_end
    else start

later_start :
    (plan : ℕ) (start : DateTime) (old : Subscription) (end : DateTime)
    → moment (next_start plan start old) ≤ moment end
    → moment start ≤ moment end
later_start plan start old end h = ground arith

same_plan :
    (plan : ℕ) (start : DateTime) (old : Subscription) (end : DateTime)
    → moment (next_start plan start old) ≤ moment end
    → (old.plan_id ≢ plan) ⊎ (moment old.current_period_end ≤ moment end)
same_plan plan start old end h = elim (Bool-cases (old.plan_id == plan)) [
  | inl e ↦ inr (ground (arith, e))
  | inr e ↦ inl (λ p. ground (arith, e))
]

-- The paid time of every replaced subscription of the same plan ends before the new period starts.
pub extended_start-covers :
    (plan : ℕ) (start : DateTime) (rows : List Subscription)
    → (moment start ≤ moment (extended_start plan start rows))
      × All
          (λ old.
            (old.plan_id ≢ plan)
            ⊎ (moment old.current_period_end ≤ moment (extended_start plan start rows)))
          rows
unfolding extended_start
extended_start-covers plan start [] = (omega arith, tt)
extended_start-covers plan start (old ∷ rest) =
    let next = next_start plan start old in
    let le = extended_start-le plan next rest in
    let final = extended_start plan next rest in
    (
      later_start plan start old final le,
      (same_plan plan start old final le, (extended_start-covers plan next rest).1),
    )
