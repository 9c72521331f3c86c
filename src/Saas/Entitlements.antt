-- ===== src/Saas/Entitlements.antt =====
-- modules/saas/entitlements (models.py, service.py, subscribers.py). Plan and limit codes are numbers,
-- the empty text 0; an instant counts microseconds.
use backend_core.Common.{
  ℕ, Bool, true, false, ◌&&◌, Option, none, some, List, [], ◌∷◌, ◌++◌, ◌==◌, find, select, leb, ltb,
  ◌≡◌, arith, if◌then◌else◌, map,
}
use backend_core.Common.Table.{Schema, replace}
use backend_core.Shared.Errors.{Error, Action, pure, raise_if, lift, gets, modify, ◌>>=◌, ◌>>◌}
use backend_core.Shared.Context.{Actor, AccessService, require_permission}

pub data Kind : Type 0 where
  flag limit : Kind

pub record PlanEntitlement : Type 0 where
  pub plan_code : ℕ
  pub entitlement_key : ℕ
  pub kind : Kind
  pub bool_value : Option Bool
  pub int_value : Option ℕ

pub record TenantEntitlement : Type 0 where
  pub tenant_id : ℕ
  pub plan_code : ℕ
  pub current_period_end : Option ℕ
  pub canceled : Bool

-- `uq_saas_tenant_entitlements_tenant_id`: the row of a tenant is its key.
abbrev pub tenant_clash : TenantEntitlement → TenantEntitlement → Bool
tenant_clash a b = a.tenant_id == b.tenant_id

pub tenant_clash_sym : (a b : TenantEntitlement) → tenant_clash a b ≡ tenant_clash b a
tenant_clash_sym a b = ground arith

abbrev pub entitlements_schema : Schema TenantEntitlement
entitlements_schema = record {
  id = λ r. r.tenant_id;
  clash = tenant_clash;
  clash_sym = tenant_clash_sym;
}

-- `changed` holds the plan codes of the events saas.entitlement.changed, newest first.
pub record Saas : Type 0 where
  pub now : ℕ
  pub plans : List PlanEntitlement
  pub tenants : List TenantEntitlement
  pub changed : List ℕ

-- `_current_row`
abbrev pub current_row : ℕ → Saas → Option TenantEntitlement
current_row t s = find (λ r. r.tenant_id == t) s.tenants

-- Whether the row covers its tenant.
abbrev pub is_over : ℕ → Option ℕ → Bool
is_over now none = true
is_over now (some end) = leb end now

abbrev pub plan_of : ℕ → Option TenantEntitlement → Option ℕ
plan_of now none = none
plan_of now (some r) =
    if r.canceled && is_over now r.current_period_end then none else some r.plan_code

unfoldable pub effective_plan_code : ℕ → Saas → Option ℕ
effective_plan_code t s = plan_of s.now (current_row t s)

abbrev pub same_kind : Kind → Kind → Bool
same_kind flag flag = true
same_kind limit limit = true
same_kind _ _ = false

-- `_grant`
unfoldable pub find_grant : ℕ → ℕ → Kind → Saas → Option PlanEntitlement
find_grant plan key kind s =
    find (λ r. (r.plan_code == plan && r.entitlement_key == key) && same_kind r.kind kind) s.plans

abbrev pub flag_value : Option PlanEntitlement → Bool
flag_value none = false
flag_value (some r) = elim r.bool_value [ none ↦ false | some b ↦ b ]

abbrev pub limit_value : Option PlanEntitlement → Option ℕ
limit_value none = none
limit_value (some r) = r.int_value

unfoldable pub is_enabled : ℕ → ℕ → Saas → Bool
unfolding effective_plan_code find_grant
is_enabled t key s = elim (effective_plan_code t s) [
  | none ↦ false
  | some plan ↦ flag_value (find_grant plan key flag s)
]

unfoldable pub get_limit : ℕ → ℕ → Saas → Option ℕ
unfolding effective_plan_code find_grant
get_limit t key s = elim (effective_plan_code t s) [
  | none ↦ none
  | some plan ↦ limit_value (find_grant plan key limit s)
]

-- `count` is what the caller's count returns under the lock.
unfoldable pub require_within_limit : ℕ → ℕ → ℕ → Action Saas (Unit {0})
unfolding get_limit
require_within_limit t key count = do
  found ← gets (get_limit t key)
  elim found [ none ↦ pure tt | some most ↦ raise_if (leb most count) Error.conflict ]

pub record Snapshot : Type 0 where
  pub plan_code : Option ℕ
  pub flags : List (ℕ × Bool)
  pub limits : List (ℕ × Option ℕ)

abbrev pub grants_of : ℕ → Kind → Saas → List PlanEntitlement
grants_of plan kind s = select (λ r. r.plan_code == plan && same_kind r.kind kind) s.plans

-- Read by those who hold ENTITLEMENT_READ.
unfoldable pub snapshot :
    {P : Type 0} → Actor → Option (AccessService P) → P → ℕ → Action Saas Snapshot
unfolding effective_plan_code require_permission
snapshot actor access permission t = do
  lift (require_permission actor access permission)
  plan ← gets (effective_plan_code t)
  elim plan [
    | none ↦ pure (record { plan_code = none; flags = []; limits = [] })
    | some p ↦ gets (λ s. record {
      plan_code = some p;
      flags = map (λ r. (r.entitlement_key, flag_value (some r))) (grants_of p flag s);
      limits = map (λ r. (r.entitlement_key, r.int_value)) (grants_of p limit s);
    })
  ]

-- A written row with its event.
unfoldable pub write_row : TenantEntitlement → Action Saas (Unit {0})
write_row r = modify (λ s. record s {
  tenants = replace entitlements_schema r s.tenants;
  changed = r.plan_code ∷ s.changed;
})

unfoldable pub set_active_plan : ℕ → ℕ → Option ℕ → Action Saas (Unit {0})
unfolding write_row
set_active_plan t plan end = do
  found ← gets (current_row t)
  let row : TenantEntitlement = record {
    tenant_id = t;
    plan_code = plan;
    current_period_end = end;
    canceled = false;
  }
  elim found [
    | none ↦ modify (λ s. record s { tenants = s.tenants ++ row ∷ []; changed = plan ∷ s.changed })
    | some old ↦ write_row row
  ]

unfoldable pub mark_canceled : ℕ → Action Saas (Unit {0})
unfolding write_row
mark_canceled t = do
  found ← gets (current_row t)
  elim found [ none ↦ pure tt | some row ↦ write_row (record row { canceled = true }) ]

-- The earlier of the period's end and the event.
abbrev pub earlier_end : Option ℕ → ℕ → ℕ
earlier_end none ended = ended
earlier_end (some end) ended = if ltb ended end then ended else end

unfoldable pub end_plan : ℕ → ℕ → ℕ → Action Saas (Unit {0})
unfolding write_row
end_plan t plan ended = do
  found ← gets (current_row t)
  elim found [
    | none ↦ pure tt
    | some row ↦
        if row.plan_code == plan
        then write_row (record row {
          canceled = true;
          current_period_end = some (earlier_end row.current_period_end ended);
        })
        else pure tt
  ]

-- The events of billing: activated with the plan's code and the end of the period, canceled, ended
-- with the plan's code and its time.
pub data SubscriptionEvent : Type 0 where
  activated : ℕ → Option ℕ → SubscriptionEvent
  canceled : SubscriptionEvent
  ended : ℕ → ℕ → SubscriptionEvent

-- The subscribers; an event without a tenant, or without a plan where one is due, is passed over.
unfoldable pub on_event : Option ℕ → SubscriptionEvent → Action Saas (Unit {0})
unfolding set_active_plan mark_canceled end_plan
on_event none e = pure tt
on_event (some t) (activated plan end) = if plan == 0 then pure tt else set_active_plan t plan end
on_event (some t) canceled = mark_canceled t
on_event (some t) (ended plan time) = if plan == 0 then pure tt else end_plan t plan time
