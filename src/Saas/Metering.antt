-- ===== src/Saas/Metering.antt =====
-- modules/saas/metering (models.py, service.py): counters of use, one for a tenant, metric and UTC day.
-- A metric's key is a number with the length of its text; days are numbered.
use backend_core.Common.{
  ℕ, ◌+◌, Bool, true, ◌&&◌, Option, none, some, List, [], ◌∷◌, ◌==◌, leb, ltb, ◌||◌, if◌then◌else◌,
  select, map, any,
}
use backend_core.Shared.Errors.{Error, Action, raise_if, modify, gets, lift, ◌>>◌}
use backend_core.Shared.Context.{Actor, AccessService, require_permission}

pub record UsageCounter : Type 0 where
  pub tenant_id : ℕ
  pub metric_key : ℕ
  pub bucket : ℕ
  pub value : ℕ

pub record Metric : Type 0 where
  pub key : ℕ
  pub length : ℕ

-- `_MAX_METRIC_KEY_LEN`
abbrev pub max_metric_key_len : ℕ
max_metric_key_len = 128

-- `uq_saas_usage_counters_tenant_id_metric_key_bucket`
abbrev pub is_counter : ℕ → ℕ → ℕ → UsageCounter → Bool
is_counter t key day c = (c.tenant_id == t && c.metric_key == key) && c.bucket == day

-- INSERT ... ON CONFLICT DO UPDATE
abbrev pub upsert : ℕ → ℕ → ℕ → ℕ → List UsageCounter → List UsageCounter
upsert t key day delta [] =
    record { tenant_id = t; metric_key = key; bucket = day; value = delta } ∷ []
upsert t key day delta (c ∷ rows) =
    if is_counter t key day c
    then record c { value = c.value + delta } ∷ rows
    else c ∷ upsert t key day delta rows

-- `at or datetime.now(UTC)`
abbrev pub day_of_use : Option ℕ → ℕ → ℕ
day_of_use none today = today
day_of_use (some day) today = day

-- `record`
unfoldable pub record_usage : ℕ → Metric → ℕ → Option ℕ → ℕ → Action (List UsageCounter) (Unit {0})
record_usage t metric delta at today = do
  raise_if (metric.length == 0 || ltb max_metric_key_len metric.length) Error.invariant_violation
  raise_if (ltb delta 1) Error.invariant_violation
  modify (upsert t metric.key (day_of_use at today) delta)

-- `_window`
abbrev pub in_window : Option ℕ → Option ℕ → ℕ → Bool
in_window since until day =
    (elim since [ none ↦ true | some d ↦ leb d day ])
    && (elim until [ none ↦ true | some d ↦ leb day d ])

abbrev pub sum_values : (UsageCounter → Bool) → List UsageCounter → ℕ
sum_values p [] = 0
sum_values p (c ∷ rows) = (if p c then c.value else 0) + sum_values p rows

abbrev pub is_used : ℕ → ℕ → Option ℕ → Option ℕ → UsageCounter → Bool
is_used t key since until c =
    (c.tenant_id == t && c.metric_key == key) && in_window since until c.bucket

unfoldable pub usage : ℕ → ℕ → Option ℕ → Option ℕ → List UsageCounter → ℕ
usage t key since until rows = sum_values (is_used t key since until) rows

-- GROUP BY metric_key, in the order in which the metrics come up.
abbrev pub metric_keys : List UsageCounter → List ℕ
metric_keys [] = []
metric_keys (c ∷ rows) =
    let rest = metric_keys rows in
    if any (λ k. k == c.metric_key) rest then rest else c.metric_key ∷ rest

unfoldable pub summary :
    {P : Type 0}
    → Actor
    → Option (AccessService P)
    → P
    → ℕ
    → Option ℕ
    → Option ℕ
    → Action (List UsageCounter) (List (ℕ × ℕ))
unfolding require_permission usage
summary actor access permission t since until = do
  lift (require_permission actor access permission)
  gets (λ rows.
      map (λ key. (key, usage t key since until rows))
        (metric_keys (select (λ c. c.tenant_id == t && in_window since until c.bucket) rows)))
