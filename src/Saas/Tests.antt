-- ===== src/Saas/Tests.antt =====
-- Concrete runs of modules/saas.
use backend_core.Common.{ℕ, ◌+◌, ◌≡◌, refl, false, Option, none, some, List, [], ◌∷◌, arith}
use backend_core.Shared.Errors.{◌>>◌}
use backend_core.Saas.Entitlements.{
  Saas, PlanEntitlement, limit, set_active_plan, mark_canceled, activated, ended, on_event,
}
use backend_core.Saas.Metering.{Metric, UsageCounter, record_usage, usage}
use backend_core.Saas.Coverage.{on_event-swap}
use backend_core.Saas.Usage.{usage-record_usage}

abbrev seats : PlanEntitlement
seats = record {
  plan_code = 1;
  entitlement_key = 9;
  kind = limit;
  bool_value = none;
  int_value = some 3;
}

abbrev paid : Saas
paid = record {
  now = 100;
  plans = seats ∷ [];
  tenants =
      record { tenant_id = 7; plan_code = 1; current_period_end = some 500; canceled = false } ∷ [];
  changed = [];
}

abbrev bought : Saas
bought = (set_active_plan 7 2 (some 900) paid).1

abbrev given_up : Option ℕ → Saas
given_up end = (mark_canceled 7 (set_active_plan 7 2 end paid).1).1

on_event-swap_example :
    ((on_event (some 7) (ended 1 500) >> on_event (some 7) (activated 2 none)) paid).1.tenants
    ≡ ((on_event (some 7) (activated 2 none) >> on_event (some 7) (ended 1 500)) paid).1.tenants
on_event-swap_example = on_event-swap 7 1 2 500 none paid (λ e. ground (arith, e))

abbrev counters : List UsageCounter
counters = record { tenant_id = 7; metric_key = 4; bucket = 20; value = 6 } ∷ []

abbrev calls : Metric
calls = record { key = 4; length = 5 }

usage-record_usage_example :
    usage 7 4 (some 20) none (record_usage 7 calls 2 (some 21) 30 counters).1
    ≡ usage 7 4 (some 20) none counters + 2
unfolding record_usage
usage-record_usage_example =
    usage-record_usage 7 calls 2 (some 21) 30 7 4 (some 20) none counters refl
