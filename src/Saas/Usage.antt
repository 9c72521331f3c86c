-- ===== src/Saas/Usage.antt =====
-- The totals of modules/saas/metering under the recording of use.
use backend_core.Common.{
  ℕ, ◌+◌, ◌≡◌, true, ◌&&◌, Option, List, [], ◌∷◌, ◌==◌, if◌then◌else◌, arith, inl, inr, Bool-cases,
}
use backend_core.Shared.Errors.{ok}
use backend_core.Saas.Metering.{
  UsageCounter, Metric, is_counter, upsert, day_of_use, record_usage, in_window, sum_values,
  is_used, usage,
}

same-used :
    (t key day u k : ℕ) (since until : Option ℕ) (c : UsageCounter)
    → is_counter t key day c ≡ true
    → is_used u k since until c ≡ ((t == u && key == k) && in_window since until day)
same-used t key day u k since until c e =
    let a : c.tenant_id ≡ t = ground (arith, e) in
    let b : c.metric_key ≡ key = ground (arith, e) in
    let d : c.bucket ≡ day = ground (arith, e) in
    (λ i. (a i == u && b i == k) && in_window since until (d i))

sum-upsert :
    (t key day delta u k : ℕ) (since until : Option ℕ) (rows : List UsageCounter)
    → sum_values (is_used u k since until) (upsert t key day delta rows)
      ≡ sum_values (is_used u k since until) rows
        + (if (t == u && key == k) && in_window since until day then delta else 0)
sum-upsert t key day delta u k since until [] = ground arith
sum-upsert t key day delta u k since until (c ∷ rows) = elim (Bool-cases (is_counter t key day c)) [
  | inr e ↦ ground (arith, e, sum-upsert t key day delta u k since until rows)
  | inl e ↦
      let f = same-used t key day u k since until c e in
      elim (Bool-cases ((t == u && key == k) && in_window since until day)) [
        | inl g ↦ ground (arith, e, f, g)
        | inr g ↦ ground (arith, e, f, g)
      ]
]

-- Use that is recorded adds to the total of its tenant and metric in every window that has its day,
-- and to no other total.
pub usage-record_usage :
    (t : ℕ) (metric : Metric) (delta : ℕ) (at : Option ℕ) (today u k : ℕ) (since until : Option ℕ)
    (rows : List UsageCounter)
    → (record_usage t metric delta at today rows).0 ≡ ok tt
    → usage u k since until (record_usage t metric delta at today rows).1
      ≡ usage u k since until rows
        + (if (t == u && metric.key == k) && in_window since until (day_of_use at today)
            then delta
            else 0)
unfolding usage record_usage
usage-record_usage t metric delta at today u k since until rows h =
    ground (arith, h, sum-upsert t metric.key (day_of_use at today) delta u k since until rows)
