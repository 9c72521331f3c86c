-- ===== src/Billing/Periods.antt =====
-- core/billing/periods.py: the end of a billing period.
use Prim.Native.Nat.{min}
use backend_core.Common.{ℕ, ◌+◌, ◌≤◌, ◌<◌, ◌≡◌, arith, ltb, if◌then◌else◌}
use backend_core.Shared.Clock.{DateTime, days_in_month, IsValidDate, month_index, moment}

-- `period`: the table's check admits these two.
pub data Period : Type 0 where
  month year : Period

pub period_end : DateTime → Period → DateTime
period_end start Period.year =
    let year = start.year + 1 in
    record start { year = year; day = min start.day (days_in_month year start.month) }
period_end start Period.month =
    let wraps = ltb 12 (start.month + 1) in
    let month = (if wraps then 1 else start.month + 1) in
    let year = (if wraps then start.year + 1 else start.year) in
    record start { year = year; month = month; day = min start.day (days_in_month year month) }

abbrev pub months : Period → ℕ
months Period.year = 12
months Period.month = 1

days_in_month-bounds : (y m : ℕ) → (28 ≤ days_in_month y m) × (days_in_month y m ≤ 31)
unfolding days_in_month
days_in_month-bounds y m = ground arith

-- Where the period of a valid date ends: on a valid date, exactly one month or twelve on, at the
-- same time of day, on the same day or on the month's last one if it is shorter.
pub record Lands (start : DateTime) (p : Period) (e : DateTime) : Type 0 where
  pub valid : IsValidDate e
  pub later : month_index e ≡ month_index start + months p
  pub clamped : e.day ≡ min start.day (days_in_month e.year e.month)
  pub same_time : e.micros ≡ start.micros

-- From a valid date a period ends where `Lands` says.
pub period_end-Lands :
    (start : DateTime) (p : Period) → IsValidDate start → Lands start p (period_end start p)
unfolding period_end
period_end-Lands start Period.year v =
    ground (arith, days_in_month-bounds (start.year + 1) start.month)
period_end-Lands start Period.month v = ground (
  arith,
  days_in_month-bounds (start.year + 1) 1,
  days_in_month-bounds start.year (start.month + 1),
)

pub moment_mono :
    (a b : DateTime)
    → IsValidDate a
    → IsValidDate b
    → month_index a < month_index b
    → moment a < moment b
moment_mono a b va vb h = omega (arith, days_in_month-bounds a.year a.month)

pub month_index_mono :
    (a b : DateTime)
    → IsValidDate a
    → IsValidDate b
    → moment a ≤ moment b
    → month_index a ≤ month_index b
month_index_mono a b va vb h = omega (arith, days_in_month-bounds b.year b.month)
