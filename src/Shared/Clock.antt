-- ===== src/Shared/Clock.antt =====
-- Python's UTC `datetime`, as far as the code uses it: construction by fields, comparison, and
-- the length of a month (`calendar.monthrange`). Years are not capped at 9999.
use backend_core.Common.{
  ℕ, ◌+◌, ◌*◌, ◌%◌, ◌≤◌, ◌<◌, Bool, not, ◌&&◌, ◌||◌, ltb, leb, ◌==◌, if◌then◌else◌,
}

-- `micros` counts microseconds since midnight.
pub record DateTime : Type 0 where
  pub year : ℕ
  pub month : ℕ
  pub day : ℕ
  pub micros : ℕ

abbrev pub is_leap : ℕ → Bool
is_leap y = y % 4 == 0 && (not (y % 100 == 0) || y % 400 == 0)

-- `calendar.monthrange(year, month)[1]`
unfoldable pub days_in_month : ℕ → ℕ → ℕ
days_in_month y m =
    if m == 2
    then (if is_leap y then 29 else 28)
    else if (m == 4 || m == 6) || (m == 9 || m == 11)
    then 30
    else 31

pub record IsValidDate (d : DateTime) : Type 0 where
  pub month_pos : 1 ≤ d.month
  pub month_le : d.month ≤ 12
  pub day_pos : 1 ≤ d.day
  pub day_le : d.day ≤ days_in_month d.year d.month
  pub micros_lt : d.micros < 86400000000

-- Months since year 0, and a number that orders valid dates as `datetime` does: lexicographically.
abbrev pub month_index : DateTime → ℕ
month_index d = d.year * 12 + d.month

abbrev pub moment : DateTime → ℕ
moment d = (month_index d * 32 + d.day) * 86400000000 + d.micros

-- `a < b` and `a <= b` on datetimes
abbrev pub before : DateTime → DateTime → Bool
before a b = ltb (moment a) (moment b)

abbrev pub not_after : DateTime → DateTime → Bool
not_after a b = leb (moment a) (moment b)

-- `timedelta(seconds=...)` where an instant is a number of microseconds.
abbrev pub seconds : ℕ → ℕ
seconds n = n * 1000000
