-- ===== src/Billing/Rolling.antt =====
-- The free plan's period rolls forward (`close_ended_period` of core/billing/service.py): the loop
-- ends, with the period that the present moment lies in.
use backend_core.Common.{ℕ, zero, suc, ◌+◌, ◌≤◌, ◌<◌, ◌≡◌, ◌⊎◌, inl, inr, refl, arith, Bool-cases}
use backend_core.Shared.Clock.{DateTime, IsValidDate, month_index, moment, not_after}
use backend_core.Billing.Periods.{Period, period_end, period_end-Lands, months, moment_mono}
use backend_core.Billing.Subscriptions.{roll_forward, rolls}

-- The period that the loop ends with, from `start` and `end`.
pub record Covers (now : DateTime) (p : Period) (s e s' e' : DateTime) : Type 0 where
  pub valid : IsValidDate e'
  pub ahead : moment now < moment e'
  pub one_period : ((s' ≡ s) × (e' ≡ e)) ⊎ ((e' ≡ period_end s' p) × (moment s' ≤ moment now))

months_pos : (p : Period) → 1 ≤ months p
months_pos Period.month = omega arith
months_pos Period.year = omega arith

-- A further round: what the rest of the loop ends with is a period of this one too.
after_round :
    (now : DateTime) (p : Period) (s e s' e' : DateTime)
    → moment e ≤ moment now
    → Covers now p e (period_end e p) s' e'
    → Covers now p s e s' e'
after_round now p s e s' e' due c = record {
  valid = c.valid;
  ahead = c.ahead;
  one_period = inr (elim c.one_period [
    | inl same ↦ (ground (arith, same), ground (arith, same, due))
    | inr later ↦ later
  ]);
}

roll_forward-Covers :
    (fuel : ℕ) (now : DateTime) (p : Period) (s e : DateTime)
    → IsValidDate now
    → IsValidDate e
    → month_index now < fuel + month_index e
    → let (s', e') = roll_forward fuel now p (s, e) in Covers now p s e s' e'
unfolding roll_forward
roll_forward-Covers zero now p s e vn ve h = record {
  valid = ve;
  ahead = moment_mono now e vn ve (omega (arith, h));
  one_period = inl (refl, refl);
}
roll_forward-Covers (suc fuel) now p s e vn ve h = elim (Bool-cases (not_after e now)) [
  | inr fresh ↦
      rw fresh (record { valid = ve; ahead = ground (arith, fresh); one_period = inl (refl, refl) })
  | inl due ↦ rw due (
      after_round now p s e _ _ (ground (arith, due)) (
        roll_forward-Covers fuel now p e (period_end e p) vn (period_end-Lands e p ve).valid
          (omega (arith, h, (period_end-Lands e p ve).later, months_pos p))))
]

-- With the rounds that `close_ended_period` is given the loop reaches its end: from a valid period
-- end it stops at a valid one that lies after the present moment. Either nothing had to be done, or
-- the new period is one plan period long and began no later than now.
pub roll_forward_ends :
    (now : DateTime) (p : Period) (s e : DateTime)
    → IsValidDate now
    → IsValidDate e
    → let (s', e') = roll_forward (rolls now e) now p (s, e) in Covers now p s e s' e'
roll_forward_ends now p s e vn ve = roll_forward-Covers (rolls now e) now p s e vn ve (omega arith)
