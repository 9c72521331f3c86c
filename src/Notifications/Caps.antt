-- ===== src/Notifications/Caps.antt =====
-- The daily cap of SMS (core/notifications/sms_cap.py).
use backend_core.Common.{
  ℕ, suc, ◌+◌, ◌-◌, ◌≤◌, ◌<◌, ◌≡◌, true, false, ◌&&◌, Option, List, [], ◌∷◌, ◌==◌, leb,
  if◌then◌else◌, same_option, arith, inl, inr, Bool-cases,
}
use backend_core.Notifications.Outbox.{Dispatch, day_of, incr, try_consume}

-- The requests of an hour of a day for a tenant that are let through, in turn.
unfoldable pub let_through_of : ℕ → Option ℕ → ℕ → List (Option ℕ × ℕ) → Dispatch → ℕ
unfolding try_consume
let_through_of cap tenant day [] st = 0
let_through_of cap tenant day ((asks, t) ∷ requests) st =
    let (allowed, st') = try_consume cap asks (record st { now = t }) in
    let rest = let_through_of cap tenant day requests st' in
    if allowed && (same_option tenant asks && day == day_of t) then suc rest else rest

same_option_equal : (a b : Option ℕ) → same_option a b ≡ true → a ≡ b
same_option_equal a b h = ground (arith, h)

same_option_refl : (a : Option ℕ) → same_option a a ≡ true
same_option_refl a = ground arith

-- A request counts for its own tenant and day, and nothing for another.
counted :
    (cap : ℕ) (asks : Option ℕ) (st : Dispatch)
    → 0 < cap
    → ((try_consume cap asks st).1.counters asks (day_of st.now)
        ≡ st.counters asks (day_of st.now) + 1)
      × ((try_consume cap asks st).0 ≡ leb (st.counters asks (day_of st.now) + 1) cap)
unfolding try_consume incr
counted cap asks st pos = ground (arith, pos, same_option_refl asks)

uncounted :
    (cap : ℕ) (asks tenant : Option ℕ) (day : ℕ) (st : Dispatch)
    → 0 < cap
    → (same_option tenant asks && day == day_of st.now) ≡ false
    → (try_consume cap asks st).1.counters tenant day ≡ st.counters tenant day
unfolding try_consume incr
uncounted cap asks tenant day st pos other = ground (arith, pos, other)

-- Of all the SMS that tenants ask for, at any times and in any order, no more are let through for
-- one tenant on one day than the cap leaves after what was counted before.
pub let_through_of-le :
    (cap : ℕ) (tenant : Option ℕ) (day : ℕ) (requests : List (Option ℕ × ℕ)) (st : Dispatch)
    → 0 < cap
    → let_through_of cap tenant day requests st ≤ cap - st.counters tenant day
unfolding let_through_of
let_through_of-le cap tenant day [] st pos = omega arith
let_through_of-le cap tenant day ((asks, t) ∷ requests) st pos =
    let at : Dispatch = record st { now = t } in
    let next = (try_consume cap asks at).1 in
    let rest = let_through_of-le cap tenant day requests next pos in
    elim (Bool-cases (same_option tenant asks && day == day_of t)) [
      | inr e ↦ ground (arith, e, rest, uncounted cap asks tenant day at pos e)
      | inl e ↦
          let same : tenant ≡ asks = same_option_equal tenant asks (ground (arith, e)) in
          let today : day ≡ day_of t = ground (arith, e) in
          let (count, allowed) = counted cap asks at pos in
          let count' : next.counters tenant day ≡ st.counters tenant day + 1 =
            rw (same, today) count in
          let allowed' : (try_consume cap asks at).0 ≡ leb (st.counters tenant day + 1) cap =
            rw (same, today) allowed in
          ground (arith, e, rest, count', allowed')
    ]
