-- ===== src/Billing/State.antt =====
-- core/billing/state_machine.py: the payment state machine.
use backend_core.Common.{
  ℕ, ◌+◌, ◌≤◌, ◌<◌, zero, suc, ◌≡◌, ◌≢◌, ◌⊎◌, inl, inr, refl, Bool, true, false, arith,
  if◌then◌else◌,
}
use backend_core.Shared.Errors.{Error, Action, raise_if}

pub data PaymentStatus : Type 0 where
  created pending succeeded failed canceled expired : PaymentStatus

pub PaymentStatus-discrete : Discrete PaymentStatus
PaymentStatus-discrete = hlevel

-- `_TRANSITIONS`, row by row, and `can_transition`
unfoldable pub can_transition : PaymentStatus → PaymentStatus → Bool
can_transition PaymentStatus.created PaymentStatus.created = false
can_transition PaymentStatus.created _ = true
can_transition PaymentStatus.pending PaymentStatus.created = false
can_transition PaymentStatus.pending PaymentStatus.pending = false
can_transition PaymentStatus.pending _ = true
can_transition PaymentStatus.expired PaymentStatus.succeeded = true
can_transition _ _ = false

-- `TERMINAL_STATES` and `is_terminal`
unfoldable pub is_terminal : PaymentStatus → Bool
is_terminal PaymentStatus.created = false
is_terminal PaymentStatus.pending = false
is_terminal _ = true

unfoldable pub assert_transition :
    {S : Type 0} → PaymentStatus → PaymentStatus → Action S (Unit {0})
unfolding can_transition
assert_transition current target =
    raise_if (if can_transition current target then false else true) Error.invariant_violation

-- A payment's life: its statuses in order, each step allowed by the table.
pub data Life : PaymentStatus → PaymentStatus → ℕ → Type 0 where
  here : {s : PaymentStatus} → Life s s 0
  step : {s t u : PaymentStatus} {n : ℕ} → can_transition s t ≡ true → Life t u n → Life s u (n + 1)

-- How far a status is from the start of every life.
abbrev rank : PaymentStatus → ℕ
rank PaymentStatus.created = 0
rank PaymentStatus.pending = 1
rank PaymentStatus.expired = 2
rank _ = 3

rank-transition : (s t : PaymentStatus) → can_transition s t ≡ true → rank s < rank t
unfolding can_transition
rank-transition s t h = ground arith

rank-Life : {s t : PaymentStatus} {n : ℕ} → Life s t n → rank s + n ≤ rank t
rank-Life here = omega arith
rank-Life (step {s = s} {t = t} h l) = omega (arith, rank-transition s t h, rank-Life l)

rank-le : (s : PaymentStatus) → rank s ≤ 3
rank-le s = ground arith

-- Every life of a payment has at most three transitions, and one that returns to the status where
-- it began has none: the machine only goes forward.
pub Life-bounded : {s t : PaymentStatus} {n : ℕ} → Life s t n → (n ≤ 3) × ((n ≡ 0) ⊎ (s ≢ t))
Life-bounded {s} {t} {n} l = (omega (arith, rank-Life l, rank-le t), forward n (rank-Life l))
  where
    forward : (n : ℕ) → rank s + n ≤ rank t → (n ≡ 0) ⊎ (s ≢ t)
    forward zero h = inl refl
    forward (suc n) h = inr (λ e. ground (arith, e))

terminal_step :
    (s t u : PaymentStatus)
    → is_terminal s ≡ true
    → can_transition s t ≡ true
    → (u ≡ t) ⊎ ((t ≡ PaymentStatus.expired) × (u ≡ PaymentStatus.succeeded))
    → (s ≡ PaymentStatus.expired) × (u ≡ PaymentStatus.succeeded)
unfolding can_transition is_terminal
terminal_step s t u d h l = ground arith

still_terminal :
    (s t : PaymentStatus) → is_terminal s ≡ true → can_transition s t ≡ true → is_terminal t ≡ true
unfolding can_transition is_terminal
still_terminal s t d h = ground arith

-- A payment that has reached a terminal status keeps it for the rest of its life, except that an
-- expired one may still succeed.
pub Life-terminal :
    {s t : PaymentStatus} {n : ℕ}
    → Life s t n
    → is_terminal s ≡ true
    → (t ≡ s) ⊎ ((s ≡ PaymentStatus.expired) × (t ≡ PaymentStatus.succeeded))
Life-terminal here d = inl refl
Life-terminal (step {s = s} {t = t} {u = u} h l) d =
    inr (terminal_step s t u d h (Life-terminal l (still_terminal s t d h)))
