-- ===== src/Shared/Resilience.antt =====
-- shared/resilience.py: retries with a circuit breaker. Instants and delays are numbers of
-- microseconds; the jitter, the answers of the operation and how long it takes are parameters.
use backend_core.Common.{
  ℕ, zero, suc, ◌+◌, ◌-◌, ◌*◌, ◌^◌, ◌≤◌, ◌≡◌, refl, Bool, true, false, not, ◌&&◌, ◌||◌, leb,
  if◌then◌else◌, arith, inl, inr, Bool-cases,
}
use backend_core.Shared.Errors.{Error, Result, ok, err, is_external_error, Result-cases}

pub data BreakerState : Type 0 where
  closed open_ half_open : BreakerState

-- `CircuitBreaker`
pub record CircuitBreaker : Type 0 where
  pub failure_threshold : ℕ
  pub recovery_time : ℕ
  pub failures : ℕ
  pub opened_at : ℕ
  pub state : BreakerState

abbrev pub is_open : BreakerState → Bool
is_open open_ = true
is_open _ = false

abbrev pub is_half_open : BreakerState → Bool
is_half_open half_open = true
is_half_open _ = false

-- `allow`
unfoldable pub allow : ℕ → CircuitBreaker → Bool × CircuitBreaker
allow now b =
    let state =
      (if is_open b.state && leb b.recovery_time (now - b.opened_at) then half_open else b.state) in
    (not (is_open state), record b { state = state })

unfoldable pub record_success : CircuitBreaker → CircuitBreaker
record_success b = record b { failures = 0; state = closed }

unfoldable pub record_failure : ℕ → CircuitBreaker → CircuitBreaker
record_failure now b =
    let failures = b.failures + 1 in
    if is_half_open b.state || leb b.failure_threshold failures
    then record b { failures = failures; state = open_; opened_at = now }
    else record b { failures = failures }

-- `TRANSIENT_ERRORS`; `ConnectionError` and `TimeoutError` are `OSError`s.
unfoldable pub is_transient : Error → Bool
is_transient Error.timeout_error = true
is_transient Error.connection_error = true
is_transient e = is_external_error e

-- `RetryPolicy`, with the jitter that a delay gets at a time.
pub record RetryPolicy : Type 0 where
  pub attempts : ℕ
  pub base_delay : ℕ
  pub max_delay : ℕ
  pub multiplier : ℕ
  pub jitter : ℕ → ℕ → ℕ

-- `delay_for`
unfoldable pub delay_for : RetryPolicy → ℕ → ℕ → ℕ
delay_for policy now failed_attempt =
    let raw = policy.base_delay * policy.multiplier ^ (failed_attempt - 1) in
    policy.jitter now (if leb raw policy.max_delay then raw else policy.max_delay)

-- The clock, the breaker and how often the operation was called.
pub record Target : Type 0 where
  pub now : ℕ
  pub breaker : CircuitBreaker
  pub calls : ℕ

-- What a call answers, and how long it takes.
pub record Operation (A : Type 0) : Type 0 where
  pub answer : ℕ → Result A
  pub takes : ℕ → ℕ

-- The error that is raised in the end.
unfoldable pub wrapped : Error → Error
wrapped e = if is_external_error e then e else Error.external_service_error

module _ {A : Type 0} where
  -- One call of the operation, without its error handling.
  abbrev pub called : Operation A → Target → Target
  called op w = record w { now = w.now + op.takes w.calls; calls = w.calls + 1 }

  -- One round: what follows a transient failure is given.
  unfoldable pub attempt_call :
      Operation A → Target → (Error → Target → Result A × Target) → Result A × Target
  unfolding allow record_success record_failure is_transient
  attempt_call op w on_failure =
      let (allowed, b) = allow w.now w.breaker in
      let w1 = called op (record w { breaker = b }) in
      elim allowed [
        | false ↦ (err Error.circuit_open, record w { breaker = b })
        | true ↦ elim (op.answer w.calls) [
          | ok a ↦ (ok a, record w1 { breaker = record_success b })
          | err e ↦ elim (is_transient e) [
            | false ↦ (err e, w1)
            | true ↦ on_failure e (record w1 { breaker = record_failure w1.now b })
          ]
        ]
      ]

  -- The loop of `call_resilient` from an attempt on, with so many attempts after it.
  unfoldable pub attempts_from : Operation A → RetryPolicy → ℕ → ℕ → Target → Result A × Target
  unfolding attempt_call delay_for wrapped
  attempts_from op policy zero attempt w = attempt_call op w (λ e failed. (err (wrapped e), failed))
  attempts_from op policy (suc left) attempt w = attempt_call op w (λ e failed.
      attempts_from op policy left (attempt + 1)
        (record failed { now = failed.now + delay_for policy failed.now attempt }))

  unfoldable pub call_resilient : Operation A → RetryPolicy → Target → Result A × Target
  unfolding attempts_from
  call_resilient op policy w = attempts_from op policy (policy.attempts - 1) 1 w

  attempt_call-le :
      (op : Operation A) (w : Target) (on_failure : Error → Target → Result A × Target) (n : ℕ)
      → ((e : Error) (w' : Target) → w'.calls ≡ w.calls + 1 → (on_failure e w').1.calls ≤ n)
      → w.calls + 1 ≤ n
      → (attempt_call op w on_failure).1.calls ≤ n
  unfolding attempt_call
  attempt_call-le op w on_failure n bound h = elim (Bool-cases (allow w.now w.breaker).0) [
    | inr d ↦ ground (arith, d, h)
    | inl d ↦ elim (Result-cases (op.answer w.calls)) [
      | inl (a, f) ↦ ground (arith, d, f, h)
      | inr (e, f) ↦
          let b = (allow w.now w.breaker).1 in
          let w1 = called op (record w { breaker = b }) in
          ground (arith, d, f, h, bound e (record w1 { breaker = record_failure w1.now b }) refl)
    ]
  ]

  -- The operation is called as often as there are attempts at most.
  attempts_from-le :
      (op : Operation A) (policy : RetryPolicy) (left attempt : ℕ) (w : Target)
      → (attempts_from op policy left attempt w).1.calls ≤ w.calls + suc left
  unfolding attempts_from
  attempts_from-le op policy zero attempt w =
      attempt_call-le op w (λ e failed. (err (wrapped e), failed)) (w.calls + 1)
        (λ e w' h. omega (arith, h)) (omega arith)
  attempts_from-le op policy (suc left) attempt w =
      attempt_call-le op w
        (λ e failed.
          attempts_from op policy left (attempt + 1)
            (record failed { now = failed.now + delay_for policy failed.now attempt }))
        (w.calls + suc (suc left))
        (λ e w' h. omega (
          arith,
          h,
          attempts_from-le op policy left (attempt + 1)
              (record w' { now = w'.now + delay_for policy w'.now attempt }),
        ))
        (omega arith)

  -- However the operation answers, it is called as often as the policy has attempts at most.
  call_resilient-le :
      (op : Operation A) (policy : RetryPolicy) (w : Target)
      → 1 ≤ policy.attempts
      → (call_resilient op policy w).1.calls ≤ w.calls + policy.attempts
  unfolding call_resilient
  call_resilient-le op policy w h =
      omega (arith, h, attempts_from-le op policy (policy.attempts - 1) 1 w)
