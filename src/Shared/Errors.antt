-- ===== src/Shared/Errors.antt =====
-- shared/errors.py: the hierarchy of domain errors, and what a service call is. A call threads
-- the rows that its session sees; after a raise it hands back the rows as they then are, and the
-- unit of work of shared/service.py rolls them back.
use backend_core.Common.{
  ℕ, Bool, true, false, Option, none, some, ◌≡◌, refl, ◌⊎◌, inl, inr, is_some, arith,
}

-- The classes of shared/errors.py, then what Python and the database driver raise.
pub data Error : Type 0 where
  not_found conflict invariant_violation permission_denied authentication_failed : Error
  payload_too_large rate_limited external_service_error payment_provider_error : Error
  notification_channel_error webhook_verification_failed circuit_open : Error
  integrity_error value_error type_error overflow_error arithmetic_error : Error
  timeout_error connection_error : Error

-- `isinstance(exc, DomainError)`
unfoldable pub is_domain_error : Error → Bool
is_domain_error Error.integrity_error = false
is_domain_error Error.value_error = false
is_domain_error Error.type_error = false
is_domain_error Error.overflow_error = false
is_domain_error Error.arithmetic_error = false
is_domain_error Error.timeout_error = false
is_domain_error Error.connection_error = false
is_domain_error _ = true

-- `isinstance(exc, ExternalServiceError)`
unfoldable pub is_external_error : Error → Bool
is_external_error Error.external_service_error = true
is_external_error Error.payment_provider_error = true
is_external_error Error.notification_channel_error = true
is_external_error Error.circuit_open = true
is_external_error _ = false

-- `http_status` of each class; what is no domain error has none.
unfoldable http_status : Error → Option ℕ
http_status Error.not_found = some 404
http_status Error.conflict = some 409
http_status Error.invariant_violation = some 422
http_status Error.permission_denied = some 403
http_status Error.authentication_failed = some 401
http_status Error.payload_too_large = some 413
http_status Error.rate_limited = some 429
http_status Error.external_service_error = some 502
http_status Error.payment_provider_error = some 502
http_status Error.notification_channel_error = some 502
http_status Error.webhook_verification_failed = some 403
http_status Error.circuit_open = some 503
http_status _ = none

-- Every domain error is answered with a status of its own, nothing else is, and a fault of a
-- foreign service is answered with a 5xx.
error-statuses :
    (e : Error)
    → (is_some (http_status e) ≡ is_domain_error e)
      × (is_external_error e ≡ true → (http_status e ≡ some 502) ⊎ (http_status e ≡ some 503))
unfolding http_status is_domain_error is_external_error
error-statuses e = ground arith

pub data Result (A : Type 0) : Type 0 where
  ok : A → Result A
  err : Error → Result A

abbrev pub Action : Type 0 → Type 0 → Type 0
Action S A = S → Result A × S

module _ {S A : Type 0} where
  abbrev pub pure : A → Action S A
  pure a s = (ok a, s)

  abbrev pub raise : Error → Action S A
  raise e s = (err e, s)

  abbrev pub gets : (S → A) → Action S A
  gets f s = (ok (f s), s)

  abbrev pub or_raise : Option A → Error → Action S A
  or_raise none e = raise e
  or_raise (some a) _ = pure a

  -- The result of a function that may raise, such as an adapter's.
  abbrev pub lift : Result A → Action S A
  lift r s = (r, s)

  -- A query that may raise.
  abbrev pub query : (S → Result A) → Action S A
  query f s = (f s, s)

infixl 5 ◌>>=◌ ◌>>◌
abbrev pub ◌>>=◌ : {S A B : Type 0} → Action S A → (A → Action S B) → Action S B
◌>>=◌ m f s = let (r, s') = m s in elim r [ ok a ↦ f a s' | err e ↦ raise e s' ]

abbrev pub ◌>>◌ : {S A B : Type 0} → Action S A → Action S B → Action S B
m >> k = m >>= λ _. k

module _ {S : Type 0} where
  abbrev pub raise_if : Bool → Error → Action S (Unit {0})
  raise_if true e = raise e
  raise_if false _ = pure tt

  abbrev pub modify : (S → S) → Action S (Unit {0})
  modify f s = (ok tt, f s)

  abbrev pub when : Bool → Action S (Unit {0}) → Action S (Unit {0})
  when true m = m
  when false _ = pure tt

-- `async with SqlAlchemyUnitOfWork(...)`: commit on a clean exit, roll back on an exception.
unfoldable pub unit_of_work : {S A : Type 0} → Action S A → Action S A
unit_of_work m s = let (r, s') = m s in elim r [ ok a ↦ (ok a, s') | err e ↦ (err e, s) ]

pub Result-cases :
    {A : Type 0} (r : Result A) → ((a : A) × (r ≡ ok a)) ⊎ ((e : Error) × (r ≡ err e))
Result-cases (ok a) = inl (a, refl)
Result-cases (err e) = inr (e, refl)
