-- ===== src/Billing/Payments.antt =====
-- PaymentService of core/billing/service.py: opening a payment and replaying its checkout.
-- The providers' `create_checkout` is a parameter, and so are Python's tables of white space and
-- of printable characters, and `urlsplit`, which may raise.
use backend_core.Common.{
  ℕ, Bool, true, false, not, ◌&&◌, ◌||◌, Option, none, some, List, [], ◌∷◌, ◌++◌, ◌==◌, ltb, any,
  find, length, if◌then◌else◌,
}
use backend_core.Common.Table.{taken}
use backend_core.Shared.Errors.{
  Error, Result, ok, err, Action, pure, raise, raise_if, or_raise, lift, modify, gets, ◌>>=◌, ◌>>◌,
}
use backend_core.Shared.Clock.{DateTime}
use backend_core.Billing.State.{PaymentStatus}
use backend_core.Billing.Models.{Payment, Purpose, Reference, IdempotencyKey, same_key}
use backend_core.Billing.Store.{
  Db, Context, Event, PaymentPayload, payments_schema, emit, save_payment, read_clock, new_id,
}

-- A text as its code points.
abbrev pub Url : Type 0
Url = List ℕ

abbrev pub same_text : Url → Url → Bool
same_text [] [] = true
same_text (a ∷ s) (b ∷ t) = a == b && same_text s t
same_text _ _ = false

pub record Checkout : Type 0 where
  pub payment_id : ℕ
  pub provider : ℕ
  pub checkout_url : ℕ
  pub expires_at : Option DateTime

-- `PaymentProvider.create_checkout`
abbrev pub Port : Type 0
Port = Payment → Option Url → Result Checkout

pub record Environment : Type 0 where
  pub providers : ℕ → Option Port
  pub is_space : ℕ → Bool
  pub is_printable : ℕ → Bool
  pub urlsplit : Url → Result (Url × Url)

-- The arguments of `create_payment`.
pub record PaymentRequest : Type 0 where
  pub amount : ℕ
  pub currency : ℕ
  pub purpose : Purpose
  pub reference : Reference
  pub provider : ℕ
  pub idempotency_key : IdempotencyKey
  pub return_url : Option Url
  pub subscription_id : Option ℕ

abbrev http : Url
http = b'h' ∷ b't' ∷ b't' ∷ b'p' ∷ []

abbrev https : Url
https = b'h' ∷ b't' ∷ b't' ∷ b'p' ∷ b's' ∷ []

-- `_validate_return_url`, once `urlsplit` has given the scheme and the host
unfoldable pub refused_url : Environment → Url → Url × Url → Bool
refused_url env url (scheme, netloc) =
    any (λ ch. (ch == b';' || env.is_space ch) || not (env.is_printable ch)) url
    || ltb 2048 (length url)
    || not (same_text scheme http || same_text scheme https)
    || length netloc == 0

unfoldable pub validate_return_url : Environment → Option Url → Result (Unit {0})
unfolding refused_url
validate_return_url env none = ok tt
validate_return_url env (some url) = elim (env.urlsplit url) [
  | err e ↦ err e
  | ok parts ↦ if refused_url env url parts then err Error.invariant_violation else ok tt
]

unfoldable pub payment_event_payload : Payment → PaymentPayload
payment_event_payload p = record {
  payment_id = p.id;
  amount = p.amount;
  currency = p.currency;
  purpose = p.purpose;
  reference = p.reference;
  provider = p.provider;
}

unfoldable pub same_purpose : Purpose → Purpose → Bool
same_purpose Purpose.subscription Purpose.subscription = true
same_purpose Purpose.commerce_order Purpose.commerce_order = true
same_purpose (Purpose.other a) (Purpose.other b) = a == b
same_purpose _ _ = false

unfoldable pub same_reference : Reference → Reference → Bool
same_reference (Reference.uuid a) (Reference.uuid b) = a == b
same_reference (Reference.text a) (Reference.text b) = a == b
same_reference _ _ = false

-- The stored payment is what `request` asks for.
unfoldable pub same_request : Payment → PaymentRequest → Bool
unfolding same_purpose same_reference
same_request p r =
    (p.amount == r.amount && p.currency == r.currency)
    && (same_purpose p.purpose r.purpose && same_reference p.reference r.reference)
    && p.provider == r.provider

-- `_by_idempotency_key`
unfoldable pub by_idempotency_key : ℕ → IdempotencyKey → List Payment → Option Payment
by_idempotency_key tenant key = find (λ p. p.tenant_id == tenant && same_key p.idempotency_key key)

unfoldable pub stored_checkout : Payment → Checkout
stored_checkout p = record {
  payment_id = p.id;
  provider = p.provider;
  checkout_url = p.checkout_url;
  expires_at = p.expires_at;
}

-- `_replay_checkout`
unfoldable pub replay_checkout : Payment → PaymentRequest → Action Db Checkout
unfolding same_request stored_checkout
replay_checkout p r = do raise_if (not (same_request p r)) Error.conflict; pure (stored_checkout p)

-- The row that `create_payment` inserts.
unfoldable pub new_payment : Context → PaymentRequest → ℕ → DateTime → Payment
new_payment c r id now = record {
  id = id;
  tenant_id = c.tenant_id;
  subscription_id = r.subscription_id;
  purpose = r.purpose;
  reference = r.reference;
  amount = r.amount;
  currency = r.currency;
  status = PaymentStatus.created;
  provider = r.provider;
  provider_transaction_id = none;
  idempotency_key = r.idempotency_key;
  failure_code = none;
  created_at = now;
  paid_at = none;
  pending_at = none;
  closed_at = none;
  checkout_url = 0;
  expires_at = none;
}

-- The provider's checkout for the row just inserted, its link stored with the payment.
unfoldable pub open_checkout : Context → Port → Payment → Option Url → Action Db Checkout
open_checkout c port p url = do
  checkout ← lift (port p url)
  save_payment (record p { checkout_url = checkout.checkout_url; expires_at = checkout.expires_at })
  emit c (Event.payment_created (payment_event_payload p))
  pure checkout

-- The INSERT in a savepoint: on a taken index entry the answer comes from the winner's row.
unfoldable pub insert_payment : Context → Port → PaymentRequest → Action Db Checkout
unfolding replay_checkout open_checkout
insert_payment c port r = do
  now ← read_clock
  id ← new_id
  let p = new_payment c r id now
  rows ← gets (λ db. db.payments)
  elim (taken payments_schema p rows) [
    | true ↦ elim (by_idempotency_key c.tenant_id r.idempotency_key rows) [
      | some winner ↦ replay_checkout winner r
      | none ↦ raise Error.integrity_error
    ]
    | false ↦
        modify (λ db. record db { payments = db.payments ++ p ∷ [] })
        >> open_checkout c port p r.return_url
  ]

-- `others` is what concurrent transactions commit between the lookup and the INSERT.
unfoldable pub create_payment :
    Environment → Context → (Db → Db) → PaymentRequest → Action Db Checkout
create_payment env c others r = do
  port ← or_raise (env.providers r.provider) Error.not_found
  raise_if (r.amount == 0) Error.invariant_violation
  lift (validate_return_url env r.return_url)
  existing ← gets (λ db. by_idempotency_key c.tenant_id r.idempotency_key db.payments)
  elim existing [ some p ↦ replay_checkout p r | none ↦ modify others >> insert_payment c port r ]
