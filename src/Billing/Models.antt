-- ===== src/Billing/Models.antt =====
-- core/billing/models.py and the unique indexes of its migrations: the rows, the tables, and what
-- a billing transaction sees. UUIDs, provider and plan codes, currencies, provider transaction
-- ids and other texts that the code only compares are numbers; the empty text is 0.
use backend_core.Common.{ℕ, Bool, true, false, Option, none, some, ◌&&◌, ◌==◌}
use backend_core.Shared.Clock.{DateTime}
use backend_core.Billing.State.{PaymentStatus}
use backend_core.Billing.Periods.{Period}

pub data SubscriptionStatus : Type 0 where
  pending trialing active past_due canceled expired : SubscriptionStatus

-- `purpose`: the two that the code tests for, and any other text.
pub data Purpose : Type 0 where
  subscription commerce_order : Purpose
  other : ℕ → Purpose

-- `reference`: a UUID as text, or a text that `UUID(...)` refuses.
pub data Reference : Type 0 where
  uuid text : ℕ → Reference

-- `idempotency_key`: the two formats `subscription:<id>` and `order:<id>`, or another text.
pub data IdempotencyKey : Type 0 where
  subscription_key order_key other_key : ℕ → IdempotencyKey

-- `failure_code`: a decimal text with its sign (negative if `true`); one that only looks like it,
-- digits after dashes that `int` refuses; or other words.
pub data FailureCode : Type 0 where
  number : Bool → ℕ → FailureCode
  misleading words : ℕ → FailureCode

pub record Plan : Type 0 where
  pub id : ℕ
  pub code : ℕ
  pub price_amount : ℕ
  pub currency : ℕ
  pub period : Period
  pub trial_days : ℕ
  pub is_active : Bool

pub record Subscription : Type 0 where
  pub id : ℕ
  pub tenant_id : ℕ
  pub plan_id : ℕ
  pub status : SubscriptionStatus
  pub price_amount : ℕ
  pub currency : ℕ
  pub current_period_start : DateTime
  pub current_period_end : DateTime
  pub cancel_at_period_end : Bool
  pub canceled_at : Option DateTime

-- The last four fields are the keys of `payment_metadata`.
pub record Payment : Type 0 where
  pub id : ℕ
  pub tenant_id : ℕ
  pub subscription_id : Option ℕ
  pub purpose : Purpose
  pub reference : Reference
  pub amount : ℕ
  pub currency : ℕ
  pub status : PaymentStatus
  pub provider : ℕ
  pub provider_transaction_id : Option ℕ
  pub idempotency_key : IdempotencyKey
  pub failure_code : Option FailureCode
  pub created_at : DateTime
  pub paid_at : Option DateTime
  pub pending_at : Option DateTime
  pub closed_at : Option DateTime
  pub checkout_url : ℕ
  pub expires_at : Option DateTime

pub data WebhookStatus : Type 0 where
  received processed rejected failed : WebhookStatus

pub data CallbackAction : Type 0 where
  check create confirm cancel status : CallbackAction

-- `dedup_key`: `<provider_txn_id>:<action>`, or `rejected:<hash>`.
pub data DedupKey : Type 0 where
  delivery : Option ℕ → CallbackAction → DedupKey
  rejected : ℕ → DedupKey

-- `error`: the texts that the processor writes.
pub data WebhookError : Type 0 where
  payment_not_found amount_mismatch invalid_signature invalid_transition : WebhookError

pub record PaymentWebhook : Type 0 where
  pub id : ℕ
  pub provider : ℕ
  pub dedup_key : DedupKey
  pub tenant_id : Option ℕ
  pub payment_id : Option ℕ
  pub signature_valid : Bool
  pub status : WebhookStatus
  pub error : Option WebhookError
  pub processed_at : Option DateTime

-- `LIVE_SUBSCRIPTION_STATES`
unfoldable pub is_live : SubscriptionStatus → Bool
is_live SubscriptionStatus.trialing = true
is_live SubscriptionStatus.active = true
is_live SubscriptionStatus.past_due = true
is_live _ = false

unfoldable pub is_pending : SubscriptionStatus → Bool
is_pending SubscriptionStatus.pending = true
is_pending _ = false

unfoldable pub same_key : IdempotencyKey → IdempotencyKey → Bool
same_key (subscription_key a) (subscription_key b) = a == b
same_key (order_key a) (order_key b) = a == b
same_key (other_key a) (other_key b) = a == b
same_key _ _ = false

-- Two present values that agree: what an index `WHERE x IS NOT NULL` compares.
unfoldable pub both_some : Option ℕ → Option ℕ → Bool
both_some (some a) (some b) = a == b
both_some _ _ = false

unfoldable pub same_action : CallbackAction → CallbackAction → Bool
same_action CallbackAction.check CallbackAction.check = true
same_action CallbackAction.create CallbackAction.create = true
same_action CallbackAction.confirm CallbackAction.confirm = true
same_action CallbackAction.cancel CallbackAction.cancel = true
same_action CallbackAction.status CallbackAction.status = true
same_action _ _ = false

-- The text of an id in the key's f-string: a missing id is the text 'None'.
abbrev none_text : ℕ
none_text = 1

abbrev pub transaction_text : Option ℕ → ℕ
transaction_text none = none_text
transaction_text (some i) = i

unfoldable pub same_dedup : DedupKey → DedupKey → Bool
unfolding same_action
same_dedup (delivery t a) (delivery u b) =
    transaction_text t == transaction_text u && same_action a b
same_dedup (DedupKey.rejected a) (DedupKey.rejected b) = a == b
same_dedup _ _ = false
