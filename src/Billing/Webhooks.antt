-- ===== src/Billing/Webhooks.antt =====
-- core/billing/webhooks.py and ports.py: one provider callback, from its arrival to its answer.
-- The adapters and the hash of a refused request are parameters.
use backend_core.Common.{
  ℕ, Bool, true, false, not, ◌&&◌, Option, none, some, List, [], ◌∷◌, ◌++◌, ◌==◌, find, any, select,
  same_option, if◌then◌else◌,
}
use backend_core.Common.Table.{replace}
use backend_core.Shared.Errors.{
  Error, Result, err, Action, pure, raise, raise_if, or_raise, lift, query, modify, gets, ◌>>=◌,
  ◌>>◌, unit_of_work,
}
use backend_core.Shared.Context.{integration}
use backend_core.Shared.Clock.{DateTime}
use backend_core.Billing.State.{PaymentStatus}
use backend_core.Billing.Models.{
  Payment, PaymentWebhook, WebhookStatus, WebhookError, CallbackAction, DedupKey, Reference,
  FailureCode, same_dedup,
}
use backend_core.Billing.Store.{Db, Context, webhooks_schema, read_clock, new_id}
use backend_core.Billing.Finalize.{mark_pending, mark_succeeded, mark_canceled_by_provider}

-- `ProviderCallback`, without what only the adapter reads back. `amount` is a sum with its currency.
pub record ProviderCallback : Type 0 where
  pub provider : ℕ
  pub provider_txn_id : Option ℕ
  pub action : CallbackAction
  pub payment_reference : Reference
  pub amount : Option (ℕ × ℕ)
  pub signature_valid : Bool
  pub reason : Option FailureCode

pub data OutcomeStatus : Type 0 where
  ok already_processed invalid_signature not_found amount_mismatch invalid_state : OutcomeStatus

-- `CallbackOutcome`, without the callback, which the adapter has.
pub record CallbackOutcome : Type 0 where
  pub status : OutcomeStatus
  pub payment : Option Payment

-- `_READ_ONLY_ACTIONS`
unfoldable pub is_read_only : CallbackAction → Bool
is_read_only CallbackAction.check = true
is_read_only CallbackAction.status = true
is_read_only _ = false

-- `SystemRepository.get_one_or_none`: two matches are an error.
unfoldable pub one_or_none : {A : Type 0} → List A → Result (Option A)
one_or_none [] = Result.ok none
one_or_none (a ∷ []) = Result.ok (some a)
one_or_none (a ∷ b ∷ rest) = err Error.value_error

unfoldable pub get_one_or_none : {A : Type 0} → (A → Bool) → List A → Result (Option A)
get_one_or_none p rows = one_or_none (select p rows)

-- The first lookup of `_find_payment`: our own payment id.
unfoldable pub by_reference : ℕ → Reference → List Payment → Result (Option Payment)
by_reference provider (Reference.uuid i) rows =
    get_one_or_none (λ p. p.id == i && p.provider == provider) rows
by_reference provider (Reference.text t) rows = Result.ok none

-- The second: the provider's transaction id, unless it is absent or empty.
unfoldable pub by_transaction : ℕ → Option ℕ → List Payment → Result (Option Payment)
by_transaction provider none rows = Result.ok none
by_transaction provider (some t) rows =
    if t == 0
    then Result.ok none
    else get_one_or_none
        (λ p. p.provider == provider && same_option p.provider_transaction_id (some t)) rows

-- `if found is not None: return found`
unfoldable pub first_found :
    Result (Option Payment) → Result (Option Payment) → Result (Option Payment)
first_found (err e) next = err e
first_found (Result.ok (some p)) next = Result.ok (some p)
first_found (Result.ok none) next = next

-- `_find_payment`
unfoldable pub find_payment : ProviderCallback → List Payment → Result (Option Payment)
find_payment cb rows =
    first_found (by_reference cb.provider cb.payment_reference rows)
      (by_transaction cb.provider cb.provider_txn_id rows)

-- `_amount_ok`
unfoldable pub amount_ok : ProviderCallback → Payment → Bool
amount_ok cb p = elim cb.amount [ none ↦ true | some m ↦ m.0 == p.amount && m.1 == p.currency ]

abbrev is_open : PaymentStatus → Bool
is_open PaymentStatus.created = true
is_open PaymentStatus.pending = true
is_open _ = false

abbrev is_check : CallbackAction → Bool
is_check CallbackAction.check = true
is_check _ = false

abbrev answer : OutcomeStatus → Option Payment → CallbackOutcome
answer status payment = record { status = status; payment = payment }

-- `_handle_read_only`, after the signature check
unfoldable pub read_only_outcome : ProviderCallback → Option Payment → CallbackOutcome
unfolding amount_ok
read_only_outcome cb none = answer not_found none
read_only_outcome cb (some p) = elim (amount_ok cb p) [
  | false ↦ answer amount_mismatch (some p)
  | true ↦ elim (is_check cb.action && not (is_open p.status)) [
    | true ↦ answer invalid_state (some p)
    | false ↦ answer ok (some p)
  ]
]

unfoldable pub handle_read_only : ProviderCallback → Action Db CallbackOutcome
unfolding read_only_outcome
handle_read_only cb = elim cb.signature_valid [
  | false ↦ pure (answer invalid_signature none)
  | true ↦ do found ← query (λ db. find_payment cb db.payments); pure (read_only_outcome cb found)
]

-- The row that `_claim_ledger` inserts.
unfoldable pub claimed : ℕ → DedupKey → ℕ → PaymentWebhook
claimed provider key id = record {
  id = id;
  provider = provider;
  dedup_key = key;
  tenant_id = none;
  payment_id = none;
  signature_valid = true;
  status = WebhookStatus.received;
  error = none;
  processed_at = none;
}

-- ON CONFLICT (provider, dedup_key)
unfoldable pub is_delivered : ℕ → DedupKey → List PaymentWebhook → Option PaymentWebhook
is_delivered provider key = find (λ w. w.provider == provider && same_dedup w.dedup_key key)

-- The INSERT itself, once no row holds its (provider, dedup_key): the primary key is checked.
unfoldable pub insert_webhook : PaymentWebhook → Action Db (Unit {0})
insert_webhook w = do
  raise_if (any (λ v. v.id == w.id) (← gets (λ db. db.webhooks))) Error.integrity_error
  modify (λ db. record db { webhooks = db.webhooks ++ w ∷ [] })

-- The ledger row's last write.
unfoldable pub settle : PaymentWebhook → WebhookStatus → Option WebhookError → Action Db (Unit {0})
settle w status error = do
  now ← read_clock
  let w' = record w { status = status; error = error; processed_at = some now }
  modify (λ db. record db { webhooks = replace webhooks_schema w' db.webhooks })

abbrev pub text_or_empty : Option ℕ → ℕ
text_or_empty none = 0
text_or_empty (some t) = t

-- `_apply_action`, by the callback's action and the payment's status
unfoldable pub apply_action :
    CallbackAction → PaymentStatus → Context → Payment → ProviderCallback → Action Db Payment
apply_action CallbackAction.create PaymentStatus.created c p cb =
    mark_pending p (text_or_empty cb.provider_txn_id)
apply_action CallbackAction.create _ c p cb = raise Error.invariant_violation
apply_action CallbackAction.confirm _ c p cb = mark_succeeded c p
apply_action CallbackAction.cancel _ c p cb = mark_canceled_by_provider c p cb.reason
apply_action _ _ c p cb = raise Error.invariant_violation

-- Context elevation to the payment's own tenant.
unfoldable pub elevated : Payment → Context
elevated p = record { tenant_id = p.tenant_id; actor = integration; access = none }

-- The `try` around `_apply_action`, and the ledger's outcome
unfoldable pub attempt : Payment → ProviderCallback → PaymentWebhook → Action Db CallbackOutcome
unfolding elevated settle
attempt p cb w = λ db.
    let (r, db') = apply_action cb.action p.status (elevated p) p cb db in
    elim r [
      | Result.ok p' ↦ (settle w WebhookStatus.processed none >> pure (answer ok (some p'))) db'
      | err e ↦ elim e [
        | Error.invariant_violation ↦
            (settle w WebhookStatus.failed (some WebhookError.invalid_transition)
                >> pure (answer invalid_state (some p)))
              db'
        | other ↦ (err other, db')
      ]
    ]

-- `_process_transition`, with the payment found
unfoldable pub transition :
    Option Payment → ProviderCallback → PaymentWebhook → Action Db CallbackOutcome
unfolding settle
transition none cb w =
    settle w WebhookStatus.rejected (some WebhookError.payment_not_found)
    >> pure (answer not_found none)
transition (some p) cb w =
    let w' = record w { tenant_id = some p.tenant_id; payment_id = some p.id } in
    elim (amount_ok cb p) [
      | false ↦
          settle w' WebhookStatus.rejected (some WebhookError.amount_mismatch)
          >> pure (answer amount_mismatch (some p))
      | true ↦ attempt p cb w'
    ]

-- The answer of `_replay` from the ledger row and the payment that it names
unfoldable pub replayed : PaymentWebhook → Option Payment → CallbackOutcome
replayed w payment = elim w.status [
  | WebhookStatus.rejected ↦ elim w.error [
    | some e ↦ elim e [
      | WebhookError.amount_mismatch ↦ answer amount_mismatch payment
      | _ ↦ answer not_found payment
    ]
    | none ↦ answer not_found payment
  ]
  | WebhookStatus.failed ↦ answer invalid_state payment
  | _ ↦ elim payment [ none ↦ answer not_found none | some p ↦ answer already_processed (some p) ]
]

abbrev pub payment_named : Option ℕ → List Payment → Option Payment
payment_named none rows = none
payment_named (some i) rows = find (λ p. p.id == i) rows

unfoldable pub replay : PaymentWebhook → Action Db CallbackOutcome
unfolding replayed
replay w = gets (λ db. replayed w (payment_named w.payment_id db.payments))

-- The row of `_journal_rejected`, under its own key.
unfoldable pub refused_row : ℕ → ℕ → ℕ → DateTime → PaymentWebhook
refused_row provider digest id now = record {
  id = id;
  provider = provider;
  dedup_key = DedupKey.rejected digest;
  tenant_id = none;
  payment_id = none;
  signature_valid = false;
  status = WebhookStatus.rejected;
  error = some WebhookError.invalid_signature;
  processed_at = some now;
}

unfoldable pub journal_rejected : ℕ → ℕ → Action Db (Unit {0})
unfolding refused_row is_delivered
journal_rejected provider digest = do
  now ← read_clock
  id ← new_id
  rows ← gets (λ db. db.webhooks)
  elim (is_delivered provider (DedupKey.rejected digest) rows) [
    | some _ ↦ pure tt
    | none ↦ insert_webhook (refused_row provider digest id now)
  ]

-- The authenticated, state-changing half of `_dispatch`: `_claim_ledger`, then replay or transition
unfoldable pub deliver : ℕ → ProviderCallback → Action Db CallbackOutcome
unfolding is_delivered claimed
deliver provider cb = do
  id ← new_id
  let key = DedupKey.delivery cb.provider_txn_id cb.action
  seen ← gets (λ db. is_delivered provider key db.webhooks)
  elim seen [
    | some w ↦ replay w
    | none ↦ do
      insert_webhook (claimed provider key id)
      found ← query (λ db. find_payment cb db.payments)
      transition found cb (claimed provider key id)
  ]

-- `_dispatch`
unfoldable pub dispatch : ℕ → ℕ → ProviderCallback → Action Db CallbackOutcome
dispatch provider digest cb = elim (is_read_only cb.action) [
  | true ↦ handle_read_only cb
  | false ↦ elim cb.signature_valid [
    | false ↦ journal_rejected provider digest >> pure (answer invalid_signature none)
    | true ↦ deliver provider cb
  ]
]

-- An adapter as the processor uses it. `Raw` is the callback's `raw` field as well as the request.
pub record Adapter (Raw Response : Type 0) : Type 0 where
  pub parse_webhook : Raw → Result ProviderCallback
  pub build_webhook_response : Raw → ProviderCallback → CallbackOutcome → Result Response

-- `process`: parse, one unit of work, answer.
unfoldable pub process :
    {Raw Response : Type 0}
    → (ℕ → Option (Adapter Raw Response))
    → (Raw → ℕ)
    → ℕ
    → Raw
    → Action Db Response
process adapters digest provider raw = do
  adapter ← or_raise (adapters provider) Error.webhook_verification_failed
  cb ← lift (adapter.parse_webhook raw)
  outcome ← unit_of_work (dispatch provider (digest raw) cb)
  lift (adapter.build_webhook_response raw cb outcome)
