-- ===== src/Billing/Adapters/Payme.antt =====
-- core/billing/adapters/payme.py: the JSON-RPC dialect of Payme. Methods and keys of its objects are
-- numbered, and so is the currency UZS; `encode` is the base64 text of the joined parameters.
use backend_core.Common.{
  ℕ, ◌*◌, ◌/◌, ◌%◌, Bool, true, false, not, ◌&&◌, ◌||◌, Option, none, some, List, [], ◌∷◌, ◌==◌,
  if◌then◌else◌, is_some,
}
use backend_core.Shared.Errors.{Error, Result, ok, err}
use backend_core.Shared.Clock.{DateTime}
use backend_core.Billing.State.{PaymentStatus}
use backend_core.Billing.Models.{
  Payment, CallbackAction, Reference, FailureCode, number, misleading,
}
use backend_core.Billing.Payments.{Port, Url}
use backend_core.Billing.Webhooks.{ProviderCallback, CallbackOutcome, OutcomeStatus, Adapter}
use backend_core.Billing.Adapters.Key
use backend_core.Billing.Adapters.Python.{
  Loaded, decoded, too_long, Python, Json, Fields, RawWebhook, get, truthy, text_of, header,
  compare_digest, null, integer, boolean, object,
}

-- `PaymeProvider.code`, `PAYME_CURRENCY` and the texts that the dialect names.
abbrev pub payme : ℕ
payme = 1

abbrev pub uzs : ℕ
uzs = 860

abbrev pub tiyin_per_sum : ℕ
tiyin_per_sum = 100

-- `_METHOD_ACTIONS.get`
unfoldable pub method_action : ℕ → Option CallbackAction
method_action m =
    if m == 21
    then some CallbackAction.check
    else if m == 22
    then some CallbackAction.create
    else if m == 23
    then some CallbackAction.confirm
    else if m == 24
    then some CallbackAction.cancel
    else if m == 25
    then some CallbackAction.status
    else none

unfoldable pub to_tiyin : ℕ → ℕ → Result ℕ
to_tiyin amount currency =
    if currency == uzs then ok (amount * tiyin_per_sum) else err Error.payment_provider_error

-- `minor_units_from_tiyin`; `True` and `False` are the integers 1 and 0.
unfoldable pub whole_sums : ℕ → Result ℕ
whole_sums tiyin =
    if tiyin % tiyin_per_sum == 0
    then ok (tiyin / tiyin_per_sum)
    else err Error.payment_provider_error

unfoldable pub minor_units_from_tiyin : Json → Result ℕ
unfolding whole_sums
minor_units_from_tiyin (integer false n) = whole_sums n
minor_units_from_tiyin (integer true n) = if n == 0 then ok 0 else err Error.payment_provider_error
minor_units_from_tiyin (boolean b) = whole_sums (if b then 1 else 0)
minor_units_from_tiyin _ = err Error.payment_provider_error

-- The parameters of a checkout link.
pub data Param : Type 0 where
  merchant payee price : ℕ → Param
  return_to : Url → Param

pub record Payme : Type 0 where
  pub merchant_id : ℕ
  pub expected_auth : ℕ
  pub encode : List Param → ℕ

-- `if return_url:`
unfoldable pub return_param : Option Url → List Param
return_param none = []
return_param (some []) = []
return_param (some (ch ∷ url)) = return_to (ch ∷ url) ∷ []

unfoldable pub create_checkout : Payme → Port
unfolding return_param
create_checkout me p url = elim (to_tiyin p.amount p.currency) [
  | err e ↦ err e
  | ok tiyin ↦ ok (record {
    payment_id = p.id;
    provider = payme;
    checkout_url =
        me.encode (merchant me.merchant_id ∷ payee p.id ∷ price tiyin ∷ return_param url);
    expires_at = none;
  })
]

-- `_auth_ok`, once the header's credentials are decoded
unfoldable pub auth_ok : Python → Payme → RawWebhook → Result Bool
auth_ok py me raw = elim (header py Key.authorization raw.headers) [
  | none ↦ ok false
  | some h ↦ if h == 0 || not (py.is_basic h) then ok false else elim (py.credentials h) [
    | none ↦ ok false
    | some c ↦ compare_digest py c me.expected_auth
  ]
]

-- `_decode_jsonrpc`
unfoldable pub request_of : Loaded → Result Fields
request_of (decoded (object data_)) =
    if is_some (get Key.method data_) then ok data_ else err Error.webhook_verification_failed
request_of too_long = err Error.value_error
request_of _ = err Error.webhook_verification_failed

-- `_METHOD_ACTIONS.get(str(method)) if method is not None else None`
unfoldable pub action_of : Python → Option Json → Option CallbackAction
action_of py none = none
action_of py (some null) = none
action_of py (some m) = method_action (text_of py m)

-- `value or {}`
unfoldable pub or_empty : Option Json → Json
or_empty none = object Fields.nil
or_empty (some v) = if truthy v then v else object Fields.nil

-- The account's payment id, the empty text without one.
unfoldable pub account_text : Python → Json → ℕ
account_text py (object account) = elim (get Key.payment_id account) [
  | none ↦ 0
  | some v ↦ text_of py v
]
account_text py _ = 0

-- `_as_uuid` of the reference; the empty text is no UUID.
unfoldable pub reference_of : Python → ℕ → Reference
reference_of py t = elim (py.uuid t) [ some i ↦ Reference.uuid i | none ↦ Reference.text t ]

unfoldable pub id_text : Python → Fields → Option ℕ
id_text py params = elim (get Key.id params) [ none ↦ none | some v ↦ some (text_of py v) ]

-- A carried amount that is no whole number of sums is 0 UZS, which no payment has.
unfoldable pub carried_amount : Fields → ℕ × ℕ
unfolding minor_units_from_tiyin
carried_amount params =
    elim (minor_units_from_tiyin
      (elim (get Key.amount params) [ none ↦ integer false 0 | some v ↦ v ])) [
        | ok sums ↦ (sums, uzs)
        | err e ↦ (0, uzs)
      ]

-- `_normalize`: transaction id, reference, amount
unfoldable pub normalize : Python → CallbackAction → Fields → Option ℕ × ℕ × Option (ℕ × ℕ)
unfolding account_text or_empty id_text carried_amount
normalize py CallbackAction.check params =
    (none, account_text py (or_empty (get Key.account params)), some (carried_amount params))
normalize py CallbackAction.create params = (
  id_text py params,
  account_text py (or_empty (get Key.account params)),
  some (carried_amount params),
)
normalize py _ params = (id_text py params, 0, none)

-- The reason that only a cancellation carries.
unfoldable pub reason_of : Python → CallbackAction → Fields → Option FailureCode
reason_of py CallbackAction.cancel params = elim (get Key.reason params) [
  | none ↦ none
  | some null ↦ none
  | some v ↦ some (py.failure_code (text_of py v))
]
reason_of py _ params = none

-- `parse_webhook`, from its parts
unfoldable pub callback : Python → CallbackAction → Fields → Bool → ProviderCallback
unfolding normalize reason_of reference_of
callback py action params signature_valid =
    let (txn, reference, sum) = normalize py action params in
    record {
      provider = payme;
      provider_txn_id = txn;
      action = action;
      payment_reference = reference_of py reference;
      amount = sum;
      signature_valid = signature_valid;
      reason = reason_of py action params;
    }

unfoldable pub parse_params :
    Python → Payme → RawWebhook → CallbackAction → Json → Result ProviderCallback
unfolding callback
parse_params py me raw action (object params) = elim (auth_ok py me raw) [
  | err e ↦ err e
  | ok valid ↦ ok (callback py action params valid)
]
parse_params py me raw action _ = err Error.webhook_verification_failed

unfoldable pub parse_webhook : Python → Payme → RawWebhook → Result ProviderCallback
unfolding parse_params
parse_webhook py me raw = elim (request_of (py.loads raw.body)) [
  | err e ↦ err e
  | ok request ↦ elim (action_of py (get Key.method request)) [
    | none ↦ err Error.webhook_verification_failed
    | some action ↦ parse_params py me raw action (or_empty (get Key.params request))
  ]
]

-- The error codes -32504, -31001, -31003, -31008 and -31050, with their messages.
pub data ErrorCode : Type 0 where
  insufficient_privilege invalid_amount transaction_not_found unable_to_perform : ErrorCode
  order_not_found : ErrorCode

-- The transaction states 1, 2 and -1.
pub data TransactionState : Type 0 where
  open_ performed canceled : TransactionState

-- `_success_result`; a reason is a number with its sign.
pub data Success : Type 0 where
  allow empty : Success
  created performed canceled : ℕ → ℕ → TransactionState → Success
  described : ℕ → ℕ → ℕ → ℕ → TransactionState → Option (Bool × ℕ) → Success

-- The body of the answer, without the request's id.
pub data Response : Type 0 where
  result : Success → Response
  error : ErrorCode → Response

-- `_state`
unfoldable pub transaction_state : PaymentStatus → TransactionState
transaction_state PaymentStatus.succeeded = TransactionState.performed
transaction_state PaymentStatus.created = open_
transaction_state PaymentStatus.pending = open_
transaction_state _ = TransactionState.canceled

abbrev is_canceled : TransactionState → Bool
is_canceled TransactionState.canceled = true
is_canceled _ = false

-- `REASON_TIMEOUT` for our own expiry
unfoldable pub expiry_reason : PaymentStatus → Option (Bool × ℕ)
expiry_reason PaymentStatus.expired = some (false, 4)
expiry_reason _ = none

-- `_reason`
unfoldable pub code_reason : Option FailureCode → PaymentStatus → Result (Option (Bool × ℕ))
code_reason (some (number sign n)) status = ok (some (sign, n))
code_reason (some (misleading t)) status = err Error.value_error
code_reason _ status = ok (expiry_reason status)

unfoldable pub reason : Payment → Result (Option (Bool × ℕ))
unfolding transaction_state code_reason expiry_reason
reason p =
    if is_canceled (transaction_state p.status)
    then code_reason p.failure_code p.status
    else ok none

-- `_ms`
unfoldable pub ms : Python → Option DateTime → ℕ
ms py none = 0
ms py (some t) = py.milliseconds t

-- `_success_result` for a payment, by the callback's action
unfoldable pub success_of : Python → CallbackAction → Payment → Result Success
unfolding ms reason transaction_state
success_of py CallbackAction.check p = ok allow
success_of py CallbackAction.create p =
    ok (created (ms py p.pending_at) (py.show_uuid p.id) (transaction_state p.status))
success_of py CallbackAction.confirm p =
    ok (Success.performed (ms py p.paid_at) (py.show_uuid p.id) (transaction_state p.status))
success_of py CallbackAction.cancel p =
    ok (Success.canceled (ms py p.closed_at) (py.show_uuid p.id) (transaction_state p.status))
success_of py CallbackAction.status p = elim (reason p) [
  | err e ↦ err e
  | ok r ↦ ok (
      described (ms py p.pending_at) (ms py p.paid_at) (ms py p.closed_at) (py.show_uuid p.id)
        (transaction_state p.status) r)
]

abbrev is_check : CallbackAction → Bool
is_check CallbackAction.check = true
is_check _ = false

-- `_success_result`
unfoldable pub success_result : Python → CallbackAction → Option Payment → Result Success
unfolding success_of
success_result py action (some p) = success_of py action p
success_result py action none = ok (if is_check action then allow else empty)

abbrev is_create : CallbackAction → Bool
is_create CallbackAction.create = true
is_create _ = false

abbrev is_awaiting : PaymentStatus → Bool
is_awaiting PaymentStatus.pending = true
is_awaiting _ = false

-- A creation is answered as a success only while the payment is pending.
unfoldable pub closed_creation : CallbackAction → Option Payment → Bool
closed_creation action none = false
closed_creation action (some p) = is_create action && not (is_awaiting p.status)

abbrev keyed_by_transaction : CallbackAction → Bool
keyed_by_transaction CallbackAction.confirm = true
keyed_by_transaction CallbackAction.cancel = true
keyed_by_transaction CallbackAction.status = true
keyed_by_transaction _ = false

-- `_ERROR_MESSAGES`, with the case of an unknown transaction
unfoldable pub error_code : OutcomeStatus → CallbackAction → ErrorCode
error_code OutcomeStatus.invalid_signature action = insufficient_privilege
error_code OutcomeStatus.amount_mismatch action = invalid_amount
error_code OutcomeStatus.not_found action =
    if keyed_by_transaction action then transaction_not_found else order_not_found
error_code _ action = unable_to_perform

abbrev is_success : OutcomeStatus → Bool
is_success OutcomeStatus.ok = true
is_success OutcomeStatus.already_processed = true
is_success _ = false

unfoldable pub build_webhook_response :
    Python → RawWebhook → ProviderCallback → CallbackOutcome → Result Response
unfolding closed_creation success_result error_code
build_webhook_response py raw cb out = elim (is_success out.status) [
  | false ↦ ok (error (error_code out.status cb.action))
  | true ↦ elim (closed_creation cb.action out.payment) [
    | true ↦ ok (error (error_code OutcomeStatus.invalid_state cb.action))
    | false ↦ elim (success_result py cb.action out.payment) [
      | err e ↦ err e
      | ok s ↦ ok (result s)
    ]
  ]
]

abbrev pub adapter : Python → Payme → Adapter RawWebhook Response
adapter py me = record {
  parse_webhook = parse_webhook py me;
  build_webhook_response = build_webhook_response py;
}
