-- ===== src/Billing/Adapters/Click.antt =====
-- core/billing/adapters/click.py: the form dialect of Click. Action codes are the numbers 30 and 31,
-- and `link` is the encoded query of a checkout.
use backend_core.Common.{
  ℕ, Bool, true, false, not, ◌&&◌, Option, none, some, List, [], ◌∷◌, ◌++◌, ◌==◌, if◌then◌else◌,
}
use backend_core.Shared.Errors.{Error, Result, ok, err}
use backend_core.Billing.Models.{Payment, CallbackAction, FailureCode, number}
use backend_core.Billing.Payments.{Port, Url}
use backend_core.Billing.Webhooks.{ProviderCallback, CallbackOutcome, OutcomeStatus, Adapter}
use backend_core.Billing.Adapters.Key
use backend_core.Billing.Adapters.Python.{
  Python, Decimal, RawWebhook, get_text, compare_digest, negative, fraction, infinite, nan, whole,
}
use backend_core.Billing.Adapters.Payme.{uzs, reference_of}

-- `ClickProvider.code`, `ACTION_PREPARE` and `ACTION_COMPLETE`
abbrev pub click : ℕ
click = 2

abbrev pub prepare : ℕ
prepare = 30

abbrev pub complete : ℕ
complete = 31

-- `_ACTIONS.get`
unfoldable pub form_action : ℕ → Option CallbackAction
form_action code =
    if code == prepare
    then some CallbackAction.create
    else if code == complete
    then some CallbackAction.confirm
    else none

-- `minor_units_from_sum`. Comparing a NaN and truncating an infinity raise outside its `try`.
unfoldable pub minor_units_from_sum : Option Decimal → Result ℕ
minor_units_from_sum none = err Error.payment_provider_error
minor_units_from_sum (some negative) = err Error.payment_provider_error
minor_units_from_sum (some fraction) = err Error.payment_provider_error
minor_units_from_sum (some infinite) = err Error.overflow_error
minor_units_from_sum (some nan) = err Error.arithmetic_error
minor_units_from_sum (some (whole n)) = ok n

pub record Click : Type 0 where
  pub service_id : ℕ
  pub merchant_id : ℕ
  pub secret_key : ℕ
  pub zero_text : ℕ
  pub link : ℕ → ℕ → ℕ → ℕ → Option Url → ℕ

-- `if return_url:`
unfoldable pub asked_url : Option Url → Option Url
asked_url none = none
asked_url (some []) = none
asked_url (some (ch ∷ url)) = some (ch ∷ url)

-- `create_checkout`, with `to_sum_amount`
unfoldable pub create_checkout : Click → Port
unfolding asked_url
create_checkout me p url =
    if p.currency == uzs
    then ok (record {
      payment_id = p.id;
      provider = click;
      checkout_url = me.link me.service_id me.merchant_id p.amount p.id (asked_url url);
      expires_at = none;
    })
    else err Error.payment_provider_error

-- `form.get(key, "")`, the empty text without an entry
unfoldable pub or_blank : ℕ → List (ℕ × ℕ) → ℕ
or_blank key form = elim (get_text key form) [ none ↦ 0 | some t ↦ t ]

-- The parts of `_sign`
unfoldable pub signed_parts : Click → List (ℕ × ℕ) → ℕ → List ℕ
unfolding or_blank
signed_parts me form code =
    or_blank Key.click_trans_id form
    ∷ or_blank Key.service_id form
    ∷ me.secret_key
    ∷ or_blank Key.merchant_trans_id form
    ∷ ((if code == complete then or_blank Key.merchant_prepare_id form ∷ [] else [])
        ++ or_blank Key.amount form ∷ code ∷ or_blank Key.sign_time form ∷ [])

-- `_sign_ok`
unfoldable pub sign_ok : Python → Click → List (ℕ × ℕ) → ℕ → Result Bool
unfolding or_blank signed_parts
sign_ok py me form code =
    compare_digest py (or_blank Key.sign_string form) (py.digest (signed_parts me form code))

-- The amount of the form, 0 UZS when it is refused as unparseable.
unfoldable pub form_amount : Python → Click → List (ℕ × ℕ) → Result (ℕ × ℕ)
unfolding minor_units_from_sum
form_amount py me form =
    let text : ℕ = elim (get_text Key.amount form) [ none ↦ me.zero_text | some t ↦ t ] in
    elim (minor_units_from_sum (py.decimal text)) [
      | ok n ↦ ok (n, uzs)
      | err Error.payment_provider_error ↦ ok (0, uzs)
      | err e ↦ err e
    ]

-- `_int_or_none(form.get("error"))`, if it is below zero
unfoldable pub failed_with : Python → List (ℕ × ℕ) → Option ℕ
failed_with py form = elim (get_text Key.error form) [
  | none ↦ none
  | some t ↦ elim (py.int t) [
    | none ↦ none
    | some (below, n) ↦ if below && not (n == 0) then some n else none
  ]
]

-- A completion that Click reports as failed is a cancellation, with nothing to reconcile.
unfoldable pub normalize :
    CallbackAction → Option ℕ → ℕ × ℕ → CallbackAction × Option (ℕ × ℕ) × Option FailureCode
normalize CallbackAction.confirm (some n) sum = (CallbackAction.cancel, none, some (number true n))
normalize action failure sum = (action, some sum, none)

-- `parse_webhook`, from its parts
unfoldable pub callback :
    Python → List (ℕ × ℕ) → ℕ → CallbackAction → ℕ × ℕ → Bool → ProviderCallback
unfolding normalize failed_with or_blank reference_of
callback py form txn action sum signature_valid =
    let (final, carried, reason) = normalize action (failed_with py form) sum in
    record {
      provider = click;
      provider_txn_id = some txn;
      action = final;
      payment_reference = reference_of py (or_blank Key.merchant_trans_id form);
      amount = carried;
      signature_valid = signature_valid;
      reason = reason;
    }

-- `parse_webhook`, once the two keys that make it a callback are there
unfoldable pub parse_form : Python → Click → List (ℕ × ℕ) → ℕ → ℕ → Result ProviderCallback
unfolding form_action form_amount sign_ok callback
parse_form py me form code txn = elim (form_action code) [
  | none ↦ err Error.webhook_verification_failed
  | some action ↦ elim (form_amount py me form) [
    | err e ↦ err e
    | ok sum ↦ elim (sign_ok py me form code) [
      | err e ↦ err e
      | ok valid ↦ ok (callback py form txn action sum valid)
    ]
  ]
]

unfoldable pub parse_webhook : Python → Click → RawWebhook → Result ProviderCallback
unfolding parse_form
parse_webhook py me raw = elim (get_text Key.action raw.form) [
  | none ↦ err Error.webhook_verification_failed
  | some code ↦ elim (get_text Key.click_trans_id raw.form) [
    | none ↦ err Error.webhook_verification_failed
    | some txn ↦ parse_form py me raw.form code txn
  ]
]

-- The error codes 0, -1, -2, -4, -5, -6 and -9, with their notes.
pub data ErrorCode : Type 0 where
  success sign_check_failed incorrect_amount already_paid order_not_found : ErrorCode
  transaction_not_found transaction_cancelled : ErrorCode

pub record Response : Type 0 where
  pub click_trans_id : Option ℕ
  pub merchant_trans_id : Option ℕ
  pub merchant_prepare_id : Option ℕ
  pub error : ErrorCode

abbrev is_cancel : CallbackAction → Bool
is_cancel CallbackAction.cancel = true
is_cancel _ = false

-- `_ERROR_CODES`, and the two cases of a success
unfoldable pub error_code : OutcomeStatus → CallbackAction → ErrorCode
error_code OutcomeStatus.ok action = if is_cancel action then transaction_cancelled else success
error_code OutcomeStatus.already_processed action =
    if is_cancel action then transaction_cancelled else success
error_code OutcomeStatus.invalid_signature action = sign_check_failed
error_code OutcomeStatus.amount_mismatch action = incorrect_amount
error_code OutcomeStatus.not_found action = order_not_found
error_code OutcomeStatus.invalid_state action = already_paid

-- `raw.get("merchant_prepare_id") or ...`
unfoldable pub prepare_id : Python → Option ℕ → Option Payment → Option ℕ
prepare_id py (some t) payment =
    if t == 0 then elim payment [ none ↦ none | some p ↦ some (py.show_uuid p.id) ] else some t
prepare_id py none payment = elim payment [ none ↦ none | some p ↦ some (py.show_uuid p.id) ]

unfoldable pub build_webhook_response :
    Python → RawWebhook → ProviderCallback → CallbackOutcome → Result Response
unfolding error_code prepare_id
build_webhook_response py raw cb out = ok (record {
  click_trans_id = get_text Key.click_trans_id raw.form;
  merchant_trans_id = get_text Key.merchant_trans_id raw.form;
  merchant_prepare_id = prepare_id py (get_text Key.merchant_prepare_id raw.form) out.payment;
  error = error_code out.status cb.action;
})

abbrev pub adapter : Python → Click → Adapter RawWebhook Response
adapter py me = record {
  parse_webhook = parse_webhook py me;
  build_webhook_response = build_webhook_response py;
}
