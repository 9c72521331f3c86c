-- ===== src/Billing/Adapters/Replies.antt =====
-- What the providers are answered, and which requests get no answer in their dialect.
use backend_core.Common.{
  ℕ, ◌+◌, ◌<◌, ◌≡◌, ◌≢◌, ◌∙◌, ◌⊎◌, sym, true, false, Option, none, some, arith, inl, inr,
  Option-cases,
}
use backend_core.Shared.Errors.{ok, Result-cases, unit_of_work}
use backend_core.Billing.Models.{CallbackAction, number}
use backend_core.Billing.Store.{Db, IsConsistent}
use backend_core.Billing.Webhooks.{
  ProviderCallback, CallbackOutcome, OutcomeStatus, Adapter, is_read_only, dispatch, process,
}
use backend_core.Billing.Redelivery.{repeated, dispatch_redelivery}
use backend_core.Billing.Adapters.Key
use backend_core.Billing.Adapters.Python.{Python, RawWebhook, get_text}
use backend_core.Billing.Adapters.Payme.{Payme, payme}
use backend_core.Billing.Adapters.Click.{Click, click}
use backend_core.Billing.Adapters.Payme
use backend_core.Billing.Adapters.Click

-- An answer depends on the status only up to repetition, and on the payment of a success.
same_answer :
    (py : Python) (raw : RawWebhook) (cb : ProviderCallback) (out out' : CallbackOutcome)
    → out'.status ≡ repeated out.status
    → (repeated out.status ≢ OutcomeStatus.already_processed) ⊎ (out'.payment ≡ out.payment)
    → Payme.build_webhook_response py raw cb out' ≡ Payme.build_webhook_response py raw cb out
unfolding Payme.build_webhook_response
same_answer py raw cb out out' s p = ground (arith, s, p)

-- A request of Payme that changes state, was authenticated and got an answer gets the identical one
-- when it is sent again, and the repeat changes nothing but the next id.
pub process-Payme_repeated :
    (py : Python) (me : Payme) (adapters : ℕ → Option (Adapter RawWebhook Payme.Response))
    (digest : RawWebhook → ℕ) (raw : RawWebhook) (cb : ProviderCallback) (db db' : Db)
    (r : Payme.Response)
    → IsConsistent db
    → adapters payme ≡ some (Payme.adapter py me)
    → Payme.parse_webhook py me raw ≡ ok cb
    → is_read_only cb.action ≡ false
    → cb.signature_valid ≡ true
    → process adapters digest payme raw db ≡ (ok r, db')
    → process adapters digest payme raw db' ≡ (ok r, record db' { next_id = db'.next_id + 1 })
unfolding process unit_of_work
process-Payme_repeated py me adapters digest raw cb db db' r v found parsed a s h =
    elim (Result-cases (dispatch payme (digest raw) cb db).0) [
      | inr (x, e) ↦ absurd (ground (arith, found, parsed, e, h))
      | inl (out, e) ↦
          let next = (dispatch payme (digest raw) cb db).1 in
          let d : dispatch payme (digest raw) cb db ≡ (ok out, next) = ground (arith, e) in
          let same : next ≡ db' = ground (arith, found, parsed, e, h) in
          let built : Payme.build_webhook_response py raw cb out ≡ ok r =
            ground (arith, found, parsed, e, h) in
          let (out', again, status, payment) =
            dispatch_redelivery payme (digest raw) (digest raw) cb db next out v a s d in
          let b = same_answer py raw cb out out' status payment ∙ built in
          rw (sym same) (ground (arith, found, parsed, again, b))
    ]

-- A completion that Click reports as failed is read as a cancellation for Click's reason, with no
-- amount to reconcile: it is never read as a confirmation.
pub parse_webhook-Click_failed :
    (py : Python) (me : Click) (raw : RawWebhook) (t n : ℕ) (cb : ProviderCallback)
    → get_text Key.action raw.form ≡ some Click.complete
    → get_text Key.error raw.form ≡ some t
    → py.int t ≡ some (true, n)
    → 0 < n
    → Click.parse_webhook py me raw ≡ ok cb
    → (cb.action ≡ CallbackAction.cancel) × (cb.amount ≡ none) × (cb.reason ≡ some (number true n))
unfolding Click.parse_webhook Click.parse_form Click.callback Click.failed_with Click.normalize
    Click.form_action
parse_webhook-Click_failed py me raw t n cb code reported below pos h =
    elim (Option-cases (get_text Key.click_trans_id raw.form)) [
      | inl e ↦ absurd (ground (arith, code, e, h))
      | inr (txn, e) ↦ elim (Result-cases (Click.form_amount py me raw.form)) [
        | inr (x, f) ↦ absurd (ground (arith, code, e, f, h))
        | inl (sum, f) ↦ elim (Result-cases (Click.sign_ok py me raw.form Click.complete)) [
          | inr (x, g) ↦ absurd (ground (arith, code, e, f, g, h))
          | inl (valid, g) ↦ ground (arith, code, e, f, g, h, reported, below)
        ]
      ]
    ]
