-- ===== src/Billing/Mismatch.antt =====
-- A callback that names another sum than its payment (`_amount_ok` of core/billing/webhooks.py).
use backend_core.Common.{ℕ, ◌≡◌, ◌≢◌, true, false, some, arith, inl, inr, Bool-cases, Option-cases}
use backend_core.Shared.Errors.{Result}
use backend_core.Billing.Models.{Payment}
use backend_core.Billing.Store.{Db}
use backend_core.Billing.Webhooks.{
  ProviderCallback, CallbackOutcome, OutcomeStatus, is_read_only, amount_ok, read_only_outcome,
  handle_read_only, is_delivered, insert_webhook, settle, transition, replay, replayed, deliver,
  dispatch, find_payment,
}
use backend_core.Billing.Redelivery.{key_of, dispatch-deliver}
use backend_core.Billing.Intake.{dispatch_unsigned}

-- No money moves: payments, subscriptions, events and audit records are as they were, and the
-- answer is not `ok`.
pub record Refused (r : Result CallbackOutcome) (db db' : Db) : Type 0 where
  pub payments : db'.payments ≡ db.payments
  pub subscriptions : db'.subscriptions ≡ db.subscriptions
  pub outbox : db'.outbox ≡ db.outbox
  pub audit : db'.audit ≡ db.audit
  pub not_ok : (out : CallbackOutcome) → r ≡ Result.ok out → out.status ≢ OutcomeStatus.ok

read_only-Refused :
    (cb : ProviderCallback) (db : Db) (p : Payment)
    → find_payment cb db.payments ≡ Result.ok (some p)
    → amount_ok cb p ≡ false
    → Refused (handle_read_only cb db).0 db (handle_read_only cb db).1
unfolding handle_read_only read_only_outcome
read_only-Refused cb db p f m = record {
  payments = ground (arith, f, m);
  subscriptions = ground (arith, f, m);
  outbox = ground (arith, f, m);
  audit = ground (arith, f, m);
  not_ok = λ out h o. ground (arith, f, m, h, o);
}

deliver-Refused :
    (provider : ℕ) (cb : ProviderCallback) (db : Db) (p : Payment)
    → find_payment cb db.payments ≡ Result.ok (some p)
    → amount_ok cb p ≡ false
    → Refused (deliver provider cb db).0 db (deliver provider cb db).1
unfolding deliver insert_webhook replay replayed transition settle
deliver-Refused provider cb db p f m =
    elim (Option-cases (is_delivered provider (key_of cb) db.webhooks)) [
      | inr (w, n) ↦ record {
        payments = ground (arith, n);
        subscriptions = ground (arith, n);
        outbox = ground (arith, n);
        audit = ground (arith, n);
        not_ok = λ out h o. ground (arith, n, h, o);
      }
      | inl n ↦ record {
        payments = ground (arith, n, f, m);
        subscriptions = ground (arith, n, f, m);
        outbox = ground (arith, n, f, m);
        audit = ground (arith, n, f, m);
        not_ok = λ out h o. ground (arith, n, f, m, h, o);
      }
    ]

only_read :
    (provider digest : ℕ) (cb : ProviderCallback) (db : Db)
    → is_read_only cb.action ≡ true
    → dispatch provider digest cb db ≡ handle_read_only cb db
unfolding dispatch
only_read provider digest cb db r = ground (arith, r)

-- A callback of whatever action that carries another amount or currency than the payment it is
-- matched with moves no money: payments, subscriptions, events and audit records stay as they are,
-- and it is not answered with `ok`.
pub dispatch-Refused :
    (provider digest : ℕ) (cb : ProviderCallback) (db : Db) (p : Payment)
    → find_payment cb db.payments ≡ Result.ok (some p)
    → amount_ok cb p ≡ false
    → Refused (dispatch provider digest cb db).0 db (dispatch provider digest cb db).1
dispatch-Refused provider digest cb db p f m = elim (Bool-cases cb.signature_valid) [
  | inr s ↦
      let (kept, answer) = dispatch_unsigned provider digest cb db s in
      record {
        payments = kept.payments;
        subscriptions = kept.subscriptions;
        outbox = kept.outbox;
        audit = kept.audit;
        not_ok = λ out h o. ground (arith, answer, h, o);
      }
  | inl s ↦ elim (Bool-cases (is_read_only cb.action)) [
    | inl r ↦ rw (only_read provider digest cb db r) (read_only-Refused cb db p f m)
    | inr r ↦ rw (dispatch-deliver provider digest cb db r s) (deliver-Refused provider cb db p f m)
  ]
]
