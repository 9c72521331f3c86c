-- ===== src/Billing/Redelivery.antt =====
-- A provider repeats a delivery: the ledger answers it and nothing changes (`_claim_ledger`,
-- `_replay` of core/billing/webhooks.py).
use backend_core.Common.{
  ℕ, ◌+◌, ◌≡◌, ◌≢◌, ◌⊎◌, ◌∙◌, ◌⊎◌, refl, sym, Bool, true, false, ◌&&◌, ◌==◌, List, [], ◌∷◌, ◌++◌,
  Option, none, some, arith, inl, inr, find, any, select, Option-cases, Bool-cases,
  find-append_last, same_option,
}
use backend_core.Common.Table.{
  replace, get_row, IsUnique, get_row-find, replace-append, get_row-replace-some,
  get_row-replace_self,
}
use backend_core.Shared.Errors.{Error, Result, err, Result-cases}
use backend_core.Billing.Models.{
  Payment, PaymentWebhook, WebhookStatus, WebhookError, DedupKey, Reference, same_dedup,
}
use backend_core.Billing.Store.{Db, IsConsistent, payments_schema, webhooks_schema}
use backend_core.Billing.Ledger.{apply_action-webhooks, apply_action-payments}
use backend_core.Billing.Webhooks.{
  ProviderCallback, CallbackOutcome, OutcomeStatus, one_or_none, get_one_or_none, first_found,
  by_reference, by_transaction, find_payment, claimed, is_delivered, insert_webhook, apply_action,
  elevated, attempt, transition, replayed, payment_named, replay, deliver, amount_ok, is_read_only,
  dispatch,
}

one_or_none-ok : {A : Type 0} (l : List A) (a : A) → one_or_none l ≡ Result.ok (some a) → l ≡ a ∷ []
unfolding one_or_none
one_or_none-ok [] a h = cc
one_or_none-ok (b ∷ []) a h = cc
one_or_none-ok (b ∷ c ∷ l) a h = cc

select-find :
    {A : Type 0} (q : A → Bool) (rows : List A) (a : A) (l : List A)
    → select q rows ≡ a ∷ l
    → find q rows ≡ some a
select-find q [] a l h = cc
select-find q (b ∷ rows) a l h = ground (arith, select-find q rows a l)

by_query :
    (q : Payment → Bool) (rows : List Payment) (p : Payment)
    → IsUnique payments_schema rows
    → get_one_or_none q rows ≡ Result.ok (some p)
    → get_row payments_schema p.id rows ≡ some p
unfolding get_one_or_none
by_query q rows p u h =
    get_row-find payments_schema q rows p u
      (select-find q rows p [] (one_or_none-ok (select q rows) p h))

by_reference-stored :
    (provider : ℕ) (r : Reference) (rows : List Payment) (p : Payment)
    → IsUnique payments_schema rows
    → by_reference provider r rows ≡ Result.ok (some p)
    → get_row payments_schema p.id rows ≡ some p
unfolding by_reference
by_reference-stored provider (Reference.uuid i) rows p u h =
    by_query (λ p. p.id == i && p.provider == provider) rows p u h
by_reference-stored provider (Reference.text t) rows p u h = cc

by_transaction-stored :
    (provider : ℕ) (t : Option ℕ) (rows : List Payment) (p : Payment)
    → IsUnique payments_schema rows
    → by_transaction provider t rows ≡ Result.ok (some p)
    → get_row payments_schema p.id rows ≡ some p
unfolding by_transaction
by_transaction-stored provider none rows p u h = cc
by_transaction-stored provider (some t) rows p u h =
    let q =
      λ (p : Payment). p.provider == provider && same_option p.provider_transaction_id (some t) in
    ground (arith, h, by_query q rows p u)

first_found-cases :
    (r s : Result (Option Payment)) (p : Payment)
    → first_found r s ≡ Result.ok (some p)
    → (r ≡ Result.ok (some p)) ⊎ (s ≡ Result.ok (some p))
unfolding first_found
first_found-cases (err e) s p h = cc
first_found-cases (Result.ok (some q)) s p h = inl h
first_found-cases (Result.ok none) s p h = inr h

-- The payment that a callback is matched with is a row of the table.
pub find_payment-stored :
    (cb : ProviderCallback) (rows : List Payment) (p : Payment)
    → IsUnique payments_schema rows
    → find_payment cb rows ≡ Result.ok (some p)
    → get_row payments_schema p.id rows ≡ some p
unfolding find_payment
find_payment-stored cb rows p u h =
    let first = by_reference cb.provider cb.payment_reference rows in
    let second = by_transaction cb.provider cb.provider_txn_id rows in
    elim (first_found-cases first second p h) [
      | inl e ↦ by_reference-stored cb.provider cb.payment_reference rows p u e
      | inr e ↦ by_transaction-stored cb.provider cb.provider_txn_id rows p u e
    ]

-- What the first answer becomes when it is replayed.
abbrev pub repeated : OutcomeStatus → OutcomeStatus
repeated OutcomeStatus.ok = OutcomeStatus.already_processed
repeated s = s

-- The ledger row that a transition leaves, and that it will be answered from.
record Leaves (w : PaymentWebhook) (out : CallbackOutcome) (db db' : Db) : Type 0 where
  row : PaymentWebhook
  same_id : row.id ≡ w.id
  same_provider : row.provider ≡ w.provider
  same_dedup_key : row.dedup_key ≡ w.dedup_key
  written : db'.webhooks ≡ replace webhooks_schema row db.webhooks
  answers : (replayed row (payment_named row.payment_id db'.payments)).status ≡ repeated out.status
  same_payment :
      repeated out.status ≡ OutcomeStatus.already_processed
      → (replayed row (payment_named row.payment_id db'.payments)).payment ≡ out.payment

settled : PaymentWebhook → WebhookStatus → Option WebhookError → Db → PaymentWebhook
settled w status error db = record w { status = status; error = error; processed_at = some db.now }

unfoldable pub named : PaymentWebhook → Payment → PaymentWebhook
named w p = record w { tenant_id = some p.tenant_id; payment_id = some p.id }

unknown_Leaves :
    (cb : ProviderCallback) (w : PaymentWebhook) (db db' : Db) (out : CallbackOutcome)
    → w.payment_id ≡ none
    → transition none cb w db ≡ (Result.ok out, db')
    → Leaves w out db db'
unfolding transition settled replayed
unknown_Leaves cb w db db' out e h = record {
  row = settled w WebhookStatus.rejected (some WebhookError.payment_not_found) db;
  same_id = refl;
  same_provider = refl;
  same_dedup_key = refl;
  written = ground (arith, h);
  answers = ground (arith, h, e);
  same_payment = λ o. ground (arith, h, e, o);
}

mismatch_Leaves :
    (p : Payment) (cb : ProviderCallback) (w : PaymentWebhook) (db db' : Db) (out : CallbackOutcome)
    → amount_ok cb p ≡ false
    → transition (some p) cb w db ≡ (Result.ok out, db')
    → Leaves w out db db'
unfolding transition settled named replayed
mismatch_Leaves p cb w db db' out m h = record {
  row = settled (named w p) WebhookStatus.rejected (some WebhookError.amount_mismatch) db;
  same_id = refl;
  same_provider = refl;
  same_dedup_key = refl;
  written = ground (arith, h, m);
  answers = ground (arith, h, m);
  same_payment = λ o. ground (arith, h, m, o);
}

abbrev pub acted : Payment → ProviderCallback → Db → Result Payment × Db
acted p cb db = apply_action cb.action p.status (elevated p) p cb db

succeeded_Leaves :
    (p q : Payment) (cb : ProviderCallback) (w : PaymentWebhook) (db db' : Db)
    (out : CallbackOutcome)
    → get_row payments_schema p.id db.payments ≡ some p
    → (acted p cb db).0 ≡ Result.ok q
    → attempt p cb (named w p) db ≡ (Result.ok out, db')
    → Leaves w out db db'
unfolding attempt settled named replayed
succeeded_Leaves p q cb w db db' out s a h =
    let next = (acted p cb db).1 in
    let wrote =
      apply_action-payments cb.action p.status (elevated p) p cb db q next (ground (arith, a)) in
    let (d, kept) = get_row-replace-some payments_schema q p.id db.payments p s in
    let same : q.id ≡ p.id = ground (arith, wrote) in
    let found = get_row-replace_self payments_schema q db.payments p (rw same s) in
    let ledger = apply_action-webhooks cb.action p.status (elevated p) p cb db in
    record {
      row = settled (named w p) WebhookStatus.processed none next;
      same_id = refl;
      same_provider = refl;
      same_dedup_key = refl;
      written = ground (arith, h, a, ledger);
      answers = ground (arith, h, a, wrote, kept);
      same_payment = λ o. ground (arith, h, a, wrote, found);
    }

refused_Leaves :
    (p : Payment) (x : Error) (cb : ProviderCallback) (w : PaymentWebhook) (db db' : Db)
    (out : CallbackOutcome)
    → (acted p cb db).0 ≡ err x
    → attempt p cb (named w p) db ≡ (Result.ok out, db')
    → Leaves w out db db'
unfolding attempt settled named replayed
refused_Leaves p x cb w db db' out a h =
    let ledger = apply_action-webhooks cb.action p.status (elevated p) p cb db in
    record {
      row =
          settled (named w p) WebhookStatus.failed (some WebhookError.invalid_transition)
            (acted p cb db).1;
      same_id = refl;
      same_provider = refl;
      same_dedup_key = refl;
      written = ground (arith, h, a, ledger);
      answers = ground (arith, h, a);
      same_payment = λ o. ground (arith, h, a, o);
    }

pub matched_transition :
    (p : Payment) (cb : ProviderCallback) (w : PaymentWebhook) (db : Db)
    → amount_ok cb p ≡ true
    → transition (some p) cb w db ≡ attempt p cb (named w p) db
unfolding transition named
matched_transition p cb w db m = ground (arith, m)

transition-Leaves :
    (found : Option Payment) (cb : ProviderCallback) (w : PaymentWebhook) (db db' : Db)
    (out : CallbackOutcome)
    → w.payment_id ≡ none
    → ((p : Payment) → found ≡ some p → get_row payments_schema p.id db.payments ≡ some p)
    → transition found cb w db ≡ (Result.ok out, db')
    → Leaves w out db db'
transition-Leaves none cb w db db' out e s h = unknown_Leaves cb w db db' out e h
transition-Leaves (some p) cb w db db' out e s h = elim (Bool-cases (amount_ok cb p)) [
  | inr m ↦ mismatch_Leaves p cb w db db' out m h
  | inl m ↦
      let h' = sym (matched_transition p cb w db m) ∙ h in
      elim (Result-cases (acted p cb db).0) [
        | inl (q, a) ↦ succeeded_Leaves p q cb w db db' out (s p refl) a h'
        | inr (x, a) ↦ refused_Leaves p x cb w db db' out a h'
      ]
]

abbrev pub key_of : ProviderCallback → DedupKey
key_of cb = DedupKey.delivery cb.provider_txn_id cb.action

-- The state in which the claimed delivery is processed.
abbrev pub claimed_state : ℕ → ProviderCallback → Db → Db
claimed_state provider cb db = record db {
  next_id = db.next_id + 1;
  webhooks = db.webhooks ++ claimed provider (key_of cb) db.next_id ∷ [];
}

pub deliver_first :
    (provider : ℕ) (cb : ProviderCallback) (db db' : Db) (out : CallbackOutcome)
    → is_delivered provider (key_of cb) db.webhooks ≡ none
    → deliver provider cb db ≡ (Result.ok out, db')
    → (found : Option Payment) × (any (λ v. v.id == db.next_id) db.webhooks ≡ false)
      × (find_payment cb db.payments ≡ Result.ok found)
      × (transition found cb
            (claimed provider (key_of cb) db.next_id)
            (claimed_state provider cb db)
          ≡ (Result.ok out, db'))
unfolding deliver insert_webhook
deliver_first provider cb db db' out n h = elim (Result-cases (find_payment cb db.payments)) [
  | inl (found, f) ↦ (found, ground (arith, n, f, h), f, ground (arith, n, f, h))
  | inr (x, f) ↦ absurd (ground (arith, n, f, h))
]

pub deliver_again :
    (provider : ℕ) (cb : ProviderCallback) (w : PaymentWebhook) (db : Db)
    → is_delivered provider (key_of cb) db.webhooks ≡ some w
    → deliver provider cb db ≡ (
      Result.ok (replayed w (payment_named w.payment_id db.payments)),
      record db { next_id = db.next_id + 1 },
    )
unfolding deliver replay
deliver_again provider cb w db n = ground (arith, n)

replayed_again :
    (w : PaymentWebhook) (p : Option Payment)
    → repeated (replayed w p).status ≡ (replayed w p).status
unfolding replayed
replayed_again w p = ground arith

same_dedup_refl : (cb : ProviderCallback) → same_dedup (key_of cb) (key_of cb) ≡ true
unfolding same_dedup
same_dedup_refl cb = ground arith

Leaves-delivered :
    (provider : ℕ) (cb : ProviderCallback) (db db' : Db) (out : CallbackOutcome)
    → is_delivered provider (key_of cb) db.webhooks ≡ none
    → any (λ v. v.id == db.next_id) db.webhooks ≡ false
    → (l : Leaves (claimed provider (key_of cb) db.next_id) out (claimed_state provider cb db) db')
    → is_delivered provider (key_of cb) db'.webhooks ≡ some l.row
unfolding is_delivered claimed
Leaves-delivered provider cb db db' out n free l =
    let w = claimed provider (key_of cb) db.next_id in
    rw (l.written, replace-append webhooks_schema w l.row db.webhooks free l.same_id)
      (find-append_last (λ v. v.provider == provider && same_dedup v.dedup_key (key_of cb))
        db.webhooks l.row n
        (rw (l.same_provider, l.same_dedup_key) (ground (arith, same_dedup_refl cb))))

first_delivery :
    (provider : ℕ) (cb : ProviderCallback) (db db' : Db) (out : CallbackOutcome)
    → IsConsistent db
    → is_delivered provider (key_of cb) db.webhooks ≡ none
    → deliver provider cb db ≡ (Result.ok out, db')
    → (w : PaymentWebhook) × (is_delivered provider (key_of cb) db'.webhooks ≡ some w)
      × ((replayed w (payment_named w.payment_id db'.payments)).status ≡ repeated out.status)
      × (repeated out.status ≡ OutcomeStatus.already_processed
          → (replayed w (payment_named w.payment_id db'.payments)).payment ≡ out.payment)
first_delivery provider cb db db' out v n h =
    let (found, free, f, t) = deliver_first provider cb db db' out n h in
    let l =
      transition-Leaves found cb (claimed provider (key_of cb) db.next_id)
        (claimed_state provider cb db) db' out (unfold claimed in refl)
        (λ p e. find_payment-stored cb db.payments p v.one_key (rw e at f)) t in
    (l.row, Leaves-delivered provider cb db db' out n free l, l.answers, l.same_payment)

pub dispatch-deliver :
    (provider digest : ℕ) (cb : ProviderCallback) (db : Db)
    → is_read_only cb.action ≡ false
    → cb.signature_valid ≡ true
    → dispatch provider digest cb db ≡ deliver provider cb db
unfolding dispatch
dispatch-deliver provider digest cb db a s = ground (arith, a, s)

again :
    (provider : ℕ) (cb : ProviderCallback) (w : PaymentWebhook) (db db' : Db)
    (out : CallbackOutcome)
    → is_delivered provider (key_of cb) db.webhooks ≡ some w
    → deliver provider cb db ≡ (Result.ok out, db')
    → (v : PaymentWebhook) × (is_delivered provider (key_of cb) db'.webhooks ≡ some v)
      × ((replayed v (payment_named v.payment_id db'.payments)).status ≡ repeated out.status)
      × (repeated out.status ≡ OutcomeStatus.already_processed
          → (replayed v (payment_named v.payment_id db'.payments)).payment ≡ out.payment)
again provider cb w db db' out n h =
    let e = deliver_again provider cb w db n in
    (
      w,
      ground (arith, e, h, n),
      ground (arith, e, h, replayed_again w (payment_named w.payment_id db.payments)),
      λ o. ground (arith, e, h),
    )

unless_refused :
    {A : Type 0} (s : OutcomeStatus)
    → (s ≡ OutcomeStatus.already_processed → A)
    → (s ≢ OutcomeStatus.already_processed) ⊎ A
unless_refused OutcomeStatus.already_processed f = inr (f refl)
unless_refused _ f = inl (λ e. ground (arith, e))

-- An authenticated, state-changing callback that was answered and is delivered again changes
-- nothing but the next id: no payment, subscription, event, audit record or ledger row. It is
-- answered with the same status, `already_processed` in place of `ok`, and a success with the same
-- payment.
pub dispatch_redelivery :
    (provider digest digest' : ℕ) (cb : ProviderCallback) (db db' : Db) (out : CallbackOutcome)
    → IsConsistent db
    → is_read_only cb.action ≡ false
    → cb.signature_valid ≡ true
    → dispatch provider digest cb db ≡ (Result.ok out, db')
    → (out' : CallbackOutcome) × (dispatch provider digest' cb db'
        ≡ (Result.ok out', record db' { next_id = db'.next_id + 1 }))
      × (out'.status ≡ repeated out.status)
      × ((repeated out.status ≢ OutcomeStatus.already_processed) ⊎ (out'.payment ≡ out.payment))
dispatch_redelivery provider digest digest' cb db db' out v a s h =
    let h' = sym (dispatch-deliver provider digest cb db a s) ∙ h in
    let (w, found, status, payment) : (w : PaymentWebhook) × (is_delivered provider (key_of cb)
            db'.webhooks
          ≡ some w)
        × ((replayed w (payment_named w.payment_id db'.payments)).status ≡ repeated out.status)
        × (repeated out.status ≡ OutcomeStatus.already_processed
            → (replayed w (payment_named w.payment_id db'.payments)).payment ≡ out.payment) =
      elim (Option-cases (is_delivered provider (key_of cb) db.webhooks)) [
        | inl n ↦ first_delivery provider cb db db' out v n h'
        | inr (w, n) ↦ again provider cb w db db' out n h'
      ] in
    (
      replayed w (payment_named w.payment_id db'.payments),
      dispatch-deliver provider digest' cb db' a s ∙ deliver_again provider cb w db' found,
      status,
      unless_refused (repeated out.status) payment,
    )
