-- ===== src/Billing/Intake.antt =====
-- What reaches the payments from outside (core/billing/webhooks.py `_dispatch`): nothing without a
-- valid signature, and an `ok` only for what was done.
use backend_core.Common.{
  ℕ, ◌≡◌, ◌≢◌, ◌∙◌, ◌⊎◌, refl, sym, Bool, true, false, ◌&&◌, ◌==◌, List, [], ◌∷◌, ◌++◌, Option,
  none, some, arith, inl, inr, find, any, Option-cases, Bool-cases,
}
use backend_core.Common.Table.{taken, append-IsUnique}
use backend_core.Shared.Errors.{Error, Result, err, Result-cases}
use backend_core.Billing.State.{PaymentStatus}
use backend_core.Billing.Models.{
  Payment, Subscription, Purpose, PaymentWebhook, DedupKey, CallbackAction, same_dedup,
}
use backend_core.Billing.Store.{Db, IsConsistent, webhooks_schema}
use backend_core.Billing.Finalize.{mark_succeeded, subscription_ref}
use backend_core.Billing.Installs.{IsInstalled}
use backend_core.Billing.Success.{IsStored, mark_succeeded_activates}
use backend_core.Billing.Webhooks.{
  ProviderCallback, CallbackOutcome, OutcomeStatus, is_read_only, handle_read_only, find_payment,
  is_delivered, journal_rejected, refused_row, insert_webhook, dispatch, transition, attempt,
  apply_action, elevated, amount_ok, replayed, payment_named, claimed,
}
use backend_core.Billing.Redelivery.{
  key_of, claimed_state, find_payment-stored, deliver_first, deliver_again, dispatch-deliver,
  matched_transition, named, acted,
}

find-append_other :
    {A : Type 0} (q : A → Bool) (rows : List A) (a : A)
    → q a ≡ false
    → find q (rows ++ a ∷ []) ≡ find q rows
find-append_other q [] a h = ground (arith, h)
find-append_other q (b ∷ rows) a h = ground (arith, find-append_other q rows a h)

-- Everything but the journal and the id counter is as it was, and no key of a real delivery is
-- occupied or freed.
pub record OnlyJournalled (db db' : Db) : Type 0 where
  pub payments : db'.payments ≡ db.payments
  pub subscriptions : db'.subscriptions ≡ db.subscriptions
  pub outbox : db'.outbox ≡ db.outbox
  pub audit : db'.audit ≡ db.audit
  pub deliveries :
      (provider : ℕ) (txn : Option ℕ) (a : CallbackAction)
      → is_delivered provider (DedupKey.delivery txn a) db'.webhooks
        ≡ is_delivered provider (DedupKey.delivery txn a) db.webhooks

refused_other :
    (provider digest id p : ℕ) (db : Db) (txn : Option ℕ) (a : CallbackAction)
    → is_delivered p
        (DedupKey.delivery txn a)
        (db.webhooks ++ refused_row provider digest id db.now ∷ [])
      ≡ is_delivered p (DedupKey.delivery txn a) db.webhooks
unfolding is_delivered refused_row same_dedup
refused_other provider digest id p db txn a =
    find-append_other (λ w. w.provider == p && same_dedup w.dedup_key (DedupKey.delivery txn a))
      db.webhooks (refused_row provider digest id db.now) (ground arith)

journalled :
    (provider digest : ℕ) (db : Db)
    → let db' = (journal_rejected provider digest db).1 in
      (db'.payments ≡ db.payments)
      × (db'.subscriptions ≡ db.subscriptions)
      × (db'.outbox ≡ db.outbox)
      × (db'.audit ≡ db.audit)
      × ((db'.webhooks ≡ db.webhooks)
          ⊎ (db'.webhooks ≡ db.webhooks ++ refused_row provider digest db.next_id db.now ∷ []))
unfolding journal_rejected insert_webhook
journalled provider digest db = ground arith

journal_rejected-OnlyJournalled :
    (provider digest : ℕ) (db : Db) → OnlyJournalled db (journal_rejected provider digest db).1
journal_rejected-OnlyJournalled provider digest db =
    let facts = journalled provider digest db in
    record {
      payments = facts.0;
      subscriptions = facts.1;
      outbox = facts.2;
      audit = facts.3;
      deliveries = λ p txn a. elim facts.4 [
        | inl e ↦ rw e refl
        | inr e ↦ rw e (refused_other provider digest db.next_id p db txn a)
      ];
    }

unsigned :
    (provider digest : ℕ) (cb : ProviderCallback) (db : Db)
    → cb.signature_valid ≡ false
    → ((dispatch provider digest cb db).1 ≡ db)
      ⊎ ((dispatch provider digest cb db).1 ≡ (journal_rejected provider digest db).1)
unfolding dispatch handle_read_only
unsigned provider digest cb db s = elim (Bool-cases (is_read_only cb.action)) [
  | inl e ↦ inl (ground (arith, s, e))
  | inr e ↦ inr (ground (arith, s, e))
]

refused_answer :
    (provider digest : ℕ) (cb : ProviderCallback) (db : Db)
    → cb.signature_valid ≡ false
    → ((dispatch provider digest cb db).0
        ≡ Result.ok (record { status = OutcomeStatus.invalid_signature; payment = none }))
      ⊎ ((dispatch provider digest cb db).0 ≡ err Error.integrity_error)
unfolding dispatch handle_read_only journal_rejected insert_webhook
refused_answer provider digest cb db s = ground (arith, s)

-- A callback with a bad signature changes no payment, subscription, event or audit record, and
-- occupies no key of a real delivery. It is answered with `invalid_signature`, unless its journal
-- row cannot be inserted because the new id is taken.
pub dispatch_unsigned :
    (provider digest : ℕ) (cb : ProviderCallback) (db : Db)
    → cb.signature_valid ≡ false
    → OnlyJournalled db (dispatch provider digest cb db).1
      × (((dispatch provider digest cb db).0
            ≡ Result.ok (record { status = OutcomeStatus.invalid_signature; payment = none }))
          ⊎ ((dispatch provider digest cb db).0 ≡ err Error.integrity_error))
dispatch_unsigned provider digest cb db s = (
  elim (unsigned provider digest cb db s) [
    | inl e ↦ rw e (record {
      payments = refl;
      subscriptions = refl;
      outbox = refl;
      audit = refl;
      deliveries = λ p txn a. refl;
    })
    | inr e ↦ rw e (journal_rejected-OnlyJournalled provider digest db)
  ],
  refused_answer provider digest cb db s,
)

free_key :
    (provider id : ℕ) (key : DedupKey) (rows : List PaymentWebhook)
    → is_delivered provider key rows ≡ none
    → any (λ v. v.id == id) rows ≡ false
    → taken webhooks_schema (claimed provider key id) rows ≡ false
unfolding is_delivered claimed
free_key provider id key [] n f = refl
free_key provider id key (w ∷ rows) n f =
    ground
      (arith, free_key provider id key rows, webhooks_schema.clash_sym w (claimed provider key id))

claimed_state-IsConsistent :
    (provider : ℕ) (cb : ProviderCallback) (db : Db)
    → IsConsistent db
    → is_delivered provider (key_of cb) db.webhooks ≡ none
    → any (λ v. v.id == db.next_id) db.webhooks ≡ false
    → IsConsistent (claimed_state provider cb db)
claimed_state-IsConsistent provider cb db v n f = record {
  one_live = v.one_live;
  one_key = v.one_key;
  one_delivery =
      append-IsUnique webhooks_schema (claimed provider (key_of cb) db.next_id) db.webhooks
        v.one_delivery (free_key provider db.next_id (key_of cb) db.webhooks n f);
}

-- An answer `ok` to a confirmation: what it rests on and what it leaves.
pub record Confirms (cb : ProviderCallback) (out : CallbackOutcome) (db db' : Db) : Type 0 where
  pub before : Payment
  pub after : Payment
  pub matched : find_payment cb db.payments ≡ Result.ok (some before)
  pub signed : cb.signature_valid ≡ true
  pub reconciled : amount_ok cb before ≡ true
  pub answered : out.payment ≡ some after
  pub same_payment : after.id ≡ before.id
  pub paid : after.status ≡ PaymentStatus.succeeded
  pub stored : IsStored after db'
  pub activates :
      (before.purpose ≢ Purpose.subscription)
      ⊎ ((s : Subscription) × (subscription_ref after ≡ Result.ok s.id)
          × (s.tenant_id ≡ before.tenant_id)
          × IsInstalled s db'.subscriptions)

-- How an attempt that was answered `ok` went.
attempt_ok :
    (p : Payment) (cb : ProviderCallback) (w : PaymentWebhook) (db db' : Db) (out : CallbackOutcome)
    → attempt p cb w db ≡ (Result.ok out, db')
    → out.status ≡ OutcomeStatus.ok
    → (q : Payment) × ((acted p cb db).0 ≡ Result.ok q)
      × (out.payment ≡ some q)
      × (db'.payments ≡ (acted p cb db).1.payments)
      × (db'.subscriptions ≡ (acted p cb db).1.subscriptions)
unfolding attempt
attempt_ok p cb w db db' out h o = elim (Result-cases (acted p cb db).0) [
  | inl (q, a) ↦ (q, a, ground (arith, h, a), ground (arith, h, a), ground (arith, h, a))
  | inr (x, a) ↦ absurd (ground (arith, h, a, o))
]

transition_ok :
    (found : Option Payment) (cb : ProviderCallback) (w : PaymentWebhook) (db db' : Db)
    (out : CallbackOutcome)
    → transition found cb w db ≡ (Result.ok out, db')
    → out.status ≡ OutcomeStatus.ok
    → (p : Payment) × (found ≡ some p)
      × (amount_ok cb p ≡ true)
      × (attempt p cb (named w p) db ≡ (Result.ok out, db'))
unfolding transition
transition_ok none cb w db db' out h o = absurd (ground (arith, h, o))
transition_ok (some p) cb w db db' out h o = elim (Bool-cases (amount_ok cb p)) [
  | inr m ↦ absurd (ground (arith, h, o, m))
  | inl m ↦ (p, refl, m, sym (matched_transition p cb w db m) ∙ h)
]

-- A replay never answers `ok`.
replayed-ne-ok :
    (w : PaymentWebhook) (p : Option Payment) → ¬ ((replayed w p).status ≡ OutcomeStatus.ok)
unfolding replayed
replayed-ne-ok w p h = ground arith

confirm_is_mark_succeeded :
    (p : Payment) (cb : ProviderCallback) (db : Db)
    → cb.action ≡ CallbackAction.confirm
    → acted p cb db ≡ mark_succeeded (elevated p) p db
unfolding apply_action
confirm_is_mark_succeeded p cb db a = rw a

attempt-Confirms :
    (p : Payment) (cb : ProviderCallback) (w : PaymentWebhook) (db db1 db' : Db)
    (out : CallbackOutcome)
    → IsConsistent db1
    → db1.payments ≡ db.payments
    → cb.action ≡ CallbackAction.confirm
    → cb.signature_valid ≡ true
    → find_payment cb db.payments ≡ Result.ok (some p)
    → amount_ok cb p ≡ true
    → attempt p cb w db1 ≡ (Result.ok out, db')
    → out.status ≡ OutcomeStatus.ok
    → Confirms cb out db db'
attempt-Confirms p cb w db db1 db' out v k a s f m h o =
    let (q, r, answered, kept, subs) = attempt_ok p cb w db1 db' out h o in
    let db2 = (acted p cb db1).1 in
    let e : mark_succeeded (elevated p) p db1 ≡ (Result.ok q, db2) =
      sym (confirm_is_mark_succeeded p cb db1 a) ∙ ground (arith, r) in
    let done =
      mark_succeeded_activates (elevated p) p q db1 db2 v
        (find_payment-stored cb db1.payments p v.one_key (rw k f)) e in
    record {
      before = p;
      after = q;
      matched = f;
      signed = s;
      reconciled = m;
      answered = answered;
      same_payment = ground (arith, done.row);
      paid = ground (arith, done.row);
      stored = rw kept done.stored;
      activates = elim done.activates [
        | inl other ↦ inl other
        | inr act ↦ inr (
          act.subscription,
          act.referred,
          ground (arith, act.same_tenant, done.row),
          rw subs act.installed,
        )
      ];
    }

-- A confirmation that is answered `ok` carried a valid signature and was matched with a payment
-- that agrees with it in amount and currency, if it carried an amount; that payment is now stored as
-- succeeded, and if it pays for a subscription, then that one is active and its tenant's only live
-- one.
pub dispatch_confirmed :
    (provider digest : ℕ) (cb : ProviderCallback) (db db' : Db) (out : CallbackOutcome)
    → IsConsistent db
    → cb.action ≡ CallbackAction.confirm
    → dispatch provider digest cb db ≡ (Result.ok out, db')
    → out.status ≡ OutcomeStatus.ok
    → Confirms cb out db db'
dispatch_confirmed provider digest cb db db' out v a h o =
    let s : cb.signature_valid ≡ true = elim (Bool-cases cb.signature_valid) [
      | inl s ↦ s
      | inr s ↦ absurd (ground (arith, (dispatch_unsigned provider digest cb db s).1, h, o))
    ] in
    let h' = sym (dispatch-deliver provider digest cb db (unfold is_read_only in rw a) s) ∙ h in
    elim (Option-cases (is_delivered provider (key_of cb) db.webhooks)) [
      | inr (w, n) ↦ absurd (
          replayed-ne-ok w (payment_named w.payment_id db.payments)
            (ground (arith, deliver_again provider cb w db n, h', o)))
      | inl n ↦
          let (found, free, f, t) = deliver_first provider cb db db' out n h' in
          let w = claimed provider (key_of cb) db.next_id in
          let db1 = claimed_state provider cb db in
          let (p, e, m, t') = transition_ok found cb w db1 db' out t o in
          attempt-Confirms p cb (named w p) db db1 db' out
            (claimed_state-IsConsistent provider cb db v n free) refl a s (rw e at f) m t' o
    ]
