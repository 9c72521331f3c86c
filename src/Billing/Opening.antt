-- ===== src/Billing/Opening.antt =====
-- `create_payment` of core/billing/service.py: one payment for each idempotency key of a tenant,
-- and the same answer to a repeated request, whatever concurrent transactions commit.
use backend_core.Common.{
  ℕ, ◌+◌, ◌≡◌, ◌∙◌, sym, refl, true, false, Option, none, some, List, [], ◌∷◌, ◌++◌, arith, ◌==◌,
  inl, inr, Bool-cases, Option-cases,
}
use backend_core.Common.Table.{taken, replace, append-IsUnique}
use backend_core.Shared.Errors.{Error, ok, err, Result-cases, ◌>>=◌}
use backend_core.Shared.Clock.{DateTime}
use backend_core.Billing.State.{PaymentStatus}
use backend_core.Billing.Models.{Payment, FailureCode, IdempotencyKey, same_key}
use backend_core.Billing.Store.{
  Db, Context, Event, IsConsistent, payments_schema, emit, save_payment,
}
use backend_core.Billing.Payments.{
  Environment, Port, Url, Checkout, PaymentRequest, by_idempotency_key, same_request,
  stored_checkout, replay_checkout, new_payment, open_checkout, insert_payment, create_payment,
  validate_return_url, payment_event_payload,
}
use backend_core.Billing.Consistency.{save_payment-IsConsistent, emit-IsConsistent}

same_key_refl : (k : IdempotencyKey) → same_key k k ≡ true
unfolding same_key
same_key_refl k = ground arith

same_request-new :
    (c : Context) (r : PaymentRequest) (i : ℕ) (now : DateTime)
    → same_request (new_payment c r i now) r ≡ true
unfolding same_request new_payment
same_request-new c r i now = ground arith

-- A new row stands behind those that left its index entries free.
replace-append :
    (p q : Payment) (rows : List Payment)
    → taken payments_schema p rows ≡ false
    → q.id ≡ p.id
    → replace payments_schema q (rows ++ p ∷ []) ≡ rows ++ q ∷ []
replace-append p q [] t e = ground (arith, e)
replace-append p q (d ∷ rows) t e = ground (arith, e, replace-append p q rows)

find-append :
    (tenant : ℕ) (key : IdempotencyKey) (p q : Payment) (rows : List Payment)
    → taken payments_schema p rows ≡ false
    → p.tenant_id ≡ tenant
    → p.idempotency_key ≡ key
    → q.tenant_id ≡ tenant
    → q.idempotency_key ≡ key
    → by_idempotency_key tenant key (rows ++ q ∷ []) ≡ some q
unfolding by_idempotency_key
find-append tenant key p q [] t pt pk qt qk = ground (arith, same_key_refl key)
find-append tenant key p q (d ∷ rows) t pt pk qt qk =
    ground (arith, find-append tenant key p q rows, payments_schema.clash_sym p d)

-- What `CheckoutDTO` promises of every adapter: it names the payment and the provider, which is the
-- payment's own.
abbrev pub IsHonest : Environment → Type 0
IsHonest env =
    (provider : ℕ) (port : Port) (p : Payment) (url : Option Url) (k : Checkout)
    → env.providers provider ≡ some port
    → p.provider ≡ provider
    → port p url ≡ ok k
    → (k.payment_id ≡ p.id) × (k.provider ≡ provider)

-- A row that answers a request, and the answer.
pub record Answers (c : Context) (r : PaymentRequest) (k : Checkout) (db : Db) : Type 0 where
  pub payment : Payment
  pub found : by_idempotency_key c.tenant_id r.idempotency_key db.payments ≡ some payment
  pub matches : same_request payment r ≡ true
  pub checkout : stored_checkout payment ≡ k

replay-Answers :
    (c : Context) (p : Payment) (r : PaymentRequest) (k : Checkout) (db db' : Db)
    → by_idempotency_key c.tenant_id r.idempotency_key db.payments ≡ some p
    → replay_checkout p r db ≡ (ok k, db')
    → (db' ≡ db) × Answers c r k db'
unfolding replay_checkout
replay-Answers c p r k db db' f h =
    let e : db' ≡ db = ground (arith, h) in
    (
      e,
      record {
        payment = p;
        found = rw e f;
        matches = ground (arith, h);
        checkout = ground (arith, h);
      },
    )

-- The row that an INSERT leaves when the provider answers `k`.
abbrev opened : Context → PaymentRequest → Db → Checkout → Payment
opened c r db k = record (new_payment c r db.next_id db.now) {
  checkout_url = k.checkout_url;
  expires_at = k.expires_at;
}

abbrev fresh : Context → PaymentRequest → Db → Payment
fresh c r db = new_payment c r db.next_id db.now

insert_fresh :
    (c : Context) (port : Port) (r : PaymentRequest) (k : Checkout) (db db' : Db)
    → taken payments_schema (fresh c r db) db.payments ≡ false
    → insert_payment c port r db ≡ (ok k, db')
    → (port (fresh c r db) r.return_url ≡ ok k)
      × (db'.payments
          ≡ replace payments_schema (opened c r db k) (db.payments ++ fresh c r db ∷ []))
unfolding insert_payment save_payment emit
insert_fresh c port r k db db' t h = ground (arith, t)

insert_taken :
    (c : Context) (port : Port) (r : PaymentRequest) (k : Checkout) (db db' : Db)
    → taken payments_schema (fresh c r db) db.payments ≡ true
    → insert_payment c port r db ≡ (ok k, db')
    → (w : Payment) × (by_idempotency_key c.tenant_id r.idempotency_key db.payments ≡ some w)
      × (replay_checkout w r (record db { next_id = db.next_id + 1 }) ≡ (ok k, db'))
unfolding insert_payment
insert_taken c port r k db db' t h =
    elim (Option-cases (by_idempotency_key c.tenant_id r.idempotency_key db.payments)) [
      | inl e ↦ absurd (ground (arith, t, e, h))
      | inr (w, e) ↦ (w, e, ground (arith, t, e, h))
    ]

insert-Answers :
    (env : Environment) (port : Port) (c : Context) (r : PaymentRequest) (k : Checkout)
    (db db' : Db)
    → IsHonest env
    → env.providers r.provider ≡ some port
    → insert_payment c port r db ≡ (ok k, db')
    → Answers c r k db'
unfolding new_payment stored_checkout
insert-Answers env port c r k db db' honest e h =
    elim (Bool-cases (taken payments_schema (fresh c r db) db.payments)) [
      | inl t ↦
          let (w, f, again) = insert_taken c port r k db db' t h in
          (replay-Answers c w r k (record db { next_id = db.next_id + 1 }) db' f again).1
      | inr t ↦
          let (asked, rows) = insert_fresh c port r k db db' t h in
          let named = honest r.provider port (fresh c r db) r.return_url k e refl asked in
          record {
            payment = opened c r db k;
            found =
                rw (rows, replace-append (fresh c r db) (opened c r db k) db.payments t refl)
                  (find-append c.tenant_id r.idempotency_key (fresh c r db) (opened c r db k)
                    db.payments t refl refl refl refl);
            matches = unfold same_request in same_request-new c r db.next_id db.now;
            checkout = ground (arith, named);
          }
    ]

-- The checks that a call which returned has passed, and how it then went on.
abbrev pub Passes : Environment → PaymentRequest → Port → Type 0
Passes env r port =
    (env.providers r.provider ≡ some port)
    × ((r.amount == 0) ≡ false)
    × (validate_return_url env r.return_url ≡ ok tt)

passed :
    (env : Environment) (c : Context) (others : Db → Db) (r : PaymentRequest) (k : Checkout)
    (db db' : Db)
    → create_payment env c others r db ≡ (ok k, db')
    → (port : Port) × Passes env r port
unfolding create_payment
passed env c others r k db db' h = elim (Option-cases (env.providers r.provider)) [
  | inl e ↦ absurd (ground (arith, e, h))
  | inr (port, e) ↦ (port, (e, ground (arith, e, h), ground (arith, e, h)))
]

create_found :
    (env : Environment) (c : Context) (others : Db → Db) (r : PaymentRequest) (port : Port)
    (p : Payment) (db : Db)
    → Passes env r port
    → by_idempotency_key c.tenant_id r.idempotency_key db.payments ≡ some p
    → create_payment env c others r db ≡ replay_checkout p r db
unfolding create_payment
create_found env c others r port p db ok_ f = ground (arith, ok_, f)

create_new :
    (env : Environment) (c : Context) (others : Db → Db) (r : PaymentRequest) (port : Port)
    (db : Db)
    → Passes env r port
    → by_idempotency_key c.tenant_id r.idempotency_key db.payments ≡ none
    → create_payment env c others r db ≡ insert_payment c port r (others db)
unfolding create_payment
create_new env c others r port db ok_ f = ground (arith, ok_, f)

answer_again :
    (env : Environment) (c : Context) (others : Db → Db) (r : PaymentRequest) (k : Checkout)
    (port : Port) (db : Db)
    → Passes env r port
    → Answers c r k db
    → create_payment env c others r db ≡ (ok k, db)
unfolding replay_checkout
answer_again env c others r k port db ok_ a =
    rw (create_found env c others r port a.payment db ok_ a.found)
      (ground (arith, a.matches, a.checkout))

-- A request that returned a checkout has left a payment that answers it.
pub create_payment-Answers :
    (env : Environment) (c : Context) (others : Db → Db) (r : PaymentRequest) (k : Checkout)
    (db db' : Db)
    → IsHonest env
    → create_payment env c others r db ≡ (ok k, db')
    → Answers c r k db'
create_payment-Answers env c others r k db db' honest h =
    let (port, pass) = passed env c others r k db db' h in
    elim (Option-cases (by_idempotency_key c.tenant_id r.idempotency_key db.payments)) [
      | inl f ↦
          insert-Answers env port c r k (others db) db' honest pass.0
            (sym (create_new env c others r port db pass f) ∙ h)
      | inr (p, f) ↦
          (replay-Answers c p r k db db' f
            (sym (create_found env c others r port p db pass f) ∙ h)).1
    ]

-- What becomes of a payment after it is opened: its status and the fields that go with it.
pub record Progress : Type 0 where
  pub status : PaymentStatus
  pub provider_transaction_id : Option ℕ
  pub failure_code : Option FailureCode
  pub paid_at : Option DateTime
  pub pending_at : Option DateTime
  pub closed_at : Option DateTime

abbrev pub progressed : Progress → Payment → Payment
progressed g p = record p {
  status = g.status;
  provider_transaction_id = g.provider_transaction_id;
  failure_code = g.failure_code;
  paid_at = g.paid_at;
  pending_at = g.pending_at;
  closed_at = g.closed_at;
}

-- The row of the request, later.
abbrev pub later_row : Progress → Option Payment → Option Payment
later_row g none = none
later_row g (some p) = some (progressed g p)

progressed-answers :
    (g : Progress) (p : Payment) (r : PaymentRequest)
    → (same_request (progressed g p) r ≡ same_request p r)
      × (stored_checkout (progressed g p) ≡ stored_checkout p)
unfolding same_request stored_checkout
progressed-answers g p r = (refl, refl)

-- A request that returned a checkout returns the same one when it is repeated at any later time, and
-- the repeat changes nothing, whatever other transactions committed between lookup and INSERT of the
-- first call, and whatever has become of the payment's status, transaction id, failure code and
-- times and of all other rows since, if the adapters' checkouts name the payment and provider that
-- they were asked for.
pub create_payment_idempotent :
    (env : Environment) (c : Context) (others others' : Db → Db) (r : PaymentRequest) (k : Checkout)
    (db db' later : Db) (g : Progress)
    → IsHonest env
    → create_payment env c others r db ≡ (ok k, db')
    → by_idempotency_key c.tenant_id r.idempotency_key later.payments
      ≡ later_row g (by_idempotency_key c.tenant_id r.idempotency_key db'.payments)
    → create_payment env c others' r later ≡ (ok k, later)
create_payment_idempotent env c others others' r k db db' later g honest h kept =
    let (port, pass) = passed env c others r k db db' h in
    let a = create_payment-Answers env c others r k db db' honest h in
    let (same, checkout) = progressed-answers g a.payment r in
    answer_again env c others' r k port later pass (record {
      payment = progressed g a.payment;
      found = kept ∙ (λ i. later_row g (a.found i));
      matches = same ∙ a.matches;
      checkout = checkout ∙ a.checkout;
    })

open_checkout-IsConsistent :
    (c : Context) (port : Port) (p : Payment) (url : Option Url) (db : Db)
    → IsConsistent db
    → IsConsistent (open_checkout c port p url db).1
unfolding open_checkout
open_checkout-IsConsistent c port p url db v = elim (Result-cases (port p url)) [
  | inl (k, e) ↦
      let q = record p { checkout_url = k.checkout_url; expires_at = k.expires_at } in
      let v1 = save_payment-IsConsistent q db v in
      let event = Event.payment_created (payment_event_payload p) in
      ground (arith, e, v1, emit-IsConsistent c event (save_payment q db).1 v1)
  | inr (x, e) ↦ ground (arith, e)
]

replay_checkout_state :
    (p : Payment) (r : PaymentRequest) (db : Db) → (replay_checkout p r db).1 ≡ db
unfolding replay_checkout
replay_checkout_state p r db = ground arith

-- The state when the new row is in the table.
abbrev appended : Context → PaymentRequest → Db → Db
appended c r db = record db {
  next_id = db.next_id + 1;
  payments = db.payments ++ fresh c r db ∷ [];
}

insert_payment-state :
    (c : Context) (port : Port) (r : PaymentRequest) (db : Db)
    → taken payments_schema (fresh c r db) db.payments ≡ false
    → (insert_payment c port r db).1
      ≡ (open_checkout c port (fresh c r db) r.return_url (appended c r db)).1
unfolding insert_payment
insert_payment-state c port r db t = rw (t, ◌>>=◌)

insert_payment-taken :
    (c : Context) (port : Port) (r : PaymentRequest) (db : Db)
    → taken payments_schema (fresh c r db) db.payments ≡ true
    → (insert_payment c port r db).1 ≡ record db { next_id = db.next_id + 1 }
unfolding insert_payment
insert_payment-taken c port r db t =
    elim (Option-cases (by_idempotency_key c.tenant_id r.idempotency_key db.payments)) [
      | inl e ↦ ground (arith, t, e)
      | inr (w, e) ↦ ground (arith, t, e)
    ]

insert_payment-IsConsistent :
    (c : Context) (port : Port) (r : PaymentRequest) (db : Db)
    → IsConsistent db
    → IsConsistent (insert_payment c port r db).1
insert_payment-IsConsistent c port r db v =
    elim (Bool-cases (taken payments_schema (fresh c r db) db.payments)) [
      | inl t ↦
          rw (insert_payment-taken c port r db t)
            (record { one_live = v.one_live; one_key = v.one_key; one_delivery = v.one_delivery })
      | inr t ↦ rw (insert_payment-state c port r db t) (
          open_checkout-IsConsistent c port (fresh c r db) r.return_url (appended c r db) (record {
            one_live = v.one_live;
            one_key = append-IsUnique payments_schema (fresh c r db) db.payments v.one_key t;
            one_delivery = v.one_delivery;
          }))
    ]

-- Opening a payment keeps every unique index, also when it raises and whatever other transactions
-- commit between its lookup and its INSERT, if those keep them.
pub create_payment-IsConsistent :
    (env : Environment) (c : Context) (others : Db → Db) (r : PaymentRequest) (db : Db)
    → ((d : Db) → IsConsistent d → IsConsistent (others d))
    → IsConsistent db
    → IsConsistent (create_payment env c others r db).1
unfolding create_payment
create_payment-IsConsistent env c others r db keep v =
    elim (Option-cases (env.providers r.provider)) [
      | inl e ↦ ground (arith, e)
      | inr (port, e) ↦
          elim (Option-cases (by_idempotency_key c.tenant_id r.idempotency_key db.payments)) [
            | inl f ↦
                ground (arith, e, f, insert_payment-IsConsistent c port r (others db) (keep db v))
            | inr (p, f) ↦ ground (arith, e, f, replay_checkout_state p r db)
          ]
    ]

-- A request with a key that the tenant has used for another payment is refused as a conflict, and
-- changes nothing.
pub create_payment_conflict :
    (env : Environment) (c : Context) (others : Db → Db) (r : PaymentRequest) (port : Port)
    (p : Payment) (db : Db)
    → Passes env r port
    → by_idempotency_key c.tenant_id r.idempotency_key db.payments ≡ some p
    → same_request p r ≡ false
    → create_payment env c others r db ≡ (err Error.conflict, db)
unfolding replay_checkout
create_payment_conflict env c others r port p db pass f d =
    rw (create_found env c others r port p db pass f) (ground (arith, d))
