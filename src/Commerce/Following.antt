-- ===== src/Commerce/Following.antt =====
-- An order follows its payment's events (`mark_paid`, `cancel` and the subscribers of
-- modules/commerce/orders): paid is final, and only the order's own late payment revives it.
use backend_core.Common.{
  ℕ, ◌≡◌, ◌≢◌, ◌⊎◌, refl, sym, subst, Bool, true, false, ◌&&◌, Option, none, some, List, [], ◌∷◌,
  ◌==◌, arith, inl, inr, Option-cases, Bool-cases,
}
use backend_core.Common.Table.{
  replace, get_row, IsUnique, get_row-find, get_row-replace_ne, get_row-replace_self,
  replace-IsUnique, conflicts-never,
}
use backend_core.Shared.Errors.{Result, Result-cases, ok, err, Action, pure, ◌>>◌, unit_of_work}
use backend_core.Billing.Store.{Event}
use backend_core.Commerce.Store.{Order, OrderStatus, Shop, ShopEvent, orders_schema}
use backend_core.Commerce.Orders.{
  get_order, own_payment, pay, revive, pay_by_status, mark_paid, cancel_by_status, cancel,
  mark_order_paid, cancel_order, order_of, on_payment_event, deliver_events,
}

-- How one call may leave an order that stood in the table.
pub record Follows (o : Order) (shop shop' : Shop) : Type 0 where
  pub unique : IsUnique orders_schema shop'.orders
  pub kept : o.status ≡ OrderStatus.paid → get_row orders_schema o.id shop'.orders ≡ some o

found_row :
    (tenant id : ℕ) (rows : List Order) (q : Order)
    → IsUnique orders_schema rows
    → get_order tenant id rows ≡ some q
    → get_row orders_schema q.id rows ≡ some q
unfolding get_order
found_row tenant id rows q u e =
    get_row-find orders_schema (λ o. o.tenant_id == tenant && o.id == id) rows q u e

-- A write to the row of an order that is not paid leaves a paid one alone.
write-Follows :
    (o q q' : Order) (shop shop' : Shop)
    → IsUnique orders_schema shop.orders
    → get_row orders_schema o.id shop.orders ≡ some o
    → get_row orders_schema q.id shop.orders ≡ some q
    → q'.id ≡ q.id
    → q.status ≢ OrderStatus.paid
    → shop'.orders ≡ replace orders_schema q' shop.orders
    → Follows o shop shop'
write-Follows o q q' shop shop' u s t i n w = record {
  unique = rw w (
      replace-IsUnique orders_schema q' shop.orders u
        (conflicts-never orders_schema q' shop.orders (λ b. refl)));
  kept = λ paid. rw w (elim (Bool-cases (o.id == q.id)) [
    | inl e ↦ absurd (n (ground (arith, e, s, t, paid)))
    | inr e ↦
        ground
          (arith, s, get_row-replace_ne orders_schema q' shop.orders o.id (ground (arith, e, i)))
  ]);
}

same-Follows :
    (o : Order) (shop shop' : Shop)
    → IsUnique orders_schema shop.orders
    → get_row orders_schema o.id shop.orders ≡ some o
    → shop'.orders ≡ shop.orders
    → Follows o shop shop'
same-Follows o shop shop' u s e = record { unique = rw e u; kept = λ paid. rw e s }

pay-orders :
    (payment : Option ℕ) (revived : Bool) (q : Order) (shop : Shop)
    → (q' : Order) × (q'.id ≡ q.id)
      × ((pay payment revived q shop).1.orders ≡ replace orders_schema q' shop.orders)
unfolding pay
pay-orders payment revived q shop = (_, refl, refl)

then_done : {A : Type 0} (m : Action Shop A) (shop : Shop) → ((m >> pure tt) shop).1 ≡ (m shop).1
then_done m shop = ground arith

module _ (o : Order) (shop : Shop) (u : IsUnique orders_schema shop.orders)
    (s : get_row orders_schema o.id shop.orders ≡ some o) where
  pay-Follows :
      (payment : Option ℕ) (revived : Bool) (q : Order)
      → get_row orders_schema q.id shop.orders ≡ some q
      → q.status ≢ OrderStatus.paid
      → Follows o shop (pay payment revived q shop).1
  pay-Follows payment revived q t n =
      let (q', i, w) = pay-orders payment revived q shop in
      write-Follows o q q' shop (pay payment revived q shop).1 u s t i n w

  revive-Follows :
      (b : Bool) (payment : Option ℕ) (q : Order)
      → get_row orders_schema q.id shop.orders ≡ some q
      → q.status ≢ OrderStatus.paid
      → Follows o shop (revive b payment q shop).1
  unfolding revive
  revive-Follows true payment q t n = pay-Follows payment true q t n
  revive-Follows false payment q t n = same-Follows o shop shop u s refl

  pay_by_status-Follows :
      (status : OrderStatus) (payment : Option ℕ) (late : Bool) (q : Order)
      → q.status ≡ status
      → get_row orders_schema q.id shop.orders ≡ some q
      → Follows o shop (pay_by_status status payment late q shop).1
  unfolding pay_by_status
  pay_by_status-Follows OrderStatus.paid payment late q e t = same-Follows o shop shop u s refl
  pay_by_status-Follows OrderStatus.pending payment late q e t =
      pay-Follows payment false q t (λ p. ground (arith, e, p))
  pay_by_status-Follows OrderStatus.canceled payment late q e t =
      revive-Follows (late && own_payment q.payment_id payment) payment q t
        (λ p. ground (arith, e, p))

  mark_paid-Follows :
      (tenant id : ℕ) (payment : Option ℕ) (late : Bool)
      → Follows o shop (mark_paid tenant id payment late shop).1
  mark_paid-Follows tenant id payment late = elim (Option-cases (get_order tenant id shop.orders)) [
    | inl e ↦
        same-Follows o shop (mark_paid tenant id payment late shop).1 u s
          (unfold mark_paid in ground (arith, e))
    | inr (q, e) ↦
        rw (found_paid tenant id payment late q e) (
          pay_by_status-Follows q.status payment late q refl
            (found_row tenant id shop.orders q u e))
  ]
    where
      found_paid :
          (tenant id : ℕ) (payment : Option ℕ) (late : Bool) (q : Order)
          → get_order tenant id shop.orders ≡ some q
          → (mark_paid tenant id payment late shop).1
            ≡ (pay_by_status q.status payment late q shop).1
      found_paid tenant id payment late q e = unfold mark_paid in ground (arith, e)

  cancel_by_status-Follows :
      (status : OrderStatus) (q : Order)
      → q.status ≡ status
      → get_row orders_schema q.id shop.orders ≡ some q
      → Follows o shop (cancel_by_status status q shop).1
  unfolding cancel_by_status
  cancel_by_status-Follows OrderStatus.pending q e t =
      write-Follows o q (record q { status = OrderStatus.canceled }) shop _ u s t refl
        (λ p. ground (arith, e, p)) refl
  cancel_by_status-Follows OrderStatus.paid q e t = same-Follows o shop shop u s refl
  cancel_by_status-Follows OrderStatus.canceled q e t = same-Follows o shop shop u s refl

  cancel-Follows : (tenant id : ℕ) → Follows o shop (cancel tenant id shop).1
  cancel-Follows tenant id = elim (Option-cases (get_order tenant id shop.orders)) [
    | inl e ↦ same-Follows o shop (cancel tenant id shop).1 u s (unfold cancel in ground (arith, e))
    | inr (q, e) ↦
        rw (found_cancel tenant id q e)
          (cancel_by_status-Follows q.status q refl (found_row tenant id shop.orders q u e))
  ]
    where
      found_cancel :
          (tenant id : ℕ) (q : Order)
          → get_order tenant id shop.orders ≡ some q
          → (cancel tenant id shop).1 ≡ (cancel_by_status q.status q shop).1
      found_cancel tenant id q e = unfold cancel in ground (arith, e)

  mark_order_paid-Follows :
      (tenant payment : ℕ) (late : Bool) (id : Result (Option ℕ))
      → Follows o shop (mark_order_paid tenant payment late id shop).1
  unfolding mark_order_paid
  mark_order_paid-Follows tenant payment late (err e) = same-Follows o shop shop u s refl
  mark_order_paid-Follows tenant payment late (ok none) = same-Follows o shop shop u s refl
  mark_order_paid-Follows tenant payment late (ok (some id)) =
      subst (λ t. Follows o shop t) (sym (then_done (mark_paid tenant id (some payment) late) shop))
        (mark_paid-Follows tenant id (some payment) late)

  cancel_order-Follows :
      (tenant : ℕ) (id : Result (Option ℕ)) → Follows o shop (cancel_order tenant id shop).1
  unfolding cancel_order
  cancel_order-Follows tenant (err e) = same-Follows o shop shop u s refl
  cancel_order-Follows tenant (ok none) = same-Follows o shop shop u s refl
  cancel_order-Follows tenant (ok (some id)) = cancel-Follows tenant id

  on_payment_event-Follows :
      (tenant : ℕ) (e : Event) → Follows o shop (on_payment_event tenant e shop).1
  unfolding on_payment_event
  on_payment_event-Follows tenant (Event.payment_succeeded p at late) =
      mark_order_paid-Follows tenant p.payment_id late (order_of p.purpose p.reference)
  on_payment_event-Follows tenant (Event.payment_failed p reason) =
      cancel_order-Follows tenant (order_of p.purpose p.reference)
  on_payment_event-Follows tenant (Event.payment_canceled p) =
      cancel_order-Follows tenant (order_of p.purpose p.reference)
  on_payment_event-Follows tenant (Event.payment_expired p) =
      cancel_order-Follows tenant (order_of p.purpose p.reference)
  on_payment_event-Follows tenant _ = same-Follows o shop shop u s refl

handled-Follows :
    (o : Order) (shop : Shop) (tenant : ℕ) (e : Event)
    → IsUnique orders_schema shop.orders
    → get_row orders_schema o.id shop.orders ≡ some o
    → Follows o shop (unit_of_work (on_payment_event tenant e) shop).1
unfolding unit_of_work
handled-Follows o shop tenant e u s = elim (Result-cases (on_payment_event tenant e shop).0) [
  | inl (a, h) ↦ committed-Follows h (on_payment_event-Follows o shop u s tenant e)
  | inr (x, h) ↦ same-Follows o shop _ u s (ground (arith, h))
]
  where
    committed-Follows :
        (on_payment_event tenant e shop).0 ≡ ok tt
        → Follows o shop (on_payment_event tenant e shop).1
        → Follows o shop (unit_of_work (on_payment_event tenant e) shop).1
    committed-Follows h f = record {
      unique = ground (arith, h, f.unique);
      kept = λ p. ground (arith, h, f.kept p);
    }

-- A paid order stays as it is, whatever payment events of whatever tenants are delivered, in any
-- order and as often as may be: no late failure, expiry or second payment changes it.
pub deliver_events_keep_paid :
    (o : Order) (events : List (ℕ × Event)) (shop : Shop)
    → IsUnique orders_schema shop.orders
    → get_row orders_schema o.id shop.orders ≡ some o
    → o.status ≡ OrderStatus.paid
    → get_row orders_schema o.id (deliver_events events shop).orders ≡ some o
unfolding deliver_events
deliver_events_keep_paid o [] shop u s p = s
deliver_events_keep_paid o ((tenant, e) ∷ rest) shop u s p =
    let f = handled-Follows o shop tenant e u s in
    deliver_events_keep_paid o rest (unit_of_work (on_payment_event tenant e) shop).1 f.unique
      (f.kept p) p

-- A canceled order is revived by the late success of the payment that it was placed with: it is
-- stored as paid by that payment and otherwise as it was, and the event says that it was late.
pub mark_paid_revives :
    (tenant id payment : ℕ) (o : Order) (shop : Shop)
    → IsUnique orders_schema shop.orders
    → get_order tenant id shop.orders ≡ some o
    → o.status ≡ OrderStatus.canceled
    → o.payment_id ≡ some payment
    → let o' = record o { status = OrderStatus.paid; payment_id = some payment } in
      let (r, shop') = mark_paid tenant id (some payment) true shop in
      (r ≡ ok (some o'))
      × (get_row orders_schema o.id shop'.orders ≡ some o')
      × (shop'.outbox ≡ ShopEvent.order_paid o.id (some payment) true ∷ shop.outbox)
unfolding mark_paid own_payment
mark_paid_revives tenant id payment o shop u e c p =
    let o' = record o { status = OrderStatus.paid; payment_id = some payment } in
    let row =
      get_row-replace_self orders_schema o' shop.orders o (found_row tenant id shop.orders o u e) in
    (ground (arith, e, c, p), ground (arith, e, c, p, row), ground (arith, e, c, p))

-- No other success revives a canceled order: one that is not late, or one of another payment, is
-- answered with no order and changes nothing.
pub mark_paid_stays_canceled :
    (tenant id payment : ℕ) (late : Bool) (o : Order) (shop : Shop)
    → get_order tenant id shop.orders ≡ some o
    → o.status ≡ OrderStatus.canceled
    → (late ≡ false) ⊎ (o.payment_id ≢ some payment)
    → mark_paid tenant id (some payment) late shop ≡ (ok none, shop)
unfolding mark_paid own_payment
mark_paid_stays_canceled tenant id payment late o shop e c n = ground (arith, e, c, n)
