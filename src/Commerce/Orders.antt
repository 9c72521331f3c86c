-- ===== src/Commerce/Orders.antt =====
-- modules/commerce/orders/service.py and subscribers.py: placing an order and following its payment.
use backend_core.Common.{
  ℕ, ◌+◌, ◌*◌, Bool, true, false, not, ◌&&◌, Option, none, some, List, [], ◌∷◌, ◌++◌, ◌==◌, find,
  if◌then◌else◌, same_option, map,
}
use backend_core.Common.Table.{replace}
use backend_core.Shared.Errors.{
  Error, Result, ok, err, Action, pure, raise, unit_of_work, raise_if, lift, query, modify, gets,
  ◌>>=◌, ◌>>◌,
}
use backend_core.Billing.Models.{Purpose, Reference, IdempotencyKey}
use backend_core.Billing.Store.{Db, Context, Event}
use backend_core.Billing.Payments.{Environment, Checkout, PaymentRequest, create_payment}
use backend_core.Commerce.Store.{
  Product, Order, OrderStatus, OrderItem, Shop, ShopEvent, orders_schema, emit, new_id,
  with_billing, customer_id, get_sale_info,
}

-- `OrderLineIn`
pub record OrderLine : Type 0 where
  pub product_id : ℕ
  pub quantity : ℕ

-- A line with its price, amount and currency.
pub record PricedLine : Type 0 where
  pub product_id : ℕ
  pub quantity : ℕ
  pub unit_price : ℕ
  pub currency : ℕ

-- The running values of the pricing loop; the currency is the empty text before the first line.
pub record Priced : Type 0 where
  pub lines : List PricedLine
  pub total : ℕ
  pub currency : ℕ

-- One round, once the line's price is known.
unfoldable pub add_line : Priced → OrderLine → ℕ × ℕ → Result Priced
add_line acc line (amount, currency) =
    if not (acc.currency == 0) && not (acc.currency == currency)
    then err Error.invariant_violation
    else ok (record {
      lines =
          acc.lines
          ++ record {
            product_id = line.product_id;
            quantity = line.quantity;
            unit_price = amount;
            currency = currency;
          }
            ∷ [];
      total = acc.total + amount * line.quantity;
      currency = currency;
    })

-- `for line in lines` of `place_order`
unfoldable pub price_lines : ℕ → List Product → Priced → List OrderLine → Result Priced
price_lines tenant products acc [] = ok acc
price_lines tenant products acc (line ∷ rest) =
    elim (get_sale_info tenant line.product_id products) [
      | err e ↦ err e
      | ok price ↦ elim (add_line acc line price) [
        | err e ↦ err e
        | ok next ↦ price_lines tenant products next rest
      ]
    ]

abbrev pub no_lines : Priced
no_lines = record { lines = []; total = 0; currency = 0 }

unfoldable pub order_items : ℕ → List PricedLine → List OrderItem
order_items order = map (λ l. record {
  order_id = order;
  product_id = l.product_id;
  quantity = l.quantity;
  unit_price_amount = l.unit_price;
  currency = l.currency;
})

-- The payment request of `place_order`
unfoldable pub order_payment : ℕ → Priced → ℕ → PaymentRequest
order_payment order priced provider = record {
  amount = priced.total;
  currency = priced.currency;
  purpose = Purpose.commerce_order;
  reference = Reference.uuid order;
  provider = provider;
  idempotency_key = IdempotencyKey.order_key order;
  return_url = none;
  subscription_id = none;
}

-- The row that `place_order` inserts.
unfoldable pub new_order : Context → ℕ → ℕ → Priced → Order
new_order c customer id priced = record {
  id = id;
  tenant_id = c.tenant_id;
  customer_user_id = customer;
  status = OrderStatus.pending;
  total_amount = priced.total;
  currency = priced.currency;
  payment_id = none;
}

-- `place_order`; the result is the order as stored, with the checkout.
unfoldable pub place_order :
    Environment → Context → (Db → Db) → List OrderLine → ℕ → Action Shop (Order × Checkout)
place_order env c others lines provider = do
  customer ← lift (customer_id c.actor)
  priced ← query (λ shop. price_lines c.tenant_id shop.products no_lines lines)
  raise_if (priced.currency == 0) Error.invariant_violation
  id ← new_id
  let order = new_order c customer id priced
  modify (λ shop. record shop {
    orders = shop.orders ++ order ∷ [];
    order_items = shop.order_items ++ order_items id priced.lines;
  })
  emit (ShopEvent.order_created id customer priced.total priced.currency)
  checkout ← with_billing (create_payment env c others (order_payment id priced provider))
  let paid_by = record order { payment_id = some checkout.payment_id }
  modify (λ shop. record shop { orders = replace orders_schema paid_by shop.orders })
  pure (paid_by, checkout)

-- `self._orders.get`
unfoldable pub get_order : ℕ → ℕ → List Order → Option Order
get_order tenant id = find (λ o. o.tenant_id == tenant && o.id == id)

-- `order.payment_id == payment_id` for a payment that is there
unfoldable pub own_payment : Option ℕ → Option ℕ → Bool
own_payment payment none = false
own_payment payment (some i) = same_option payment (some i)

abbrev new_payment_id : Option ℕ → Option ℕ → Option ℕ
new_payment_id none old = old
new_payment_id (some i) old = some i

-- The rest of `mark_paid`, once the order may become paid
unfoldable pub pay : Option ℕ → Bool → Order → Action Shop (Option Order)
pay payment revived o = do
  let o' = record o { status = OrderStatus.paid; payment_id = new_payment_id payment o.payment_id }
  modify (λ shop. record shop { orders = replace orders_schema o' shop.orders })
  emit (ShopEvent.order_paid o.id payment revived)
  pure (some o')

-- A canceled order is revived only by its own late payment.
unfoldable pub revive : Bool → Option ℕ → Order → Action Shop (Option Order)
revive true payment o = pay payment true o
revive false payment o = pure none

-- `mark_paid`, by the status of the order found
unfoldable pub pay_by_status : OrderStatus → Option ℕ → Bool → Order → Action Shop (Option Order)
pay_by_status OrderStatus.paid payment late o = pure (some o)
pay_by_status OrderStatus.pending payment late o = pay payment false o
pay_by_status OrderStatus.canceled payment late o =
    revive (late && own_payment o.payment_id payment) payment o

unfoldable pub mark_paid : ℕ → ℕ → Option ℕ → Bool → Action Shop (Option Order)
unfolding pay_by_status revive pay
mark_paid tenant id payment late = do
  found ← gets (λ shop. get_order tenant id shop.orders)
  elim found [ none ↦ pure none | some o ↦ pay_by_status o.status payment late o ]

-- `cancel`, by the status of the order found
unfoldable pub cancel_by_status : OrderStatus → Order → Action Shop (Unit {0})
cancel_by_status OrderStatus.pending o = do
  modify (λ shop. record shop {
    orders = replace orders_schema (record o { status = OrderStatus.canceled }) shop.orders;
  })
  emit (ShopEvent.order_canceled o.id)
cancel_by_status _ o = pure tt

unfoldable pub cancel : ℕ → ℕ → Action Shop (Unit {0})
unfolding cancel_by_status
cancel tenant id = do
  found ← gets (λ shop. get_order tenant id shop.orders)
  elim found [ none ↦ pure tt | some o ↦ cancel_by_status o.status o ]

-- `UUID(_is_order_payment(event))`: none for an event that is not an order's.
unfoldable pub order_of : Purpose → Reference → Result (Option ℕ)
order_of Purpose.commerce_order (Reference.uuid id) = ok (some id)
order_of Purpose.commerce_order (Reference.text t) =
    if t == 0 then ok none else err Error.value_error
order_of _ _ = ok none

-- `mark_order_paid`, up to its receipt
unfoldable pub mark_order_paid : ℕ → ℕ → Bool → Result (Option ℕ) → Action Shop (Unit {0})
mark_order_paid tenant payment late (err e) = raise e
mark_order_paid tenant payment late (ok none) = pure tt
mark_order_paid tenant payment late (ok (some id)) =
    mark_paid tenant id (some payment) late >> pure tt

-- `_cancel_order`
unfoldable pub cancel_order : ℕ → Result (Option ℕ) → Action Shop (Unit {0})
cancel_order tenant (err e) = raise e
cancel_order tenant (ok none) = pure tt
cancel_order tenant (ok (some id)) = cancel tenant id

-- The subscribers of `billing.payment.*`, in the tenant context of the event
unfoldable pub on_payment_event : ℕ → Event → Action Shop (Unit {0})
on_payment_event tenant (Event.payment_succeeded p at late) =
    mark_order_paid tenant p.payment_id late (order_of p.purpose p.reference)
on_payment_event tenant (Event.payment_failed p reason) =
    cancel_order tenant (order_of p.purpose p.reference)
on_payment_event tenant (Event.payment_canceled p) =
    cancel_order tenant (order_of p.purpose p.reference)
on_payment_event tenant (Event.payment_expired p) =
    cancel_order tenant (order_of p.purpose p.reference)
on_payment_event tenant _ = pure tt

-- Events delivered one after another, each in a transaction of its own.
unfoldable pub deliver_events : List (ℕ × Event) → Shop → Shop
deliver_events [] shop = shop
deliver_events ((tenant, e) ∷ rest) shop =
    deliver_events rest (unit_of_work (on_payment_event tenant e) shop).1
