-- ===== src/Commerce/Store.antt =====
-- The commerce tables (modules/commerce/{products,cart,orders}/models.py), the events queued with
-- their changes, and the public price of a product. The billing tables stand beside them in the
-- same transaction.
use backend_core.Common.{
  ℕ, ◌+◌, Bool, true, false, ◌&&◌, Option, none, some, List, ◌∷◌, ◌==◌, ◌≡◌, arith, find,
  if◌then◌else◌,
}
use backend_core.Common.Table.{Schema}
use backend_core.Shared.Errors.{Error, Result, ok, err, Action, modify}
use backend_core.Shared.Context.{Actor, user}
use backend_core.Billing.Store.{Db}

pub record Product : Type 0 where
  pub id : ℕ
  pub tenant_id : ℕ
  pub is_active : Bool
  pub price_amount : ℕ
  pub currency : ℕ

pub data CartStatus : Type 0 where
  active checked_out abandoned : CartStatus

pub record Cart : Type 0 where
  pub id : ℕ
  pub tenant_id : ℕ
  pub customer_user_id : ℕ
  pub status : CartStatus

pub record CartItem : Type 0 where
  pub tenant_id : ℕ
  pub cart_id : ℕ
  pub product_id : ℕ
  pub quantity : ℕ
  pub unit_price_amount : ℕ
  pub currency : ℕ

pub data OrderStatus : Type 0 where
  pending paid canceled : OrderStatus

pub record Order : Type 0 where
  pub id : ℕ
  pub tenant_id : ℕ
  pub customer_user_id : ℕ
  pub status : OrderStatus
  pub total_amount : ℕ
  pub currency : ℕ
  pub payment_id : Option ℕ

pub record OrderItem : Type 0 where
  pub order_id : ℕ
  pub product_id : ℕ
  pub quantity : ℕ
  pub unit_price_amount : ℕ
  pub currency : ℕ

-- `commerce.order.*` and `commerce.cart.checked_out`
pub data ShopEvent : Type 0 where
  order_created : ℕ → ℕ → ℕ → ℕ → ShopEvent
  order_paid : ℕ → Option ℕ → Bool → ShopEvent
  order_canceled : ℕ → ShopEvent
  cart_checked_out : ℕ → ℕ → ℕ → ShopEvent

-- The outbox is newest first, and so are the order lines.
pub record Shop : Type 0 where
  pub next_id : ℕ
  pub products : List Product
  pub carts : List Cart
  pub cart_items : List CartItem
  pub orders : List Order
  pub order_items : List OrderItem
  pub outbox : List ShopEvent
  pub billing : Db

abbrev pub orders_schema : Schema Order
orders_schema = record { id = λ o. o.id; clash = λ a b. false; clash_sym = λ a b i. false }

unfoldable pub is_active : CartStatus → Bool
is_active CartStatus.active = true
is_active _ = false

abbrev pub cart_clash : Cart → Cart → Bool
cart_clash a b =
    (a.tenant_id == b.tenant_id && a.customer_user_id == b.customer_user_id)
    && (is_active a.status && is_active b.status)

pub cart_clash_sym : (a b : Cart) → cart_clash a b ≡ cart_clash b a
cart_clash_sym a b = ground arith

-- `uq_commerce_carts_one_active_per_customer`
abbrev pub carts_schema : Schema Cart
carts_schema = record { id = λ c. c.id; clash = cart_clash; clash_sym = cart_clash_sym }

abbrev pub emit : ShopEvent → Action Shop (Unit {0})
emit e = modify (λ shop. record shop { outbox = e ∷ shop.outbox })

abbrev pub new_id : Action Shop ℕ
new_id shop = (ok shop.next_id, record shop { next_id = shop.next_id + 1 })

-- A call of a billing service in the shop's transaction.
abbrev pub with_billing : {A : Type 0} → Action Db A → Action Shop A
with_billing m shop = let (r, db) = m shop.billing in (r, record shop { billing = db })

-- `_customer_id`
unfoldable pub customer_id : Actor → Result ℕ
customer_id (user (some u)) = ok u
customer_id _ = err Error.authentication_failed

-- `ProductService.get_sale_info`: the price of an active product, with its currency. `Money` refuses
-- the empty text as a currency.
unfoldable pub get_sale_info : ℕ → ℕ → List Product → Result (ℕ × ℕ)
get_sale_info tenant id rows = elim (find (λ p. p.tenant_id == tenant && p.id == id) rows) [
  | none ↦ err Error.not_found
  | some p ↦ elim p.is_active [
    | false ↦ err Error.invariant_violation
    | true ↦ if p.currency == 0 then err Error.value_error else ok (p.price_amount, p.currency)
  ]
]
