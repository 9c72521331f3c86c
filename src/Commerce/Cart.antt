-- ===== src/Commerce/Cart.antt =====
-- modules/commerce/cart/service.py: a buyer's cart, from the first item to the checkout. The row
-- order of the items is that of `created_at`. A currency's code is a number, and `uzs` that of UZS.
use backend_core.Common.{
  ℕ, ◌+◌, ◌*◌, Bool, true, false, not, ◌&&◌, Option, none, some, List, [], ◌∷◌, ◌++◌, ◌==◌, find,
  select, any, ltb, if◌then◌else◌, map, head?,
}
use backend_core.Common.Table.{replace, taken}
use backend_core.Shared.Errors.{
  Error, Action, pure, raise_if, or_raise, lift, query, modify, gets, ◌>>=◌, ◌>>◌,
}
use backend_core.Billing.Store.{Db, Context}
use backend_core.Billing.Payments.{Environment, Checkout}
use backend_core.Commerce.Store.{
  Cart, CartStatus, CartItem, Order, Shop, ShopEvent, emit, new_id, customer_id, get_sale_info,
  carts_schema, is_active,
}
use backend_core.Commerce.Orders.{OrderLine, place_order}

-- `MAX_LINE_QUANTITY`
abbrev pub max_line_quantity : ℕ
max_line_quantity = 1000

abbrev pub uzs : ℕ
uzs = 860

-- `CartDTO`
pub record CartDto : Type 0 where
  pub id : ℕ
  pub status : CartStatus
  pub currency : ℕ
  pub total_amount : ℕ
  pub items : List CartItem

-- `_active_cart`
unfoldable pub active_cart : ℕ → ℕ → List Cart → Option Cart
active_cart tenant customer =
    find (λ c. c.tenant_id == tenant && (c.customer_user_id == customer && is_active c.status))

-- The INSERT of `_open_cart` in its savepoint: a violated index is passed over.
unfoldable pub insert_cart : Cart → Action Shop (Unit {0})
insert_cart cart = modify (λ shop.
    if taken carts_schema cart shop.carts
    then shop
    else record shop { carts = shop.carts ++ cart ∷ [] })

unfoldable pub new_cart : Context → ℕ → ℕ → Cart
new_cart c customer id = record {
  id = id;
  tenant_id = c.tenant_id;
  customer_user_id = customer;
  status = CartStatus.active;
}

-- `_open_cart`; `others` is what concurrent transactions commit between the lookup and the INSERT.
unfoldable pub open_cart : Context → (Shop → Shop) → ℕ → Action Shop Cart
open_cart c others customer = do
  found ← gets (λ shop. active_cart c.tenant_id customer shop.carts)
  elim found [
    | some cart ↦ pure cart
    | none ↦ do
      modify others
      id ← new_id
      insert_cart (new_cart c customer id)
      opened ← gets (λ shop. active_cart c.tenant_id customer shop.carts)
      or_raise opened Error.invariant_violation
  ]

unfoldable pub items_of : ℕ → ℕ → List CartItem → List CartItem
items_of tenant cart = select (λ i. i.tenant_id == tenant && i.cart_id == cart)

unfoldable pub find_item : ℕ → ℕ → ℕ → List CartItem → Option CartItem
find_item tenant cart product =
    find (λ i. i.tenant_id == tenant && (i.cart_id == cart && i.product_id == product))

unfoldable pub currency_of : Option CartItem → ℕ
currency_of none = uzs
currency_of (some i) = i.currency

unfoldable pub sum_items : List CartItem → ℕ
sum_items [] = 0
sum_items (i ∷ rest) = i.unit_price_amount * i.quantity + sum_items rest

-- `_to_dto`, from the cart's items
unfoldable pub to_dto : Cart → List CartItem → CartDto
to_dto cart items = record {
  id = cart.id;
  status = cart.status;
  currency = currency_of (head? items);
  total_amount = sum_items items;
  items = items;
}

-- The cart's first item, if any, has another currency.
unfoldable pub other_currency : Option CartItem → ℕ → Bool
other_currency none currency = false
other_currency (some i) currency = not (i.currency == currency)

abbrev pub old_quantity : Option CartItem → ℕ
old_quantity none = 0
old_quantity (some i) = i.quantity

-- `uq_commerce_cart_items_cart_id_product_id`
abbrev pub same_line : CartItem → CartItem → Bool
same_line a b = a.cart_id == b.cart_id && a.product_id == b.product_id

-- The row that was found, which is one of the tenant's.
abbrev pub same_row : CartItem → CartItem → Bool
same_row a b = a.tenant_id == b.tenant_id && same_line a b

-- The write of an item: an UPDATE of the one found, or an INSERT.
unfoldable pub write_item : Option CartItem → CartItem → Action Shop (Unit {0})
write_item (some _) item = modify (λ shop. record shop {
  cart_items = map (λ i. if same_row i item then item else i) shop.cart_items;
})
write_item none item = do
  raise_if (any (λ i. same_line i item) (← gets (λ shop. shop.cart_items))) Error.integrity_error
  modify (λ shop. record shop { cart_items = shop.cart_items ++ item ∷ [] })

-- `add_item` with its cart open
unfoldable pub add_to : Context → Cart → ℕ → ℕ → ℕ × ℕ → Action Shop (Unit {0})
add_to c cart product quantity (amount, currency) = do
  existing ← gets (λ shop. find_item c.tenant_id cart.id product shop.cart_items)
  items ← gets (λ shop. items_of c.tenant_id cart.id shop.cart_items)
  raise_if (other_currency (head? items) currency) Error.invariant_violation
  let total = quantity + old_quantity existing
  raise_if (ltb max_line_quantity total) Error.invariant_violation
  raise_if (total == 0) Error.integrity_error
  write_item existing (record {
    tenant_id = c.tenant_id;
    cart_id = cart.id;
    product_id = product;
    quantity = total;
    unit_price_amount = amount;
    currency = currency;
  })

-- The total below one is refused by the table's check.
unfoldable pub add_item : Context → (Shop → Shop) → ℕ → ℕ → Action Shop CartDto
add_item c others product quantity = do
  customer ← lift (customer_id c.actor)
  price ← query (λ shop. get_sale_info c.tenant_id product shop.products)
  cart ← open_cart c others customer
  add_to c cart product quantity price
  gets (λ shop. to_dto cart (items_of c.tenant_id cart.id shop.cart_items))

-- `_require_active_cart`
unfoldable pub require_active_cart : Context → ℕ → Action Shop Cart
require_active_cart c customer = do
  found ← gets (λ shop. active_cart c.tenant_id customer shop.carts)
  or_raise found Error.not_found

unfoldable pub remove_item : Context → ℕ → Action Shop CartDto
remove_item c product = do
  customer ← lift (customer_id c.actor)
  cart ← require_active_cart c customer
  found ← gets (λ shop. find_item c.tenant_id cart.id product shop.cart_items)
  item ← or_raise found Error.not_found
  modify (λ shop. record shop { cart_items = select (λ i. not (same_row i item)) shop.cart_items })
  gets (λ shop. to_dto cart (items_of c.tenant_id cart.id shop.cart_items))

unfoldable pub get_cart : Context → Action Shop CartDto
get_cart c = do
  customer ← lift (customer_id c.actor)
  cart ← require_active_cart c customer
  gets (λ shop. to_dto cart (items_of c.tenant_id cart.id shop.cart_items))

unfoldable pub lines_of : List CartItem → List OrderLine
lines_of = map (λ i. record { product_id = i.product_id; quantity = i.quantity })

abbrev pub is_empty : List CartItem → Bool
is_empty [] = true
is_empty (_ ∷ _) = false

-- `checkout`; `others` commits during the opening of the payment.
unfoldable pub checkout : Environment → Context → (Db → Db) → ℕ → Action Shop (Order × Checkout)
checkout env c others provider = do
  customer ← lift (customer_id c.actor)
  cart ← require_active_cart c customer
  items ← gets (λ shop. items_of c.tenant_id cart.id shop.cart_items)
  raise_if (is_empty items) Error.invariant_violation
  placed ← place_order env c others (lines_of items) provider
  modify (λ shop. record shop {
    carts = replace carts_schema (record cart { status = CartStatus.checked_out }) shop.carts;
  })
  emit (ShopEvent.cart_checked_out cart.id customer placed.0.id)
  pure placed
