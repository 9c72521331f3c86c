-- ===== src/Commerce/Tests.antt =====
-- Runs of modules/commerce on small tables, and the theorems at such inputs.
use backend_core.Common.{ℕ, ◌≡◌, refl, true, false, none, some, List, [], ◌∷◌, arith}
use backend_core.Shared.Errors.{Error, ok, err}
use backend_core.Shared.Context.{user}
use backend_core.Billing.Models.{Purpose, Reference, same_key, both_some}
use backend_core.Billing.Store.{Db, Context, Event, PaymentPayload, emit, save_payment}
use backend_core.Billing.Payments.{
  Environment, Port, Checkout, validate_return_url, by_idempotency_key, insert_payment, new_payment,
  open_checkout, payment_event_payload, create_payment,
}
use backend_core.Billing.Opening.{IsHonest}
use backend_core.Commerce.Store.{
  Product, Cart, CartStatus, CartItem, is_active, Order, OrderStatus, Shop, customer_id,
  get_sale_info,
}
use backend_core.Commerce.Orders.{
  OrderLine, add_line, price_lines, order_items, order_payment, new_order, place_order,
}
use backend_core.Commerce.Cart.{
  CartDto, add_item, open_cart, add_to, find_item, other_currency, write_item, to_dto, currency_of,
  sum_items, active_cart, items_of, lines_of, require_active_cart,
}
use backend_core.Commerce.Cart
use backend_core.Commerce.Checkout.{Sells, checkout-Sells}
use backend_core.Commerce.Items.{IsSound, add_item-IsSound}

abbrev tea : Product
tea = record { id = 1; tenant_id = 7; is_active = true; price_amount = 300; currency = 860 }

abbrev cup : Product
cup = record { id = 2; tenant_id = 7; is_active = true; price_amount = 150; currency = 860 }

abbrev books : Db
books = record {
  now = record { year = 2026; month = 5; day = 4; micros = 0 };
  next_id = 90;
  plans = [];
  subscriptions = [];
  payments = [];
  webhooks = [];
  outbox = [];
  audit = [];
}

-- Order 11 was canceled before its payment 91 came in; order 12 is paid.
abbrev canceled_order : Order
canceled_order = record {
  id = 11;
  tenant_id = 7;
  customer_user_id = 4;
  status = OrderStatus.canceled;
  total_amount = 300;
  currency = 860;
  payment_id = some 91;
}

abbrev paid_order : Order
paid_order = record canceled_order { id = 12; status = OrderStatus.paid; payment_id = some 92 }

abbrev opening : Shop
opening = record {
  next_id = 20;
  products = tea ∷ cup ∷ [];
  carts = [];
  cart_items = [];
  orders = canceled_order ∷ paid_order ∷ [];
  order_items = [];
  outbox = [];
  billing = books;
}

abbrev buyer : Context
buyer = record { tenant_id = 7; actor = user (some 4); access = none }

abbrev port : Port
port p url =
    ok (record { payment_id = p.id; provider = p.provider; checkout_url = 77; expires_at = none })

abbrev environment : Environment
environment = record {
  providers = λ n. some port;
  is_space = λ ch. false;
  is_printable = λ ch. true;
  urlsplit = λ url. err Error.value_error;
}

environment-IsHonest : IsHonest environment
environment-IsHonest provider q p url k e named h = ground (arith, e, named, h)

abbrev nothing_else : Db → Db
nothing_else db = db

abbrev basket : List OrderLine
basket = record { product_id = 1; quantity = 2 } ∷ record { product_id = 2; quantity = 1 } ∷ []

abbrev placed : Order
placed = record {
  id = 20;
  tenant_id = 7;
  customer_user_id = 4;
  status = OrderStatus.pending;
  total_amount = 750;
  currency = 860;
  payment_id = some 90;
}

abbrev link : Checkout
link = record { payment_id = 90; provider = 3; checkout_url = 77; expires_at = none }

abbrev after_order : Shop
after_order = (place_order environment buyer nothing_else basket 3 opening).1

-- The buyer's cart holds the same lines.
abbrev full_cart : Cart
full_cart = record { id = 60; tenant_id = 7; customer_user_id = 4; status = CartStatus.active }

abbrev item : CartItem
item = record {
  tenant_id = 7;
  cart_id = 60;
  product_id = 1;
  quantity = 2;
  unit_price_amount = 280;
  currency = 860;
}

abbrev shopping : Shop
shopping = record opening {
  carts = full_cart ∷ [];
  cart_items = item ∷ record item { product_id = 2; quantity = 1; unit_price_amount = 150 } ∷ [];
}

abbrev after_checkout : Shop
after_checkout = (Cart.checkout environment buyer nothing_else 3 shopping).1

checkout_runs :
    Cart.checkout environment buyer nothing_else 3 shopping ≡ (ok (placed, link), after_checkout)
unfolding Cart.checkout require_active_cart active_cart is_active items_of lines_of place_order
    customer_id price_lines get_sale_info add_line new_order order_items order_payment
    create_payment validate_return_url by_idempotency_key insert_payment new_payment open_checkout
    save_payment emit same_key both_some payment_event_payload
checkout_runs = refl

checkout-Sells_example : Sells buyer placed link shopping after_checkout
checkout-Sells_example =
    checkout-Sells environment buyer nothing_else 3 shopping after_checkout placed link
      environment-IsHonest refl (refl, tt) checkout_runs

shopping-IsSound : IsSound shopping
unfolding items_of
shopping-IsSound t k = (860, ground arith)

-- One more of the first item, at its new price.
abbrev after_add : Shop
after_add = (add_item buyer (λ s. s) 1 3 shopping).1

abbrev more : CartDto
more = record {
  id = 60;
  status = CartStatus.active;
  currency = 860;
  total_amount = 1650;
  items =
      record item { quantity = 5; unit_price_amount = 300 }
      ∷ record item { product_id = 2; quantity = 1; unit_price_amount = 150 }
      ∷ [];
}

add_runs : add_item buyer (λ s. s) 1 3 shopping ≡ (ok more, after_add)
unfolding add_item customer_id get_sale_info open_cart active_cart is_active add_to find_item
    items_of other_currency write_item to_dto currency_of sum_items
add_runs = refl

add_item-IsSound_example : IsSound after_add
add_item-IsSound_example =
    add_item-IsSound buyer (λ s. s) 1 3 shopping after_add more (λ s v. v) shopping-IsSound add_runs

abbrev payload : PaymentPayload
payload = record {
  payment_id = 92;
  amount = 300;
  currency = 860;
  purpose = Purpose.commerce_order;
  reference = Reference.uuid 12;
  provider = 3;
}

abbrev late_events : List (ℕ × Event)
late_events = (7, Event.payment_failed payload none) ∷ (7, Event.payment_expired payload) ∷ []
