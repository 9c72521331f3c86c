-- ===== src/Commerce/Checkout.antt =====
-- `CartService.checkout` of modules/commerce/cart/service.py: the order that it places, and the cart
-- that it closes.
use backend_core.Common.{
  any, ℕ, ◌≡◌, ◌≢◌, refl, ◌∙◌, Bool, false, ◌&&◌, none, some, List, [], ◌∷◌, ◌==◌, find-holds,
  arith, inl, inr, Bool-cases, Option-cases,
}
use backend_core.Common.Table.{
  replace, get_row, taken, IsUnique, get_row-find, get_row-replace_self,
}
use backend_core.Shared.Errors.{ok, Result-cases}
use backend_core.Billing.Store.{Db, Context}
use backend_core.Billing.Payments.{Environment, Checkout}
use backend_core.Billing.Opening.{IsHonest}
use backend_core.Commerce.Store.{
  Cart, CartStatus, Order, Shop, customer_id, carts_schema, is_active,
}
use backend_core.Commerce.Orders.{OrderLine, price_lines, no_lines, place_order}
use backend_core.Commerce.Pricing.{is_order, Places, place_order-Places}
use backend_core.Commerce.Cart.{
  active_cart, items_of, lines_of, is_empty, require_active_cart, checkout,
}

abbrev checked_out : Cart → Cart
checked_out cart = record cart { status = CartStatus.checked_out }

-- No second active cart of the buyer stands beside `b`.
only_active :
    (tenant customer : ℕ) (b : Cart) (rows : List Cart)
    → taken carts_schema b rows ≡ false
    → active_cart tenant customer (b ∷ []) ≡ some b
    → active_cart tenant customer rows ≡ none
unfolding active_cart
only_active tenant customer b [] t m = refl
only_active tenant customer b (d ∷ rows) t m =
    ground (arith, only_active tenant customer b rows, t, m)

closed_cart :
    (tenant customer : ℕ) (cart : Cart) (rows : List Cart)
    → IsUnique carts_schema rows
    → active_cart tenant customer rows ≡ some cart
    → active_cart tenant customer (replace carts_schema (checked_out cart) rows) ≡ none
unfolding active_cart is_active
closed_cart tenant customer cart [] u f = cc
closed_cart tenant customer cart (b ∷ rows) u f =
    let p : Cart → Bool =
      λ d. d.tenant_id == tenant && (d.customer_user_id == customer && is_active d.status) in
    let holds = find-holds p (b ∷ rows) cart f in
    let row = get_row-find carts_schema p (b ∷ rows) cart u f in
    elim (Bool-cases (p b)) [
      | inl m ↦
          let e : b ≡ cart = ground (arith, f, m) in
          ground (arith, e, m, only_active tenant customer b rows u.0)
      | inr m ↦ elim (Bool-cases (b.id == cart.id)) [
        | inl i ↦ absurd (ground (arith, i, row, holds, m))
        | inr i ↦ ground (arith, i, m, f, closed_cart tenant customer cart rows u.1)
      ]
    ]

place_order-carts :
    (env : Environment) (c : Context) (others : Db → Db) (lines : List OrderLine) (provider : ℕ)
    (shop shop' : Shop) (order : Order) (k : Checkout)
    → place_order env c others lines provider shop ≡ (ok (order, k), shop')
    → (shop'.carts ≡ shop.carts) × (shop'.cart_items ≡ shop.cart_items)
unfolding place_order
place_order-carts env c others lines provider shop shop' order k h =
    elim (Result-cases (customer_id c.actor)) [
      | inr (x, e) ↦ absurd (ground (arith, e, h))
      | inl (u, e) ↦ elim (Result-cases (price_lines c.tenant_id shop.products no_lines lines)) [
        | inr (x, f) ↦ absurd (ground (arith, e, f, h))
        | inl (p, f) ↦ (ground (arith, e, f, h), ground (arith, e, f, h))
      ]
    ]

checkout-steps :
    (env : Environment) (c : Context) (others : Db → Db) (provider : ℕ) (shop shop' : Shop)
    (order : Order) (k : Checkout)
    → checkout env c others provider shop ≡ (ok (order, k), shop')
    → (u : ℕ) × (cart : Cart) × (placed : Shop) × (customer_id c.actor ≡ ok u)
      × (active_cart c.tenant_id u shop.carts ≡ some cart)
      × (is_empty (items_of c.tenant_id cart.id shop.cart_items) ≡ false)
      × (place_order env c others
            (lines_of (items_of c.tenant_id cart.id shop.cart_items))
            provider
            shop
          ≡ (ok (order, k), placed))
      × (shop'.carts ≡ replace carts_schema (checked_out cart) placed.carts)
      × (shop'.cart_items ≡ placed.cart_items)
      × (shop'.billing ≡ placed.billing)
      × (shop'.orders ≡ placed.orders)
      × (shop'.order_items ≡ placed.order_items)
unfolding checkout require_active_cart
checkout-steps env c others provider shop shop' order k h =
    elim (Result-cases (customer_id c.actor)) [
      | inr (x, e) ↦ absurd (ground (arith, e, h))
      | inl (u, e) ↦ elim (Option-cases (active_cart c.tenant_id u shop.carts)) [
        | inl f ↦ absurd (ground (arith, e, f, h))
        | inr (cart, f) ↦
            let items = items_of c.tenant_id cart.id shop.cart_items in
            let m = place_order env c others (lines_of items) provider shop in
            (
              u,
              cart,
              m.1,
              e,
              f,
              ground (arith, e, f, h),
              ground (arith, e, f, h),
              ground (arith, e, f, h),
              ground (arith, e, f, h),
              ground (arith, e, f, h),
              ground (arith, e, f, h),
              ground (arith, e, f, h),
            )
      ]
    ]

-- What a checkout leaves behind: an order for the cart's lines, and no open cart.
pub record Sells (c : Context) (order : Order) (k : Checkout) (shop shop' : Shop) : Type 0 where
  pub cart : Cart
  pub was_active : active_cart c.tenant_id order.customer_user_id shop.carts ≡ some cart
  pub filled : items_of c.tenant_id cart.id shop.cart_items ≢ []
  pub places : Places c (lines_of (items_of c.tenant_id cart.id shop.cart_items)) order k shop shop'
  pub closed : active_cart c.tenant_id order.customer_user_id shop'.carts ≡ none
  pub stored : get_row carts_schema cart.id shop'.carts ≡ some (checked_out cart)
  pub items_kept : shop'.cart_items ≡ shop.cart_items

-- A checkout that returns has placed and stored an order, with a stored line for exactly each line of
-- the buyer's active cart, which were not none, at the present prices, and a payment of its total, as
-- `Places` says; that cart is stored as checked out and the buyer has no active one, if no two active
-- carts of a buyer stood in the table, the order's new id is not taken and the adapters' checkouts
-- name the payment and provider that they were asked for.
pub checkout-Sells :
    (env : Environment) (c : Context) (others : Db → Db) (provider : ℕ) (shop shop' : Shop)
    (order : Order) (k : Checkout)
    → IsHonest env
    → any (is_order shop.next_id) shop.orders ≡ false
    → IsUnique carts_schema shop.carts
    → checkout env c others provider shop ≡ (ok (order, k), shop')
    → Sells c order k shop shop'
checkout-Sells env c others provider shop shop' order k honest free unique h =
    let (u, cart, placed, e, f, filled, run, carts, items, billing, orders, lines_kept) =
      checkout-steps env c others provider shop shop' order k h in
    let lines = lines_of (items_of c.tenant_id cart.id shop.cart_items) in
    let (same, same_items) =
      place_order-carts env c others lines provider shop placed order k run in
    let p = place_order-Places env c others lines provider shop placed order k honest free run in
    let owner : order.customer_user_id ≡ u = ground (arith, p.owner, e) in
    record {
      cart = cart;
      was_active = rw owner f;
      filled = λ z. ground (arith, filled, z);
      places = record {
        pricing = p.pricing;
        fair = p.fair;
        stored = orders ∙ p.stored;
        new_items = p.new_items;
        stored_items = lines_kept ∙ p.stored_items;
        of_order = p.of_order;
        items = p.items;
        tenant = p.tenant;
        status = p.status;
        total = p.total;
        currency = p.currency;
        owner = p.owner;
        linked = p.linked;
        provider = p.provider;
        payment = rw billing p.payment;
      };
      closed = rw (owner, carts, same) (closed_cart c.tenant_id u cart shop.carts unique f);
      stored =
          rw (carts, same)
            (get_row-replace_self carts_schema (checked_out cart) shop.carts cart (
              unfold active_cart in
              get_row-find carts_schema
                (λ d. d.tenant_id == c.tenant_id && (d.customer_user_id == u && is_active d.status))
                shop.carts cart unique f));
      items_kept = items ∙ same_items;
    }
