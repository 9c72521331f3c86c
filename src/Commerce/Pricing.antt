-- ===== src/Commerce/Pricing.antt =====
-- What an order costs (`place_order` of modules/commerce/orders/service.py).
use backend_core.Common.{
  ℕ, ◌+◌, ◌*◌, ◌≡◌, ◌≢◌, ◌∙◌, ◌⊎◌, subst, sym, refl, some, List, [], ◌∷◌, ◌++◌, arith, inl, inr,
  All, map, any, Bool, false, ◌==◌,
}
use mathlib.Core.List.{append-nil, append_assoc}
use backend_core.Shared.Errors.{ok, Result-cases}
use backend_core.Billing.Store.{Db, Context}
use backend_core.Billing.Payments.{Environment, Checkout, create_payment}
use backend_core.Billing.Opening.{IsHonest, Answers, create_payment-Answers}
use backend_core.Common.Table.{replace, replace-append}
use backend_core.Commerce.Store.{
  Product, OrderItem, OrderStatus, orders_schema, Order, Shop, customer_id, get_sale_info,
}
use backend_core.Commerce.Orders.{
  OrderLine, PricedLine, Priced, add_line, price_lines, no_lines, order_items, new_order,
  order_payment, place_order,
}

abbrev pub sum_lines : List PricedLine → ℕ
sum_lines [] = 0
sum_lines (l ∷ rest) = l.unit_price * l.quantity + sum_lines rest

abbrev pub asked : PricedLine → OrderLine
asked l = record { product_id = l.product_id; quantity = l.quantity }

-- The lines asked for, at the present price of a product that is for sale, all in the order's one
-- currency, and their sum.
pub record IsPriced (tenant : ℕ) (products : List Product) (lines : List OrderLine) (r : Priced)
    : Type 0 where
  pub complete : map asked r.lines ≡ lines
  pub priced :
      All
        (λ l.
          (get_sale_info tenant l.product_id products ≡ ok (l.unit_price, l.currency))
          × (l.currency ≡ r.currency))
        r.lines
  pub summed : r.total ≡ sum_lines r.lines

sale_currency :
    (tenant id : ℕ) (products : List Product) (price : ℕ × ℕ)
    → get_sale_info tenant id products ≡ ok price
    → price.1 ≢ 0
unfolding get_sale_info
sale_currency tenant id products price h = λ e. ground (arith, h, e)

module _ (tenant : ℕ) (products : List Product) where
  abbrev Fits : ℕ → PricedLine → Type 0
  Fits currency l =
      (get_sale_info tenant l.product_id products ≡ ok (l.unit_price, l.currency))
      × (l.currency ≡ currency)

  Fits-append :
      (currency : ℕ) (ls : List PricedLine) (l : PricedLine)
      → All (Fits currency) ls
      → Fits currency l
      → All (Fits currency) (ls ++ l ∷ [])
  Fits-append currency [] l a f = (f, tt)
  Fits-append currency (x ∷ ls) l a f = (a.0, Fits-append currency ls l a.1 f)

  sum_lines-append :
      (ls : List PricedLine) (l : PricedLine)
      → sum_lines (ls ++ l ∷ []) ≡ sum_lines ls + l.unit_price * l.quantity
  sum_lines-append [] l = omega arith
  sum_lines-append (x ∷ ls) l = omega (arith, sum_lines-append ls l)

  asked-append :
      (ls : List PricedLine) (l : PricedLine)
      → map asked (ls ++ l ∷ []) ≡ map asked ls ++ asked l ∷ []
  asked-append [] l = refl
  asked-append (x ∷ ls) l = rw (asked-append ls l)

  -- Before the first line there is no currency.
  abbrev Begun : Priced → Type 0
  Begun acc = acc.currency ≡ 0 → acc.lines ≡ []

  new_line : OrderLine → ℕ × ℕ → PricedLine
  new_line line price = record {
    product_id = line.product_id;
    quantity = line.quantity;
    unit_price = price.0;
    currency = price.1;
  }

  same_currency :
      (acc next : Priced) (line : OrderLine) (price : ℕ × ℕ)
      → add_line acc line price ≡ ok next
      → (next.lines ≡ acc.lines ++ new_line line price ∷ [])
        × (next.total ≡ acc.total + price.0 * line.quantity)
        × (next.currency ≡ price.1)
        × ((acc.currency ≡ 0) ⊎ (acc.currency ≡ price.1))
  unfolding add_line new_line
  same_currency acc next line price h = ground arith

  step_priced :
      (acc : Priced) (line : OrderLine) (price : ℕ × ℕ)
      → All (Fits acc.currency) acc.lines
      → Begun acc
      → get_sale_info tenant line.product_id products ≡ ok price
      → (acc.currency ≡ 0) ⊎ (acc.currency ≡ price.1)
      → All (Fits price.1) (acc.lines ++ new_line line price ∷ [])
  unfolding new_line
  step_priced acc line price a b g c =
      Fits-append price.1 acc.lines (new_line line price)
        (elim c [ inl z ↦ rw (b z) tt | inr e ↦ subst (λ k. All (Fits k) acc.lines) e a ]) (g, refl)

  priced_step :
      (done : List OrderLine) (acc next : Priced) (line : OrderLine) (price : ℕ × ℕ)
      → IsPriced tenant products done acc
      → Begun acc
      → get_sale_info tenant line.product_id products ≡ ok price
      → add_line acc line price ≡ ok next
      → IsPriced tenant products (done ++ line ∷ []) next × Begun next
  priced_step done acc next line price v b g h =
      let (lines, total, currency, same) = same_currency acc next line price h in
      let l = new_line line price in
      (
        record {
          complete = rw (lines, asked-append acc.lines l, v.complete) (unfold new_line in refl);
          priced = rw (lines, currency) (step_priced acc line price v.priced b g same);
          summed =
              rw (lines, total, sum_lines-append acc.lines l, v.summed) (unfold new_line in refl);
        },
        λ z. absurd (sale_currency tenant line.product_id products price g (sym currency ∙ z)),
      )

  price_lines-next :
      (acc : Priced) (line : OrderLine) (rest : List OrderLine) (r : Priced)
      → price_lines tenant products acc (line ∷ rest) ≡ ok r
      → (price : ℕ × ℕ) × (next : Priced) × (get_sale_info tenant line.product_id products
          ≡ ok price)
        × (add_line acc line price ≡ ok next)
        × (price_lines tenant products next rest ≡ ok r)
  unfolding price_lines
  price_lines-next acc line rest r h =
      elim (Result-cases (get_sale_info tenant line.product_id products)) [
        | inr (x, e) ↦ absurd (ground (arith, e, h))
        | inl (price, e) ↦ elim (Result-cases (add_line acc line price)) [
          | inr (x, f) ↦ absurd (ground (arith, e, f, h))
          | inl (next, f) ↦ (price, next, e, f, ground (arith, e, f, h))
        ]
      ]

  price_lines-IsPriced :
      (done todo : List OrderLine) (acc r : Priced)
      → IsPriced tenant products done acc
      → Begun acc
      → price_lines tenant products acc todo ≡ ok r
      → IsPriced tenant products (done ++ todo) r
  unfolding price_lines
  price_lines-IsPriced done [] acc r v b h =
      let e : acc ≡ r = cc in rw append-nil (subst (IsPriced tenant products done) e v)
  price_lines-IsPriced done (line ∷ rest) acc r v b h =
      let (price, next, g, a, h') = price_lines-next acc line rest r h in
      let (v', b') = priced_step done acc next line price v b g a in
      subst (λ all. IsPriced tenant products all r) (append_assoc done (line ∷ []) rest)
        (price_lines-IsPriced (done ++ line ∷ []) rest next r v' b' h')

no_lines-IsPriced : (tenant : ℕ) (products : List Product) → IsPriced tenant products [] no_lines
no_lines-IsPriced tenant products = record { complete = refl; priced = tt; summed = refl }

-- A stored line of an order, as a priced line.
abbrev pub sold : OrderItem → PricedLine
sold i = record {
  product_id = i.product_id;
  quantity = i.quantity;
  unit_price = i.unit_price_amount;
  currency = i.currency;
}

abbrev pub is_order : ℕ → Order → Bool
is_order id o = o.id == id

-- What `place_order` leaves in the tables: the pending order with its total, a row for each priced
-- line, and a payment for the order.
pub record Places (c : Context) (lines : List OrderLine) (order : Order) (k : Checkout)
    (shop shop' : Shop) : Type 0 where
  pub pricing : Priced
  pub fair : IsPriced c.tenant_id shop.products lines pricing
  pub stored : shop'.orders ≡ shop.orders ++ order ∷ []
  pub new_items : List OrderItem
  pub stored_items : shop'.order_items ≡ shop.order_items ++ new_items
  pub of_order : All (λ i. i.order_id ≡ order.id) new_items
  pub items : map sold new_items ≡ pricing.lines
  pub tenant : order.tenant_id ≡ c.tenant_id
  pub status : order.status ≡ OrderStatus.pending
  pub total : order.total_amount ≡ pricing.total
  pub currency : order.currency ≡ pricing.currency
  pub owner : customer_id c.actor ≡ ok order.customer_user_id
  pub linked : order.payment_id ≡ some k.payment_id
  pub provider : ℕ
  pub payment : Answers c (order_payment order.id pricing provider) k shop'.billing

place_order-steps :
    (env : Environment) (c : Context) (others : Db → Db) (lines : List OrderLine) (provider : ℕ)
    (shop shop' : Shop) (order : Order) (k : Checkout)
    → place_order env c others lines provider shop ≡ (ok (order, k), shop')
    → (p : Priced) × (u : ℕ) × (price_lines c.tenant_id shop.products no_lines lines ≡ ok p)
      × (customer_id c.actor ≡ ok u)
      × (order ≡ record (new_order c u shop.next_id p) { payment_id = some k.payment_id })
      × (create_payment env c others (order_payment shop.next_id p provider) shop.billing
          ≡ (ok k, shop'.billing))
      × (shop'.orders
          ≡ replace orders_schema order (shop.orders ++ new_order c u shop.next_id p ∷ []))
      × (shop'.order_items ≡ shop.order_items ++ order_items shop.next_id p.lines)
unfolding place_order
place_order-steps env c others lines provider shop shop' order k h =
    elim (Result-cases (customer_id c.actor)) [
      | inr (x, e) ↦ absurd (ground (arith, e, h))
      | inl (u, e) ↦ elim (Result-cases (price_lines c.tenant_id shop.products no_lines lines)) [
        | inr (x, f) ↦ absurd (ground (arith, e, f, h))
        | inl (p, f) ↦ (
          p,
          u,
          f,
          e,
          ground (arith, e, f, h),
          ground (arith, e, f, h),
          ground (arith, e, f, h),
          ground (arith, e, f, h),
        )
      ]
    ]

order_items-sold : (id : ℕ) (ls : List PricedLine) → map sold (order_items id ls) ≡ ls
unfolding order_items
order_items-sold id [] = refl
order_items-sold id (l ∷ ls) = ground (arith, order_items-sold id ls)

order_items-of : (id : ℕ) (ls : List PricedLine) → All (λ i. i.order_id ≡ id) (order_items id ls)
unfolding order_items
order_items-of id [] = tt
order_items-of id (l ∷ ls) = (refl, order_items-of id ls)

pub place_order-Places :
    (env : Environment) (c : Context) (others : Db → Db) (lines : List OrderLine) (provider : ℕ)
    (shop shop' : Shop) (order : Order) (k : Checkout)
    → IsHonest env
    → any (is_order shop.next_id) shop.orders ≡ false
    → place_order env c others lines provider shop ≡ (ok (order, k), shop')
    → Places c lines order k shop shop'
unfolding new_order
place_order-Places env c others lines provider shop shop' order k honest free h =
    let (p, u, f, e, o, paid, rows, items) =
      place_order-steps env c others lines provider shop shop' order k h in
    record {
      pricing = p;
      fair =
          price_lines-IsPriced c.tenant_id shop.products [] lines no_lines p
            (no_lines-IsPriced c.tenant_id shop.products) (λ z. refl) f;
      stored =
          rows
          ∙ replace-append orders_schema (new_order c u shop.next_id p) order shop.orders free
              (λ j. (o j).id);
      new_items = order_items shop.next_id p.lines;
      stored_items = items;
      of_order =
          subst (λ i. All (λ l. l.order_id ≡ i) (order_items shop.next_id p.lines))
            (sym (λ j. (o j).id)) (order_items-of shop.next_id p.lines);
      items = order_items-sold shop.next_id p.lines;
      tenant = (λ j. (o j).tenant_id);
      status = (λ j. (o j).status);
      total = ground (arith, o);
      currency = ground (arith, o);
      owner = ground (arith, o, e);
      linked = ground (arith, o);
      provider = provider;
      payment =
          subst (λ i. Answers c (order_payment i p provider) k shop'.billing) (ground (arith, o))
            (create_payment-Answers env c others (order_payment shop.next_id p provider) k
              shop.billing shop'.billing honest paid);
    }
