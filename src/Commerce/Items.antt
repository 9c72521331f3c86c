-- ===== src/Commerce/Items.antt =====
-- What stands in a cart (`add_item` of modules/commerce/cart/service.py).
use backend_core.Common.{
  ℕ, ◌+◌, ◌≤◌, ◌≡◌, refl, sym, subst, false, ◌&&◌, Option, none, some, List, [], ◌∷◌, ◌++◌, ◌==◌,
  head?, map, if◌then◌else◌, All, ◌⊎◌, arith, inl, inr, Bool-cases, Option-cases,
}
use backend_core.Shared.Errors.{ok, Result-cases}
use backend_core.Billing.Store.{Context}
use backend_core.Commerce.Store.{Cart, CartItem, Shop, customer_id, get_sale_info}
use backend_core.Commerce.Cart.{
  CartDto, max_line_quantity, active_cart, insert_cart, open_cart, items_of, find_item,
  other_currency, old_quantity, same_row, write_item, add_to, add_item,
}

-- A line that a cart in `currency` may hold.
abbrev pub Fits : ℕ → CartItem → Type 0
Fits currency i = (i.currency ≡ currency) × (1 ≤ i.quantity) × (i.quantity ≤ max_line_quantity)

-- One currency in each cart of each tenant, and quantities from one to the cap.
abbrev pub IsSound : Shop → Type 0
IsSound shop =
    (tenant cart : ℕ) → (currency : ℕ) × All (Fits currency) (items_of tenant cart shop.cart_items)

module _ (tenant cart currency : ℕ) (item : CartItem) (fits : Fits currency item) where
  append-Fits :
      (rows : List CartItem)
      → All (Fits currency) (items_of tenant cart rows)
      → All (Fits currency) (items_of tenant cart (rows ++ item ∷ []))
  unfolding items_of
  append-Fits [] a = ground (arith, fits)
  append-Fits (i ∷ rows) a = ground (arith, a, append-Fits rows)

  update-Fits :
      (rows : List CartItem)
      → All (Fits currency) (items_of tenant cart rows)
      → All
          (Fits currency)
          (items_of tenant cart (map (λ i. if same_row i item then item else i) rows))
  unfolding items_of
  update-Fits [] a = tt
  update-Fits (i ∷ rows) a = ground (arith, fits, a, update-Fits rows)

-- Another cart does not see the write.
module _ (tenant cart : ℕ) (item : CartItem)
    (apart : (item.tenant_id == tenant && item.cart_id == cart) ≡ false) where
  append-apart :
      (rows : List CartItem) → items_of tenant cart (rows ++ item ∷ []) ≡ items_of tenant cart rows
  unfolding items_of
  append-apart [] = ground (arith, apart)
  append-apart (i ∷ rows) = ground (arith, append-apart rows)

  update-apart :
      (rows : List CartItem)
      → items_of tenant cart (map (λ i. if same_row i item then item else i) rows)
        ≡ items_of tenant cart rows
  unfolding items_of
  update-apart [] = refl
  update-apart (i ∷ rows) = ground (arith, apart, update-apart rows)

-- The rows after a write, whichever it was.
written :
    (existing : Option CartItem) (item : CartItem) (shop shop' : Shop)
    → write_item existing item shop ≡ (ok tt, shop')
    → (shop'.cart_items ≡ map (λ i. if same_row i item then item else i) shop.cart_items)
      ⊎ (shop'.cart_items ≡ shop.cart_items ++ item ∷ [])
unfolding write_item
written none item shop shop' h = inr (ground (arith, h))
written (some e) item shop shop' h = inl (ground (arith, h))

write_item-IsSound :
    (existing : Option CartItem) (item : CartItem) (shop shop' : Shop)
    → IsSound shop
    → All (Fits item.currency) (items_of item.tenant_id item.cart_id shop.cart_items)
    → Fits item.currency item
    → write_item existing item shop ≡ (ok tt, shop')
    → IsSound shop'
write_item-IsSound existing item shop shop' v a fits h tenant cart =
    let (currency, others) = v tenant cart in
    elim (Bool-cases (item.tenant_id == tenant && item.cart_id == cart)) [
      | inl e ↦
          let t : item.tenant_id ≡ tenant = ground (arith, e) in
          let k : item.cart_id ≡ cart = ground (arith, e) in
          let a' : All (Fits item.currency) (items_of tenant cart shop.cart_items) =
            rw (sym t, sym k) a in
          elim (written existing item shop shop' h) [
            | inl w ↦ (
              item.currency,
              rw w (update-Fits tenant cart item.currency item fits shop.cart_items a'),
            )
            | inr w ↦ (
              item.currency,
              rw w (append-Fits tenant cart item.currency item fits shop.cart_items a'),
            )
          ]
      | inr e ↦ elim (written existing item shop shop' h) [
        | inl w ↦ (currency, rw (w, update-apart tenant cart item e shop.cart_items) others)
        | inr w ↦ (currency, rw (w, append-apart tenant cart item e shop.cart_items) others)
      ]
    ]

-- The cart's currency is that of its first item.
agreed :
    (currency new : ℕ) (items : List CartItem)
    → All (Fits currency) items
    → other_currency (head? items) new ≡ false
    → All (Fits new) items
unfolding other_currency
agreed currency new [] a o = tt
agreed currency new (i ∷ items) a o =
    let e : currency ≡ new = ground (arith, a, o) in subst (λ k. All (Fits k) (i ∷ items)) e a

add_to-steps :
    (c : Context) (cart : Cart) (product quantity : ℕ) (price : ℕ × ℕ) (shop shop' : Shop)
    → add_to c cart product quantity price shop ≡ (ok tt, shop')
    → (existing : Option CartItem) × (total : ℕ) × (find_item c.tenant_id cart.id product
          shop.cart_items
        ≡ existing)
      × (total ≡ quantity + old_quantity existing)
      × (other_currency (head? (items_of c.tenant_id cart.id shop.cart_items)) price.1 ≡ false)
      × (1 ≤ total)
      × (total ≤ max_line_quantity)
      × (write_item existing
            (record {
              tenant_id = c.tenant_id;
              cart_id = cart.id;
              product_id = product;
              quantity = total;
              unit_price_amount = price.0;
              currency = price.1;
            })
            shop
          ≡ (ok tt, shop'))
unfolding add_to
add_to-steps c cart product quantity price shop shop' h =
    let existing = find_item c.tenant_id cart.id product shop.cart_items in
    (
      existing,
      quantity + old_quantity existing,
      refl,
      refl,
      ground (arith, h),
      ground (arith, h),
      ground (arith, h),
      ground (arith, h),
    )

add_to-IsSound :
    (c : Context) (cart : Cart) (product quantity : ℕ) (price : ℕ × ℕ) (shop shop' : Shop)
    → IsSound shop
    → add_to c cart product quantity price shop ≡ (ok tt, shop')
    → IsSound shop'
add_to-IsSound c cart product quantity price shop shop' v h =
    let (existing, total, e, t, o, pos, cap, w) =
      add_to-steps c cart product quantity price shop shop' h in
    let (currency, a) = v c.tenant_id cart.id in
    write_item-IsSound existing
      (record {
        tenant_id = c.tenant_id;
        cart_id = cart.id;
        product_id = product;
        quantity = total;
        unit_price_amount = price.0;
        currency = price.1;
      })
      shop shop' v (agreed currency price.1 (items_of c.tenant_id cart.id shop.cart_items) a o)
      (refl, pos, cap) w

-- Opening the cart touches no item but through what others commit.
open_cart-IsSound :
    (c : Context) (others : Shop → Shop) (customer : ℕ) (shop : Shop)
    → ((s : Shop) → IsSound s → IsSound (others s))
    → IsSound shop
    → IsSound (open_cart c others customer shop).1
unfolding open_cart insert_cart
open_cart-IsSound c others customer shop keep v =
    elim (Option-cases (active_cart c.tenant_id customer shop.carts)) [
      | inr (cart, e) ↦ λ t k. ground (arith, e, v t k)
      | inl e ↦ λ t k. ground (arith, e, keep shop v t k)
    ]

-- An item that was added leaves every cart, of whatever tenant, with one currency and with
-- quantities from one to the cap, if they were so before and what concurrent transactions commit
-- keeps them so.
pub add_item-IsSound :
    (c : Context) (others : Shop → Shop) (product quantity : ℕ) (shop shop' : Shop) (dto : CartDto)
    → ((s : Shop) → IsSound s → IsSound (others s))
    → IsSound shop
    → add_item c others product quantity shop ≡ (ok dto, shop')
    → IsSound shop'
unfolding add_item
add_item-IsSound c others product quantity shop shop' dto keep v h =
    elim (Result-cases (customer_id c.actor)) [
      | inr (x, e) ↦ absurd (ground (arith, e, h))
      | inl (u, e) ↦ elim (Result-cases (get_sale_info c.tenant_id product shop.products)) [
        | inr (x, f) ↦ absurd (ground (arith, e, f, h))
        | inl (price, f) ↦ elim (Result-cases (open_cart c others u shop).0) [
          | inr (x, g) ↦ absurd (ground (arith, e, f, g, h))
          | inl (cart, g) ↦
              let mid = (open_cart c others u shop).1 in
              add_to-IsSound c cart product quantity price mid shop'
                (open_cart-IsSound c others u shop keep v) (ground (arith, e, f, g, h))
        ]
      ]
    ]
