-- ===== src/Commerce.antt =====
-- modules/commerce: the storefront's cart and orders over the shared tables.
pub mod Store
pub mod Orders
pub mod Pricing
pub mod Following
pub mod Cart
pub mod Checkout
pub mod Items
mod Tests
