-- ===== src/Modules.antt =====
-- modules/loader.py: which features may be installed together, and in which order.
pub mod Loader
pub mod Order
pub mod Parts
pub mod Sorted
mod Tests
