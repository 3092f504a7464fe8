-- ===== src/Storefront.antt =====
-- examples/storefront/app/src: an application on warpline, as far as its logic is its own.
pub mod Kv
pub mod Checkout
