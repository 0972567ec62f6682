-- ===== src/Catalog.antt =====
-- Products, their prices and promotions: backend/internal/catalog.
pub mod Prices
pub mod Pricing
pub mod Products
