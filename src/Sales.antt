-- ===== src/Sales.antt =====
-- backend/internal/sales: carts, checkout and the cancellation of an order.
pub mod Carts
pub mod Placing
pub mod Checkout
pub mod Cancel
