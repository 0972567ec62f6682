-- ===== src/Inventory.antt =====
-- Stock: backend/internal/inventory, its lots, balances and movements.
pub mod Lots
pub mod Movements
pub mod Service
