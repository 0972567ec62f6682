-- ===== src/Tests.antt =====
-- The theorems at concrete tables and numbers.
mod Data
mod Stock
mod Rules
mod Bills
mod Pix
mod Shop
mod Staff
