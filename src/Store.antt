-- ===== src/Store.antt =====
-- The relational store behind the services: the rows of its tables (backend/migrations), the SQL
-- statements that the services send, as operations on tables, and transactions.
pub mod Table
pub mod Tx
pub mod Shop
pub mod Schema
