-- ===== src/Lib.antt =====
-- The store platform's catalog, sales, stock, billing, payments, accounts and queue
-- (backend/internal).
--
-- A customer registers, confirms an address and signs in (identity, customers/service.go). The cart is
-- priced from stock costs, margins, promotions and the customer's collaborator category (catalog), and
-- a checkout reserves the stock, charges the customer and adds an entry to an open billing period, all
-- in one transaction (sales/service.go). Closing the period issues an invoice with a payment plan that
-- is still to be selected (billing/close.go); selecting it splits the invoice into installments
-- (billing/payment_plan.go). A Pix charge is asked of a gateway for an invoice or an installment, and
-- the gateway's webhook settles it (payments). Every sale, return, entry and stocktaking moves stock:
-- one movement changes the balance of an item and its lots, first in, first out (inventory). Cancelling
-- an order takes its entry back, credits its invoice, or moves a credit to the open period, and puts
-- the stock back (sales/admin_orders.go, billing/order_cancel_billing.go). Messages and monthly work
-- wait in an outbox and a queue that a worker empties (jobs).
--
-- Files. Base holds the shared notation: numbers, lists, signed amounts. Store is the database:
-- Store/Table the SQL statements on one table, Store/Schema and Store/Shop the rows of
-- backend/migrations, Store/Tx transactions that end in a value or an error. Inventory/Lots is
-- inventory/lots.go and entry_cost.go, Inventory/Movements is movements.go, Inventory/Service the
-- operations that others call (service.go, returns.go and the Register functions). Billing/Amounts
-- is billing/installment_calculator.go; Billing/Dates and Billing/Calendar are due.go,
-- invoice_due.go, calendar.go and installment_schedule.go; Billing/Policy is installment_policy.go;
-- Billing/Rows holds the tests of the queries; Billing/Plan, Billing/Selection and
-- Billing/Settlement are payment_plan.go; Billing/Adjustments is adjustment.go, settlement.go,
-- invoice_credit_tx.go and order_cancel_billing.go; Billing/Periods and Billing/Refunds are
-- service.go, cycle.go and close.go. Payments is payments/service.go, gateway.go and sandbox.go.
-- Catalog/Prices is catalog/rounding.go, promo.go and the pure part of promo_pricing.go,
-- Catalog/Pricing is pricing.go and the rest of it, Catalog/Products is service.go, admin.go and
-- categories_admin.go. Customers is customers/service.go and admin.go, Customers/Collaborators is
-- collaborators.go. Sales/Carts, Sales/Checkout and Sales/Placing are sales/service.go,
-- Sales/Cancel is admin_orders.go. Identity is the rules and statements of identity and
-- identity/postgres, Identity/Login is service.go, Identity/Verification is verification.go with
-- the registration of customers/service.go, Identity/Staff and Identity/Invitations are
-- admin_users.go. Jobs is jobs/repository.go, outbox.go and runner.go, Forecasting is
-- forecasting/service.go. The files below these hold their proofs, and Tests the theorems at
-- concrete tables. A function keeps its name in lower case with underscores.
--
-- State. The tables are lists of rows in the order of insertion, and a service function is a
-- function of them. Identifiers and instants that the database or the clock gives are arguments. A
-- transaction that fails leaves the tables as they were. Go's int and int64 are unbounded here, and
-- amounts that the code keeps from being negative are natural numbers. Parameters stand for what is
-- not in the repository: the time zone (a wall clock of each instant), `float64` in prices, the
-- payment gateway's encoder, decoder and keyed hash, and the libraries for password hashes, TOTP and tokens.
-- Loops of the code keep their own bounds (366 days, 31 days of a month); the loop that carries
-- months into years has the number of months as fuel, and each round takes twelve.
--
-- Not modelled: failures of the database itself and concurrent transactions (every transaction runs
-- alone), unique indexes other than those written out, queries that only list rows, names and texts,
-- permissions, audit records, the reminders of billing, e-mail, HTTP handlers, reports, and the front
-- ends.
pub mod Base
pub mod Store
pub mod Inventory
pub mod Billing
pub mod Payments
pub mod Catalog
pub mod Customers
pub mod Sales
pub mod Identity
pub mod Jobs
pub mod Forecasting
mod Tests
