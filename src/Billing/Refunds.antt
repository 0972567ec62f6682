-- ===== src/Billing/Refunds.antt =====
-- `AddOrderCancellationTx` of backend/internal/billing/service.go, which no other code calls.
use pontoqap.Base.{ℕ, ◌≡◌, none, some, if◌then◌else◌, arith, inl, inr, Option-cases}
use pontoqap.Base.Int.{ℤ, pos, ◌-ℤ◌}
use pontoqap.Store.Schema.{EntryType, Db}
use pontoqap.Store.Tx.{Tx, ok, err, no_rows, period_not_open}
use pontoqap.Billing.Dates.{Location}
use pontoqap.Billing.Rows.{is_open_period}
use pontoqap.Billing.Periods.{period_of_order, insert_entry}
use pontoqap.Billing.Adjustments.{apply_order_cancellation_billing_tx}

unfoldable pub add_order_cancellation_tx : ℕ → ℕ → ℤ → ℕ → Tx Db (Unit {0})
unfolding period_of_order
add_order_cancellation_tx new_entry order_id amount at db = elim (period_of_order order_id db) [
  | none ↦ err no_rows
  | some p ↦
      if is_open_period p.status
      then ok (
        tt,
        insert_entry new_entry p.id EntryType.order_cancellation order_id (pos 0 -ℤ amount) at db,
      )
      else err period_not_open
]

-- Where it goes through, it writes what `ApplyOrderCancellationBillingTx` writes.
pub add_order_cancellation_tx-applies :
    (loc : Location) (new_entry new_period new_adjustment customer_id order_id : ℕ) (amount : ℤ)
    (at : ℕ) (db : Db) {db' : Db}
    → add_order_cancellation_tx new_entry order_id amount at db ≡ ok (tt, db')
    → apply_order_cancellation_billing_tx loc new_entry new_period new_adjustment customer_id
        order_id amount at db
      ≡ ok (pos 0 -ℤ amount, db')
unfolding add_order_cancellation_tx apply_order_cancellation_billing_tx
add_order_cancellation_tx-applies loc new_entry new_period new_adjustment customer_id order_id
      amount at db {db'} e =
    elim (Option-cases (period_of_order order_id db)) [
      | inl missing ↦ absurd (ground arith)
      | inr (p, found) ↦ ground arith
    ]
