-- ===== src/Billing/Adjustments/Cancellation.antt =====
-- Cancelling an order's billing (`ApplyOrderCancellationBillingTx`, order_cancel_billing.go).
use pontoqap.Billing.Periods.{ensure_open_period_tx}
use pontoqap.Store.Tx.{Result-cases}
use pontoqap.Billing.Adjustments.Effects.{HasTotals, apply_invoice_credit_adjustment_tx-HasTotals}
use pontoqap.Base.{All, ◌≡◌, Option-cases, inl, arith, inr, Bool-cases}
use pontoqap.Store.Table.Keys.{IsUnique}
use pontoqap.Billing.Adjustments.{
  apply_order_cancellation_billing_tx, ℕ, Db, ℤ, ensure_open_period_tx, invoice_key, ok,
  period_of_order, is_open_period, invoice_of_period, is_paid_invoice,
  apply_invoice_credit_adjustment_tx,
}
use pontoqap.Billing.Dates.{Location}

module _ (loc : Location) (new_id customer_id at : ℕ) (db : Db) where
  ensure_open_period_tx-invoices :
      {db' : Db} {id : ℕ}
      → ensure_open_period_tx loc new_id customer_id at db ≡ ok (id, db')
      → db'.invoices ≡ db.invoices
  unfolding ensure_open_period_tx
  ensure_open_period_tx-invoices e = ground arith

-- The columns of every invoice agree after the cancellation of an order if they did before, whether
-- it takes an entry back, credits the invoice or moves a credit to the open period.
pub apply_order_cancellation_billing_tx-HasTotals :
    (loc : Location) (new_entry new_period new_adjustment customer_id order_id : ℕ) (amount : ℤ)
    (at : ℕ) (db : Db) {db' : Db} {delta : ℤ}
    → IsUnique invoice_key db.invoices
    → All HasTotals db.invoices
    → apply_order_cancellation_billing_tx loc new_entry new_period new_adjustment customer_id
        order_id amount at db
      ≡ ok (delta, db')
    → All HasTotals db'.invoices
unfolding apply_order_cancellation_billing_tx
apply_order_cancellation_billing_tx-HasTotals loc new_entry new_period new_adjustment customer_id
      order_id amount at db {db'} {delta} u h e =
    elim (Option-cases (period_of_order order_id db)) [
      | inl missing ↦ absurd (ground arith)
      | inr (period, there) ↦ elim (Bool-cases (is_open_period period.status)) [
        | inl opened ↦ let same : db'.invoices ≡ db.invoices = ground arith in rw same h
        | inr closed ↦ elim (Option-cases (invoice_of_period period.id db)) [
          | inl missing ↦ absurd (ground arith)
          | inr (inv, found) ↦ elim (Bool-cases (is_paid_invoice inv.status)) [
            | inl paid ↦
                elim (Result-cases (ensure_open_period_tx loc new_period customer_id at db)) [
                  | inl (wrong, failed) ↦ absurd (ground arith)
                  | inr ((id, db1), opened) ↦
                      let kept =
                        ensure_open_period_tx-invoices loc new_period customer_id at db {db' = db1}
                          {id = id} opened in
                      let same : db'.invoices ≡ db.invoices = ground arith in rw same h
                ]
            | inr running ↦
                elim (Result-cases (
                  apply_invoice_credit_adjustment_tx at new_adjustment inv.id customer_id amount
                    db)) [
                      | inl (wrong, failed) ↦ absurd (ground arith)
                      | inr ((u1, db1), credited) ↦
                          let same : db'.invoices ≡ db1.invoices = ground arith in
                          rw same (
                            apply_invoice_credit_adjustment_tx-HasTotals at new_adjustment inv.id
                              customer_id amount db {db' = db1} u h credited)
                    ]
          ]
        ]
      ]
    ]
