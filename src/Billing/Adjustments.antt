-- ===== src/Billing/Adjustments.antt =====
-- Changing an invoice after it is issued: backend/internal/billing/adjustment.go, settlement.go,
-- invoice_credit_tx.go and order_cancel_billing.go. A trimmed text is only compared with the empty
-- one or a constant, so it is given as that test, or as the constant that it equals.
pub mod Effects
pub mod Cancellation
use pontoqap.Base.{
  ℕ, zero, suc, ◌+◌, ◌-◌, Bool, true, false, ◌&&◌, ◌||◌, not, Option, none, some, List, [], ◌∷◌,
  ◌==◌, ltb, leb, if◌then◌else◌,
}
use pontoqap.Base.Int.{ℤ, pos, negsuc, ◌+ℤ◌, ◌-ℤ◌, ltb_ℤ, leb_ℤ, pos_part, neg_part}
use pontoqap.Store.Table.{update_where, insert_row}
use pontoqap.Store.Table.Keys.{find_by, update_by}
use pontoqap.Store.Schema.{
  Customer, Invoice, InvoiceStatus, Adjustment, AdjustmentType, Charge, ChargeStatus, EntryType,
  Period, Db,
}
use pontoqap.Store.Tx.{
  Tx, Result, ok, err, pure, throw_if, gets, modify, or_throw, ◌>>=◌, ◌>>◌, no_rows,
  invalid_adjustment, reason_required, invoice_not_found, invoice_already_paid,
  adjustment_exceeds_total, total_below_paid, period_not_open,
}
use pontoqap.Billing.Dates.{Location}
use pontoqap.Billing.Rows.{customer_key, invoice_key, get_invoice, is_paid_invoice, is_open_period}
use pontoqap.Billing.Settlement.{coalesce}
use pontoqap.Billing.Periods.{
  period_of_order, insert_entry, invoice_of_period, ensure_open_period_tx,
}

-- `invoiceFullySettled`.
abbrev pub invoice_fully_settled : ℕ → ℕ → Bool
invoice_fully_settled total paid = leb total paid

-- `invoiceStatusAfterAdjustment`.
unfoldable pub invoice_status_after_adjustment : ℕ → ℕ → InvoiceStatus → InvoiceStatus × Bool
invoice_status_after_adjustment new_total paid status =
    if invoice_fully_settled new_total paid
    then (InvoiceStatus.paid_invoice, true)
    else (status, false)

abbrev pub is_pending_charge : ChargeStatus → Bool
is_pending_charge ChargeStatus.pending = true
is_pending_charge _ = false

-- `expirePendingPixChargesTx`.
unfoldable pub expire_pending_pix_charges : ℕ → Db → Db
expire_pending_pix_charges invoice_id db = record db {
  charges =
      update_where (λ (c : Charge). c.invoice_id == invoice_id && is_pending_charge c.status)
        (λ c. record c { status = ChargeStatus.expired }) db.charges;
}

-- The row that `updateInvoiceAfterAdjustmentTx` writes; `paid_at` only where it marks the payment.
abbrev pub adjust_invoice : ℕ → ℤ → ℕ → InvoiceStatus → Bool → Invoice → Invoice
adjust_invoice now new_adjustment new_total new_status mark_paid inv = record inv {
  adjustment_cents = new_adjustment;
  total_cents = new_total;
  status = new_status;
  paid_at = if mark_paid then some (coalesce inv.paid_at now) else inv.paid_at;
}

-- `updateInvoiceAfterAdjustmentTx`.
unfoldable pub update_invoice_after_adjustment : ℕ → ℕ → ℤ → ℕ → InvoiceStatus → Bool → Db → Db
update_invoice_after_adjustment now invoice_id new_adjustment new_total new_status mark_paid db =
    record db {
      invoices =
          update_by invoice_key invoice_id
            (adjust_invoice now new_adjustment new_total new_status mark_paid) db.invoices;
    }

-- `GREATEST(0, current_exposure_cents + $2)`.
abbrev pub shift_exposure : ℤ → Customer → Customer
shift_exposure delta c = record c {
  current_exposure_cents = pos_part (pos c.current_exposure_cents +ℤ delta);
}

-- `UPDATE customers SET current_exposure_cents …`.
abbrev pub shift_customer_exposure : ℕ → ℤ → Db → Db
shift_customer_exposure customer_id delta db = record db {
  customers = update_by customer_key customer_id (shift_exposure delta) db.customers;
}

-- The part that `AddInvoiceAdjustment` and `applyInvoiceCreditAdjustmentTx` share, line by line: the
-- guards on the status and the new total, the record of the adjustment, the invoice, its pending
-- charges, and the exposure of `customer_id`. `signed` is never 0 here.
unfoldable pub adjust_invoice_tx : ℕ → ℕ → ℕ → ℕ → AdjustmentType → ℕ → ℤ → Tx Db (Unit {0})
unfolding update_invoice_after_adjustment expire_pending_pix_charges invoice_status_after_adjustment
adjust_invoice_tx now new_id invoice_id customer_id adjustment_type amount signed = do
  inv ← (λ db. or_throw (get_invoice invoice_id db) invoice_not_found db)
  throw_if (is_paid_invoice inv.status) invoice_already_paid
  let new_adjustment = inv.adjustment_cents +ℤ signed
  let new_total = pos inv.total_cents +ℤ signed
  throw_if (ltb_ℤ new_total (pos 0)) adjustment_exceeds_total
  throw_if (ltb_ℤ new_total (pos inv.paid_cents)) total_below_paid
  modify λ db. record db {
    adjustments =
        insert_row
          (record {
            id = new_id;
            invoice_id = invoice_id;
            adjustment_type = adjustment_type;
            amount_cents = amount;
          })
          db.adjustments;
  }
  let (new_status, mark_paid) =
      invoice_status_after_adjustment (pos_part new_total) inv.paid_cents inv.status
  modify (
      update_invoice_after_adjustment now invoice_id new_adjustment (pos_part new_total) new_status
        mark_paid)
  modify λ db. if mark_paid then expire_pending_pix_charges invoice_id db else db
  modify (shift_customer_exposure customer_id signed)

-- `AddInvoiceAdjustment`, inside its transaction; `none` is any other type of adjustment.
unfoldable pub add_invoice_adjustment :
    ℕ → ℕ → ℕ → Option AdjustmentType → ℤ → Bool → Tx Db (Unit {0})
unfolding adjust_invoice_tx
add_invoice_adjustment now new_id invoice_id adjustment_type amount reason_empty = do
  throw_if (leb_ℤ amount (pos 0)) invalid_adjustment
  throw_if reason_empty reason_required
  kind ← or_throw adjustment_type invalid_adjustment
  inv ← (λ db. or_throw (get_invoice invoice_id db) invoice_not_found db)
  adjust_invoice_tx now new_id invoice_id inv.customer_id kind (pos_part amount)
      (elim kind [ AdjustmentType.credit ↦ pos 0 -ℤ amount | AdjustmentType.debit ↦ amount ])

-- `applyInvoiceCreditAdjustmentTx`, whose callers give a reason that is not empty.
unfoldable pub apply_invoice_credit_adjustment_tx : ℕ → ℕ → ℕ → ℕ → ℤ → Tx Db (Unit {0})
unfolding adjust_invoice_tx
apply_invoice_credit_adjustment_tx now new_id invoice_id customer_id amount = do
  throw_if (leb_ℤ amount (pos 0)) invalid_adjustment
  adjust_invoice_tx now new_id invoice_id customer_id AdjustmentType.credit (pos_part amount)
      (pos 0 -ℤ amount)

-- `ApplyOrderCancellationBillingTx`: the change of the exposure that is left to the caller.
unfoldable pub apply_order_cancellation_billing_tx : Location → ℕ → ℕ → ℕ → ℕ → ℕ → ℤ → ℕ → Tx Db ℤ
unfolding apply_invoice_credit_adjustment_tx
apply_order_cancellation_billing_tx loc new_entry new_period new_adjustment customer_id order_id
      amount at db =
    elim (period_of_order order_id db) [
      | none ↦ err no_rows
      | some period ↦
          let cancel = λ (period_id : ℕ). λ (t : Db).
            insert_entry new_entry period_id EntryType.order_cancellation order_id (pos 0 -ℤ amount)
              at t in
          if is_open_period period.status
          then ok (pos 0 -ℤ amount, cancel period.id db)
          else elim (invoice_of_period period.id db) [
            | none ↦ err invoice_not_found
            | some inv ↦
                if is_paid_invoice inv.status
                then elim (ensure_open_period_tx loc new_period customer_id at db) [
                  | err e ↦ err e
                  | ok (open_id, db') ↦ ok (pos 0, cancel open_id db')
                ]
                else elim (apply_invoice_credit_adjustment_tx at new_adjustment inv.id customer_id
                    amount db) [ err e ↦ err e | ok (_, db') ↦ ok (pos 0, db') ]
          ]
    ]
