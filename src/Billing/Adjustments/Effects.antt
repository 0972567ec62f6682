-- ===== src/Billing/Adjustments/Effects.antt =====
-- What an adjustment does to its invoice (`AddInvoiceAdjustment`, `applyInvoiceCreditAdjustmentTx`).
use pontoqap.Store.Table.Rows.{All-update_by, All-select_first}
use pontoqap.Store.Table.Keys.{IsUnique}
use pontoqap.Billing.Adjustments.{
  invoice_status_after_adjustment, adjust_invoice_tx, ok, adjust_invoice, get_invoice, update_by,
  invoice_key, update_invoice_after_adjustment, expire_pending_pix_charges, add_invoice_adjustment,
  apply_invoice_credit_adjustment_tx,
}
use pontoqap.Billing.Rows.{is_paid_invoice}
use pontoqap.Base.Int.{pos, ℤ, ◌+ℤ◌, pos_part, ltb_ℤ, int_laws, +ℤ_parts, ◌-ℤ◌}
use pontoqap.Base.{
  none, some, ℕ, ◌≡◌, ◌≤◌, true, false, some, arith, Option-cases, inl, inr, All, ◌==◌, Option,
  Bool,
}
use pontoqap.Store.Schema.{Invoice, AdjustmentType, Db}

-- The columns of an invoice agree: the total is the subtotal with the adjustments, no more is paid
-- than the total, and an invoice whose status is `paid` is paid in full.
pub record HasTotals (inv : Invoice) : Type 0 where
  pub sum : pos inv.total_cents ≡ pos inv.subtotal_cents +ℤ inv.adjustment_cents
  pub bounded : inv.paid_cents ≤ inv.total_cents
  pub full : is_paid_invoice inv.status ≡ true → inv.paid_cents ≡ inv.total_cents

-- The columns that an adjustment by `signed` of the invoice `inv` writes over a row.
abbrev adjusted : ℕ → ℤ → Invoice → Invoice → Invoice
adjusted now signed inv r =
    let total = pos_part (pos inv.total_cents +ℤ signed) in
    let s = invoice_status_after_adjustment total inv.paid_cents inv.status in
    adjust_invoice now (inv.adjustment_cents +ℤ signed) total s.0 s.1 r

-- What an adjustment that succeeds has met and written.
record Adjusts (now invoice_id : ℕ) (signed : ℤ) (db db' : Db) : Type 0 where
  inv : Invoice
  found : get_invoice invoice_id db ≡ some inv
  running : is_paid_invoice inv.status ≡ false
  enough : ltb_ℤ (pos inv.total_cents +ℤ signed) (pos inv.paid_cents) ≡ false
  not_negative : ltb_ℤ (pos inv.total_cents +ℤ signed) (pos 0) ≡ false
  written : db'.invoices ≡ update_by invoice_key invoice_id (adjusted now signed inv) db.invoices

adjusted-HasTotals :
    (now : ℕ) (signed : ℤ) (inv : Invoice)
    → HasTotals inv
    → is_paid_invoice inv.status ≡ false
    → ltb_ℤ (pos inv.total_cents +ℤ signed) (pos inv.paid_cents) ≡ false
    → ltb_ℤ (pos inv.total_cents +ℤ signed) (pos 0) ≡ false
    → HasTotals (adjusted now signed inv inv)
unfolding invoice_status_after_adjustment
adjusted-HasTotals now signed inv h running enough positive = record {
  sum = grind (int_laws, h.sum);
  bounded = ground (arith, +ℤ_parts (pos inv.total_cents) signed);
  full = λ e. ground (arith, +ℤ_parts (pos inv.total_cents) signed);
}

module _ (now new_id invoice_id customer_id : ℕ) (kind : AdjustmentType) (amount : ℕ) (signed : ℤ)
    (db : Db) where
  adjust_invoice_tx-Adjusts :
      {db' : Db}
      → adjust_invoice_tx now new_id invoice_id customer_id kind amount signed db ≡ ok (tt, db')
      → Adjusts now invoice_id signed db db'
  unfolding adjust_invoice_tx update_invoice_after_adjustment expire_pending_pix_charges
  adjust_invoice_tx-Adjusts {db'} e = elim (Option-cases (get_invoice invoice_id db)) [
    | inl missing ↦ absurd (ground arith)
    | inr (inv, there) ↦ record {
      inv = inv;
      found = there;
      running = ground arith;
      enough = ground arith;
      not_negative = ground arith;
      written = ground arith;
    }
  ]

  pub adjust_invoice_tx-HasTotals :
      {db' : Db}
      → IsUnique invoice_key db.invoices
      → All HasTotals db.invoices
      → adjust_invoice_tx now new_id invoice_id customer_id kind amount signed db ≡ ok (tt, db')
      → All HasTotals db'.invoices
  adjust_invoice_tx-HasTotals {db'} u h e =
      let a = adjust_invoice_tx-Adjusts {db' = db'} e in
      rw a.written (
        All-update_by HasTotals invoice_key invoice_id (adjusted now signed a.inv) db.invoices
          {r = a.inv} u a.found
          (adjusted-HasTotals now signed a.inv
            (All-select_first HasTotals (λ r. r.id == invoice_id) db.invoices {r = a.inv} h a.found)
            a.running a.enough a.not_negative)
          h)

-- The columns of every invoice agree after `AddInvoiceAdjustment` if they did before: a debit or a
-- credit moves the total and the adjustments together, never below what is paid, and the invoice is
-- only marked paid when it is paid in full.
pub add_invoice_adjustment-HasTotals :
    (now new_id invoice_id : ℕ) (kind : Option AdjustmentType) (amount : ℤ) (reason_empty : Bool)
    (db : Db) {db' : Db}
    → IsUnique invoice_key db.invoices
    → All HasTotals db.invoices
    → add_invoice_adjustment now new_id invoice_id kind amount reason_empty db ≡ ok (tt, db')
    → All HasTotals db'.invoices
unfolding add_invoice_adjustment
add_invoice_adjustment-HasTotals now new_id invoice_id none amount reason_empty db u h e =
    absurd (ground arith)
add_invoice_adjustment-HasTotals now new_id invoice_id (some kind) amount reason_empty db {db'} u h
      e =
    elim (Option-cases (get_invoice invoice_id db)) [
      | inl missing ↦ absurd (ground arith)
      | inr (inv, there) ↦
          adjust_invoice_tx-HasTotals now new_id invoice_id inv.customer_id kind (pos_part amount)
            (elim kind [ AdjustmentType.credit ↦ pos 0 -ℤ amount | AdjustmentType.debit ↦ amount ])
            db {db' = db'} u h (ground arith)
    ]

pub apply_invoice_credit_adjustment_tx-HasTotals :
    (now new_id invoice_id customer_id : ℕ) (amount : ℤ) (db : Db) {db' : Db}
    → IsUnique invoice_key db.invoices
    → All HasTotals db.invoices
    → apply_invoice_credit_adjustment_tx now new_id invoice_id customer_id amount db ≡ ok (tt, db')
    → All HasTotals db'.invoices
unfolding apply_invoice_credit_adjustment_tx
apply_invoice_credit_adjustment_tx-HasTotals now new_id invoice_id customer_id amount db {db'} u h
      e =
    adjust_invoice_tx-HasTotals now new_id invoice_id customer_id AdjustmentType.credit
      (pos_part amount) (pos 0 -ℤ amount) db {db' = db'} u h (ground arith)
