-- ===== src/Billing/Periods/Closing.antt =====
-- Closing a period into an invoice (`closePeriodTx`, close.go; `CloseCustomerOpenPeriod`, cycle.go).
use pontoqap.Base.{
  ℕ, ◌≡◌, ◌≤◌, sym, ◌∙◌, true, false, some, none, List, [], ◌∷◌, ◌++◌, map, arith, inl, inr,
  Option-cases,
}
use pontoqap.Base.Int.{ℤ, pos, pos_part, ◌+ℤ◌, int_laws, leb_ℤ}
use pontoqap.Store.Schema.{Period, PeriodStatus, Invoice, InvoiceItem, Entry, CloseType, Db}
use pontoqap.Store.Tx.{ok}
use pontoqap.Store.Table.{insert_row}
use pontoqap.Store.Table.Keys.{find_by, update_by, find_by-key}
use pontoqap.Billing.Dates.{Location}
use pontoqap.Billing.Rows.{period_key, is_open_period}
use pontoqap.Billing.Policy.{get_active_policy}
use pontoqap.Billing.Plan.{create_pending_payment_plan_tx}
use pontoqap.Billing.Periods.{
  close_period_tx, issue_invoice, entries_of, subtotal_of, item_of, invoice_of_period,
}

-- What the items of an invoice come to.
abbrev pub items_total : List InvoiceItem → ℤ
items_total [] = pos 0
items_total (r ∷ rs) = r.total_cents +ℤ items_total rs

subtotal_of-items :
    (invoice_id : ℕ) (acc : ℤ) (entries : List Entry)
    → subtotal_of acc entries ≡ acc +ℤ items_total (map (item_of invoice_id) entries)
unfolding subtotal_of
subtotal_of-items invoice_id acc [] = grind int_laws
subtotal_of-items invoice_id acc (e ∷ es) =
    grind (int_laws, subtotal_of-items invoice_id (acc +ℤ e.amount_cents) es)

-- A closing that issues an invoice: the period was open; its invoice has the items of the period's
-- entries, a total that is their sum and more than 0, and nothing paid; and the period is closed.
pub record Closes (period_id : ℕ) (inv : Invoice) (db db' : Db) : Type 0 where
  pub period : Period
  pub found : find_by period_key period_id db.periods ≡ some period
  pub opened : is_open_period period.status ≡ true
  pub of_period : inv.billing_period_id ≡ period_id
  pub positive : 1 ≤ inv.total_cents
  pub unpaid : inv.paid_cents ≡ 0
  pub total : pos inv.total_cents ≡ items_total (map (item_of inv.id) (entries_of period_id db))
  pub items : db'.invoice_items ≡ db.invoice_items ++ map (item_of inv.id) (entries_of period_id db)
  pub issued : db'.invoices ≡ insert_row inv db.invoices
  pub closed :
      db'.periods
      ≡ update_by period_key period_id
          (λ p. record p { status = PeriodStatus.closed_period })
          db.periods

-- What the writes of a closing leave.
record Issues (period : Period) (entries : List Entry) (subtotal new_invoice : ℕ) (inv : Invoice)
    (db db' : Db) : Type 0 where
  named : inv.id ≡ new_invoice
  of_period : inv.billing_period_id ≡ period.id
  total : inv.total_cents ≡ subtotal
  unpaid : inv.paid_cents ≡ 0
  items : db'.invoice_items ≡ db.invoice_items ++ map (item_of new_invoice) entries
  issued : db'.invoices ≡ insert_row inv db.invoices
  closed :
      db'.periods
      ≡ update_by period_key period.id
          (λ p. record p { status = PeriodStatus.closed_period })
          db.periods

module _ (loc : Location) (new_invoice new_plan : ℕ) (close_type : CloseType) (db : Db) where
  issue_invoice-Issues :
      (period : Period) (entries : List Entry) (subtotal : ℕ) {inv : Invoice} {db' : Db}
      → issue_invoice loc new_invoice new_plan period close_type entries subtotal db ≡ ok (inv, db')
      → Issues period entries subtotal new_invoice inv db db'
  unfolding issue_invoice get_active_policy create_pending_payment_plan_tx
  issue_invoice-Issues period entries subtotal {inv} {db'} e = record {
    named = ground arith;
    of_period = ground arith;
    total = ground arith;
    unpaid = ground arith;
    items = ground arith;
    issued = ground arith;
    closed = ground arith;
  }

  -- Closing a period that has no invoice yet issues one for the sum of its entries, and closes it.
  pub close_period_tx-Closes :
      (period_id : ℕ) {inv : Invoice} {db' : Db}
      → invoice_of_period period_id db ≡ none
      → close_period_tx loc new_invoice new_plan period_id close_type db ≡ ok (inv, db')
      → Closes period_id inv db db'
  unfolding close_period_tx
  close_period_tx-Closes period_id {inv} {db'} fresh e =
      elim (Option-cases (find_by period_key period_id db.periods)) [
        | inl missing ↦ absurd (ground arith)
        | inr (period, there) ↦
            let same = find_by-key period_key period_id db.periods {r = period} there in
            let subtotal = subtotal_of (pos 0) (entries_of period_id db) in
            let s =
              issue_invoice-Issues period (entries_of period_id db) (pos_part subtotal) {inv = inv}
                {db' = db'} (ground arith) in
            let more : leb_ℤ subtotal (pos 0) ≡ false = ground arith in
            record {
              period = period;
              found = there;
              opened = ground arith;
              of_period = s.of_period ∙ same;
              positive = ground (arith, s.total);
              unpaid = s.unpaid;
              total =
                  grind
                    (int_laws, s.total, subtotal_of-items inv.id (pos 0) (entries_of period_id db));
              items = rw s.named s.items;
              issued = s.issued;
              closed = rw (sym same) s.closed;
            }
      ]
