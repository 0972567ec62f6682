-- ===== src/Billing/Periods.antt =====
-- Periods and their entries: backend/internal/billing/service.go and cycle.go, and the closing of
-- close.go.
pub mod Open
pub mod Closing
pub mod Cycles
use pontoqap.Base.{
  ℕ, zero, suc, ◌+◌, ◌-◌, ◌/◌, Bool, true, false, ◌&&◌, ◌||◌, not, Option, none, some, List, [],
  ◌∷◌, ◌++◌, ◌==◌, ltb, leb, if◌then◌else◌, map,
}
use pontoqap.Base.Int.{ℤ, pos, ◌+ℤ◌, ◌-ℤ◌, ltb_ℤ, leb_ℤ, pos_part}
use pontoqap.Store.Table.{select_first, select_where, update_where, max_where, insert_row}
use pontoqap.Store.Table.Keys.{find_by, update_by}
use pontoqap.Store.Schema.{
  Period, PeriodStatus, Entry, EntryType, Invoice, InvoiceStatus, InvoiceItem, CloseType, Db,
}
use pontoqap.Store.Tx.{
  Tx, Result, ok, err, Error, pure, throw_if, gets, modify, or_throw, ◌>>=◌, ◌>>◌, run_tx, no_rows,
  period_not_found, period_not_open, period_empty, no_open_period,
}
use pontoqap.Billing.Dates.{
  Location, Civil, civil_of_day, seconds_per_day, due_at_for_competence, is_monthly_closing_day,
  previous_month,
}
use pontoqap.Billing.Policy.{get_active_policy}
use pontoqap.Billing.Plan.{create_pending_payment_plan_tx}
use pontoqap.Billing.Rows.{period_key, is_open_period}

-- The open period of a customer.
abbrev pub open_for : ℕ → Period → Bool
open_for customer_id p = p.customer_id == customer_id && is_open_period p.status

-- A customer's periods of one month.
abbrev pub of_month : ℕ → ℕ → ℕ → Period → Bool
of_month customer_id year month p =
    p.customer_id == customer_id && (p.reference_year == year && p.reference_month == month)

-- A new open period, its cycle counted on from the customer's last in that month.
abbrev pub next_period : ℕ → ℕ → ℕ → ℕ → Db → Period
next_period new_id customer_id year month db = record {
  id = new_id;
  customer_id = customer_id;
  reference_year = year;
  reference_month = month;
  cycle_number = max_where (of_month customer_id year month) (λ p. p.cycle_number) db.periods + 1;
  status = PeriodStatus.open_period;
}

-- Where a cancellation finds the order: its first entry of type `order`, and that entry's period.
abbrev pub is_order_entry : ℕ → Entry → Bool
is_order_entry order_id e =
    e.order_id == order_id
    && (elim e.entry_type [ EntryType.order_entry ↦ true | EntryType.order_cancellation ↦ false ])

unfoldable pub period_of_order : ℕ → Db → Option Period
period_of_order order_id db = elim (select_first (is_order_entry order_id) db.entries) [
  | none ↦ none
  | some e ↦ find_by period_key e.billing_period_id db.periods
]

-- `INSERT INTO billing_entries`.
abbrev pub insert_entry : ℕ → ℕ → EntryType → ℕ → ℤ → ℕ → Db → Db
insert_entry new_id period_id entry_type order_id amount at db = record db {
  entries =
      insert_row
        (record {
          id = new_id;
          billing_period_id = period_id;
          entry_type = entry_type;
          order_id = order_id;
          amount_cents = amount;
          occurred_at = at;
        })
        db.entries;
}

-- The entries of a period, and the loop that adds them up.
abbrev pub entries_of : ℕ → Db → List Entry
entries_of period_id db = select_where (λ e. e.billing_period_id == period_id) db.entries

unfoldable pub subtotal_of : ℤ → List Entry → ℤ
subtotal_of acc [] = acc
subtotal_of acc (e ∷ es) = subtotal_of (acc +ℤ e.amount_cents) es

abbrev pub item_of : ℕ → Entry → InvoiceItem
item_of invoice_id e = record {
  invoice_id = invoice_id;
  billing_entry_id = e.id;
  total_cents = e.amount_cents;
}

abbrev pub invoice_of_period : ℕ → Db → Option Invoice
invoice_of_period period_id db =
    find_by (λ (i : Invoice). i.billing_period_id) period_id db.invoices

module _ (loc : Location) where
  -- The civil date in São Paulo of an instant.
  unfoldable pub local_date : ℕ → Civil
  local_date t = civil_of_day (loc.local t / seconds_per_day)

  -- `EnsureOpenPeriodTx`: the customer's open period, opened in the current month if there is none.
  unfoldable pub ensure_open_period_tx : ℕ → ℕ → ℕ → Tx Db ℕ
  ensure_open_period_tx new_id customer_id at db =
      elim (select_first (open_for customer_id) db.periods) [
        | some p ↦ ok (p.id, db)
        | none ↦
            let today = local_date at in
            ok (
              new_id,
              record db {
                periods =
                    insert_row (next_period new_id customer_id today.year today.month db)
                      db.periods;
              },
            )
      ]

  -- `AddOrderEntryTx`.
  unfoldable pub add_order_entry_tx : ℕ → ℕ → ℕ → ℕ → ℕ → ℕ → Tx Db (Unit {0})
  unfolding ensure_open_period_tx
  add_order_entry_tx new_period new_entry customer_id order_id amount at = do
    period_id ← ensure_open_period_tx new_period customer_id at
    modify (insert_entry new_entry period_id EntryType.order_entry order_id (pos amount) at)

  -- `OpenNextCycleTx`: the month of the closed period while it lasts, the current one after.
  unfoldable pub open_next_cycle_tx : ℕ → ℕ → ℕ → ℕ → ℕ → Tx Db ℕ
  open_next_cycle_tx new_id customer_id closed_year closed_month at db =
      let today = local_date at in
      let moved_on = not (today.year == closed_year) || not (today.month == closed_month) in
      let year = if moved_on then today.year else closed_year in
      let month = if moved_on then today.month else closed_month in
      ok (
        new_id,
        record db {
          periods = insert_row (next_period new_id customer_id year month db) db.periods;
        },
      )

  -- The writes of `closePeriodTx` once the subtotal is known; it has no credit and no adjustment, so
  -- its total is the subtotal. The event for the e-mail is published outside this model.
  unfoldable pub issue_invoice : ℕ → ℕ → Period → CloseType → List Entry → ℕ → Tx Db Invoice
  issue_invoice new_invoice new_plan period close_type entries subtotal = do
    let inv : Invoice = record {
      id = new_invoice;
      customer_id = period.customer_id;
      billing_period_id = period.id;
      status = InvoiceStatus.open_invoice;
      subtotal_cents = subtotal;
      adjustment_cents = pos 0;
      total_cents = subtotal;
      paid_cents = 0;
      due_at = due_at_for_competence loc period.reference_year period.reference_month;
      paid_at = none;
      close_type = close_type;
    }
    modify λ db. record db { invoices = insert_row inv db.invoices }
    policy ← (λ db. elim (get_active_policy db) [ ok p ↦ ok (p, db) | err e ↦ err e ])
    create_pending_payment_plan_tx new_plan new_invoice subtotal policy
    modify λ db. record db { invoice_items = db.invoice_items ++ map (item_of new_invoice) entries }
    modify λ db. record db {
      periods =
          update_by period_key period.id (λ p. record p { status = PeriodStatus.closed_period })
            db.periods;
    }
    pure inv

  -- `closePeriodTx`. A period that has an invoice already gives that invoice.
  unfoldable pub close_period_tx : ℕ → ℕ → ℕ → CloseType → Tx Db Invoice
  close_period_tx new_invoice new_plan period_id close_type db =
      elim (find_by period_key period_id db.periods) [
        | none ↦ err period_not_found
        | some period ↦ elim (invoice_of_period period_id db) [
          | some existing ↦ ok (existing, db)
          | none ↦
              let entries = entries_of period_id db in
              let subtotal = subtotal_of (pos 0) entries in
              -- A period with no entry has the subtotal 0.
              if not (is_open_period period.status)
              then err period_not_open
              else if leb_ℤ subtotal (pos 0)
              then err period_empty
              else issue_invoice new_invoice new_plan period close_type entries (pos_part subtotal)
                  db
        ]
      ]

  -- `CloseCustomerOpenPeriod`, inside its transaction.
  unfoldable pub close_customer_open_period : ℕ → ℕ → ℕ → ℕ → ℕ → Tx Db Invoice
  close_customer_open_period new_invoice new_plan new_period customer_id now = do
    period ←
        (λ (db : Db). or_throw (select_first (open_for customer_id) db.periods) no_open_period db)
    inv ← close_period_tx new_invoice new_plan period.id CloseType.customer_request
    open_next_cycle_tx new_period customer_id period.reference_year period.reference_month now
        >>= λ _. pure inv

  -- The loop of `CloseOpenPeriodsForReference`, each period in a transaction of its own: empty periods
  -- are passed over, any other error ends the loop.
  unfoldable pub close_each :
      (ℕ → ℕ) → (ℕ → ℕ) → CloseType → List Period → ℕ → Db → ℕ × Option Error × Db
  close_each new_invoice new_plan close_type [] closed db = (closed, none, db)
  close_each new_invoice new_plan close_type (p ∷ ps) closed db =
      let (r, db') =
        run_tx (close_period_tx (new_invoice p.id) (new_plan p.id) p.id close_type) db in
      let passed = close_each new_invoice new_plan close_type ps closed db' in
      let counted = close_each new_invoice new_plan close_type ps (closed + 1) db' in
      elim r [ ok _ ↦ counted | err period_empty ↦ passed | err e ↦ (closed, some e, db') ]

  -- `CloseOpenPeriodsForReference`.
  unfoldable pub close_open_periods_for_reference :
      (ℕ → ℕ) → (ℕ → ℕ) → ℕ → ℕ → CloseType → Db → ℕ × Option Error × Db
  unfolding close_each
  close_open_periods_for_reference new_invoice new_plan year month close_type db =
      close_each new_invoice new_plan close_type
        (select_where
          (λ p. p.reference_year == year && (p.reference_month == month && is_open_period p.status))
          db.periods)
        0 db

  -- `RunScheduledClosingIfDue`: on day 1 the periods of the month before are closed.
  unfoldable pub run_scheduled_closing_if_due :
      (ℕ → ℕ) → (ℕ → ℕ) → ℕ → Db → Bool × ℕ × Option Error × Db
  unfolding close_open_periods_for_reference
  run_scheduled_closing_if_due new_invoice new_plan now db =
      let today = local_date now in
      let (year, month) = previous_month today.year today.month in
      let (n, e, db') =
        close_open_periods_for_reference new_invoice new_plan year month CloseType.monthly_auto
          db in
      if is_monthly_closing_day loc now then (true, n, e, db') else (false, 0, none, db)
