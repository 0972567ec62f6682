-- ===== src/Billing/Periods/Cycles.antt =====
-- Periods after a closing: closing again, and the next cycle (close.go, cycle.go).
use pontoqap.Base.{
  ℕ, ◌≡◌, true, some, none, ◌==◌, not, refl, arith, inl, inr, Option-cases, if◌then◌else◌, ◌||◌,
}
use pontoqap.Store.Schema.{Period, PeriodStatus, Invoice, CloseType, Db}
use pontoqap.Store.Tx.{ok, Result-cases}
use pontoqap.Store.Table.{select_first, insert_row}
use pontoqap.Store.Table.Keys.{find_by, IsUnique, find_by-insert, find_by-update_by}
use pontoqap.Store.Table.Counts.{
  count_where-update_by, count_where-some, find_by-select_first, select_first-meets,
}
use pontoqap.Billing.Dates.{Location}
use pontoqap.Billing.Rows.{period_key, is_open_period}
use pontoqap.Billing.Periods.{
  open_for, open_next_cycle_tx, close_period_tx, close_customer_open_period, invoice_of_period,
  next_period, local_date,
}
use pontoqap.Billing.Periods.Open.{HasOneOpen, open_count, opened_count}
use pontoqap.Billing.Periods.Closing.{close_period_tx-Closes}

-- An open period has no invoice yet.
abbrev pub HasFreshPeriods : Db → Type 0
HasFreshPeriods db =
    (period_id : ℕ) (p : Period)
    → find_by period_key period_id db.periods ≡ some p
    → is_open_period p.status ≡ true
    → invoice_of_period period_id db ≡ none

-- A period that was closed can be closed again, with any other identifiers at hand: the same invoice
-- is given back and nothing changes.
pub close_period_tx-again :
    (loc : Location) (new_invoice new_plan period_id : ℕ) (close_type : CloseType)
    (new_invoice' new_plan' : ℕ) (close_type' : CloseType) (db : Db) {inv : Invoice} {db' : Db}
    → close_period_tx loc new_invoice new_plan period_id close_type db ≡ ok (inv, db')
    → close_period_tx loc new_invoice' new_plan' period_id close_type' db' ≡ ok (inv, db')
unfolding close_period_tx
close_period_tx-again loc new_invoice new_plan period_id close_type new_invoice' new_plan'
      close_type' db {inv} {db'} e =
    elim (Option-cases (invoice_of_period period_id db)) [
      | inr (known, there) ↦ ground arith
      | inl fresh ↦
          let c =
            close_period_tx-Closes loc new_invoice new_plan close_type db period_id {inv = inv}
              {db' = db'} fresh e in
          let stored : invoice_of_period period_id db' ≡ some inv = ground (
            arith,
            c.issued,
            c.of_period,
            find_by-insert (λ (i : Invoice). i.billing_period_id) period_id inv db.invoices,
          ) in
          let still =
            find_by-update_by period_key period_id period_id
              (λ p. record p { status = PeriodStatus.closed_period }) db.periods (λ r. refl) in
          ground (arith, c.closed, c.found, still, stored)
    ]

module _ (loc : Location) (new_invoice new_plan new_period customer_id now : ℕ) (db : Db) where
  -- When a customer closes the open period and goes on to the next cycle, every customer still has at
  -- most one open period and this one has exactly one, if identifiers are unique and open periods
  -- have no invoice.
  pub close_customer_open_period-HasOneOpen :
      {inv : Invoice} {db' : Db}
      → IsUnique period_key db.periods
      → HasFreshPeriods db
      → HasOneOpen db
      → close_customer_open_period loc new_invoice new_plan new_period customer_id now db
        ≡ ok (inv, db')
      → HasOneOpen db' × (open_count customer_id db' ≡ 1)
  unfolding close_customer_open_period open_next_cycle_tx
  close_customer_open_period-HasOneOpen {inv} {db'} u fresh h e =
      elim (Option-cases (select_first (open_for customer_id) db.periods)) [
        | inl missing ↦ absurd (ground arith)
        | inr (period, there) ↦
            let found =
              find_by-select_first (open_for customer_id) period_key db.periods {r = period} u
                there in
            let opened = select_first-meets (open_for customer_id) db.periods {r = period} there in
            elim (Result-cases
              (close_period_tx loc new_invoice new_plan period.id CloseType.customer_request db)) [
                | inl (wrong, failed) ↦ absurd (ground arith)
                | inr ((inv1, db1), closed) ↦
                    let c =
                      close_period_tx-Closes loc new_invoice new_plan CloseType.customer_request db
                        period.id {inv = inv1} {db' = db1}
                        (fresh period.id period found (ground arith)) closed in
                    let left = λ (other : ℕ).
                      count_where-update_by (open_for other) period_key period.id
                        (λ p. record p { status = PeriodStatus.closed_period }) db.periods
                        {r = period} u found in
                    let one =
                      count_where-some (open_for customer_id) db.periods {r = period} there in
                    let today = local_date loc now in
                    let moved_on =
                      not (today.year == period.reference_year)
                      || not (today.month == period.reference_month) in
                    let grown = λ (other : ℕ).
                      opened_count new_period customer_id other
                        (if moved_on then today.year else period.reference_year)
                        (if moved_on then today.month else period.reference_month) db1
                        db1.periods in
                    let after : db'.periods
                        ≡ insert_row
                            (next_period new_period customer_id
                              (if moved_on then today.year else period.reference_year)
                              (if moved_on then today.month else period.reference_month) db1)
                            db1.periods =
                      ground arith in
                    let count : (other : ℕ) → open_count other db' ≡ open_count other db =
                      λ other. ground (arith, after, c.closed, left other, grown other, opened) in
                    (
                      λ other. ground (arith, h other, count other),
                      ground (arith, h customer_id, one, count customer_id),
                    )
              ]
      ]
