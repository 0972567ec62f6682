-- ===== src/Billing/Periods/Open.antt =====
-- At most one open period (`EnsureOpenPeriodTx` in service.go, cycle.go).
use pontoqap.Base.{
  ℕ, List, [], ◌∷◌, if◌then◌else◌, ◌+◌, ◌≡◌, ◌≤◌, ◌==◌, arith, inl, inr, Option-cases,
}
use pontoqap.Store.Schema.{Period, Db}
use pontoqap.Store.Tx.{ok}
use pontoqap.Store.Table.{select_first, count_where, insert_row}
use pontoqap.Store.Table.Counts.{count_where-append, count_where-none, count_where-some}
use pontoqap.Billing.Dates.{Location}
use pontoqap.Billing.Periods.{open_for, ensure_open_period_tx, local_date, next_period}

-- How many periods of a customer are open.
abbrev pub open_count : ℕ → Db → ℕ
open_count customer_id db = count_where (open_for customer_id) db.periods

-- No customer has more than one open period.
abbrev pub HasOneOpen : Db → Type 0
HasOneOpen db = (customer_id : ℕ) → open_count customer_id db ≤ 1

-- A new period is one more that is open, for its customer.
pub opened_count :
    (new_id customer_id other year month : ℕ) (db : Db) (t : List Period)
    → count_where (open_for other) (insert_row (next_period new_id customer_id year month db) t)
      ≡ count_where (open_for other) t + (if customer_id == other then 1 else 0)
unfolding count_where
opened_count new_id customer_id other year month db t = ground (
  arith,
  count_where-append (open_for other) t (next_period new_id customer_id year month db ∷ []),
)

-- Opening a period where there is none keeps every customer to one open period at most, and leaves
-- this customer with exactly one.
pub ensure_open_period_tx-HasOneOpen :
    (loc : Location) (new_id customer_id at : ℕ) (db : Db) {db' : Db} {id : ℕ}
    → HasOneOpen db
    → ensure_open_period_tx loc new_id customer_id at db ≡ ok (id, db')
    → HasOneOpen db' × (open_count customer_id db' ≡ 1)
unfolding ensure_open_period_tx
ensure_open_period_tx-HasOneOpen loc new_id customer_id at db {db'} {id} h e =
    elim (Option-cases (select_first (open_for customer_id) db.periods)) [
      | inr (p, there) ↦
          let some_open = count_where-some (open_for customer_id) db.periods {r = p} there in
          let same : db' ≡ db = ground arith in (rw same h, rw same (ground (arith, h customer_id)))
      | inl missing ↦
          let closed = count_where-none (open_for customer_id) db.periods missing in
          let grown = λ (other : ℕ).
            opened_count new_id customer_id other (local_date loc at).year (local_date loc at).month
              db db.periods in
          (
            λ other. ground (arith, h other, closed, grown other),
            ground (arith, closed, grown customer_id),
          )
    ]
