-- ===== src/Billing/Selection/Insert.antt =====
-- The loops of `SelectPaymentPlan`: the dates, and the installments that it inserts.
use pontoqap.Base.{
  ℕ, zero, suc, ◌+◌, ◌*◌, ◌≡◌, Bool, List, [], ◌∷◌, ◌==◌, ltb, if◌then◌else◌, length, sum, inl, inr,
  arith, refl, ◌∙◌,
}
use pontoqap.Store.Table.{sum_where}
use pontoqap.Store.Table.Sums.{sum_where-append}
use pontoqap.Store.Schema.{Installment, CalendarDay, Db}
use pontoqap.Store.Tx.{ok, Result-cases}
use pontoqap.Billing.Dates.{Location, calendar_date_only}
use pontoqap.Billing.Calendar.{
  due_dates_from, build_installment_due_dates, adjust_due_date, raw_due_date,
}
use pontoqap.Billing.Selection.{
  insert_installments, insert_installment, installment_row, insert_row,
}

module _ (loc : Location) (calendar : List CalendarDay) where
  due_dates_from-length :
      (anchor interval : ℕ) (adjust : Bool) (i left : ℕ) {dates : List ℕ}
      → due_dates_from loc calendar anchor interval adjust i left ≡ ok dates
      → length dates ≡ left
  unfolding due_dates_from
  due_dates_from-length anchor interval adjust i zero e = ground arith
  due_dates_from-length anchor interval adjust i (suc left) {dates} e =
      elim (Result-cases
        (adjust_due_date loc calendar adjust (raw_due_date loc anchor (i * interval)))) [
          | inl (wrong, failed) ↦ absurd (ground arith)
          | inr (d, first) ↦
              elim (Result-cases
                (due_dates_from loc calendar anchor interval adjust (i + 1) left)) [
                  | inl (wrong, failed) ↦ absurd (ground arith)
                  | inr (ds, later) ↦
                      let rest =
                        due_dates_from-length anchor interval adjust (i + 1) left {dates = ds}
                          later in
                      ground (arith)
                ]
        ]

  -- As many dates as installments.
  pub build_installment_due_dates-length :
      (first_due count interval : ℕ) (adjust : Bool) {dates : List ℕ}
      → build_installment_due_dates loc calendar first_due count interval adjust ≡ ok dates
      → length dates ≡ count
  unfolding build_installment_due_dates
  build_installment_due_dates-length first_due count interval adjust {dates} e =
      due_dates_from-length (calendar_date_only loc first_due)
        (if ltb interval 1 then 1 else interval) adjust 0 count {dates = dates} e

-- What the installments of a plan come to.
abbrev pub amount_of : ℕ → Db → ℕ
amount_of plan_id db =
    sum_where (λ r. r.payment_plan_id == plan_id) (λ (r : Installment). r.amount_cents)
      db.installments

added_amount :
    (plan_id : ℕ) (r : Installment) (db : Db)
    → amount_of plan_id (record db { installments = insert_row r db.installments })
      ≡ amount_of plan_id db + (if r.payment_plan_id == plan_id then r.amount_cents else 0)
unfolding sum_where
added_amount plan_id r db = ground (
  arith,
  sum_where-append (λ x. x.payment_plan_id == plan_id) (λ (x : Installment). x.amount_cents)
      db.installments (r ∷ []),
)

insert_installment-row :
    (r : Installment) (db : Db) {db' : Db}
    → insert_installment r db ≡ ok (tt, db')
    → db' ≡ record db { installments = insert_row r db.installments }
unfolding insert_installment
insert_installment-row r db e = ground arith

-- The loop inserts every amount, and touches no plan.
pub insert_installments-amount :
    (ids : ℕ → ℕ) (plan_id invoice_id i : ℕ) (amounts dates : List ℕ) (db : Db) {db' : Db}
    → length amounts ≡ length dates
    → insert_installments ids plan_id invoice_id i amounts dates db ≡ ok (tt, db')
    → (amount_of plan_id db' ≡ amount_of plan_id db + sum amounts) × (db'.plans ≡ db.plans)
unfolding insert_installments
insert_installments-amount ids plan_id invoice_id i [] dates db same e = ground arith
insert_installments-amount ids plan_id invoice_id i (a ∷ amounts) [] db same e =
    absurd (ground arith)
insert_installments-amount ids plan_id invoice_id i (a ∷ amounts) (d ∷ dates) db {db'} same e =
    let row = installment_row (ids i) plan_id invoice_id i a d in
    elim (Result-cases (insert_installment row db)) [
      | inl (wrong, failed) ↦ absurd (ground arith)
      | inr ((u, db1), added) ↦
          let more = insert_installment-row row db {db' = db1} added in
          let rest =
            insert_installments-amount ids plan_id invoice_id (i + 1) amounts dates db1 {db' = db'}
              (omega arith) (ground arith) in
          let grown : amount_of plan_id db1 ≡ amount_of plan_id db + a =
            ground (arith, more, added_amount plan_id row db) in
          (omega arith, rest.1 ∙ (rw more refl))
    ]
