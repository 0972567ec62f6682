-- ===== src/Billing/Selection.antt =====
-- Selecting and resetting a plan, and the reads of installments: `SelectPaymentPlan`,
-- `ResetPaymentPlan` and the getters of backend/internal/billing/payment_plan.go.
pub mod Insert
pub mod Success
use pontoqap.Base.{
  ℕ, zero, suc, ◌+◌, ◌-◌, ◌/◌, Bool, true, false, ◌&&◌, ◌||◌, not, Option, none, some, List, [],
  ◌∷◌, ◌==◌, ltb, leb, if◌then◌else◌, get_elem?,
}
use pontoqap.Base.Int.{ℤ, pos, ltb_ℤ, pos_part}
use pontoqap.Store.Table.{
  select_first, select_where, update_where, count_where, delete_where, insert_row,
}
use pontoqap.Store.Table.Keys.{find_by, update_by}
use pontoqap.Store.Schema.{
  Invoice, InstallmentPolicy, PaymentPlan, PlanStatus, Installment, InstallmentStatus, Db,
}
use pontoqap.Store.Tx.{
  Tx, Result, ok, err, pure, throw, throw_if, gets, modify, or_throw, ◌>>=◌, ◌>>◌, run_tx,
  check_violation, unique_violation, period_not_found, invalid_installment_count,
  payment_plan_not_pending, payment_plan_immutable, installments_disabled, installment_after_due,
  Error,
}
use pontoqap.Billing.Amounts.{max_installments, distribute_installment_amounts}
use pontoqap.Billing.Dates.{Location, seconds_per_day}
use pontoqap.Billing.Calendar.{build_installment_due_dates}
use pontoqap.Billing.Policy.{get_active_policy}
use pontoqap.Billing.Plan.{plan_params_from_snapshots, ensure_payment_plan, load_plan}
use pontoqap.Billing.Rows.{
  plan_key, plan_invoice, installment_key, remaining_cents, get_invoice, invoice_of_customer,
  is_pending_plan, is_active_plan, is_paid_installment,
}

-- Who asks for which plan, and when; `new_plan_id` and `new_ids` are the identifiers that the
-- database gives to a plan and to the installments, by their place.
pub record Choice : Type 0 where
  pub invoice_id : ℕ
  pub customer_id : ℕ
  pub user_id : ℕ
  pub installment_count : ℤ
  pub now : ℕ
  pub new_plan_id : ℕ
  pub new_ids : ℕ → ℕ

-- The row of one installment: the first is open, the others are scheduled. Its due date is the day
-- of the instant that was computed.
abbrev pub installment_row : ℕ → ℕ → ℕ → ℕ → ℕ → ℕ → Installment
installment_row id plan_id invoice_id i amount date = record {
  id = id;
  payment_plan_id = plan_id;
  invoice_id = invoice_id;
  installment_number = i + 1;
  amount_cents = amount;
  paid_cents = 0;
  remaining_cents = amount;
  due_date = date / seconds_per_day;
  status = if i == 0 then InstallmentStatus.open_installment else InstallmentStatus.scheduled;
}

-- `payment_plan_id = $1 AND installment_number = $2`.
abbrev pub numbered : ℕ → ℕ → Installment → Bool
numbered plan_id number r = r.payment_plan_id == plan_id && r.installment_number == number

-- `INSERT INTO invoice_installments` with the table's constraints on amount and number.
unfoldable pub insert_installment : Installment → Tx Db (Unit {0})
insert_installment r db =
    if r.amount_cents == 0
    then err check_violation
    else if not (count_where (numbered r.payment_plan_id r.installment_number) db.installments == 0)
    then err unique_violation
    else ok (tt, record db { installments = insert_row r db.installments })

-- The loop over the installments from place `i` on; the two slices have the same length.
unfoldable pub insert_installments : (ℕ → ℕ) → ℕ → ℕ → ℕ → List ℕ → List ℕ → Tx Db (Unit {0})
unfolding insert_installment
insert_installments ids plan_id invoice_id i [] dates db = ok (tt, db)
insert_installments ids plan_id invoice_id i (a ∷ amounts) [] db = ok (tt, db)
insert_installments ids plan_id invoice_id i (a ∷ amounts) (d ∷ dates) db =
    elim (insert_installment (installment_row (ids i) plan_id invoice_id i a d) db) [
      | err e ↦ err e
      | ok (_, db') ↦ insert_installments ids plan_id invoice_id (i + 1) amounts dates db'
    ]

-- `UPDATE invoice_payment_plans … WHERE id = $1 AND status = 'pending_selection'`.
unfoldable pub activate_plan : ℕ → ℕ → ℕ → ℕ → Db → Db
activate_plan plan_id count user_id now db = record db {
  plans =
      update_where (λ p. p.id == plan_id && is_pending_plan p.status)
        (λ p. record p {
          status = PlanStatus.active_plan;
          selected_installment_count = some count;
          selected_by_user_id = some user_id;
          selected_at = some now;
        })
        db.plans;
}

-- The error for a count above the maximum.
abbrev pub too_many : Bool → ℕ → Error
too_many live_enabled count =
    if not live_enabled && ltb 1 count then installments_disabled else invalid_installment_count

module _ (loc : Location) where
  -- The transaction of `SelectPaymentPlan`, for a count of at least 1.
  unfoldable pub select_plan_tx : Choice → Invoice → InstallmentPolicy → ℕ → Tx Db (Unit {0})
  select_plan_tx c inv live count = do
    plan ← (λ db. or_throw (load_plan c.invoice_id db) payment_plan_not_pending db)
    throw_if (not (is_pending_plan plan.status)) payment_plan_immutable
    let most =
        max_installments (remaining_cents inv) (plan_params_from_snapshots plan)
          live.installment_enabled
    throw_if (ltb most count) (too_many live.installment_enabled count)
    throw_if (not live.allow_installment_after_due_date && (ltb inv.due_at c.now && ltb 1 count))
        installment_after_due
    let amounts = distribute_installment_amounts (remaining_cents inv) count
    throw_if
        (ltb 1 count && ltb (elim (get_elem? amounts 0) [ none ↦ 0 | some a ↦ a ]) plan.min_inst)
        invalid_installment_count
    dates ← (λ db.
        elim (build_installment_due_dates loc db.calendar inv.due_at count plan.interval
          plan.adjust_biz) [ ok ds ↦ ok (ds, db) | err e ↦ err e ])
    modify (activate_plan plan.id count c.user_id c.now)
    insert_installments c.new_ids plan.id c.invoice_id 0 amounts dates

  -- `SelectPaymentPlan`. Creating a missing plan is committed before the transaction begins.
  unfoldable pub select_payment_plan : Choice → Db → Result (Option PaymentPlan) × Db
  select_payment_plan c db =
      if ltb_ℤ c.installment_count (pos 1)
      then (err invalid_installment_count, db)
      else elim (invoice_of_customer c.invoice_id c.customer_id db) [
        | none ↦ (err period_not_found, db)
        | some inv ↦
            if leb (remaining_cents inv) 0
            then (err invalid_installment_count, db)
            else elim (ensure_payment_plan c.new_plan_id c.invoice_id db) [
              | err e ↦ (err e, db)
              | ok (_, db') ↦ elim (get_active_policy db') [
                | err e ↦ (err e, db')
                | ok live ↦ elim (select_plan_tx c inv live (pos_part c.installment_count) db') [
                  | err e ↦ (err e, db')
                  | ok (_, db'') ↦ (ok (load_plan c.invoice_id db''), db'')
                ]
              ]
            ]
      ]

-- `GetPaymentPlan`.
unfoldable pub get_payment_plan : ℕ → ℕ → Db → Result PaymentPlan
get_payment_plan invoice_id customer_id db = elim (invoice_of_customer invoice_id customer_id db) [
  | none ↦ err period_not_found
  | some inv ↦ elim (load_plan invoice_id db) [ none ↦ err period_not_found | some p ↦ ok p ]
]

-- `InvoiceRequiresInstallmentPix`.
unfoldable pub invoice_requires_installment_pix : ℕ → Db → Bool
invoice_requires_installment_pix invoice_id db = elim (load_plan invoice_id db) [
  | none ↦ false
  | some p ↦ is_pending_plan p.status || is_active_plan p.status
]

-- `GetInstallmentByID`.
abbrev pub get_installment : ℕ → Db → Option Installment
get_installment id db = find_by installment_key id db.installments

-- `GetInstallmentForCustomer`: the join with the invoice of the customer.
unfoldable pub get_installment_for_customer : ℕ → ℕ → Db → Option Installment
get_installment_for_customer id customer_id db = elim (get_installment id db) [
  | none ↦ none
  | some r ↦ elim (invoice_of_customer r.invoice_id customer_id db) [
    | none ↦ none
    | some _ ↦ some r
  ]
]

-- `ResetPaymentPlan`, inside its transaction; who cancelled and why is recorded and not read.
unfoldable pub reset_payment_plan : ℕ → Tx Db (Unit {0})
reset_payment_plan invoice_id = do
  plan ← (λ db. or_throw (load_plan invoice_id db) period_not_found db)
  paid_count ← gets (λ (db : Db).
      count_where (λ r. r.payment_plan_id == plan.id && is_paid_installment r.status)
        db.installments)
  throw_if (ltb 0 paid_count) payment_plan_immutable
  modify λ db. record db {
    installments = delete_where (λ r. r.payment_plan_id == plan.id) db.installments;
  }
  modify λ db. record db {
    plans =
        update_by plan_key plan.id
          (λ p. record p {
            status = PlanStatus.pending_selection;
            selected_installment_count = none;
            selected_by_user_id = none;
            selected_at = none;
          })
          db.plans;
  }
