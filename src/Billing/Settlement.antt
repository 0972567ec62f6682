-- ===== src/Billing/Settlement.antt =====
-- Paying installments: `ApplyInstallmentPaymentTx` and what stands below it in
-- backend/internal/billing/payment_plan.go, with the due dates of invoice_due.go.
pub mod Books
pub mod Payment
pub mod Progress
use pontoqap.Base.{
  ℕ, zero, suc, ◌+◌, ◌-◌, ◌*◌, Bool, true, false, ◌&&◌, ◌||◌, not, Option, none, some, List, [],
  ◌∷◌, ◌==◌, ltb, leb, if◌then◌else◌, ◌/◌,
}
use pontoqap.Store.Table.{select_first, update_where, count_where, min_where}
use pontoqap.Store.Table.Keys.{find_by, update_by}
use pontoqap.Store.Schema.{
  Customer, Invoice, InvoiceStatus, PaymentPlan, PlanStatus, Installment, InstallmentStatus, Db,
}
use pontoqap.Store.Tx.{
  Tx, Result, ok, err, pure, throw_if, gets, modify, or_throw, ◌>>=◌, ◌>>◌, no_rows,
  installment_not_payable, installment_not_sequential,
}
use pontoqap.Billing.Dates.{Location, seconds_per_day, due_at_from_installment_date}
use pontoqap.Billing.Rows.{
  customer_key, invoice_key, plan_key, installment_key, is_payable, is_outstanding, is_active_plan,
  is_scheduled, is_open_installment, is_paid_installment, is_overdue_installment,
  is_running_invoice,
}
use pontoqap.Billing.Selection.{numbered, get_installment}

-- The installment, paid in full.
abbrev pub pay_installment : Installment → Installment
pay_installment r = record r {
  paid_cents = r.amount_cents;
  remaining_cents = 0;
  status = InstallmentStatus.paid_installment;
}

-- `paid_cents + $2` and `GREATEST(0, remaining_cents - $2)` on the plan.
abbrev pub credit_plan : ℕ → PaymentPlan → PaymentPlan
credit_plan amount p = record p {
  paid_cents = p.paid_cents + amount;
  remaining_cents = p.remaining_cents - amount;
}

-- The status of an invoice that has `new_paid` of its total paid.
unfoldable pub invoice_status_after_payment : ℕ → ℕ → InvoiceStatus → InvoiceStatus
invoice_status_after_payment total new_paid status =
    if leb total new_paid
    then InvoiceStatus.paid_invoice
    else if ltb 0 new_paid
    then InvoiceStatus.partially_paid
    else status

-- `COALESCE(paid_at, NOW())`.
abbrev pub coalesce : Option ℕ → ℕ → ℕ
coalesce none d = d
coalesce (some a) d = a

-- The two updates of the invoice; `paid_at` is only set when it is fully paid.
abbrev pub credit_invoice : ℕ → ℕ → Invoice → Invoice
credit_invoice now amount inv =
    let new_paid = inv.paid_cents + amount in
    record inv {
      paid_cents = new_paid;
      status = invoice_status_after_payment inv.total_cents new_paid inv.status;
      paid_at =
          if leb inv.total_cents new_paid then some (coalesce inv.paid_at now) else inv.paid_at;
    }

-- `GREATEST(0, current_exposure_cents - $2)`.
abbrev pub lower_exposure : ℕ → Customer → Customer
lower_exposure amount c = record c { current_exposure_cents = c.current_exposure_cents - amount }

-- The installments of a plan that are neither paid nor cancelled.
abbrev pub outstanding_of : ℕ → Installment → Bool
outstanding_of plan_id r = r.payment_plan_id == plan_id && is_outstanding r.status

-- After the payment of installment `number`: the plan is complete, or the next one opens.
unfoldable pub advance_plan : ℕ → ℕ → Db → Db
advance_plan plan_id number db =
    if count_where (outstanding_of plan_id) db.installments == 0
    then record db {
      plans =
          update_by plan_key plan_id (λ p. record p { status = PlanStatus.completed_plan })
            db.plans;
    }
    else record db {
      installments =
          update_where (λ r. numbered plan_id (number + 1) r && is_scheduled r.status)
            (λ r. record r { status = InstallmentStatus.open_installment }) db.installments;
    }

-- The join with an active plan, `remaining_cents > 0` and `status NOT IN ('paid', 'canceled')`.
abbrev pub awaits_payment : ℕ → Db → Installment → Bool
awaits_payment invoice_id db r =
    (r.invoice_id == invoice_id && (ltb 0 r.remaining_cents && is_outstanding r.status))
    && (elim (find_by plan_key r.payment_plan_id db.plans) [
      | none ↦ false
      | some p ↦ is_active_plan p.status
    ])

module _ (loc : Location) where
  -- `nextUnpaidInstallmentDueDateTx` and `NextUnpaidInstallmentDueDate`.
  unfoldable pub next_unpaid_installment_due_date : ℕ → Db → Option ℕ
  next_unpaid_installment_due_date invoice_id db =
      elim (min_where (awaits_payment invoice_id db) (λ r. r.due_date) db.installments) [
        | none ↦ none
        | some date ↦ some (due_at_from_installment_date loc (date * seconds_per_day))
      ]

  -- `EffectiveDueAt`.
  unfoldable pub effective_due_at : ℕ → ℕ → Db → ℕ
  unfolding next_unpaid_installment_due_date
  effective_due_at invoice_id stored db = elim (next_unpaid_installment_due_date invoice_id db) [
    | none ↦ stored
    | some t ↦ t
  ]

  -- `syncInvoiceDueFromInstallmentsTx`.
  unfoldable pub sync_invoice_due : ℕ → Db → Db
  sync_invoice_due invoice_id db = elim (next_unpaid_installment_due_date invoice_id db) [
    | none ↦ db
    | some t ↦ record db {
      invoices = update_by invoice_key invoice_id (λ i. record i { due_at = t }) db.invoices;
    }
  ]

  -- `ApplyInstallmentPaymentTx`.
  unfoldable pub apply_installment_payment_tx : ℕ → ℕ → ℕ → Tx Db (Unit {0})
  apply_installment_payment_tx now installment_id amount = do
    inst ← (λ db. or_throw (get_installment installment_id db) no_rows db)
    throw_if (not (is_payable inst.status)) installment_not_payable
    throw_if (not (amount == inst.remaining_cents)) installment_not_payable
    modify λ db. record db {
      installments = update_by installment_key installment_id pay_installment db.installments;
    }
    modify λ db. record db {
      plans = update_by plan_key inst.payment_plan_id (credit_plan amount) db.plans;
    }
    inv ← (λ (db : Db). or_throw (find_by invoice_key inst.invoice_id db.invoices) no_rows db)
    modify λ db. record db {
      invoices = update_by invoice_key inst.invoice_id (credit_invoice now amount) db.invoices;
    }
    modify λ db. record db {
      customers = update_by customer_key inv.customer_id (lower_exposure amount) db.customers;
    }
    modify (advance_plan inst.payment_plan_id inst.installment_number)
    modify λ db.
        if leb inv.total_cents (inv.paid_cents + amount)
        then db
        else sync_invoice_due inst.invoice_id db

-- `MarkInstallmentPixActive`.
unfoldable pub mark_installment_pix_active : ℕ → Db → Db
mark_installment_pix_active installment_id db = record db {
  installments =
      update_where (λ r. r.id == installment_id && is_open_installment r.status)
        (λ r. record r { status = InstallmentStatus.pix_active }) db.installments;
}

-- The first update of `MarkOverdueInstallments`; `now` is compared as a date.
abbrev pub falls_overdue : ℕ → Installment → Bool
falls_overdue now r = is_payable r.status && ltb r.due_date (now / seconds_per_day)

-- `MarkOverdueInstallments`, with the number of installments that fell overdue.
unfoldable pub mark_overdue_installments : ℕ → Db → ℕ × Db
mark_overdue_installments now db =
    let installments =
      update_where (falls_overdue now)
        (λ r. record r { status = InstallmentStatus.overdue_installment }) db.installments in
    let late : Invoice → Bool = λ i. not (
      count_where (λ r. r.invoice_id == i.id && is_overdue_installment r.status) installments
      == 0) in
    (
      count_where (falls_overdue now) db.installments,
      record db {
        installments = installments;
        invoices =
            update_where (λ i. is_running_invoice i.status && late i)
              (λ i. record i { status = InvoiceStatus.overdue_invoice }) db.invoices;
      },
    )

-- `MarkOverdueInvoices` (close.go): the installments first, then invoices past their own due time.
unfoldable pub mark_overdue_invoices : ℕ → Db → ℕ × Db
unfolding mark_overdue_installments
mark_overdue_invoices now db =
    let (n, db') = mark_overdue_installments now db in
    let late : Invoice → Bool =
      λ i. is_running_invoice i.status && (ltb i.due_at now && ltb i.paid_cents i.total_cents) in
    (
      n + count_where late db'.invoices,
      record db' {
        invoices =
            update_where late (λ i. record i { status = InvoiceStatus.overdue_invoice })
              db'.invoices;
      },
    )

-- `ValidateInstallmentForPix`.
unfoldable pub validate_installment_for_pix : ℕ → Db → Result (Unit {0})
validate_installment_for_pix installment_id db = elim (get_installment installment_id db) [
  | none ↦ err no_rows
  | some inst ↦ elim (find_by plan_key inst.payment_plan_id db.plans) [
    | none ↦ err no_rows
    | some plan ↦
        if not (is_open_installment inst.status)
        then err installment_not_payable
        else if plan.require_seq && ltb 1 inst.installment_number
        then elim (select_first (numbered inst.payment_plan_id (inst.installment_number - 1))
            db.installments) [
              | none ↦ err installment_not_sequential
              | some prev ↦
                  if is_paid_installment prev.status then ok tt else err installment_not_sequential
            ]
        else ok tt
  ]
]
