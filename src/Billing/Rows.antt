-- ===== src/Billing/Rows.antt =====
-- The keys and tests by which billing's statements pick rows, and `GetInvoice` with
-- `RemainingCents` (backend/internal/billing/close.go).
use pontoqap.Base.{ℕ, ◌-◌, Bool, true, false, Option, none, some, ◌==◌, if◌then◌else◌}
use pontoqap.Store.Table.Keys.{find_by}
use pontoqap.Store.Schema.{
  Customer, Invoice, InvoiceStatus, PaymentPlan, PlanStatus, Installment, InstallmentStatus, Period,
  PeriodStatus, Db,
}

abbrev pub customer_key : Customer → ℕ
customer_key r = r.id

abbrev pub invoice_key : Invoice → ℕ
invoice_key r = r.id

abbrev pub plan_key : PaymentPlan → ℕ
plan_key r = r.id

-- A plan is also unique by its invoice.
abbrev pub plan_invoice : PaymentPlan → ℕ
plan_invoice r = r.invoice_id

abbrev pub installment_key : Installment → ℕ
installment_key r = r.id

abbrev pub period_key : Period → ℕ
period_key r = r.id

abbrev pub is_open_period : PeriodStatus → Bool
is_open_period PeriodStatus.open_period = true
is_open_period PeriodStatus.closed_period = false

abbrev pub is_paid_invoice : InvoiceStatus → Bool
is_paid_invoice InvoiceStatus.paid_invoice = true
is_paid_invoice _ = false

-- `status IN ('open', 'partially_paid')`.
abbrev pub is_running_invoice : InvoiceStatus → Bool
is_running_invoice InvoiceStatus.open_invoice = true
is_running_invoice InvoiceStatus.partially_paid = true
is_running_invoice _ = false

abbrev pub is_pending_plan : PlanStatus → Bool
is_pending_plan PlanStatus.pending_selection = true
is_pending_plan _ = false

abbrev pub is_active_plan : PlanStatus → Bool
is_active_plan PlanStatus.active_plan = true
is_active_plan _ = false

abbrev pub is_open_installment : InstallmentStatus → Bool
is_open_installment InstallmentStatus.open_installment = true
is_open_installment _ = false

abbrev pub is_scheduled : InstallmentStatus → Bool
is_scheduled InstallmentStatus.scheduled = true
is_scheduled _ = false

abbrev pub is_paid_installment : InstallmentStatus → Bool
is_paid_installment InstallmentStatus.paid_installment = true
is_paid_installment _ = false

abbrev pub is_overdue_installment : InstallmentStatus → Bool
is_overdue_installment InstallmentStatus.overdue_installment = true
is_overdue_installment _ = false

-- `status IN ('open', 'pix_active')`.
abbrev pub is_payable : InstallmentStatus → Bool
is_payable InstallmentStatus.open_installment = true
is_payable InstallmentStatus.pix_active = true
is_payable _ = false

-- `status NOT IN ('paid', 'canceled')`.
abbrev pub is_outstanding : InstallmentStatus → Bool
is_outstanding InstallmentStatus.paid_installment = false
is_outstanding InstallmentStatus.canceled_installment = false
is_outstanding _ = true

-- `Invoice.RemainingCents`: the difference, 0 where it is negative.
unfoldable pub remaining_cents : Invoice → ℕ
remaining_cents inv = inv.total_cents - inv.paid_cents

-- `GetInvoice`.
abbrev pub get_invoice : ℕ → Db → Option Invoice
get_invoice id db = find_by invoice_key id db.invoices

-- The guard `inv == nil || inv.CustomerID != customerID`.
unfoldable pub invoice_of_customer : ℕ → ℕ → Db → Option Invoice
invoice_of_customer id customer_id db = elim (get_invoice id db) [
  | none ↦ none
  | some inv ↦ if inv.customer_id == customer_id then some inv else none
]
