-- ===== src/Store/Schema.antt =====
-- The tables of backend/migrations that the modelled services read and write. Identifiers are
-- numbers, instants are seconds and dates are days since 1970-01-01 UTC; amounts are cents. Names,
-- descriptions, notes and bookkeeping stamps that no modelled code reads are left out.
use pontoqap.Base.{ℕ, Bool, Option, List}
use pontoqap.Base.Int.{ℤ}
use pontoqap.Store.Shop.{Shop, Accounts, Queue}

-- `inventory_lots`.
pub record Lot : Type 0 where
  pub id : ℕ
  pub location_id : ℕ
  pub sku_id : ℕ
  pub quantity_remaining : ℕ
  pub unit_cost_cents : ℕ
  pub source_movement_id : ℕ

-- `inventory_balances`.
pub record Balance : Type 0 where
  pub id : ℕ
  pub location_id : ℕ
  pub sku_id : ℕ
  pub available_quantity : ℕ
  pub version : ℕ

pub data MovementType : Type 0 where
  entry initial_stock sale loss damage adjustment return : MovementType

-- `stock_movements`.
pub record Movement : Type 0 where
  pub id : ℕ
  pub location_id : ℕ
  pub sku_id : ℕ
  pub movement_type : MovementType
  pub quantity : ℕ
  pub previous_balance : ℕ
  pub new_balance : ℕ
  pub reference_id : Option ℕ
  pub created_by : ℕ
  pub unit_cost_cents : Option ℕ

-- `skus`.
pub record Sku : Type 0 where
  pub id : ℕ
  pub product_id : ℕ
  pub cost_price_cents : Option ℕ
  pub sale_price_cents : ℕ
  pub minimum_stock : ℕ
  pub active : Bool

pub data CustomerStatus : Type 0 where
  pending_customer approved_customer rejected_customer blocked_customer : CustomerStatus

-- `customers`.
pub record Customer : Type 0 where
  pub id : ℕ
  pub user_id : ℕ
  pub status : CustomerStatus
  pub status_before_block : Option CustomerStatus
  pub credit_limit_cents : ℕ
  pub current_exposure_cents : ℕ
  pub collaborator_category_id : Option ℕ

pub data PeriodStatus : Type 0 where
  open_period closed_period : PeriodStatus

-- `billing_periods`.
pub record Period : Type 0 where
  pub id : ℕ
  pub customer_id : ℕ
  pub reference_year : ℕ
  pub reference_month : ℕ
  pub cycle_number : ℕ
  pub status : PeriodStatus

pub data EntryType : Type 0 where
  order_entry order_cancellation : EntryType

-- `billing_entries`; a cancellation has a negative amount.
pub record Entry : Type 0 where
  pub id : ℕ
  pub billing_period_id : ℕ
  pub entry_type : EntryType
  pub order_id : ℕ
  pub amount_cents : ℤ
  pub occurred_at : ℕ

pub data InvoiceStatus : Type 0 where
  open_invoice partially_paid paid_invoice overdue_invoice : InvoiceStatus

pub data CloseType : Type 0 where
  monthly_auto customer_request admin_manual : CloseType

-- `invoices`.
pub record Invoice : Type 0 where
  pub id : ℕ
  pub customer_id : ℕ
  pub billing_period_id : ℕ
  pub status : InvoiceStatus
  pub subtotal_cents : ℕ
  pub adjustment_cents : ℤ
  pub total_cents : ℕ
  pub paid_cents : ℕ
  pub due_at : ℕ
  pub paid_at : Option ℕ
  pub close_type : CloseType

-- `invoice_items`.
pub record InvoiceItem : Type 0 where
  pub invoice_id : ℕ
  pub billing_entry_id : ℕ
  pub total_cents : ℤ

-- `installment_policies`.
pub record InstallmentPolicy : Type 0 where
  pub id : ℕ
  pub version : ℕ
  pub active : Bool
  pub installment_enabled : Bool
  pub minimum_invoice_amount_cents : ℕ
  pub minimum_installment_amount_cents : ℕ
  pub maximum_installments : ℕ
  pub installment_interval_months : ℕ
  pub allow_installment_after_due_date : Bool
  pub allow_early_installment_payment : Bool
  pub require_sequential_payment : Bool
  pub adjust_due_date_to_business_day : Bool

pub data PlanStatus : Type 0 where
  pending_selection active_plan completed_plan canceled_plan : PlanStatus

-- `invoice_payment_plans`, with the policy values that it keeps as snapshots.
pub record PaymentPlan : Type 0 where
  pub id : ℕ
  pub invoice_id : ℕ
  pub policy_id : ℕ
  pub status : PlanStatus
  pub selected_installment_count : Option ℕ
  pub selected_by_user_id : Option ℕ
  pub selected_at : Option ℕ
  pub invoice_total_cents : ℕ
  pub paid_cents : ℕ
  pub remaining_cents : ℕ
  pub min_inv : ℕ
  pub min_inst : ℕ
  pub max_inst : ℕ
  pub interval : ℕ
  pub installment_enabled_snapshot : Bool
  pub allow_early : Bool
  pub require_seq : Bool
  pub adjust_biz : Bool

pub data InstallmentStatus : Type 0 where
  scheduled open_installment pix_active paid_installment overdue_installment : InstallmentStatus
  canceled_installment : InstallmentStatus

-- `invoice_installments`.
pub record Installment : Type 0 where
  pub id : ℕ
  pub payment_plan_id : ℕ
  pub invoice_id : ℕ
  pub installment_number : ℕ
  pub amount_cents : ℕ
  pub paid_cents : ℕ
  pub remaining_cents : ℕ
  pub due_date : ℕ
  pub status : InstallmentStatus

pub data AdjustmentType : Type 0 where
  credit debit : AdjustmentType

-- `billing_adjustments`.
pub record Adjustment : Type 0 where
  pub id : ℕ
  pub invoice_id : ℕ
  pub adjustment_type : AdjustmentType
  pub amount_cents : ℕ

-- `business_calendar`.
pub record CalendarDay : Type 0 where
  pub date : ℕ
  pub is_business_day : Bool

pub data ChargeStatus : Type 0 where
  pending paid_charge expired : ChargeStatus

-- `payment_charges`; every provider is the sandbox.
pub record Charge : Type 0 where
  pub id : ℕ
  pub invoice_id : ℕ
  pub installment_id : Option ℕ
  pub external_id : ℕ
  pub status : ChargeStatus
  pub amount_cents : ℕ
  pub expires_at : ℕ

-- `payment_events`.
pub record PaymentEvent : Type 0 where
  pub id : ℕ
  pub external_event_id : ℕ
  pub processed : Bool
  pub error_message : Bool

-- `payments`.
pub record Payment : Type 0 where
  pub id : ℕ
  pub invoice_id : ℕ
  pub installment_id : Option ℕ
  pub payment_charge_id : ℕ
  pub amount_cents : ℕ

pub record Db : Type 0 where
  pub lots : List Lot
  pub balances : List Balance
  pub movements : List Movement
  pub skus : List Sku
  pub customers : List Customer
  pub periods : List Period
  pub entries : List Entry
  pub invoices : List Invoice
  pub invoice_items : List InvoiceItem
  pub policies : List InstallmentPolicy
  pub plans : List PaymentPlan
  pub installments : List Installment
  pub adjustments : List Adjustment
  pub calendar : List CalendarDay
  pub charges : List Charge
  pub events : List PaymentEvent
  pub payments : List Payment
  pub shop : Shop
  pub accounts : Accounts
  pub queue : Queue
