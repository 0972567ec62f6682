-- ===== src/Tests/Data.antt =====
-- Tables for the tests.
use pontoqap.Base.{ℕ, ◌+◌, ◌-◌, true, false, none, [], ◌∷◌}
use pontoqap.Base.Int.{pos}
use pontoqap.Store.Schema.{
  Lot, PeriodStatus, EntryType, Invoice, InvoiceStatus, CloseType, InstallmentPolicy, PaymentPlan,
  PlanStatus, Installment, InstallmentStatus, Db, CustomerStatus,
}
use pontoqap.Store.Shop.{Shop}
use pontoqap.Store.Tx.{Result, ok, err}
use pontoqap.Billing.Dates.{Location}

-- A zone three hours behind UTC.
abbrev pub local_zone : Location
local_zone = record { local = λ t. t - 10800; instant = λ w. w + 10800 }

abbrev pub empty_shop : Shop
empty_shop = record {
  products = [];
  categories = [];
  price_history = [];
  collaborator_categories = [];
  limit_history = [];
  carts = [];
  cart_items = [];
  orders = [];
  order_items = [];
  default_margin_percent = none;
}

abbrev pub empty_db : Db
empty_db = record {
  lots = [];
  balances = [];
  movements = [];
  skus = [];
  customers = [];
  periods = [];
  entries = [];
  invoices = [];
  invoice_items = [];
  policies = [];
  plans = [];
  installments = [];
  adjustments = [];
  calendar = [];
  charges = [];
  events = [];
  payments = [];
  shop = empty_shop;
  accounts = record { users = []; sessions = []; user_roles = []; tokens = []; invitations = [] };
  queue = record { jobs = []; outbox = [] };
}

-- The tables that a result carries.
abbrev pub tables_of {ℓ} : {A : Type ℓ} → Db → Result (A × Db) → Db
tables_of db (ok (a, db')) = db'
tables_of db (err e) = db

abbrev pub lot : ℕ → ℕ → ℕ → Lot
lot id sku quantity = record {
  id = id;
  location_id = 1;
  sku_id = sku;
  quantity_remaining = quantity;
  unit_cost_cents = 250;
  source_movement_id = 0;
}

-- Two lots of one item and their balance.
abbrev pub shelf : Db
shelf = record empty_db {
  lots = lot 1 7 3 ∷ lot 2 7 4 ∷ [];
  balances =
      record { id = 5; location_id = 1; sku_id = 7; available_quantity = 7; version = 2 } ∷ [];
}

abbrev pub policy : InstallmentPolicy
policy = record {
  id = 1;
  version = 1;
  active = true;
  installment_enabled = true;
  minimum_invoice_amount_cents = 500;
  minimum_installment_amount_cents = 200;
  maximum_installments = 6;
  installment_interval_months = 1;
  allow_installment_after_due_date = true;
  allow_early_installment_payment = true;
  require_sequential_payment = true;
  adjust_due_date_to_business_day = false;
}

abbrev pub invoice : ℕ → Invoice
invoice paid = record {
  id = 3;
  customer_id = 9;
  billing_period_id = 4;
  status = InvoiceStatus.open_invoice;
  subtotal_cents = 1000;
  adjustment_cents = pos 0;
  total_cents = 1000;
  paid_cents = paid;
  due_at = 1000000;
  paid_at = none;
  close_type = CloseType.monthly_auto;
}

abbrev pub plan : PlanStatus → PaymentPlan
plan status = record {
  id = 8;
  invoice_id = 3;
  policy_id = 1;
  status = status;
  selected_installment_count = none;
  selected_by_user_id = none;
  selected_at = none;
  invoice_total_cents = 1000;
  paid_cents = 0;
  remaining_cents = 1000;
  min_inv = 500;
  min_inst = 200;
  max_inst = 6;
  interval = 1;
  installment_enabled_snapshot = true;
  allow_early = true;
  require_seq = true;
  adjust_biz = false;
}

abbrev pub installment : ℕ → ℕ → InstallmentStatus → Installment
installment id number status = record {
  id = id;
  payment_plan_id = 8;
  invoice_id = 3;
  installment_number = number;
  amount_cents = 500;
  paid_cents = 0;
  remaining_cents = 500;
  due_date = 11;
  status = status;
}

-- An invoice whose plan is still to be selected.
abbrev pub billed : Db
billed = record empty_db {
  customers =
      record {
        id = 9;
        user_id = 90;
        status = CustomerStatus.approved_customer;
        status_before_block = none;
        credit_limit_cents = 5000;
        current_exposure_cents = 1000;
        collaborator_category_id = none;
      }
      ∷ [];
  policies = policy ∷ [];
  invoices = invoice 0 ∷ [];
  plans = plan PlanStatus.pending_selection ∷ [];
}

-- An invoice in two installments.
abbrev pub split_in_two : Db
split_in_two = record billed {
  plans = plan PlanStatus.active_plan ∷ [];
  installments =
      installment 21 1 InstallmentStatus.open_installment
      ∷ installment 22 2 InstallmentStatus.scheduled
      ∷ [];
}

-- A customer's open period with one order.
abbrev pub running : Db
running = record empty_db {
  policies = policy ∷ [];
  periods =
      record {
        id = 4;
        customer_id = 9;
        reference_year = 2026;
        reference_month = 5;
        cycle_number = 1;
        status = PeriodStatus.open_period;
      }
      ∷ [];
  entries =
      record {
        id = 6;
        billing_period_id = 4;
        entry_type = EntryType.order_entry;
        order_id = 2;
        amount_cents = pos 1000;
        occurred_at = 0;
      }
      ∷ [];
}
