-- ===== src/Billing/Plan.antt =====
-- Payment plans before any payment: backend/internal/billing/payment_plan.go, from
-- `createPendingPaymentPlanTx` to the options that a customer is shown.
use pontoqap.Base.{
  ℕ, zero, suc, ◌+◌, Bool, false, not, Option, none, some, List, [], ◌∷◌, if◌then◌else◌,
}
use pontoqap.Store.Table.{insert_row}
use pontoqap.Store.Table.Keys.{find_by}
use pontoqap.Store.Schema.{Invoice, InstallmentPolicy, PaymentPlan, PlanStatus, Db}
use pontoqap.Store.Tx.{Tx, Result, ok, err, period_not_found}
use pontoqap.Billing.Amounts.{
  InstallmentPolicyParams, max_installments, distribute_installment_amounts, installment_eligible,
}
use pontoqap.Billing.Dates.{Location}
use pontoqap.Billing.Calendar.{build_installment_due_dates}
use pontoqap.Billing.Policy.{get_active_policy}
use pontoqap.Billing.Rows.{
  plan_invoice, remaining_cents, get_invoice, invoice_of_customer, is_pending_plan,
}

-- `planParamsFromSnapshots`.
unfoldable pub plan_params_from_snapshots : PaymentPlan → InstallmentPolicyParams
plan_params_from_snapshots p = record {
  minimum_invoice_amount_cents = p.min_inv;
  minimum_installment_amount_cents = p.min_inst;
  maximum_installments = p.max_inst;
  installment_enabled = false;
}

abbrev pub pending_plan : ℕ → ℕ → ℕ → InstallmentPolicy → PaymentPlan
pending_plan new_id invoice_id total policy = record {
  id = new_id;
  invoice_id = invoice_id;
  policy_id = policy.id;
  status = PlanStatus.pending_selection;
  selected_installment_count = none;
  selected_by_user_id = none;
  selected_at = none;
  invoice_total_cents = total;
  paid_cents = 0;
  remaining_cents = total;
  min_inv = policy.minimum_invoice_amount_cents;
  min_inst = policy.minimum_installment_amount_cents;
  max_inst = policy.maximum_installments;
  interval = policy.installment_interval_months;
  installment_enabled_snapshot = policy.installment_enabled;
  allow_early = policy.allow_early_installment_payment;
  require_seq = policy.require_sequential_payment;
  adjust_biz = policy.adjust_due_date_to_business_day;
}

-- `createPendingPaymentPlanTx`: an invoice that has a plan keeps it.
unfoldable pub create_pending_payment_plan_tx : ℕ → ℕ → ℕ → InstallmentPolicy → Tx Db (Unit {0})
create_pending_payment_plan_tx new_id invoice_id total policy db =
    elim (find_by plan_invoice invoice_id db.plans) [
      | some p ↦ ok (tt, db)
      | none ↦ ok (
        tt,
        record db { plans = insert_row (pending_plan new_id invoice_id total policy) db.plans },
      )
    ]

-- `EnsurePaymentPlanForInvoice`: an invoice gets a pending plan over its whole total.
unfoldable pub ensure_payment_plan : ℕ → ℕ → Tx Db (Unit {0})
unfolding create_pending_payment_plan_tx
ensure_payment_plan new_id invoice_id db = elim (find_by plan_invoice invoice_id db.plans) [
  | some p ↦ ok (tt, db)
  | none ↦ elim (get_invoice invoice_id db) [
    | none ↦ err period_not_found
    | some inv ↦ elim (get_active_policy db) [
      | err e ↦ err e
      | ok policy ↦ create_pending_payment_plan_tx new_id invoice_id inv.total_cents policy db
    ]
  ]
]

-- `loadPlanForInvoice` and `loadPlanForInvoiceTx`.
abbrev pub load_plan : ℕ → Db → Option PaymentPlan
load_plan invoice_id db = find_by plan_invoice invoice_id db.plans

-- `PaymentOptionInstallment`, `PaymentOption` and `PaymentOptionsResult`.
pub record PaymentOptionInstallment : Type 0 where
  pub number : ℕ
  pub amount_cents : ℕ
  pub due_date : ℕ

pub record PaymentOption : Type 0 where
  pub installment_count : ℕ
  pub installments : List PaymentOptionInstallment

pub record PaymentOptionsResult : Type 0 where
  pub total_cents : ℕ
  pub installment_eligible : Bool
  pub maximum_installments : ℕ
  pub options : List PaymentOption
  pub plan_status : PlanStatus

-- The loop that pairs the amounts with their dates; both slices have the same length.
unfoldable pub option_parts : ℕ → List ℕ → List ℕ → List PaymentOptionInstallment
option_parts i [] dates = []
option_parts i (a ∷ amounts) [] = []
option_parts i (a ∷ amounts) (d ∷ dates) =
    record { number = i + 1; amount_cents = a; due_date = d } ∷ option_parts (i + 1) amounts dates

module _ (loc : Location) where
  -- The options from `n` installments on, `left` of them.
  unfoldable pub options_from : Db → Invoice → PaymentPlan → ℕ → ℕ → Result (List PaymentOption)
  unfolding option_parts
  options_from db inv plan n zero = ok []
  options_from db inv plan n (suc left) =
      let rest = options_from db inv plan (n + 1) left in
      elim (build_installment_due_dates loc db.calendar inv.due_at n plan.interval
        plan.adjust_biz) [
          | err e ↦ err e
          | ok dates ↦ elim rest [
            | err e ↦ err e
            | ok options ↦
                let parts =
                  option_parts 0 (distribute_installment_amounts (remaining_cents inv) n) dates in
                ok (record { installment_count = n; installments = parts } ∷ options)
          ]
        ]

  -- The body of `GetPaymentOptions`, once the plan is there.
  unfoldable pub payment_options : Db → Invoice → PaymentPlan → Result PaymentOptionsResult
  unfolding options_from
  payment_options db inv plan =
      if not (is_pending_plan plan.status)
      then ok (record {
        total_cents = inv.total_cents;
        installment_eligible = false;
        maximum_installments = elim plan.selected_installment_count [ none ↦ 1 | some n ↦ n ];
        options = [];
        plan_status = plan.status;
      })
      else elim (get_active_policy db) [
        | err e ↦ err e
        | ok live ↦
            let most =
              max_installments (remaining_cents inv) (plan_params_from_snapshots plan)
                live.installment_enabled in
            elim (options_from db inv plan 1 most) [
              | err e ↦ err e
              | ok options ↦ ok (record {
                total_cents = remaining_cents inv;
                installment_eligible = installment_eligible most live.installment_enabled;
                maximum_installments = most;
                options = options;
                plan_status = plan.status;
              })
            ]
      ]

  -- `GetPaymentOptions`. A plan that it creates stays, whatever happens after.
  unfoldable pub get_payment_options : ℕ → ℕ → ℕ → Db → Result (Option PaymentOptionsResult) × Db
  unfolding payment_options ensure_payment_plan
  get_payment_options new_id invoice_id customer_id db =
      elim (invoice_of_customer invoice_id customer_id db) [
        | none ↦ (err period_not_found, db)
        | some inv ↦ elim (ensure_payment_plan new_id invoice_id db) [
          | err e ↦ (err e, db)
          | ok (_, db') ↦ elim (load_plan invoice_id db') [
            | none ↦ (ok none, db')
            | some plan ↦
                (elim (payment_options db' inv plan) [ ok r ↦ ok (some r) | err e ↦ err e ], db')
          ]
        ]
      ]
