-- ===== src/Tests/Bills.antt =====
-- The billing theorems on a customer's invoice, plan and period.
use pontoqap.Billing.Policy.{get_active_policy}
use pontoqap.Billing.Calendar.{build_installment_due_dates}
use pontoqap.Billing.Plan.{create_pending_payment_plan_tx, plan_params_from_snapshots}
use pontoqap.Billing.Rows.{remaining_cents, installment_key, invoice_key}
use pontoqap.Billing.Amounts.{distribute_installment_amounts, max_installments}
use pontoqap.Base.{◌+◌, ◌≡◌, refl, some, false, arith, All}
use pontoqap.Base.Int.{◌-ℤ◌, ◌+ℤ◌, pos}
use pontoqap.Store.Schema.{Installment, InstallmentStatus, Db, Invoice, AdjustmentType, CloseType}
use pontoqap.Store.Tx.{ok, err}
use pontoqap.Store.Table.{update_where, select_where, select_first, sum_where, count_where}
use pontoqap.Billing.Selection.{activate_plan, insert_installments, Choice, select_plan_tx}
use pontoqap.Billing.Selection.Success.{Selects, select_plan_tx-Selects}
use pontoqap.Store.Table.Keys.{find_by}
use pontoqap.Billing.Settlement.Progress.{
  IsPaidInFull, IsCredited, apply_installment_payment_tx_lem,
}
use pontoqap.Billing.Settlement.{apply_installment_payment_tx}
use pontoqap.Billing.Settlement.Books.{HasBooks}
use pontoqap.Billing.Settlement.Payment.{apply_installment_payment_tx-HasBooks}
use pontoqap.Billing.Periods.{
  open_next_cycle_tx, period_of_order, issue_invoice, subtotal_of, close_period_tx,
  close_customer_open_period, ensure_open_period_tx,
}
use pontoqap.Billing.Periods.Open.{HasOneOpen, open_count}
use pontoqap.Billing.Periods.Closing.{Closes, close_period_tx-Closes}
use pontoqap.Billing.Periods.Cycles.{
  HasFreshPeriods, close_period_tx-again, close_customer_open_period-HasOneOpen,
}
use pontoqap.Billing.Adjustments.{add_invoice_adjustment, apply_order_cancellation_billing_tx}
use pontoqap.Billing.Adjustments.Effects.{HasTotals, add_invoice_adjustment-HasTotals}
use pontoqap.Billing.Adjustments.Cancellation.{apply_order_cancellation_billing_tx-HasTotals}
use pontoqap.Tests.Data.{
  installment, local_zone, tables_of, billed, split_in_two, running, invoice, policy,
}

-- Two installments of 500.
abbrev choice : Choice
choice = record {
  invoice_id = 3;
  customer_id = 9;
  user_id = 30;
  installment_count = pos 2;
  now = 900000;
  new_plan_id = 40;
  new_ids = λ i. 41 + i;
}

abbrev chosen : Db
chosen = tables_of billed (select_plan_tx local_zone choice (invoice 0) policy 2 billed)

choice_runs : select_plan_tx local_zone choice (invoice 0) policy 2 billed ≡ ok (tt, chosen)
unfolding select_plan_tx select_first max_installments remaining_cents plan_params_from_snapshots
    distribute_installment_amounts build_installment_due_dates insert_installments count_where
    activate_plan
choice_runs = refl

select_plan_tx-Selects_example : Selects choice (invoice 0) policy 2 billed chosen
select_plan_tx-Selects_example =
    select_plan_tx-Selects local_zone choice (invoice 0) policy 2 billed chosen (omega arith)
      choice_runs

split_in_two-HasBooks : HasBooks split_in_two
unfolding select_first sum_where
split_in_two-HasBooks = record {
  plans_unique = (refl, tt);
  installments_unique = (refl, (refl, tt));
  balanced = (
    record { parts = refl; unpaid = λ e. refl; paid = λ e. cc },
    (record { parts = refl; unpaid = λ e. refl; paid = λ e. cc }, tt),
  );
  agree = λ plan_id p e. ground arith;
}

abbrev paid_first : Db
paid_first =
    tables_of split_in_two (apply_installment_payment_tx local_zone 1000 21 500 split_in_two)

payment_runs :
    apply_installment_payment_tx local_zone 1000 21 500 split_in_two ≡ ok (tt, paid_first)
unfolding apply_installment_payment_tx select_first
payment_runs = refl

apply_installment_payment_tx-HasBooks_example : HasBooks paid_first
apply_installment_payment_tx-HasBooks_example =
    apply_installment_payment_tx-HasBooks local_zone 1000 21 500 split_in_two split_in_two-HasBooks
      payment_runs

invoice-HasTotals : HasTotals (invoice 0)
unfolding ◌+ℤ◌
invoice-HasTotals = record { sum = refl; bounded = omega arith; full = λ e. cc }

abbrev credited_db : Db
credited_db =
    tables_of billed
      (add_invoice_adjustment 5 70 3 (some AdjustmentType.credit) (pos 250) false billed)

credit_runs :
    add_invoice_adjustment 5 70 3 (some AdjustmentType.credit) (pos 250) false billed
    ≡ ok (tt, credited_db)
unfolding add_invoice_adjustment select_first ◌+ℤ◌ ◌-ℤ◌
credit_runs = refl

add_invoice_adjustment-HasTotals_example : All HasTotals credited_db.invoices
unfolding select_first
add_invoice_adjustment-HasTotals_example =
    add_invoice_adjustment-HasTotals 5 70 3 (some AdjustmentType.credit) (pos 250) false billed
      (refl, tt) (invoice-HasTotals, tt) credit_runs

-- The order's period is closed and its invoice is not paid: the invoice is credited.
abbrev closed_books : Db
closed_books =
    tables_of running (close_period_tx local_zone 3 8 4 CloseType.customer_request running)

abbrev issued : Invoice
issued = elim (close_period_tx local_zone 3 8 4 CloseType.customer_request running) [
  | ok (inv, db) ↦ inv
  | err e ↦ invoice 0
]

closing_runs :
    close_period_tx local_zone 3 8 4 CloseType.customer_request running ≡ ok (issued, closed_books)
unfolding close_period_tx select_first subtotal_of select_where ◌+ℤ◌ issue_invoice get_active_policy
    create_pending_payment_plan_tx
closing_runs = refl

close_period_tx-Closes_example : Closes 4 issued running closed_books
unfolding select_first
close_period_tx-Closes_example =
    close_period_tx-Closes local_zone 3 8 CloseType.customer_request running 4 refl closing_runs

close_period_tx-again_example :
    close_period_tx local_zone 90 91 4 CloseType.admin_manual closed_books
    ≡ ok (issued, closed_books)
close_period_tx-again_example =
    close_period_tx-again local_zone 3 8 4 CloseType.customer_request 90 91 CloseType.admin_manual
      running closing_runs

running-HasOneOpen : HasOneOpen running
unfolding count_where
running-HasOneOpen = λ customer_id. ground arith

running-HasFreshPeriods : HasFreshPeriods running
unfolding select_first
running-HasFreshPeriods = λ period_id p found opened. refl

-- Customer 10 has no period yet.
abbrev opened : Db
opened = tables_of running (ensure_open_period_tx local_zone 5 10 1780000000 running)

opening_runs : ensure_open_period_tx local_zone 5 10 1780000000 running ≡ ok (5, opened)
unfolding ensure_open_period_tx select_first
opening_runs = refl

abbrev next_cycle : Db
next_cycle = tables_of running (close_customer_open_period local_zone 3 8 5 9 1780000000 running)

cycle_runs :
    close_customer_open_period local_zone 3 8 5 9 1780000000 running ≡ ok (issued, next_cycle)
unfolding close_customer_open_period select_first close_period_tx subtotal_of select_where ◌+ℤ◌
    issue_invoice get_active_policy create_pending_payment_plan_tx open_next_cycle_tx
cycle_runs = refl

close_customer_open_period-HasOneOpen_example :
    HasOneOpen next_cycle × (open_count 9 next_cycle ≡ 1)
unfolding select_first
close_customer_open_period-HasOneOpen_example =
    close_customer_open_period-HasOneOpen local_zone 3 8 5 9 1780000000 running (refl, tt)
      running-HasFreshPeriods running-HasOneOpen cycle_runs

-- The order of a closed period is cancelled: its invoice of 1000 is credited by 400.
abbrev cancelled : Db
cancelled =
    tables_of closed_books (
      apply_order_cancellation_billing_tx local_zone 80 81 82 9 2 (pos 400) 1780000000 closed_books)

cancellation_runs :
    apply_order_cancellation_billing_tx local_zone 80 81 82 9 2 (pos 400) 1780000000 closed_books
    ≡ ok (pos 0, cancelled)
unfolding apply_order_cancellation_billing_tx period_of_order select_first close_period_tx
    subtotal_of select_where ◌+ℤ◌ issue_invoice get_active_policy create_pending_payment_plan_tx
    update_where ◌-ℤ◌
cancellation_runs = refl

closed_books-HasTotals : All HasTotals closed_books.invoices
unfolding close_period_tx select_first subtotal_of select_where ◌+ℤ◌ issue_invoice get_active_policy
    create_pending_payment_plan_tx
closed_books-HasTotals = (record { sum = refl; bounded = omega arith; full = λ e. cc }, tt)

apply_order_cancellation_billing_tx-HasTotals_example : All HasTotals cancelled.invoices
unfolding close_period_tx select_first subtotal_of select_where ◌+ℤ◌ issue_invoice get_active_policy
    create_pending_payment_plan_tx
apply_order_cancellation_billing_tx-HasTotals_example =
    apply_order_cancellation_billing_tx-HasTotals local_zone 80 81 82 9 2 (pos 400) 1780000000
      closed_books (refl, tt) closed_books-HasTotals cancellation_runs

apply_installment_payment_tx_lem_example :
    (db' : Db) × (apply_installment_payment_tx local_zone 1000 21 500 split_in_two ≡ ok (tt, db'))
    × ((inst' : Installment) × (find_by installment_key 21 db'.installments ≡ some inst')
        × IsPaidInFull (installment 21 1 InstallmentStatus.open_installment) inst')
    × ((inv' : Invoice) × (find_by invoice_key 3 db'.invoices ≡ some inv')
        × IsCredited 500 (invoice 0) inv')
unfolding select_first
apply_installment_payment_tx_lem_example =
    apply_installment_payment_tx_lem local_zone 1000 21 split_in_two
      (installment 21 1 InstallmentStatus.open_installment) (invoice 0) refl refl refl
