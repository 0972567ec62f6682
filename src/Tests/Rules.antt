-- ===== src/Tests/Rules.antt =====
-- The rules of installments, dates and policies at concrete numbers.
use pontoqap.Base.{
  ℕ, ◌+◌, ◌*◌, ◌≡◌, ◌≤◌, ◌<◌, refl, some, true, false, arith, [], ◌∷◌, sum, length, get_elem?, min,
  All, ◌++◌,
}
use pontoqap.Base.Int.{pos}
use pontoqap.Store.Schema.{Db, InstallmentPolicy}
use pontoqap.Store.Tx.{ok}
use pontoqap.Store.Table.{select_first, update_where, count_where}
use pontoqap.Billing.Amounts.{
  InstallmentPolicyParams, max_installments, distribute_installment_amounts,
}
use pontoqap.Billing.Amounts.Split.{distribute-sum, distribute-get_elem?}
use pontoqap.Billing.Amounts.Minimum.{distribute-minimum}
use pontoqap.Billing.Dates.{
  civil, seconds_per_day, add_months_preserve_day, last_day_of_month, due_at_from_installment_date,
  calendar_date_only,
}
use pontoqap.Billing.Dates.Months.{add_months_preserve_day_lem}
use pontoqap.Billing.Dates.Zone.{IsBehind, due_at_from_installment_date_early}
use pontoqap.Billing.Calendar.{is_business_day, is_business_date, next_business_day}
use pontoqap.Billing.Calendar.Search.{next_business_day_first, next_business_day_total}
use pontoqap.Billing.Calendar.Shift.{next_business_day_early}
use pontoqap.Billing.Policy.{
  UpdateInstallmentPolicyInput, create_policy_version, get_active_policy, is_active,
}
use pontoqap.Billing.Policy.Versions.{IsSound, create_policy_version_lem}
use pontoqap.Tests.Data.{local_zone, tables_of, billed}

abbrev rules : InstallmentPolicyParams
rules = record {
  minimum_invoice_amount_cents = 500;
  minimum_installment_amount_cents = 200;
  maximum_installments = 6;
  installment_enabled = true;
}

distribute-sum_example :
    (sum (distribute_installment_amounts 1000 3) ≡ 1000)
    × (length (distribute_installment_amounts 1000 3) ≡ 3)
distribute-sum_example = distribute-sum 1000 3 (omega arith)

distribute-get_elem?_example : get_elem? (distribute_installment_amounts 1000 3) 2 ≡ some 334
distribute-get_elem?_example = distribute-get_elem? 1000 3 2 (omega arith)

many_offered : max_installments 1000 rules true ≡ 5
unfolding max_installments
many_offered = refl

distribute-minimum_example :
    (a : ℕ) × (get_elem? (distribute_installment_amounts 1000 4) 3 ≡ some a) × (200 ≤ a)
distribute-minimum_example =
    distribute-minimum 1000 rules true 4 3 (omega arith) (omega arith)
      (rw many_offered (omega arith)) (omega arith)

add_months_preserve_day_lem_example :
    let c = add_months_preserve_day (civil 2026 11 31) 3 in
    (1 ≤ c.month)
    × (c.month ≤ 12)
    × (c.year * 12 + c.month ≡ 2026 * 12 + 11 + 3)
    × (1 ≤ c.day)
    × (c.day ≡ min 31 (last_day_of_month c.year c.month))
add_months_preserve_day_lem_example =
    add_months_preserve_day_lem (civil 2026 11 31) 3 (omega arith) (omega arith)

local_zone-IsBehind : IsBehind local_zone
local_zone-IsBehind = record { behind = λ t late. omega arith; within_day = λ t late. omega arith }

due_at_from_installment_date_early_example :
    due_at_from_installment_date local_zone (20 * seconds_per_day)
    ≡ 19 * seconds_per_day + 86399 + 10800
due_at_from_installment_date_early_example =
    due_at_from_installment_date_early local_zone local_zone-IsBehind 19

-- Day 14 is a Thursday and a business day: the Saturday after it becomes the Friday.
thursday : is_business_date [] 14 ≡ true
unfolding is_business_date select_first
thursday = refl

next_business_day_early_example :
    next_business_day local_zone [] (16 * seconds_per_day) ≡ ok (15 * seconds_per_day)
next_business_day_early_example =
    next_business_day_early local_zone local_zone-IsBehind [] 14 thursday

-- Noon of day 14, a business day.
at_noon :
    is_business_day local_zone [] (calendar_date_only local_zone 1252800 + 1 * seconds_per_day)
    ≡ true
unfolding is_business_day calendar_date_only select_first
at_noon = refl

next_business_day_total_example : (r : ℕ) × (next_business_day local_zone [] 1252800 ≡ ok r)
next_business_day_total_example =
    next_business_day_total local_zone [] 1252800 1 (omega arith) at_noon

next_business_day_first_example :
    (k : ℕ) × (k < 366)
    × (15 * seconds_per_day
        ≡ calendar_date_only local_zone (16 * seconds_per_day) + k * seconds_per_day)
    × (is_business_day local_zone [] (15 * seconds_per_day) ≡ true)
    × ((j : ℕ)
        → j < k
        → is_business_day local_zone []
            (calendar_date_only local_zone (16 * seconds_per_day) + j * seconds_per_day)
          ≡ false)
next_business_day_first_example =
    next_business_day_first local_zone [] (16 * seconds_per_day) next_business_day_early_example

abbrev change : UpdateInstallmentPolicyInput
change = record {
  installment_enabled = true;
  minimum_invoice_amount_cents = pos 1000;
  minimum_installment_amount_cents = pos 300;
  maximum_installments = pos 4;
  installment_interval_months = pos 1;
  allow_installment_after_due_date = false;
  allow_early_installment_payment = true;
  require_sequential_payment = true;
  adjust_due_date_to_business_day = false;
}

abbrev changed : Db
changed = tables_of billed (create_policy_version 2 change billed)

change_runs : create_policy_version 2 change billed ≡ ok (tt, changed)
unfolding create_policy_version
change_runs = refl

create_policy_version_lem_example :
    (p : InstallmentPolicy) × (get_active_policy changed ≡ ok p)
    × IsSound p
    × (count_where is_active changed.policies ≡ 1)
    × All (λ (q : InstallmentPolicy). q.version < p.version) billed.policies
    × (changed.policies
        ≡ update_where is_active (λ r. record r { active = false }) billed.policies ++ p ∷ [])
create_policy_version_lem_example = create_policy_version_lem 2 change billed change_runs
