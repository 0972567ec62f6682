-- ===== src/Billing/Dates/Months.antt =====
-- Months move forward as they should (installment_schedule.go, calendar.go, due.go).
use pontoqap.Base.{ℕ, zero, suc, ◌+◌, ◌-◌, ◌*◌, ◌≡◌, ◌≤◌, arith, min}
use pontoqap.Billing.Dates.{
  Civil, carry_years, add_months_preserve_day, last_day_of_month, previous_month,
}

-- With as much fuel as months the loop ends with a month of the year, and years and months together
-- count as before.
carry_years_lem :
    (fuel tm y : ℕ)
    → tm ≤ fuel
    → 1 ≤ tm
    → let (y', m') = carry_years fuel tm y in (1 ≤ m') × (m' ≤ 12) × (y' * 12 + m' ≡ y * 12 + tm)
unfolding carry_years
carry_years_lem zero tm y h p = omega arith
carry_years_lem (suc fuel) tm y h p = ground (arith, carry_years_lem fuel (tm - 12) (y + 1))

last_day_positive : (y m : ℕ) → 28 ≤ last_day_of_month y m
unfolding last_day_of_month
last_day_positive y m = ground arith

-- From a date with a month between 1 and 12 and a day of at least 1, adding months counts them
-- exactly, and the day is the anchor's, or the last day of the month reached where that is earlier.
pub add_months_preserve_day_lem :
    (anchor : Civil) (months : ℕ)
    → 1 ≤ anchor.month
    → 1 ≤ anchor.day
    → let c = add_months_preserve_day anchor months in
      (1 ≤ c.month)
      × (c.month ≤ 12)
      × (c.year * 12 + c.month ≡ anchor.year * 12 + anchor.month + months)
      × (1 ≤ c.day)
      × (c.day ≡ min anchor.day (last_day_of_month c.year c.month))
unfolding add_months_preserve_day
add_months_preserve_day_lem anchor months m d =
    let (y', m') = carry_years (anchor.month + months) (anchor.month + months) anchor.year in
    ground (
      arith,
      carry_years_lem (anchor.month + months) (anchor.month + months) anchor.year,
      last_day_positive y' m',
    )

-- Adding one month to the month before a month between 1 and 12 of a year after 0 leads back to it.
pub previous_month_lem :
    (year month : ℕ)
    → 1 ≤ month
    → month ≤ 12
    → 1 ≤ year
    → let (y, m) = previous_month year month in
      (1 ≤ m) × (m ≤ 12) × (y * 12 + m + 1 ≡ year * 12 + month)
unfolding previous_month
previous_month_lem year month a b c = ground arith
