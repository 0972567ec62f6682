-- ===== src/Billing/Dates.antt =====
-- Instants, civil dates and months as backend/internal/billing uses Go's `time` package: due.go,
-- invoice_due.go, installment_schedule.go, and `calendarDateOnly` and `PreviousMonth` of calendar.go.
-- Dates are those of the Gregorian calendar from 1970 on.
pub mod Months
pub mod Zone
use pontoqap.Base.{
  ℕ, zero, suc, ◌+◌, ◌-◌, ◌*◌, ◌/◌, ◌%◌, Bool, ◌&&◌, ◌||◌, not, ◌==◌, ltb, leb, if◌then◌else◌,
}

-- The São Paulo time zone of the zone database: the wall clock at an instant, both in seconds, and
-- the instant that `time.Date` gives for a wall clock.
pub record Location : Type 0 where
  pub local : ℕ → ℕ
  pub instant : ℕ → ℕ

pub record Civil : Type 0 where
  pub year : ℕ
  pub month : ℕ
  pub day : ℕ

abbrev pub seconds_per_day : ℕ
seconds_per_day = 86400

abbrev pub civil : ℕ → ℕ → ℕ → Civil
civil y m d = record { year = y; month = m; day = d }

-- `t.Date()` of the day with this number, by eras of 400 years that begin in March.
unfoldable pub civil_of_day : ℕ → Civil
civil_of_day n =
    let z = n + 719468 in
    let doe = z % 146097 in
    let yoe = (doe - doe / 1460 + doe / 36524 - doe / 146096) / 365 in
    let doy = doe - (365 * yoe + yoe / 4 - yoe / 100) in
    let mp = (5 * doy + 2) / 153 in
    let month = if ltb mp 10 then mp + 3 else mp - 9 in
    civil (yoe + z / 146097 * 400 + (if leb month 2 then 1 else 0)) month
      (doy - (153 * mp + 2) / 5 + 1)

-- The number of the day that `time.Date(y, m, d, …)` names.
unfoldable pub day_of_civil : Civil → ℕ
day_of_civil c =
    let y = if leb c.month 2 then c.year - 1 else c.year in
    let yoe = y % 400 in
    let mp = if ltb 2 c.month then c.month - 3 else c.month + 9 in
    let doy = (153 * mp + 2) / 5 + c.day - 1 in
    y / 400 * 146097 + (yoe * 365 + yoe / 4 - yoe / 100 + doy) - 719468

abbrev pub is_leap : ℕ → Bool
is_leap y = y % 4 == 0 && (not (y % 100 == 0) || y % 400 == 0)

-- `lastDayOfMonth`: day 0 of the month after is the last day of the month.
unfoldable pub last_day_of_month : ℕ → ℕ → ℕ
last_day_of_month y m =
    if m == 2
    then (if is_leap y then 29 else 28)
    else if m == 4 || (m == 6 || (m == 9 || m == 11))
    then 30
    else 31

-- `for tm > 12 { tm -= 12; y++ }`; the fuel bounds the rounds.
unfoldable pub carry_years : ℕ → ℕ → ℕ → ℕ × ℕ
carry_years zero tm y = (y, tm)
carry_years (suc fuel) tm y =
    let rest = carry_years fuel (tm - 12) (y + 1) in if ltb 12 tm then rest else (y, tm)

-- `AddMonthsPreserveDay` on the civil date of its anchor. Months are never taken back here, so the
-- loop for `tm < 1` never runs; each round of the other takes twelve months, so `tm` bounds it.
unfoldable pub add_months_preserve_day : Civil → ℕ → Civil
unfolding carry_years
add_months_preserve_day anchor months =
    let (y, m) = carry_years (anchor.month + months) (anchor.month + months) anchor.year in
    let ld = last_day_of_month y m in civil y m (if ltb ld anchor.day then ld else anchor.day)

-- `PreviousMonth`.
unfoldable pub previous_month : ℕ → ℕ → ℕ × ℕ
previous_month year month = if month == 1 then (year - 1, 12) else (year, month - 1)

module _ (loc : Location) where
  open loc use {local, instant}

  -- `calendarDateOnly`: the civil date in São Paulo, at midnight UTC.
  unfoldable pub calendar_date_only : ℕ → ℕ
  calendar_date_only t = local t / seconds_per_day * seconds_per_day

  -- `DueAtForCompetence`: day 10 of the next month, one second before midnight in São Paulo.
  unfoldable pub due_at_for_competence : ℕ → ℕ → ℕ
  due_at_for_competence ref_year ref_month =
      let c =
        if ltb 12 (ref_month + 1)
        then civil (ref_year + 1) 1 10
        else civil ref_year (ref_month + 1) 10 in
      instant (day_of_civil c * seconds_per_day + 86399)

  -- `IsMonthlyClosingDay`.
  unfoldable pub is_monthly_closing_day : ℕ → Bool
  is_monthly_closing_day now = (civil_of_day (local now / seconds_per_day)).day == 1

  -- `dueAtFromInstallmentDate`: the end of the day in São Paulo that holds the instant.
  unfoldable pub due_at_from_installment_date : ℕ → ℕ
  due_at_from_installment_date d = instant (local d / seconds_per_day * seconds_per_day + 86399)
