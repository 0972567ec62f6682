-- ===== src/Billing/Calendar.antt =====
-- Business days: backend/internal/billing/calendar.go, and `BuildInstallmentDueDates` of
-- installment_schedule.go. The calendar's table holds dates; a `time.Time` is an instant.
pub mod Search
pub mod Shift
use pontoqap.Base.{
  ℕ, zero, suc, ◌+◌, ◌-◌, ◌*◌, ◌/◌, ◌%◌, Bool, true, false, ◌&&◌, not, Option, none, some, List, [],
  ◌∷◌, ◌==◌, ltb, leb, if◌then◌else◌,
}
use pontoqap.Store.Table.{select_first, select_where, insert_row}
use pontoqap.Store.Table.Keys.{find_by, update_by}
use pontoqap.Store.Schema.{CalendarDay, Db}
use pontoqap.Store.Tx.{Result, ok, err, no_business_day}
use pontoqap.Billing.Dates.{
  Location, Civil, civil, civil_of_day, day_of_civil, last_day_of_month, add_months_preserve_day,
  seconds_per_day, calendar_date_only,
}

abbrev pub calendar_date : CalendarDay → ℕ
calendar_date c = c.date

-- 1970-01-01 was a Thursday; 0 is Sunday and 6 is Saturday.
unfoldable pub weekday : ℕ → ℕ
weekday date = (date + 4) % 7

-- What the calendar says of a date, and the weekday where it says nothing.
unfoldable pub is_business_date : List CalendarDay → ℕ → Bool
unfolding weekday
is_business_date calendar date = elim (find_by calendar_date date calendar) [
  | some c ↦ c.is_business_day
  | none ↦ not (weekday date == 6) && not (weekday date == 0)
]

module _ (loc : Location) where
  -- `IsBusinessDay`.
  unfoldable pub is_business_day : List CalendarDay → ℕ → Bool
  unfolding is_business_date
  is_business_day calendar day =
      is_business_date calendar (calendar_date_only loc day / seconds_per_day)

  -- `UpsertCalendarDay`.
  unfoldable pub upsert_calendar_day : ℕ → Bool → Db → Db
  upsert_calendar_day day is_business db =
      let date = calendar_date_only loc day / seconds_per_day in
      elim (find_by calendar_date date db.calendar) [
        | some c ↦ record db {
          calendar =
              update_by calendar_date date (λ r. record r { is_business_day = is_business })
                db.calendar;
        }
        | none ↦ record db {
          calendar = insert_row (record { date = date; is_business_day = is_business }) db.calendar;
        }
      ]

  -- The loop of `NextBusinessDay`, with the rounds that are left.
  unfoldable pub next_business_loop : List CalendarDay → ℕ → ℕ → Option ℕ
  next_business_loop calendar zero d = none
  next_business_loop calendar (suc rounds) d =
      let later = next_business_loop calendar rounds (d + seconds_per_day) in
      if is_business_day calendar d then some d else later

  -- `NextBusinessDay`.
  unfoldable pub next_business_day : List CalendarDay → ℕ → Result ℕ
  next_business_day calendar day =
      elim (next_business_loop calendar 366 (calendar_date_only loc day)) [
        | some d ↦ ok d
        | none ↦ err no_business_day
      ]

  -- The loop of `NthBusinessDay` from a day of the month on: `left` more business days to find.
  unfoldable pub nth_business_loop : List CalendarDay → ℕ → ℕ → ℕ → ℕ → ℕ → Option ℕ
  nth_business_loop calendar zero year month day left = none
  nth_business_loop calendar (suc rounds) year month day left =
      let d = loc.instant (day_of_civil (civil year month day) * seconds_per_day) in
      let business = is_business_day calendar d in
      let later =
        nth_business_loop calendar rounds year month (day + 1)
          (if business then left - 1 else left) in
      if ltb (last_day_of_month year month) day
      then none
      else if business && left == 1
      then some d
      else later

  -- `NthBusinessDay`, of a month between 1 and 12.
  unfoldable pub nth_business_day : List CalendarDay → ℕ → ℕ → ℕ → Result ℕ
  nth_business_day calendar year month n =
      elim (nth_business_loop calendar 31 year month 1 (if ltb n 1 then 1 else n)) [
        | some d ↦ ok d
        | none ↦ err no_business_day
      ]

  -- One due date of `BuildInstallmentDueDates`: `raw`, adjusted where that is asked for.
  unfoldable pub adjust_due_date : List CalendarDay → Bool → ℕ → Result ℕ
  adjust_due_date calendar adjust raw = if adjust then next_business_day calendar raw else ok raw

  -- The date `months` after the anchor, at midnight UTC.
  unfoldable pub raw_due_date : ℕ → ℕ → ℕ
  raw_due_date anchor months =
      day_of_civil (add_months_preserve_day (civil_of_day (anchor / seconds_per_day)) months)
      * seconds_per_day

  -- The loop of `BuildInstallmentDueDates` from place `i` on.
  unfoldable pub due_dates_from : List CalendarDay → ℕ → ℕ → Bool → ℕ → ℕ → Result (List ℕ)
  unfolding adjust_due_date raw_due_date
  due_dates_from calendar anchor interval adjust i zero = ok []
  due_dates_from calendar anchor interval adjust i (suc left) =
      let rest = due_dates_from calendar anchor interval adjust (i + 1) left in
      elim (adjust_due_date calendar adjust (raw_due_date anchor (i * interval))) [
        | err e ↦ err e
        | ok d ↦ elim rest [ err e ↦ err e | ok ds ↦ ok (d ∷ ds) ]
      ]

  -- `BuildInstallmentDueDates`.
  unfoldable pub build_installment_due_dates : List CalendarDay → ℕ → ℕ → ℕ → Bool → Result (List ℕ)
  unfolding due_dates_from
  build_installment_due_dates calendar first_due count interval adjust =
      due_dates_from calendar (calendar_date_only loc first_due)
        (if ltb interval 1 then 1 else interval) adjust 0 count
