-- ===== src/Billing/Calendar/Shift.antt =====
-- Business days asked for midnight UTC, as `BuildInstallmentDueDates` asks for them (calendar.go,
-- installment_schedule.go).
use pontoqap.Base.{ℕ, suc, ◌*◌, ◌/◌, ◌≡◌, true, some, List, arith, ap}
use pontoqap.Store.Schema.{CalendarDay}
use pontoqap.Store.Tx.{ok}
use pontoqap.Billing.Dates.{Location, seconds_per_day, calendar_date_only}
use pontoqap.Billing.Calendar.{
  is_business_day, is_business_date, next_business_day, next_business_loop,
}
use pontoqap.Billing.Dates.Zone.{IsBehind, calendar_date_only_utc}

module _ (loc : Location) (west : IsBehind loc) (calendar : List CalendarDay) where
  pub is_business_day_utc :
      (d : ℕ) → is_business_day loc calendar (suc d * seconds_per_day) ≡ is_business_date calendar d
  unfolding is_business_day
  is_business_day_utc d =
      rw (calendar_date_only_utc loc west d)
        (let back : d * seconds_per_day / seconds_per_day ≡ d = omega arith in rw back)

  loop_now :
      (rounds d : ℕ)
      → is_business_day loc calendar d ≡ true
      → next_business_loop loc calendar (suc rounds) d ≡ some d
  unfolding next_business_loop
  loop_now rounds d h = rw h

  -- In a zone behind UTC, a date asked for at midnight UTC, two days after a business day, is moved
  -- back by one day: a Saturday after a business Thursday becomes the Friday and a Sunday after a
  -- business Friday becomes the Saturday.
  pub next_business_day_early :
      (d : ℕ)
      → is_business_date calendar d ≡ true
      → next_business_day loc calendar (suc (suc d) * seconds_per_day)
        ≡ ok (suc d * seconds_per_day)
  unfolding next_business_day
  next_business_day_early d business =
      let start = calendar_date_only loc (suc (suc d) * seconds_per_day) in
      let tested : is_business_day loc calendar start ≡ true =
        rw (calendar_date_only_utc loc west (suc d)) (rw (is_business_day_utc d) business) in
      rw (loop_now 365 start tested, next_business_day)
        (ap ok (calendar_date_only_utc loc west (suc d)))
