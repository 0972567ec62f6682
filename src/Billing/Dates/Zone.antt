-- ===== src/Billing/Dates/Zone.antt =====
-- A time zone behind UTC, and the dates that the code reads in it (calendar.go, invoice_due.go).
use pontoqap.Base.{ℕ, suc, ◌+◌, ◌*◌, ◌≡◌, ◌<◌, ◌≤◌, arith, ap}
use pontoqap.Billing.Dates.{
  Location, seconds_per_day, calendar_date_only, due_at_from_installment_date,
}

-- São Paulo is behind UTC, by less than a day.
pub record IsBehind (loc : Location) : Type 0 where
  pub behind : (t : ℕ) → seconds_per_day ≤ t → loc.local t < t
  pub within_day : (t : ℕ) → seconds_per_day ≤ t → t < loc.local t + seconds_per_day

module _ (loc : Location) (west : IsBehind loc) where
  -- Midnight UTC of a day is the evening before in São Paulo.
  pub calendar_date_only_utc :
      (d : ℕ) → calendar_date_only loc (suc d * seconds_per_day) ≡ d * seconds_per_day
  unfolding calendar_date_only
  calendar_date_only_utc d =
      let t = suc d * seconds_per_day in
      omega (arith, west.behind t (omega arith), west.within_day t (omega arith))

  -- A `date` column is read as midnight UTC, so in a zone behind UTC an installment's due date
  -- becomes the last second of the day before it.
  pub due_at_from_installment_date_early :
      (d : ℕ)
      → due_at_from_installment_date loc (suc d * seconds_per_day)
        ≡ loc.instant (d * seconds_per_day + 86399)
  unfolding due_at_from_installment_date
  due_at_from_installment_date_early d =
      let t = suc d * seconds_per_day in
      ap loc.instant (omega (arith, west.behind t (omega arith), west.within_day t (omega arith)))
