-- ===== src/Billing/Calendar/Search.antt =====
-- What the search for a business day finds (calendar.go).
use pontoqap.Base.{
  ℕ, zero, suc, ◌+◌, ◌*◌, ◌≡◌, ◌<◌, refl, true, false, none, some, List, arith, ◌≢◌, Bool-cases,
  Option-cases,
}
use pontoqap.Store.Schema.{CalendarDay}
use pontoqap.Store.Tx.{ok}
use pontoqap.Billing.Dates.{Location, seconds_per_day, calendar_date_only}
use mathlib.Core.Logic.{◌≢◌, inl, inr}
use pontoqap.Billing.Calendar.{is_business_day, next_business_loop, next_business_day}

module _ (loc : Location) (calendar : List CalendarDay) where
  shift_earlier :
      (d k : ℕ)
      → is_business_day loc calendar d ≡ false
      → ((j : ℕ)
          → j < k
          → is_business_day loc calendar (d + seconds_per_day + j * seconds_per_day) ≡ false)
      → (j : ℕ) → j < suc k
      → is_business_day loc calendar (d + j * seconds_per_day) ≡ false
  shift_earlier d k first rest zero h =
      let same : d + 0 * seconds_per_day ≡ d = omega arith in rw same first
  shift_earlier d k first rest (suc j) h =
      let same : d + suc j * seconds_per_day ≡ d + seconds_per_day + j * seconds_per_day =
        omega arith in
      rw same (rest j (omega arith))

  -- The loop stops at the first instant, a whole number of days on, that is on a business day.
  next_business_loop_first :
      (rounds d : ℕ) {r : ℕ}
      → next_business_loop loc calendar rounds d ≡ some r
      → (k : ℕ) × (k < rounds)
        × (r ≡ d + k * seconds_per_day)
        × (is_business_day loc calendar r ≡ true)
        × ((j : ℕ) → j < k → is_business_day loc calendar (d + j * seconds_per_day) ≡ false)
  unfolding next_business_loop
  next_business_loop_first zero d e = cc
  next_business_loop_first (suc rounds) d {r} e =
      elim (Bool-cases (is_business_day loc calendar d)) [
        | inl now ↦
            let same : r ≡ d = ground arith in
            (0, omega arith, omega (arith, same), rw same now, λ j h. elim h [ ])
        | inr not_now ↦
            let (k, within, place, found, earlier) =
              next_business_loop_first rounds (d + seconds_per_day) {r = r} (ground arith) in
            (suc k, omega arith, omega (arith, place), found, shift_earlier d k not_now earlier)
      ]

  -- Where one of the next rounds is a business day the loop finds a day.
  next_business_loop_total :
      (rounds d k : ℕ)
      → k < rounds
      → is_business_day loc calendar (d + k * seconds_per_day) ≡ true
      → next_business_loop loc calendar rounds d ≢ none
  unfolding next_business_loop
  next_business_loop_total zero d k h b = elim h [ ]
  next_business_loop_total (suc rounds) d zero h b =
      let same : d + 0 * seconds_per_day ≡ d = omega arith in rw (rw same at b) (λ e. cc)
  next_business_loop_total (suc rounds) d (suc k) h b =
      let same : d + suc k * seconds_per_day ≡ d + seconds_per_day + k * seconds_per_day =
        omega arith in
      ground (
        arith,
        next_business_loop_total rounds (d + seconds_per_day) k (omega arith) (rw same at b),
      )

  -- What `NextBusinessDay` returns is the first instant, whole days on from the date of its argument,
  -- whose test as a business day succeeds, within 366 days.
  pub next_business_day_first :
      (day : ℕ) {r : ℕ}
      → next_business_day loc calendar day ≡ ok r
      → (k : ℕ) × (k < 366)
        × (r ≡ calendar_date_only loc day + k * seconds_per_day)
        × (is_business_day loc calendar r ≡ true)
        × ((j : ℕ)
            → j < k
            → is_business_day loc calendar (calendar_date_only loc day + j * seconds_per_day)
              ≡ false)
  unfolding next_business_day
  next_business_day_first day {r} e =
      next_business_loop_first 366 (calendar_date_only loc day) {r = r} (ground arith)

  -- `NextBusinessDay` returns a day whenever one of the 366 instants that it may look at is on a
  -- business day.
  pub next_business_day_total :
      (day k : ℕ)
      → k < 366
      → is_business_day loc calendar (calendar_date_only loc day + k * seconds_per_day) ≡ true
      → (r : ℕ) × (next_business_day loc calendar day ≡ ok r)
  unfolding next_business_day
  next_business_day_total day k h b =
      elim (Option-cases (next_business_loop loc calendar 366 (calendar_date_only loc day))) [
        | inl e ↦ absurd (next_business_loop_total 366 (calendar_date_only loc day) k h b e)
        | inr (r, e) ↦ (r, rw (e, next_business_day) refl)
      ]
