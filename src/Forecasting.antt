-- ===== src/Forecasting.antt =====
-- The monthly forecast of sales: `GenerateMonthlySnapshots` of backend/internal/forecasting/service.go.
-- The session of the database runs in UTC; the snapshots that are inserted are given back.
use pontoqap.Base.{
  ℕ, ◌+◌, ◌-◌, ◌*◌, ◌/◌, Bool, false, ◌&&◌, none, some, List, ◌==◌, ltb, leb, if◌then◌else◌, map,
  ◌≤◌, arith,
}
use pontoqap.Store.Schema.{Balance, Db, Sku}
use pontoqap.Store.Shop.{Order, OrderItem}
use pontoqap.Store.Table.{select_where, count_where, sum_where}
use pontoqap.Store.Table.Keys.{find_by}
use pontoqap.Billing.Dates.{civil, day_of_civil, seconds_per_day}

-- `Snapshot` as it is inserted; its confidence is low or medium.
pub record Snapshot : Type 0 where
  pub sku_id : ℕ
  pub reference_month : ℕ
  pub forecast_quantity : ℕ
  pub safety_stock_quantity : ℕ
  pub suggested_purchase_quantity : ℕ
  pub low_confidence : Bool

-- Midnight UTC of the first day of a month.
abbrev pub month_start : ℕ → ℕ → ℕ
month_start year month = day_of_civil (civil year month 1) * seconds_per_day

-- `$1::timestamptz - interval '3 months'`.
abbrev pub window_start : ℕ → ℕ → ℕ
window_start year month =
    if ltb 3 month then month_start year (month - 3) else month_start (year - 1) (month + 9)

-- `$1::timestamptz + interval '1 month'`.
abbrev pub window_end : ℕ → ℕ → ℕ
window_end year month =
    if month == 12 then month_start (year + 1) 1 else month_start year (month + 1)

-- Whether the order of an item was confirmed within the months; its status is not asked for.
unfoldable pub was_sold : ℕ → ℕ → Db → OrderItem → Bool
unfolding day_of_civil
was_sold year month db i = elim (find_by (λ (o : Order). o.id) i.order_id db.shop.orders) [
  | none ↦ false
  | some o ↦
      leb (window_start year month) o.confirmed_at && ltb o.confirmed_at (window_end year month)
]

abbrev pub sold_of : ℕ → ℕ → Db → ℕ → OrderItem → Bool
sold_of year month db sku i = i.sku_id == sku && was_sold year month db i

-- The snapshot of an item of which so much was sold and so much is there.
unfoldable pub snapshot_of : ℕ → ℕ → ℕ → ℕ → Snapshot
snapshot_of reference sku qty stock =
    let forecast = qty / 3 in
    let safety = forecast / 5 in
    record {
      sku_id = sku;
      reference_month = reference;
      forecast_quantity = forecast;
      safety_stock_quantity = safety;
      suggested_purchase_quantity = (forecast + safety) - stock;
      low_confidence = qty == 0;
    }

-- The stock of an item at every location.
abbrev pub stock_of : ℕ → Db → ℕ
stock_of sku db =
    sum_where (λ (b : Balance). b.sku_id == sku) (λ b. b.available_quantity) db.balances

-- `GenerateMonthlySnapshots`: a snapshot for each item with a sale in the months.
unfoldable pub generate_monthly_snapshots : ℕ → ℕ → Db → List Snapshot
unfolding snapshot_of was_sold
generate_monthly_snapshots year month db =
    map
      (λ (s : Sku).
        snapshot_of (month_start year month) s.id
          (sum_where (sold_of year month db s.id) (λ i. i.quantity) db.shop.order_items)
          (stock_of s.id db))
      (select_where
        (λ (s : Sku). ltb 0 (count_where (sold_of year month db s.id) db.shop.order_items)) db.skus)

-- What is suggested to be bought fills the stock up to the forecast and its safety stock, and no
-- further.
pub snapshot_of-fills :
    (reference sku qty stock : ℕ)
    → ((snapshot_of reference sku qty stock).forecast_quantity
          + (snapshot_of reference sku qty stock).safety_stock_quantity
        ≤ stock + (snapshot_of reference sku qty stock).suggested_purchase_quantity)
      × ((snapshot_of reference sku qty stock).suggested_purchase_quantity ≤ qty)
unfolding snapshot_of
snapshot_of-fills reference sku qty stock = omega arith
