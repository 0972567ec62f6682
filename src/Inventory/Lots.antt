-- ===== src/Inventory/Lots.antt =====
-- backend/internal/inventory/lots.go and entry_cost.go: lots are consumed first in, first out, and
-- carry the cost at which they came.
pub mod Fifo
pub mod Held
use pontoqap.Base.{
  ℕ, ◌+◌, ◌-◌, ◌*◌, ◌/◌, Bool, ◌&&◌, Option, none, some, List, [], ◌∷◌, map, ◌==◌, ltb, leb,
  if◌then◌else◌,
}
use pontoqap.Base.Int.{ℤ, pos, ltb_ℤ, leb_ℤ, pos_part}
use pontoqap.Store.Table.{select_where, sum_where, insert_row, update_where, select_first}
use pontoqap.Store.Table.Keys.{update_by, find_by}
use pontoqap.Store.Schema.{Lot, Sku, Db}
use pontoqap.Store.Tx.{
  Tx, Result, ok, err, pure, throw, throw_if, gets, modify, ◌>>=◌, ◌>>◌, run_tx, invalid_quantity,
  invalid_cost, insufficient_lot_quantity,
}

-- `EntryUnitCostCents`: the rounded cost of one unit.
unfoldable pub entry_unit_cost_cents : ℤ → ℤ → ℤ → Result ℕ
entry_unit_cost_cents total_paid other_expenses quantity =
    if leb_ℤ quantity (pos 0)
    then err invalid_quantity
    else if ltb_ℤ total_paid (pos 0)
    then err invalid_cost
    else if ltb_ℤ other_expenses (pos 0)
    then err invalid_cost
    else let total = pos_part total_paid + pos_part other_expenses in
      let q = pos_part quantity in ok ((total + q / 2) / q)

-- The lots of a stock item at a location: `location_id = $1 AND sku_id = $2`.
abbrev pub stocks : ℕ → ℕ → Lot → Bool
stocks loc sku r = r.location_id == loc && r.sku_id == sku

-- The same with `AND quantity_remaining > 0`.
abbrev pub in_stock : ℕ → ℕ → Lot → Bool
in_stock loc sku r = r.location_id == loc && (r.sku_id == sku && ltb 0 r.quantity_remaining)

abbrev pub lot_id : Lot → ℕ
lot_id r = r.id

-- `createLotTx`; `new_id` is the identifier that the insert gives the row.
unfoldable pub create_lot_tx : ℕ → ℕ → ℕ → ℕ → ℕ → ℕ → Tx Db (Unit {0})
create_lot_tx new_id loc sku qty unit_cost movement =
    if leb qty 0
    then pure tt
    else modify λ db. record db {
      lots =
          insert_row
            (record {
              id = new_id;
              location_id = loc;
              sku_id = sku;
              quantity_remaining = qty;
              unit_cost_cents = unit_cost;
              source_movement_id = movement;
            })
            db.lots;
    }

-- The loop of `consumeLotsFIFOtx` over the rows that its query returned, from the oldest: what is
-- left to take, and the table after the updates.
unfoldable pub consume_rows : List (ℕ × ℕ) → ℕ → List Lot → ℕ × List Lot
consume_rows [] remaining t = (remaining, t)
consume_rows ((id, qty) ∷ rows) remaining t =
    let take = if ltb remaining qty then remaining else qty in
    let rest =
      consume_rows rows (remaining - take)
        (update_by lot_id id (λ r. record r { quantity_remaining = qty - take }) t) in
    if leb remaining 0 then (remaining, t) else rest

-- The scan of the query's rows.
abbrev pub lot_rows : ℕ → ℕ → List Lot → List (ℕ × ℕ)
lot_rows loc sku t = map (λ r. (r.id, r.quantity_remaining)) (select_where (in_stock loc sku) t)

-- `consumeLotsFIFOtx`.
unfoldable pub consume_lots_fifo_tx : ℕ → ℕ → ℕ → Tx Db (Unit {0})
consume_lots_fifo_tx loc sku quantity db =
    let (remaining, t) = consume_rows (lot_rows loc sku db.lots) quantity db.lots in
    if ltb 0 remaining then err insufficient_lot_quantity else ok (tt, record db { lots = t })

-- `weightedAverageCostTx` and `WeightedAverageCostCents`: `none` where they return false.
unfoldable pub weighted_average_cost : ℕ → ℕ → Db → Option ℕ
weighted_average_cost loc sku db =
    let num =
      sum_where (in_stock loc sku) (λ r. r.quantity_remaining * r.unit_cost_cents) db.lots in
    let den = sum_where (in_stock loc sku) (λ r. r.quantity_remaining) db.lots in
    if den == 0 then none else some ((num + den / 2) / den)

-- `SetRemainingLotsUnitCost`, at the default location `loc`.
unfoldable pub set_remaining_lots_unit_cost : ℕ → ℕ → ℤ → Tx Db (Unit {0})
set_remaining_lots_unit_cost loc sku unit_cost = do
  throw_if (ltb_ℤ unit_cost (pos 0)) invalid_cost
  modify λ db. record db {
    lots =
        update_where (in_stock loc sku) (λ r. record r { unit_cost_cents = pos_part unit_cost })
          db.lots;
  }

-- `skuFallbackCostTx`: 0 where the item or its cost is missing.
unfoldable pub sku_fallback_cost : ℕ → Db → ℕ
sku_fallback_cost sku db = elim (find_by (λ (r : Sku). r.id) sku db.skus) [
  | none ↦ 0
  | some r ↦ elim r.cost_price_cents [ none ↦ 0 | some c ↦ c ]
]
