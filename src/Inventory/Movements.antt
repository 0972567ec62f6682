-- ===== src/Inventory/Movements.antt =====
-- backend/internal/inventory/movements.go, service.go and returns.go: every change of stock is one
-- movement, which updates the balance and the lots together. The identifiers that the database and
-- the uuid package give to new rows are arguments.
pub mod Balances
pub mod Consistent
pub mod Effects
pub mod Only
use pontoqap.Base.{
  ℕ, ◌+◌, ◌≡◌, Bool, true, false, ◌&&◌, Option, none, some, List, [], ◌∷◌, ◌==◌, ltb, leb,
  if◌then◌else◌,
}
use pontoqap.Base.Int.{ℤ, pos, negsuc, ◌+ℤ◌, ◌-ℤ◌, ltb_ℤ, leb_ℤ, pos_part, neg_part}
use pontoqap.Store.Table.{select_first, update_where, count_where, insert_row}
use pontoqap.Store.Table.Keys.{find_by, update_by}
use pontoqap.Store.Schema.{Balance, Lot, Movement, MovementType, Sku, Db}
use pontoqap.Store.Tx.{
  Tx, Result, ok, err, pure, throw, throw_if, gets, modify, ◌>>=◌, ◌>>◌, run_tx, invalid_quantity,
  insufficient_stock, concurrent_update, invalid_movement_type, reason_required,
  invalid_physical_count, no_adjustment_needed,
}
use pontoqap.Inventory.Lots.{
  create_lot_tx, consume_lots_fifo_tx, weighted_average_cost, sku_fallback_cost,
  entry_unit_cost_cents,
}

-- `movementApply`; the reason is recorded and read by nobody.
pub record MovementApply : Type 0 where
  pub movement_type : MovementType
  pub quantity_delta : ℤ
  pub reference_id : Option ℕ
  pub created_by : ℕ
  pub unit_cost_cents : Option ℕ

-- The identifiers of the rows that one movement may insert.
pub record FreshIds : Type 0 where
  pub balance_id : ℕ
  pub movement_id : ℕ
  pub lot_id : ℕ

abbrev pub balance_key : Balance → ℕ
balance_key b = b.id

-- `location_id = $1 AND sku_id = $2` on the balances.
abbrev pub balances_of : ℕ → ℕ → Balance → Bool
balances_of loc sku b = b.location_id == loc && b.sku_id == sku

-- `lockBalance`: the identifier, the quantity and the version of the balance, which is inserted
-- empty where there is none.
unfoldable pub lock_balance : ℕ → ℕ → ℕ → Tx Db (ℕ × ℕ × ℕ)
lock_balance new_id loc sku db = elim (select_first (balances_of loc sku) db.balances) [
  | some b ↦ ok ((b.id, b.available_quantity, b.version), db)
  | none ↦ ok (
    (new_id, 0, 0),
    record db {
      balances =
          insert_row
            (record {
              id = new_id;
              location_id = loc;
              sku_id = sku;
              available_quantity = 0;
              version = 0;
            })
            db.balances;
    },
  )
]

-- `currentBalance`.
unfoldable pub current_balance : ℕ → ℕ → Db → ℕ
current_balance loc sku db = elim (select_first (balances_of loc sku) db.balances) [
  | some b ↦ b.available_quantity
  | none ↦ 0
]

-- `UPDATE inventory_balances … WHERE id = $1 AND version = $2`, an error if it affects no row.
unfoldable pub store_balance : ℕ → ℕ → ℕ → Tx Db (Unit {0})
store_balance id version new_balance db =
    let hit : Balance → Bool = λ b. b.id == id && b.version == version in
    if count_where hit db.balances == 0
    then err concurrent_update
    else ok (
      tt,
      record db {
        balances =
            update_where hit
              (λ b. record b { available_quantity = new_balance; version = b.version + 1 })
              db.balances;
      },
    )

-- `INSERT INTO stock_movements`.
unfoldable pub record_movement : ℕ → ℕ → ℕ → MovementApply → ℕ → ℕ → ℕ → Db → Db
record_movement new_id loc sku m quantity prev new_balance db = record db {
  movements =
      insert_row
        (record {
          id = new_id;
          location_id = loc;
          sku_id = sku;
          movement_type = m.movement_type;
          quantity = quantity;
          previous_balance = prev;
          new_balance = new_balance;
          reference_id = m.reference_id;
          created_by = m.created_by;
          unit_cost_cents = m.unit_cost_cents;
        })
        db.movements;
}

-- `UPDATE skus SET cost_price_cents`, for an entry that states its cost.
unfoldable pub store_entry_cost : ℕ → MovementType → Option ℕ → Db → Db
store_entry_cost sku MovementType.entry (some cost) db = record db {
  skus = update_by (λ (r : Sku). r.id) sku (λ r. record r { cost_price_cents = some cost }) db.skus;
}
store_entry_cost sku _ _ db = db

-- The `switch` that costs the lot of an inward movement.
unfoldable pub lot_unit_cost : ℕ → ℕ → MovementType → Option ℕ → Db → ℕ
lot_unit_cost loc sku MovementType.entry (some cost) db = cost
lot_unit_cost loc sku MovementType.entry none db = 0
lot_unit_cost loc sku MovementType.initial_stock (some cost) db = cost
lot_unit_cost loc sku MovementType.initial_stock none db = sku_fallback_cost sku db
lot_unit_cost loc sku MovementType.adjustment cost db = elim (weighted_average_cost loc sku db) [
  | some average ↦ average
  | none ↦ sku_fallback_cost sku db
]
lot_unit_cost loc sku _ cost db = sku_fallback_cost sku db

-- The first step of an outward movement.
unfoldable pub consume_if_outward : ℕ → ℕ → ℤ → Tx Db (Unit {0})
consume_if_outward loc sku delta =
    if ltb_ℤ delta (pos 0) then consume_lots_fifo_tx loc sku (neg_part delta) else pure tt

-- The last step of an inward movement.
unfoldable pub create_if_inward : FreshIds → ℕ → ℕ → MovementApply → Tx Db (Unit {0})
create_if_inward ids loc sku m db =
    if ltb_ℤ (pos 0) m.quantity_delta
    then create_lot_tx ids.lot_id loc sku (pos_part m.quantity_delta)
        (lot_unit_cost loc sku m.movement_type m.unit_cost_cents db) ids.movement_id db
    else ok (tt, db)

-- `applyMovementTx`. One of the two parts of the signed change is its absolute value.
unfoldable pub apply_movement_tx : FreshIds → ℕ → ℕ → MovementApply → Tx Db (Unit {0})
apply_movement_tx ids loc sku m = do
  let quantity = pos_part m.quantity_delta + neg_part m.quantity_delta
  throw_if (quantity == 0) invalid_quantity
  consume_if_outward loc sku m.quantity_delta
  (balance_id, prev, version) ← lock_balance ids.balance_id loc sku
  let new_balance = pos prev +ℤ m.quantity_delta
  throw_if (ltb_ℤ new_balance (pos 0)) insufficient_stock
  store_balance balance_id version (pos_part new_balance)
  modify (record_movement ids.movement_id loc sku m quantity prev (pos_part new_balance))
  modify (store_entry_cost sku m.movement_type m.unit_cost_cents)
  create_if_inward ids loc sku m
