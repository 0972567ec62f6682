-- ===== src/Inventory/Movements/Effects.antt =====
-- What `applyMovementTx` does, branch by branch (movements.go).
use pontoqap.Base.{ℕ, ◌+◌, ◌-◌, ◌≡◌, ◌≤◌, none, List, ◌==◌, ltb, if◌then◌else◌, arith}
use pontoqap.Base.Int.{pos, ◌+ℤ◌, pos_part, neg_part}
use pontoqap.Store.Table.{insert_row}
use pontoqap.Store.Table.Keys.{find_by, IsUnique}
use pontoqap.Store.Schema.{Db, Lot}
use pontoqap.Store.Tx.{ok, err, invalid_quantity, insufficient_lot_quantity}
use pontoqap.Inventory.Lots.{lot_id, create_lot_tx}
use pontoqap.Inventory.Lots.Fifo.{held, fifo, consume_lots_fifo_tx-fifo, fifo_zero}
use pontoqap.Inventory.Movements.{
  FreshIds, MovementApply, balance_key, apply_movement_tx, consume_if_outward, create_if_inward,
  record_movement, store_entry_cost, lot_unit_cost,
}
use pontoqap.Inventory.Movements.Balances.{quantity_of, put_balance, lock-store}

-- The quantity of an outward movement, 0 for an inward one.
abbrev pub taken : MovementApply → ℕ
taken m = neg_part m.quantity_delta

-- The quantity of an inward movement, 0 for an outward one.
abbrev pub brought : MovementApply → ℕ
brought m = pos_part m.quantity_delta

module _ (ids : FreshIds) (loc sku : ℕ) (m : MovementApply) where
  -- The balance, the movement and the cost that a movement writes, once lots are consumed.
  unfoldable pub written : Db → Db
  unfolding record_movement store_entry_cost
  written db =
      let prev = quantity_of loc sku db.balances in
      let new_balance = prev + brought m - taken m in
      let db' = record db {
        balances = put_balance ids.balance_id loc sku new_balance db.balances;
      } in
      store_entry_cost sku m.movement_type m.unit_cost_cents
        (record_movement ids.movement_id loc sku m (brought m + taken m) prev new_balance db')

  unfoldable pub lot_added : Db → List Lot → List Lot
  lot_added db t =
      if ltb 0 (brought m)
      then insert_row
          (record {
            id = ids.lot_id;
            location_id = loc;
            sku_id = sku;
            quantity_remaining = brought m;
            unit_cost_cents = lot_unit_cost loc sku m.movement_type m.unit_cost_cents db;
            source_movement_id = ids.movement_id;
          })
          t
      else t

  -- The tables after a movement that goes through.
  unfoldable pub moved : Db → Db
  unfolding written lot_added
  moved db =
      let db' = written (record db { lots = fifo loc sku (taken m) db.lots }) in
      record db' { lots = lot_added db' db'.lots }

  consume_if_outward_lem :
      (db : Db)
      → IsUnique lot_id db.lots
      → held loc sku db.lots ≡ quantity_of loc sku db.balances
      → consume_if_outward loc sku m.quantity_delta db ≡ (
          if ltb (quantity_of loc sku db.balances) (taken m)
          then err insufficient_lot_quantity
          else ok (tt, record db { lots = fifo loc sku (taken m) db.lots }))
  unfolding consume_if_outward
  consume_if_outward_lem db ul agree =
      ground (arith, consume_lots_fifo_tx-fifo loc sku (taken m) db ul, fifo_zero loc sku db.lots)

  new_balance_lem :
      (prev : ℕ) → taken m ≤ prev → pos prev +ℤ m.quantity_delta ≡ pos (prev + brought m - taken m)
  unfolding ◌+ℤ◌
  new_balance_lem prev h = ground arith

  create_if_inward_lem :
      (db : Db)
      → create_if_inward ids loc sku m db ≡ ok (tt, record db { lots = lot_added db db.lots })
  unfolding create_if_inward create_lot_tx lot_added
  create_if_inward_lem db = ground arith

  -- On tables with unique identifiers, where the balance of the item is the sum of its lots, a
  -- movement of nothing is refused, one that takes more than there is fails in the lots, and any
  -- other goes through.
  pub apply_movement_tx-moved :
      (db : Db)
      → IsUnique lot_id db.lots
      → IsUnique balance_key db.balances
      → find_by balance_key ids.balance_id db.balances ≡ none
      → held loc sku db.lots ≡ quantity_of loc sku db.balances
      → apply_movement_tx ids loc sku m db ≡ (
          if brought m + taken m == 0
          then err invalid_quantity
          else if ltb (quantity_of loc sku db.balances) (taken m)
          then err insufficient_lot_quantity
          else ok (tt, moved db))
  unfolding apply_movement_tx moved written
  apply_movement_tx-moved db ul ub fb agree =
      let prev = quantity_of loc sku db.balances in
      let db' : Db = record db { lots = fifo loc sku (taken m) db.lots } in
      let (id, version, locked, lock, store) =
        lock-store ids.balance_id loc sku (prev + brought m - taken m) db' fb ub in
      ground (
        arith,
        consume_if_outward_lem db ul agree,
        new_balance_lem prev,
        lock,
        store,
        create_if_inward_lem (written db'),
      )
