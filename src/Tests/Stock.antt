-- ===== src/Tests/Stock.antt =====
-- The stock theorems on a shelf with two lots.
use pontoqap.Base.{false, ◌≡◌, refl, none, arith, ◌≤◌}
use pontoqap.Base.Int.{◌-ℤ◌, ◌+ℤ◌, pos, negsuc}
use pontoqap.Store.Schema.{Db, MovementType}
use pontoqap.Store.Tx.{ok}
use pontoqap.Store.Table.{sum_where, select_first, update_where, select_where, count_where}
use pontoqap.Inventory.Lots.{create_lot_tx, consume_lots_fifo_tx, consume_rows}
use pontoqap.Inventory.Lots.Fifo.{fifo, consume_lots_fifo_tx-fifo}
use pontoqap.Inventory.Movements.{
  record_movement, store_entry_cost, current_balance, create_if_inward, store_balance, lock_balance,
  consume_if_outward, FreshIds, MovementApply, apply_movement_tx,
}
use pontoqap.Inventory.Movements.Balances.{quantity_of}
use pontoqap.Inventory.Movements.Effects.{moved, apply_movement_tx-moved}
use pontoqap.Inventory.Movements.Consistent.{
  IsConsistent, AreFresh, apply_movement_tx-IsConsistent, apply_movement_tx-quantity,
}
use pontoqap.Inventory.Service.{
  plain, register_adjustment, reserve_and_decrement, restore_from_sale_tx,
}
use pontoqap.Inventory.Service.Stock.{register_adjustment-counted, restore-reserve}
use pontoqap.Tests.Data.{shelf, tables_of}

abbrev ids : FreshIds
ids = record { balance_id = 50; movement_id = 51; lot_id = 52 }

abbrev later_ids : FreshIds
later_ids = record { balance_id = 60; movement_id = 61; lot_id = 62 }

shelf-IsConsistent : IsConsistent shelf
unfolding sum_where select_first
shelf-IsConsistent = record {
  lots_unique = (refl, (refl, tt));
  balances_unique = (refl, tt);
  agree = λ loc sku. ground arith;
}

shelf-AreFresh : AreFresh ids shelf
unfolding select_first
shelf-AreFresh = record { lot_fresh = refl; balance_fresh = refl }

abbrev sale : MovementApply
sale = plain MovementType.sale (negsuc 4) none 1

abbrev after_sale : Db
after_sale = tables_of shelf (apply_movement_tx ids 1 7 sale shelf)

-- Five are taken: the older lot is emptied, the newer keeps two.
consume_lots_fifo_tx-fifo_example :
    consume_lots_fifo_tx 1 7 5 shelf ≡ ok (tt, record shelf { lots = fifo 1 7 5 shelf.lots })
unfolding sum_where select_first
consume_lots_fifo_tx-fifo_example = consume_lots_fifo_tx-fifo 1 7 5 shelf (refl, (refl, tt))

apply_movement_tx-moved_example :
    apply_movement_tx ids 1 7 sale shelf ≡ ok (tt, moved ids 1 7 sale shelf)
unfolding sum_where select_first
apply_movement_tx-moved_example =
    apply_movement_tx-moved ids 1 7 sale shelf (refl, (refl, tt)) (refl, tt) refl refl

sale_runs : apply_movement_tx ids 1 7 sale shelf ≡ ok (tt, after_sale)
unfolding apply_movement_tx consume_if_outward consume_lots_fifo_tx consume_rows select_where
    lock_balance select_first ◌+ℤ◌ store_balance count_where create_if_inward
sale_runs = refl

apply_movement_tx-IsConsistent_example : IsConsistent after_sale
apply_movement_tx-IsConsistent_example =
    apply_movement_tx-IsConsistent ids 1 7 sale shelf shelf-IsConsistent shelf-AreFresh sale_runs

apply_movement_tx-quantity_example :
    (5 ≤ quantity_of 1 7 shelf.balances) × (quantity_of 1 7 after_sale.balances ≡ 2)
unfolding select_first
apply_movement_tx-quantity_example =
    apply_movement_tx-quantity ids 1 7 sale shelf shelf-IsConsistent shelf-AreFresh sale_runs 1 7

abbrev counted : Db
counted = tables_of shelf (register_adjustment ids 1 7 (pos 10) false 1 shelf)

count_runs : register_adjustment ids 1 7 (pos 10) false 1 shelf ≡ ok (tt, counted)
unfolding register_adjustment ◌-ℤ◌ current_balance select_first apply_movement_tx consume_if_outward
    lock_balance ◌+ℤ◌ store_balance count_where create_if_inward create_lot_tx
count_runs = refl

register_adjustment-counted_example :
    (pos (quantity_of 1 7 counted.balances) ≡ pos 10) × IsConsistent counted
register_adjustment-counted_example =
    register_adjustment-counted ids 1 7 (pos 10) false 1 shelf shelf-IsConsistent shelf-AreFresh
      count_runs

abbrev sold : Db
sold = tables_of shelf (reserve_and_decrement ids 1 7 (pos 5) 3 1 shelf)

abbrev returned : Db
returned = tables_of sold (restore_from_sale_tx later_ids 1 7 (pos 5) 3 1 sold)

sold_runs : reserve_and_decrement ids 1 7 (pos 5) 3 1 shelf ≡ ok (tt, sold)
unfolding reserve_and_decrement apply_movement_tx ◌-ℤ◌ consume_if_outward consume_lots_fifo_tx
    consume_rows select_where lock_balance select_first ◌+ℤ◌ store_balance count_where
    create_if_inward
sold_runs = refl

returned_runs : restore_from_sale_tx later_ids 1 7 (pos 5) 3 1 sold ≡ ok (tt, returned)
unfolding restore_from_sale_tx reserve_and_decrement apply_movement_tx consume_if_outward
    lock_balance select_first ◌-ℤ◌ consume_lots_fifo_tx consume_rows select_where ◌+ℤ◌ store_balance
    count_where create_if_inward store_entry_cost record_movement update_where create_lot_tx
returned_runs = refl

sold-AreFresh : AreFresh later_ids sold
unfolding select_first reserve_and_decrement apply_movement_tx ◌-ℤ◌ consume_if_outward
    consume_lots_fifo_tx consume_rows select_where lock_balance ◌+ℤ◌ store_balance count_where
    create_if_inward store_entry_cost record_movement update_where
sold-AreFresh = record { lot_fresh = refl; balance_fresh = refl }

restore-reserve_example : quantity_of 1 7 returned.balances ≡ quantity_of 1 7 shelf.balances
restore-reserve_example =
    restore-reserve ids 1 7 later_ids (pos 5) 3 1 shelf shelf-IsConsistent shelf-AreFresh
      sold-AreFresh sold_runs returned_runs 1 7
