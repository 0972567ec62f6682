-- ===== src/Inventory/Service/Stock.antt =====
-- What the stock operations leave behind (movements.go, service.go, returns.go).
use pontoqap.Base.{ℕ, ◌≡◌, Bool, none, some, arith}
use pontoqap.Base.Int.{ℤ, pos, ◌-ℤ◌, -ℤ_parts, ◌≤ℤ◌}
use pontoqap.Store.Schema.{Db}
use pontoqap.Store.Tx.{ok}
use pontoqap.Inventory.Movements.{FreshIds, current_balance, apply_movement_tx}
use pontoqap.Inventory.Movements.Balances.{quantity_of}
use pontoqap.Inventory.Movements.Consistent.{
  IsConsistent, AreFresh, apply_movement_tx-IsConsistent, apply_movement_tx-quantity,
}
use pontoqap.Inventory.Service.{
  register_adjustment, reserve_and_decrement, restore_from_sale_tx, plain, MovementType, negate,
}

same_quantity :
    (loc sku loc' sku' : ℕ) (db : Db)
    → loc ≡ loc'
    → sku ≡ sku'
    → quantity_of loc sku db.balances ≡ quantity_of loc' sku' db.balances
same_quantity loc sku loc' sku' db p q = cc

module _ (ids : FreshIds) (loc sku : ℕ) where
  current_balance-quantity :
      (db : Db) → current_balance loc sku db ≡ quantity_of loc sku db.balances
  unfolding current_balance
  current_balance-quantity db = ground arith

  adjusted :
      (count : ℤ) (reason_empty : Bool) (created_by : ℕ) (db : Db) {db' : Db}
      → register_adjustment ids loc sku count reason_empty created_by db ≡ ok (tt, db')
      → (pos 0 ≤ℤ count)
        × (apply_movement_tx ids loc sku
              (plain MovementType.adjustment
                (count -ℤ pos (quantity_of loc sku db.balances))
                none
                created_by)
              db
            ≡ ok (tt, db'))
  unfolding register_adjustment
  adjusted count reason_empty created_by db e = ground (arith, current_balance-quantity db)

  -- A successful stocktaking leaves the balance at the physical count, and the stock invariant.
  pub register_adjustment-counted :
      (count : ℤ) (reason_empty : Bool) (created_by : ℕ) (db : Db) {db' : Db}
      → IsConsistent db
      → AreFresh ids db
      → register_adjustment ids loc sku count reason_empty created_by db ≡ ok (tt, db')
      → (pos (quantity_of loc sku db'.balances) ≡ count) × IsConsistent db'
  unfolding register_adjustment
  register_adjustment-counted count reason_empty created_by db {db'} v f e =
      let prev = quantity_of loc sku db.balances in
      let m = plain MovementType.adjustment (count -ℤ pos prev) none created_by in
      let moved = adjusted count reason_empty created_by db {db' = db'} e in
      let (enough, now) = apply_movement_tx-quantity ids loc sku m db v f moved.1 loc sku in
      (
        ground (arith, enough, now, moved.0, -ℤ_parts count (pos prev)),
        apply_movement_tx-IsConsistent ids loc sku m db v f moved.1,
      )

  -- A cancelled sale puts back what it took: after a sale of an item and its return, given new
  -- identifiers for both, every balance is as it was before.
  pub restore-reserve :
      (ids' : FreshIds) (quantity : ℤ) (order_id created_by : ℕ) (db : Db) {sold back : Db}
      → IsConsistent db
      → AreFresh ids db
      → AreFresh ids' sold
      → reserve_and_decrement ids loc sku quantity order_id created_by db ≡ ok (tt, sold)
      → restore_from_sale_tx ids' loc sku quantity order_id created_by sold ≡ ok (tt, back)
      → (loc' sku' : ℕ) → quantity_of loc' sku' back.balances ≡ quantity_of loc' sku' db.balances
  unfolding reserve_and_decrement restore_from_sale_tx
  restore-reserve ids' quantity order_id created_by db {sold} {back} v f f' s r loc' sku' =
      let m = plain MovementType.sale (negate quantity) (some order_id) created_by in
      let m' = plain MovementType.return quantity (some order_id) created_by in
      let v' = apply_movement_tx-IsConsistent ids loc sku m db v f s in
      let (enough, there) = apply_movement_tx-quantity ids loc sku m db v f s loc' sku' in
      let (_, here) = apply_movement_tx-quantity ids loc sku m db v f s loc sku in
      let (enough', again) = apply_movement_tx-quantity ids' loc sku m' sold v' f' r loc' sku' in
      ground (
        arith,
        enough,
        there,
        here,
        enough',
        again,
        -ℤ_parts (pos 0) quantity,
        same_quantity loc sku loc' sku' db,
      )
