-- ===== src/Inventory/Movements/Consistent.antt =====
-- The stock invariant: the balance of every item is the sum of its lots (movements.go, lots.go).
use pontoqap.Base.{
  ℕ, ◌+◌, ◌-◌, ◌≡◌, ◌≤◌, refl, ◌&&◌, Option, none, some, List, [], ◌∷◌, ◌==◌, if◌then◌else◌, arith,
}
use pontoqap.Store.Table.{sum_where}
use pontoqap.Store.Table.Keys.{find_by, IsUnique, insert-IsUnique}
use pontoqap.Store.Table.Sums.{sum_where-append}
use pontoqap.Store.Schema.{Db, Lot, MovementType}
use pontoqap.Store.Tx.{ok}
use pontoqap.Inventory.Lots.{lot_id, stocks}
use pontoqap.Inventory.Lots.Fifo.{held, fifo}
use pontoqap.Inventory.Lots.Held.{held-fifo, held-fifo_other, find_by-fifo, fifo-IsUnique}
use pontoqap.Inventory.Movements.{
  FreshIds, MovementApply, balance_key, apply_movement_tx, store_entry_cost, record_movement,
  lot_unit_cost,
}
use pontoqap.Inventory.Movements.Balances.{
  quantity_of, quantity_of-put_balance, put_balance-IsUnique, put_balance,
}
use pontoqap.Inventory.Movements.Effects.{
  taken, brought, written, lot_added, moved, apply_movement_tx-moved,
}

-- Identifiers are unique, and each balance is the sum of the item's lots.
pub record IsConsistent (db : Db) : Type 0 where
  pub lots_unique : IsUnique lot_id db.lots
  pub balances_unique : IsUnique balance_key db.balances
  pub agree : (loc sku : ℕ) → held loc sku db.lots ≡ quantity_of loc sku db.balances

-- The identifiers handed to a movement are new.
pub record AreFresh (ids : FreshIds) (db : Db) : Type 0 where
  pub lot_fresh : find_by lot_id ids.lot_id db.lots ≡ none
  pub balance_fresh : find_by balance_key ids.balance_id db.balances ≡ none

store_entry_cost_keeps :
    (sku : ℕ) (t : MovementType) (c : Option ℕ) (db : Db)
    → ((store_entry_cost sku t c db).lots ≡ db.lots)
      × ((store_entry_cost sku t c db).balances ≡ db.balances)
      × ((store_entry_cost sku t c db).movements ≡ db.movements)
unfolding store_entry_cost
store_entry_cost_keeps sku MovementType.entry (some c) db = (refl, refl, refl)
store_entry_cost_keeps sku MovementType.entry none db = (refl, refl, refl)
store_entry_cost_keeps sku _ c db = (refl, refl, refl)

module _ (ids : FreshIds) (loc sku : ℕ) (m : MovementApply) where
  moved-lots :
      (db : Db)
      → (moved ids loc sku m db).lots
        ≡ lot_added ids loc sku m
            (written ids loc sku m (record db { lots = fifo loc sku (taken m) db.lots }))
            (fifo loc sku (taken m) db.lots)
  unfolding moved written record_movement
  moved-lots db =
      let db' : Db = record db { lots = fifo loc sku (taken m) db.lots } in
      ground (
        arith,
        store_entry_cost_keeps sku m.movement_type m.unit_cost_cents (
            record_movement ids.movement_id loc sku m (brought m + taken m)
              (quantity_of loc sku db.balances)
              (quantity_of loc sku db.balances + brought m - taken m)
              (record db' {
                balances =
                    put_balance ids.balance_id loc sku
                      (quantity_of loc sku db.balances + brought m - taken m) db.balances;
              })),
      )

  pub moved-balances :
      (db : Db)
      → (moved ids loc sku m db).balances
        ≡ put_balance ids.balance_id loc sku
            (quantity_of loc sku db.balances + brought m - taken m)
            db.balances
  unfolding moved written record_movement
  moved-balances db =
      let db' : Db = record db { lots = fifo loc sku (taken m) db.lots } in
      ground (
        arith,
        store_entry_cost_keeps sku m.movement_type m.unit_cost_cents (
            record_movement ids.movement_id loc sku m (brought m + taken m)
              (quantity_of loc sku db.balances)
              (quantity_of loc sku db.balances + brought m - taken m)
              (record db' {
                balances =
                    put_balance ids.balance_id loc sku
                      (quantity_of loc sku db.balances + brought m - taken m) db.balances;
              })),
      )

  held-lot_added :
      (db : Db) (t : List Lot) (loc' sku' : ℕ)
      → held loc' sku' (lot_added ids loc sku m db t)
        ≡ held loc' sku' t + (if loc == loc' && sku == sku' then brought m else 0)
  unfolding lot_added sum_where
  held-lot_added db t loc' sku' = ground (
    arith,
    sum_where-append (stocks loc' sku') (λ (r : Lot). r.quantity_remaining) t
        (record {
          id = ids.lot_id;
          location_id = loc;
          sku_id = sku;
          quantity_remaining = brought m;
          unit_cost_cents = lot_unit_cost loc sku m.movement_type m.unit_cost_cents db;
          source_movement_id = ids.movement_id;
        }
          ∷ []),
  )

  lot_added-IsUnique :
      (db : Db) (t : List Lot)
      → find_by lot_id ids.lot_id t ≡ none
      → IsUnique lot_id t
      → IsUnique lot_id (lot_added ids loc sku m db t)
  unfolding lot_added
  lot_added-IsUnique db t f u = ground (
    arith,
    insert-IsUnique lot_id
        (record {
          id = ids.lot_id;
          location_id = loc;
          sku_id = sku;
          quantity_remaining = brought m;
          unit_cost_cents = lot_unit_cost loc sku m.movement_type m.unit_cost_cents db;
          source_movement_id = ids.movement_id;
        })
        t f u,
  )

  agree_at :
      (db : Db)
      → IsConsistent db
      → taken m ≤ quantity_of loc sku db.balances
      → (loc' sku' : ℕ)
      → held loc' sku' (fifo loc sku (taken m) db.lots)
          + (if loc == loc' && sku == sku' then brought m else 0)
        ≡ (if loc == loc' && sku == sku'
            then quantity_of loc sku db.balances + brought m - taken m
            else quantity_of loc' sku' db.balances)
  agree_at db v enough loc' sku' = ground (
    arith,
    v.agree loc sku,
    v.agree loc' sku',
    held-fifo loc sku (taken m) db.lots,
    held-fifo_other loc sku loc' sku' (taken m) db.lots,
  )

  moved-agree :
      (db : Db)
      → IsConsistent db
      → taken m ≤ quantity_of loc sku db.balances
      → (loc' sku' : ℕ)
      → held loc' sku' (moved ids loc sku m db).lots
        ≡ quantity_of loc' sku' (moved ids loc sku m db).balances
  moved-agree db v enough loc' sku' =
      let n = quantity_of loc sku db.balances + brought m - taken m in
      let db' : Db = record db { lots = fifo loc sku (taken m) db.lots } in
      rw (moved-lots db, moved-balances db)
        (rw (held-lot_added (written ids loc sku m db') db'.lots loc' sku') (
          rw (quantity_of-put_balance ids.balance_id loc sku n loc' sku' db.balances)
            (agree_at db v enough loc' sku')))

  -- A movement that takes no more than there is keeps the invariant.
  moved-IsConsistent :
      (db : Db)
      → IsConsistent db
      → AreFresh ids db
      → taken m ≤ quantity_of loc sku db.balances
      → IsConsistent (moved ids loc sku m db)
  moved-IsConsistent db v f enough = record {
    lots_unique = rw (moved-lots db) (
        lot_added-IsUnique _ _ (find_by-fifo loc sku ids.lot_id (taken m) db.lots f.lot_fresh)
          (fifo-IsUnique loc sku (taken m) db.lots v.lots_unique));
    balances_unique = rw (moved-balances db) (
        put_balance-IsUnique ids.balance_id loc sku _ db.balances f.balance_fresh
          v.balances_unique);
    agree = moved-agree db v enough;
  }

  succeeded :
      (db : Db) {db' : Db}
      → IsConsistent db
      → AreFresh ids db
      → apply_movement_tx ids loc sku m db ≡ ok (tt, db')
      → (taken m ≤ quantity_of loc sku db.balances) × (db' ≡ moved ids loc sku m db)
  succeeded db v f e =
      let done =
        apply_movement_tx-moved ids loc sku m db v.lots_unique v.balances_unique f.balance_fresh
          (v.agree loc sku) in
      ground (arith, done)

  -- The stock invariant: from tables where every balance is the sum of its lots, a movement that
  -- succeeds, given new identifiers, leads to such tables again.
  pub apply_movement_tx-IsConsistent :
      (db : Db) {db' : Db}
      → IsConsistent db
      → AreFresh ids db
      → apply_movement_tx ids loc sku m db ≡ ok (tt, db')
      → IsConsistent db'
  apply_movement_tx-IsConsistent db {db'} v f e =
      let (enough, same) = succeeded db {db' = db'} v f e in
      rw same (moved-IsConsistent db v f enough)

  -- From such tables, with new identifiers, a movement that succeeds takes no more than the balance
  -- of the item; that balance is changed by the quantity moved, and every other is as it was.
  pub apply_movement_tx-quantity :
      (db : Db) {db' : Db}
      → IsConsistent db
      → AreFresh ids db
      → apply_movement_tx ids loc sku m db ≡ ok (tt, db')
      → (loc' sku' : ℕ)
      → (taken m ≤ quantity_of loc sku db.balances)
        × (quantity_of loc' sku' db'.balances ≡ (
            if loc == loc' && sku == sku'
            then quantity_of loc sku db.balances + brought m - taken m
            else quantity_of loc' sku' db.balances))
  apply_movement_tx-quantity db {db'} v f e loc' sku' =
      let (enough, same) = succeeded db {db' = db'} v f e in
      (
        enough,
        rw same (
            rw (moved-balances db)
              (quantity_of-put_balance ids.balance_id loc sku _ loc' sku' db.balances)),
      )
