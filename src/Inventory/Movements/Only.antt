-- ===== src/Inventory/Movements/Only.antt =====
-- A movement writes the tables of stock only (movements.go).
use pontoqap.Store.Tx.{Error}
use pontoqap.Inventory.Lots.{consume_lots_fifo_tx, create_lot_tx}
use pontoqap.Store.Tx.Keeps.{Keeps, Keeps-bind}
use pontoqap.Inventory.Movements.{
  consume_if_outward, lock_balance, store_balance, create_if_inward, store_entry_cost,
  consume_lots_fifo_tx, create_lot_tx, MovementType, ℤ, FreshIds, apply_movement_tx, MovementApply,
  record_movement, pos_part, neg_part, pos, ◌+ℤ◌, modify, throw_if,
}
use pontoqap.Store.Schema.{Db}
use pontoqap.Base.{refl, none, some, ℕ, arith, ◌∙◌, ap, Option, ◌≡◌, ◌+◌, Bool, true, false}

-- The tables of stock and the items as in `db'`, all else as in `db`.
abbrev pub with_stock : Db → Db → Db
with_stock db db' = record db {
  lots = db'.lots;
  balances = db'.balances;
  movements = db'.movements;
  skus = db'.skus;
}

abbrev pub StockOnly : Db → Db → Type 0
StockOnly db db' = db' ≡ with_stock db db'

pub StockOnly-trans : (a b c : Db) → StockOnly a b → StockOnly b c → StockOnly a c
StockOnly-trans a b c e e' = e' ∙ ap (λ x. with_stock x c) e

consume_if_outward-only :
    (loc sku : ℕ) (delta : ℤ) → Keeps StockOnly (consume_if_outward loc sku delta)
unfolding consume_if_outward consume_lots_fifo_tx
consume_if_outward-only loc sku delta db a db' e = ground arith

lock_balance-only : (new_id loc sku : ℕ) → Keeps StockOnly (lock_balance new_id loc sku)
unfolding lock_balance
lock_balance-only new_id loc sku db a db' e = ground arith

store_balance-only : (id version n : ℕ) → Keeps StockOnly (store_balance id version n)
unfolding store_balance
store_balance-only id version n db a db' e = ground arith

create_if_inward-only :
    (ids : FreshIds) (loc sku : ℕ) (m : MovementApply)
    → Keeps StockOnly (create_if_inward ids loc sku m)
unfolding create_if_inward create_lot_tx
create_if_inward-only ids loc sku m db a db' e = ground arith

store_entry_cost-only :
    (sku : ℕ) (t : MovementType) (c : Option ℕ) (db : Db)
    → StockOnly db (store_entry_cost sku t c db)
unfolding store_entry_cost
store_entry_cost-only sku MovementType.entry (some c) db = refl
store_entry_cost-only sku MovementType.entry none db = refl
store_entry_cost-only sku _ c db = refl

throw_if-only : (b : Bool) (error : Error) → Keeps StockOnly (throw_if b error)
throw_if-only true error db a db' e = ground arith
throw_if-only false error db a db' e = ground arith

modify-only : (f : Db → Db) → ((db : Db) → StockOnly db (f db)) → Keeps StockOnly (modify f)
modify-only f h db a db' e = ground (arith, h db)

-- A movement that goes through writes lots, balances, movements and items, and no other table.
pub apply_movement_tx-only :
    (ids : FreshIds) (loc sku : ℕ) (m : MovementApply)
    → Keeps StockOnly (apply_movement_tx ids loc sku m)
unfolding apply_movement_tx record_movement
apply_movement_tx-only ids loc sku m =
    let quantity = pos_part m.quantity_delta + neg_part m.quantity_delta in
    Keeps-bind StockOnly StockOnly-trans _ _ (throw_if-only _ _) λ _.
      Keeps-bind StockOnly StockOnly-trans _ _ (consume_if_outward-only loc sku m.quantity_delta)
        λ _.
          Keeps-bind StockOnly StockOnly-trans _ _ (lock_balance-only ids.balance_id loc sku)
            λ locked. Keeps-bind StockOnly StockOnly-trans _ _ (throw_if-only _ _) λ _.
              Keeps-bind StockOnly StockOnly-trans _ _
                (store_balance-only locked.0 locked.2 (pos_part (pos locked.1 +ℤ m.quantity_delta)))
                λ _. Keeps-bind StockOnly StockOnly-trans _ _ (modify-only _ λ db. refl) λ _.
                  Keeps-bind StockOnly StockOnly-trans _ _
                    (modify-only _ (store_entry_cost-only sku m.movement_type m.unit_cost_cents))
                    λ _. create_if_inward-only ids loc sku m
