-- ===== src/Sales/Cancel/Once.antt =====
-- An order is cancelled once (sales/admin_orders.go).
use pontoqap.Base.{
  ℕ, suc, ◌≡◌, refl, Option-cases, some, List, [], ◌∷◌, ◌==◌, arith, inl, inr, Bool-cases,
}
use pontoqap.Base.Int.{ℤ, pos}
use pontoqap.Store.Schema.{Db}
use pontoqap.Store.Shop.{Order, OrderStatus, OrderItem}
use pontoqap.Store.Table.{select_where}
use pontoqap.Store.Table.Keys.{find_by, update_by, find_by-update_by, find_by-key}
use pontoqap.Store.Tx.{ok, err, run_tx, Result-cases, order_not_cancellable}
use pontoqap.Store.Tx.Keeps.{Keeps}
use pontoqap.Billing.Dates.{Location}
use pontoqap.Billing.Adjustments.{apply_order_cancellation_billing_tx}
use pontoqap.Billing.Periods.{ensure_open_period_tx}
use pontoqap.Inventory.Movements.{FreshIds}
use pontoqap.Inventory.Movements.Only.{StockOnly, StockOnly-trans, apply_movement_tx-only}
use pontoqap.Inventory.Service.{restore_from_sale_tx}
use pontoqap.Sales.Cancel.{
  order_key, restore_lines, cancel_order_tx, admin_cancel_order, is_confirmed, mark_cancelled,
}

-- The row of an order that is cancelled.
abbrev pub cancelled : ℕ → Order → Order
cancelled now o = record o { status = OrderStatus.cancelled_order; cancelled_at = some now }

abbrev SameOrders : Db → Db → Type 0
SameOrders db db' = db'.shop.orders ≡ db.shop.orders

restore_from_sale_tx-only :
    (ids : FreshIds) (loc sku : ℕ) (quantity : ℤ) (order_id actor : ℕ)
    → Keeps StockOnly (restore_from_sale_tx ids loc sku quantity order_id actor)
unfolding restore_from_sale_tx
restore_from_sale_tx-only ids loc sku quantity order_id actor = apply_movement_tx-only ids loc sku _

-- Putting the stock of the lines back writes the tables of stock only.
pub restore_lines-only :
    (fresh : ℕ → FreshIds) (n loc order_id actor : ℕ) (lines : List OrderItem)
    → Keeps StockOnly (restore_lines fresh n loc order_id actor lines)
unfolding restore_lines
restore_lines-only fresh n loc order_id actor [] db a db' e = ground arith
restore_lines-only fresh n loc order_id actor (l ∷ ls) db a db' e =
    elim (Result-cases
      (restore_from_sale_tx (fresh n) loc l.sku_id (pos l.quantity) order_id actor db)) [
        | inl (er, h) ↦ ground arith
        | inr ((u, db1), h) ↦
            let remaining : restore_lines fresh (suc n) loc order_id actor ls db1 ≡ ok (a, db') =
              ground arith in
            StockOnly-trans db db1 db'
              (restore_from_sale_tx-only (fresh n) loc l.sku_id (pos l.quantity) order_id actor db u
                db1 h)
              (restore_lines-only fresh (suc n) loc order_id actor ls db1 a db' remaining)
      ]

module _ (zone : Location) (fresh : ℕ → FreshIds)
    (new_entry new_period new_adjustment loc : ℕ) where
  billed-SameOrders :
      (customer_id order_id : ℕ) (amount : ℤ) (at : ℕ)
      → Keeps SameOrders (
          apply_order_cancellation_billing_tx zone new_entry new_period new_adjustment customer_id
            order_id amount at)
  unfolding apply_order_cancellation_billing_tx ensure_open_period_tx
  billed-SameOrders customer_id order_id amount at db a db' e = ground arith

  cancel_order_tx-marked :
      (o : Order) (actor now : ℕ) (db db' : Db)
      → cancel_order_tx zone fresh new_entry new_period new_adjustment loc o actor now db
        ≡ ok (tt, db')
      → db'.shop.orders ≡ update_by order_key o.id (cancelled now) db.shop.orders
  unfolding cancel_order_tx mark_cancelled
  cancel_order_tx-marked o actor now db db' e =
      let lines = select_where (λ (i : OrderItem). i.order_id == o.id) db.shop.order_items in
      elim (Result-cases (
        apply_order_cancellation_billing_tx zone new_entry new_period new_adjustment o.customer_id
          o.id (pos o.total_cents) now db)) [
            | inl (er, h) ↦ ground arith
            | inr ((delta, db1), h) ↦
                elim (Result-cases (restore_lines fresh 0 loc o.id actor lines db1)) [
                  | inl (er, h') ↦ ground arith
                  | inr ((u, db2), h') ↦ ground (
                    arith,
                    billed-SameOrders o.customer_id o.id (pos o.total_cents) now db delta db1 h,
                    restore_lines-only fresh 0 loc o.id actor lines db1 u db2 h',
                  )
                ]
          ]

  -- A cancellation that succeeds is of an order that is confirmed. It marks that order as cancelled,
  -- no other order changes, and cancelling it once more is refused and changes nothing.
  pub admin_cancel_order-Once :
      (order_id actor now : ℕ) (db : Db) {db' : Db}
      → admin_cancel_order zone fresh new_entry new_period new_adjustment loc order_id actor now db
        ≡ ok (tt, db')
      → (o : Order) × (find_by order_key order_id db.shop.orders ≡ some o)
        × (o.status ≡ OrderStatus.confirmed_order)
        × (db'.shop.orders ≡ update_by order_key order_id (cancelled now) db.shop.orders)
        × ((zone' : Location) (fresh' : ℕ → FreshIds)
              (entry' period' adjustment' loc' actor' now' : ℕ)
            → run_tx
                (admin_cancel_order zone' fresh' entry' period' adjustment' loc' order_id actor'
                  now')
                db'
              ≡ (err order_not_cancellable, db'))
  unfolding admin_cancel_order run_tx
  admin_cancel_order-Once order_id actor now db {db'} e =
      elim (Option-cases (find_by order_key order_id db.shop.orders)) [
        | inl missing ↦ absurd (ground arith)
        | inr (o, found) ↦ elim (Bool-cases (is_confirmed o.status)) [
          | inl confirmed ↦
              let same : o.id ≡ order_id = find_by-key order_key order_id db.shop.orders found in
              let marked = cancel_order_tx-marked o actor now db db' (ground arith) in
              let marked' : db'.shop.orders
                  ≡ update_by order_key order_id (cancelled now) db.shop.orders =
                rw same at marked in
              let there =
                find_by-update_by order_key order_id order_id (cancelled now) db.shop.orders
                  (λ r. refl) in
              let now_there : find_by order_key order_id db'.shop.orders ≡ some (cancelled now o) =
                ground (arith, there, marked', found) in
              (
                o,
                found,
                ground arith,
                marked',
                λ zone' fresh' entry' period' adjustment' loc' actor' now'.
                    ground (arith, now_there),
              )
          | inr other ↦ absurd (ground arith)
        ]
      ]
