-- ===== src/Sales/Cancel.antt =====
-- `AdminCancelOrder` of backend/internal/sales/admin_orders.go. `mapBillingCancelError` only rewords
-- an error, so the error itself stands.
pub mod Once
use pontoqap.Billing.Adjustments.{apply_order_cancellation_billing_tx, shift_customer_exposure}
use pontoqap.Store.Table.{select_where}
use pontoqap.Base.Int.{pos, leb_ℤ}
use pontoqap.Store.Tx.{
  ◌>>=◌, ◌>>◌, Tx, ok, err, order_not_found, order_not_cancellable, gets, modify,
}
use pontoqap.Store.Table.Keys.{update_by, find_by}
use pontoqap.Inventory.Movements.{FreshIds}
use pontoqap.Billing.Dates.{Location}
use pontoqap.Store.Schema.{Db}
use pontoqap.Inventory.Service.{restore_from_sale_tx}
use pontoqap.Store.Shop.{Order, OrderStatus, OrderItem}
use pontoqap.Base.{[], ℕ, none, some, true, false, Bool, List, ◌∷◌, if◌then◌else◌, suc, ◌==◌, ◌&&◌}

abbrev pub order_key : Order → ℕ
order_key o = o.id

abbrev pub is_confirmed : OrderStatus → Bool
is_confirmed OrderStatus.confirmed_order = true
is_confirmed OrderStatus.cancelled_order = false

-- The loop that puts the stock of each line back.
unfoldable pub restore_lines : (ℕ → FreshIds) → ℕ → ℕ → ℕ → ℕ → List OrderItem → Tx Db (Unit {0})
unfolding restore_from_sale_tx
restore_lines fresh n loc order_id actor [] db = ok (tt, db)
restore_lines fresh n loc order_id actor (l ∷ ls) db =
    elim (restore_from_sale_tx (fresh n) loc l.sku_id (pos l.quantity) order_id actor db) [
      | err e ↦ err e
      | ok (_, db') ↦ restore_lines fresh (suc n) loc order_id actor ls db'
    ]

-- `UPDATE orders SET status = 'cancelled'`.
unfoldable pub mark_cancelled : ℕ → ℕ → Db → Db
mark_cancelled order_id now db = record db {
  shop = record db.shop {
    orders =
        update_by order_key order_id
          (λ o. record o { status = OrderStatus.cancelled_order; cancelled_at = some now })
          db.shop.orders;
  };
}

-- The writes of `AdminCancelOrder` on an order that may be cancelled.
unfoldable pub cancel_order_tx :
    Location → (ℕ → FreshIds) → ℕ → ℕ → ℕ → ℕ → Order → ℕ → ℕ → Tx Db (Unit {0})
cancel_order_tx zone fresh new_entry new_period new_adjustment loc o actor now = do
  lines ← gets λ db. select_where (λ (i : OrderItem). i.order_id == o.id) db.shop.order_items
  delta ←
      apply_order_cancellation_billing_tx zone new_entry new_period new_adjustment o.customer_id
        o.id (pos o.total_cents) now
  restore_lines fresh 0 loc o.id actor lines
  modify λ db.
      if leb_ℤ delta (pos 0) && leb_ℤ (pos 0) delta
      then db
      else shift_customer_exposure o.customer_id delta db
  modify (mark_cancelled o.id now)

-- `AdminCancelOrder`, inside its transaction.
unfoldable pub admin_cancel_order :
    Location → (ℕ → FreshIds) → ℕ → ℕ → ℕ → ℕ → ℕ → ℕ → ℕ → Tx Db (Unit {0})
admin_cancel_order zone fresh new_entry new_period new_adjustment loc order_id actor now db =
    elim (find_by order_key order_id db.shop.orders) [
      | none ↦ err order_not_found
      | some o ↦
          if is_confirmed o.status
          then cancel_order_tx zone fresh new_entry new_period new_adjustment loc o actor now db
          else err order_not_cancellable
    ]
