-- ===== src/Sales/Placing/Orders.antt =====
-- What one checkout writes: the order, its items, its entry and the customer's exposure
-- (sales/service.go).
use pontoqap.Base.{ℕ, ◌+◌, ◌≤◌, ◌≡◌, List, [], ◌∷◌, ◌++◌, arith, inl, inr, suc}
use mathlib.Core.List.{append_assoc, append-nil}
use pontoqap.Base.Int.{ℤ, pos}
use pontoqap.Store.Schema.{Db, Customer, Entry, EntryType}
use pontoqap.Store.Shop.{Order, OrderItem}
use pontoqap.Store.Tx.{ok, Result-cases}
use pontoqap.Store.Tx.Keeps.{Keeps}
use pontoqap.Store.Table.Keys.{update_by}
use pontoqap.Billing.Dates.{Location}
use pontoqap.Billing.Periods.{add_order_entry_tx, ensure_open_period_tx}
use pontoqap.Billing.Rows.{customer_key}
use pontoqap.Customers.{available_limit}
use pontoqap.Inventory.Movements.{FreshIds}
use pontoqap.Inventory.Movements.Only.{StockOnly, apply_movement_tx-only}
use pontoqap.Inventory.Service.{reserve_and_decrement}
use pontoqap.Sales.Placing.{
  CheckoutLine, CheckoutIds, reserve_lines, insert_order_item, place_order, lines_total, new_order,
  insert_order, charge_customer,
}

-- The row of `order_items` for a line.
abbrev pub ordered : ℕ → CheckoutLine → OrderItem
ordered order_id l = record {
  order_id = order_id;
  sku_id = l.sku;
  unit_price_cents = l.unit_price;
  quantity = l.qty;
  total_cents = l.line_total;
}

reserve_and_decrement-only :
    (ids : FreshIds) (loc sku : ℕ) (quantity : ℤ) (ref by : ℕ)
    → Keeps StockOnly (reserve_and_decrement ids loc sku quantity ref by)
unfolding reserve_and_decrement
reserve_and_decrement-only ids loc sku quantity ref by = apply_movement_tx-only ids loc sku _

abbrev pub ordered_lines : ℕ → List CheckoutLine → List OrderItem
ordered_lines order_id [] = []
ordered_lines order_id (l ∷ ls) = ordered order_id l ∷ ordered_lines order_id ls

-- Reserving the lines adds their items, and leaves customers, orders and entries alone.
abbrev pub Reserved : ℕ → List CheckoutLine → Db → Db → Type 0
Reserved order_id lines db db' =
    (db'.customers ≡ db.customers)
    × (db'.shop.orders ≡ db.shop.orders)
    × (db'.shop.order_items ≡ db.shop.order_items ++ ordered_lines order_id lines)
    × (db'.entries ≡ db.entries)

insert_order_item-ordered :
    (order_id : ℕ) (l : CheckoutLine) (db db' : Db)
    → insert_order_item order_id l db ≡ ok (tt, db')
    → Reserved order_id (l ∷ []) db db'
unfolding insert_order_item
insert_order_item-ordered order_id l db db' e = ground arith

pub reserve_lines-Reserved :
    (fresh : ℕ → FreshIds) (n loc order_id by : ℕ) (lines : List CheckoutLine)
    → Keeps (Reserved order_id lines) (reserve_lines fresh n loc order_id by lines)
unfolding reserve_lines
reserve_lines-Reserved fresh n loc order_id by [] db a db' e =
    ground (arith, append-nil db.shop.order_items)
reserve_lines-Reserved fresh n loc order_id by (l ∷ ls) db a db' e =
    elim (Result-cases (insert_order_item order_id l db)) [
      | inl (er, h) ↦ ground arith
      | inr ((_, db1), h) ↦
          elim (Result-cases
            (reserve_and_decrement (fresh n) loc l.sku (pos l.qty) order_id by db1)) [
              | inl (er, h') ↦ ground arith
              | inr ((_, db2), h') ↦
                  let sold =
                    reserve_and_decrement-only (fresh n) loc l.sku (pos l.qty) order_id by db1 tt
                      db2 h' in
                  let added = insert_order_item-ordered order_id l db db1 h in
                  let remaining : reserve_lines fresh (suc n) loc order_id by ls db2 ≡ ok (a, db') =
                    ground arith in
                  let rest =
                    reserve_lines-Reserved fresh (suc n) loc order_id by ls db2 a db' remaining in
                  ground (
                    arith,
                    sold,
                    added,
                    rest,
                    append_assoc db.shop.order_items (ordered order_id l ∷ [])
                        (ordered_lines order_id ls),
                  )
            ]
    ]

-- The entry of an order in the billing period `period`.
abbrev pub order_entry_of : ℕ → ℕ → Order → ℕ → Entry
order_entry_of id period o at = record {
  id = id;
  billing_period_id = period;
  entry_type = EntryType.order_entry;
  order_id = o.id;
  amount_cents = pos o.total_cents;
  occurred_at = at;
}

-- What an order of `lines` has written once it is placed: its total is that of the lines and within
-- the limit, and the customer owes it; the order, its items and one entry of it are added.
pub record IsPlaced (ids : CheckoutIds) (cust : Customer) (key now : ℕ) (lines : List CheckoutLine)
    (db : Db) (o : Order) (db' : Db) : Type 0 where
  pub order : o ≡ new_order ids.order cust.id (lines_total lines) key now
  pub within : o.total_cents ≤ available_limit cust
  pub charged :
      db'.customers
      ≡ update_by customer_key cust.id
          (λ c. record c { current_exposure_cents = c.current_exposure_cents + o.total_cents })
          db.customers
  pub stored : db'.shop.orders ≡ db.shop.orders ++ o ∷ []
  pub itemized : db'.shop.order_items ≡ db.shop.order_items ++ ordered_lines ids.order lines
  pub billed :
      (period : ℕ) × (db'.entries
        ≡ db.entries ++ order_entry_of ids.billing_entry period o now ∷ [])

module _ (loc : ℕ) (zone : Location) (ids : CheckoutIds) (cust : Customer) (key actor now : ℕ) where
  entry_added :
      (total : ℕ) (db db' : Db)
      → add_order_entry_tx zone ids.period ids.billing_entry cust.id ids.order total now db
        ≡ ok (tt, db')
      → (period : ℕ) × (db' ≡ record db {
        periods = db'.periods;
        entries =
            db.entries
            ++ order_entry_of ids.billing_entry period
                (new_order ids.order cust.id total key now)
                now
              ∷ [];
      })
  unfolding add_order_entry_tx
  entry_added total db db' e =
      elim (Result-cases (ensure_open_period_tx zone ids.period cust.id now db)) [
        | inl (er, h) ↦ ground arith
        | inr ((period, db1), h) ↦ (period, ground arith)
      ]

  -- An order that is placed has written what it should.
  pub place_order-IsPlaced :
      (cart : ℕ) (lines : List CheckoutLine) (db : Db) {o : Order} {db' : Db}
      → place_order loc zone ids cust cart key actor now lines db ≡ ok (o, db')
      → IsPlaced ids cust key now lines db o db'
  unfolding place_order
  place_order-IsPlaced cart lines db {o} {db'} e =
      let total = lines_total lines in
      let db1 = insert_order (new_order ids.order cust.id total key now) db in
      elim (Result-cases (reserve_lines ids.movement 0 loc ids.order actor lines db1)) [
        | inl (er, h) ↦ ground arith
        | inr ((u, db2), h) ↦
            let db3 = charge_customer cust.id total db2 in
            elim (Result-cases (
              add_order_entry_tx zone ids.period ids.billing_entry cust.id ids.order total now
                db3)) [
                  | inl (er, h') ↦ ground arith
                  | inr ((u', db4), h') ↦
                      let reserved =
                        reserve_lines-Reserved ids.movement 0 loc ids.order actor lines db1 u db2
                          h in
                      let (period, added) = entry_added total db3 db4 h' in
                      record {
                        order = ground arith;
                        within = ground arith;
                        charged = ground arith;
                        stored = ground arith;
                        itemized = ground arith;
                        billed = (period, ground arith);
                      }
                ]
      ]
