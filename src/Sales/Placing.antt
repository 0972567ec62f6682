-- ===== src/Sales/Placing.antt =====
-- The writes of `Checkout` of backend/internal/sales/service.go once the lines are priced: the order,
-- its items, the stock, the customer's exposure, the billing entry and the cart.
pub mod Orders
use pontoqap.Billing.Periods.{add_order_entry_tx}
use pontoqap.Customers.{get_customer, ensure_not_blocked, available_limit}
use pontoqap.Customers.Collaborators.{collaborator_margin_for_customer}
use pontoqap.Billing.Rows.{customer_key}
use pontoqap.Sales.Carts.{get_or_create_cart, cart_key, CartLine, CartView, promo_left}
use pontoqap.Billing.Dates.{Location}
use pontoqap.Base.Int.{pos, ℤ}
use pontoqap.Store.Table.{insert_row, count_where, delete_where, select_first}
use pontoqap.Store.Table.Keys.{find_by, update_by}
use pontoqap.Catalog.Prices.{Float64}
use pontoqap.Inventory.Service.{reserve_and_decrement}
use pontoqap.Store.Tx.{
  ◌>>◌, Tx, ok, err, check_violation, Result, no_rows, empty_cart, idempotency_key_required,
  customer_not_approved, run_tx, throw_if, insufficient_limit, modify, pure,
}
use pontoqap.Store.Shop.{Order, OrderStatus, Product, CartStatus, CartItem}
use pontoqap.Catalog.Pricing.{
  consume_promo_quota_tx, recalculate_product_skus, sku_key, get_product, recalculate_sku,
  price_line,
}
use pontoqap.Store.Schema.{Db, Sku, Customer}
use pontoqap.Inventory.Movements.{FreshIds}
use pontoqap.Base.{
  [], ℕ, none, some, false, Bool, List, ◌∷◌, ◌+◌, Option, if◌then◌else◌, ltb, leb, suc, ◌==◌, ◌&&◌,
  ◌-◌, [],
}

-- The `line` of the function.
pub record CheckoutLine : Type 0 where
  pub sku : ℕ
  pub product : ℕ
  pub qty : ℕ
  pub unit_price : ℕ
  pub line_total : ℕ
  pub promo_ended : Bool

-- The identifiers that one checkout may give to new rows; `movement` is by the number of the line.
pub record CheckoutIds : Type 0 where
  pub cart : ℕ
  pub order : ℕ
  pub movement : ℕ → FreshIds
  pub period : ℕ
  pub billing_entry : ℕ

-- `total += l.lineTotal` over the lines.
unfoldable pub lines_total : List CheckoutLine → ℕ
lines_total [] = 0
lines_total (l ∷ ls) = l.line_total + lines_total ls

-- The order of a customer as it is inserted.
abbrev pub new_order : ℕ → ℕ → ℕ → ℕ → ℕ → Order
new_order id customer_id total key now = record {
  id = id;
  customer_id = customer_id;
  status = OrderStatus.confirmed_order;
  total_cents = total;
  idempotency_key = key;
  confirmed_at = now;
  cancelled_at = none;
}

-- `INSERT INTO order_items`.
unfoldable pub insert_order_item : ℕ → CheckoutLine → Tx Db (Unit {0})
insert_order_item order_id l db =
    if leb l.qty 0
    then err check_violation
    else ok (
      tt,
      record db {
        shop = record db.shop {
          order_items =
              insert_row
                (record {
                  order_id = order_id;
                  sku_id = l.sku;
                  unit_price_cents = l.unit_price;
                  quantity = l.qty;
                  total_cents = l.line_total;
                })
                db.shop.order_items;
        };
      },
    )

-- `UPDATE carts SET status = 'checked_out'` and the `DELETE` of its items.
unfoldable pub close_cart : ℕ → Db → Db
close_cart cart db = record db {
  shop = record db.shop {
    carts =
        update_by cart_key cart (λ c. record c { status = CartStatus.checked_out }) db.shop.carts;
    cart_items = delete_where (λ (i : CartItem). i.cart_id == cart) db.shop.cart_items;
  };
}

-- `current_exposure_cents + $2`.
unfoldable pub charge_customer : ℕ → ℕ → Db → Db
charge_customer customer_id total db = record db {
  customers =
      update_by customer_key customer_id
        (λ c. record c { current_exposure_cents = c.current_exposure_cents + total }) db.customers;
}

-- `INSERT INTO orders`.
unfoldable pub insert_order : Order → Db → Db
insert_order o db = record db { shop = record db.shop { orders = insert_row o db.shop.orders } }

-- The loop that inserts the items and takes their stock.
unfoldable pub reserve_lines : (ℕ → FreshIds) → ℕ → ℕ → ℕ → ℕ → List CheckoutLine → Tx Db (Unit {0})
unfolding insert_order_item reserve_and_decrement
reserve_lines fresh n loc order_id actor [] db = ok (tt, db)
reserve_lines fresh n loc order_id actor (l ∷ ls) db = elim (insert_order_item order_id l db) [
  | err e ↦ err e
  | ok (_, db1) ↦ elim (reserve_and_decrement (fresh n) loc l.sku (pos l.qty) order_id actor db1) [
    | err e ↦ err e
    | ok (_, db2) ↦ reserve_lines fresh (suc n) loc order_id actor ls db2
  ]
]

module _ (loc : ℕ) where
  -- What is written once the lines are priced.
  unfoldable pub place_order :
      Location → CheckoutIds → Customer → ℕ → ℕ → ℕ → ℕ → List CheckoutLine → Tx Db Order
  unfolding lines_total reserve_lines charge_customer insert_order close_cart
  place_order zone ids cust cart key actor now lines = do
    let total = lines_total lines
    throw_if (ltb (available_limit cust) total) insufficient_limit
    modify (insert_order (new_order ids.order cust.id total key now))
    reserve_lines ids.movement 0 loc ids.order actor lines
    modify (charge_customer cust.id total)
    add_order_entry_tx zone ids.period ids.billing_entry cust.id ids.order total now
    modify (close_cart cart)
    pure (new_order ids.order cust.id total key now)
