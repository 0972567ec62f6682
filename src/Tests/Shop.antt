-- ===== src/Tests/Shop.antt =====
-- Checkout, cancellation, prices and customers at concrete tables, with a fixed point of four digits
-- in place of `float64`.
use pontoqap.Billing.Adjustments.{apply_order_cancellation_billing_tx}
use pontoqap.Inventory.Service.{reserve_and_decrement, restore_from_sale_tx}
use pontoqap.Customers.Collaborators.{collaborator_margin_for_customer}
use pontoqap.Billing.Periods.{
  add_order_entry_tx, ensure_open_period_tx, local_date, period_of_order,
}
use pontoqap.Billing.Dates.{civil_of_day, Location}
use pontoqap.Inventory.Lots.{
  weighted_average_cost, consume_lots_fifo_tx, consume_rows, create_lot_tx, sku_fallback_cost,
}
use pontoqap.Catalog.Pricing.{
  price_line, regular_sale_price_cents, change_sku_price, collaborator_unit, consume_promo_quota_tx,
  line_amounts, promo_units_of, recalculate_each, recalculate_product_skus, recalculate_sku,
  PriceLineInput, PriceLineResult, with_quota, get_product,
}
use pontoqap.Sales.Carts.{get_or_create_cart, load_cart, ensure_cart, promo_left, load_items}
use pontoqap.Base.{ℕ, ◌+◌, ◌*◌, ◌/◌, ◌≡◌, ◌≤◌, ◌⊎◌, refl, true, none, some, List, [], ◌∷◌, arith}
use pontoqap.Base.Int.{ℤ, pos, pos_part, ◌-ℤ◌, ◌+ℤ◌}
use pontoqap.Store.Schema.{Customer, CustomerStatus, Db}
use pontoqap.Store.Shop.{Product, CartStatus, Order, OrderStatus}
use pontoqap.Store.Table.{select_first, select_where, sum_where, count_where, update_where}
use pontoqap.Store.Tx.{
  ok, err, run_tx, ◌>>◌, insufficient_limit, order_not_cancellable, customer_not_blocked,
}
use pontoqap.Inventory.Movements.{
  FreshIds, apply_movement_tx, consume_if_outward, lock_balance, store_balance, create_if_inward,
  store_entry_cost, record_movement, lot_unit_cost,
}
use pontoqap.Catalog.Prices.{
  Float64, round_cents, apply_collaborator_min, effective_margin_percent, is_on_promotion,
  round_sale_price_cents, sale_price_from_cost,
}
use pontoqap.Customers.{get_customer, ensure_not_blocked, available_limit, block, unblock}
use pontoqap.Sales.Placing.{CheckoutLine, CheckoutIds, place_order, reserve_lines}
use pontoqap.Sales.Placing.Orders.{IsPlaced}
use pontoqap.Sales.Checkout.{
  checkout, checkout_cart, checkout_tx, checkout_lines, recalculate_ended, recalculate_sold,
}
use pontoqap.Sales.Checkout.Untouched.{Untouched}
use pontoqap.Sales.Checkout.Success.{checkout-IsPlaced, checkout-again, checkout-err}
use pontoqap.Tests.Data.{local_zone, shelf, running, empty_shop, tables_of}
use pontoqap.Billing.Rows.{customer_key}
use pontoqap.Store.Table.Keys.{find_by, update_by}
use pontoqap.Sales.Cancel.{
  order_key, admin_cancel_order, cancel_order_tx, mark_cancelled, restore_lines,
}
use pontoqap.Sales.Cancel.Once.{cancelled, admin_cancel_order-Once}
use pontoqap.Catalog.Pricing.Quota.{consume-price, charged}
use pontoqap.Catalog.Products.Promotions.{consumed, CatalogStep-HasPromos}
use pontoqap.Catalog.Products.Sound.{HasPromos}
use pontoqap.Customers.Blocking.{forgotten, unblock-block}

abbrev fixed : Float64 ℕ
fixed = record {
  of_int = λ n. n * 10000;
  margin = λ m. pos_part m * 100;
  add = λ a b. a + b;
  mul = λ a b. a * b / 10000;
  div = λ a b. a * 10000 / b;
  round = λ w. pos ((w + 5000) / 10000);
}

abbrev sold_product : Product
sold_product = record {
  id = 1;
  category_id = none;
  margin_percent = pos 3000;
  promo_active = true;
  promo_margin_percent = some (pos 2000);
  promo_quantity_total = 5;
  promo_quantity_remaining = 2;
  active = true;
  visible = true;
}

abbrev buyer : ℕ → Customer
buyer limit = record {
  id = 9;
  user_id = 90;
  status = CustomerStatus.approved_customer;
  status_before_block = none;
  credit_limit_cents = limit;
  current_exposure_cents = 0;
  collaborator_category_id = none;
}

-- A customer with three units of one item in the cart, two of them on promotion.
abbrev store : ℕ → Db
store limit = record shelf {
  periods = running.periods;
  customers = buyer limit ∷ [];
  skus =
      record {
        id = 7;
        product_id = 1;
        cost_price_cents = none;
        sale_price_cents = 300;
        minimum_stock = 0;
        active = true;
      }
      ∷ [];
  shop = record empty_shop {
    products = sold_product ∷ [];
    carts = record { id = 50; customer_id = 9; status = CartStatus.active_cart } ∷ [];
    cart_items = record { cart_id = 50; sku_id = 7; quantity = 3 } ∷ [];
  };
}

abbrev ids : CheckoutIds
ids = record {
  cart = 51;
  order = 2;
  movement = λ n. record { balance_id = 200 + n; movement_id = 100 + n; lot_id = 300 + n };
  period = 5;
  billing_entry = 6;
}

abbrev sold : Db
sold = (checkout fixed 1 local_zone ids 9 (some 77) 90 2000 (store 5000)).1

abbrev bought : Order
bought = record {
  id = 2;
  customer_id = 9;
  status = OrderStatus.confirmed_order;
  total_cents = 950;
  idempotency_key = 77;
  confirmed_at = 2000;
  cancelled_at = none;
}

checkout_runs : checkout fixed 1 local_zone ids 9 (some 77) 90 2000 (store 5000) ≡ (ok bought, sold)
unfolding checkout select_first ensure_not_blocked checkout_cart get_or_create_cart load_cart
    select_where ensure_cart price_line regular_sale_price_cents weighted_average_cost sum_where
    run_tx checkout_tx promo_left available_limit round_cents apply_collaborator_min civil_of_day
    add_order_entry_tx ensure_open_period_tx local_date effective_margin_percent is_on_promotion
    round_sale_price_cents sale_price_from_cost change_sku_price collaborator_unit
    consume_promo_quota_tx line_amounts promo_units_of recalculate_each recalculate_product_skus
    recalculate_sku collaborator_margin_for_customer apply_movement_tx reserve_and_decrement
    load_items checkout_lines place_order reserve_lines count_where ◌-ℤ◌ consume_if_outward
    consume_lots_fifo_tx consume_rows lock_balance ◌+ℤ◌ store_balance create_if_inward
    store_entry_cost record_movement
checkout_runs = refl

checkout-IsPlaced_example :
    (cust : Customer) × (lines : List CheckoutLine) × (get_customer 9 (store 5000) ≡ some cust)
    × (cust.status ≡ CustomerStatus.approved_customer)
    × IsPlaced ids cust 77 2000 lines (store 5000) bought sold
unfolding select_first
checkout-IsPlaced_example =
    checkout-IsPlaced fixed 1 local_zone ids 77 90 2000 9 (store 5000) {o = bought} {db' = sold}
      refl checkout_runs

abbrev other_ids : CheckoutIds
other_ids = record ids { order = 3; billing_entry = 8 }

checkout-again_example :
    checkout fixed 1 local_zone other_ids 9 (some 77) 91 3000 sold ≡ (ok bought, sold)
checkout-again_example =
    checkout-again fixed 1 local_zone ids 77 90 2000 9 (store 5000) checkout_runs other_ids 9 91
      3000

abbrev refused : Db
refused = (checkout fixed 1 local_zone ids 9 (some 77) 90 2000 (store 900)).1

refused_runs :
    checkout fixed 1 local_zone ids 9 (some 77) 90 2000 (store 900)
    ≡ (err insufficient_limit, refused)
unfolding checkout select_first ensure_not_blocked checkout_cart get_or_create_cart load_cart
    select_where ensure_cart price_line regular_sale_price_cents weighted_average_cost sum_where
    run_tx checkout_tx promo_left available_limit round_cents apply_collaborator_min civil_of_day
    add_order_entry_tx ensure_open_period_tx local_date effective_margin_percent is_on_promotion
    round_sale_price_cents sale_price_from_cost change_sku_price collaborator_unit
    consume_promo_quota_tx line_amounts promo_units_of recalculate_each recalculate_product_skus
    recalculate_sku collaborator_margin_for_customer apply_movement_tx reserve_and_decrement
    load_items checkout_lines place_order reserve_lines count_where ◌-ℤ◌ consume_if_outward
    consume_lots_fifo_tx consume_rows lock_balance ◌+ℤ◌ store_balance create_if_inward
    store_entry_cost record_movement
refused_runs = refl

checkout-err_example : Untouched (store 900) refused
checkout-err_example = checkout-err fixed 1 local_zone ids 77 90 2000 9 (store 900) refused_runs

-- Cancelling what was sold.
abbrev fresh : ℕ → FreshIds
fresh n = record { balance_id = 400 + n; movement_id = 500 + n; lot_id = 600 + n }

abbrev cancelled_db : Db
cancelled_db = tables_of sold (admin_cancel_order local_zone fresh 31 32 33 1 2 90 4000 sold)

cancel_runs : admin_cancel_order local_zone fresh 31 32 33 1 2 90 4000 sold ≡ ok (tt, cancelled_db)
unfolding admin_cancel_order checkout select_first ensure_not_blocked checkout_cart
    get_or_create_cart load_cart select_where ensure_cart price_line regular_sale_price_cents
    weighted_average_cost sum_where run_tx checkout_tx promo_left available_limit round_cents
    apply_collaborator_min civil_of_day add_order_entry_tx ensure_open_period_tx local_date
    effective_margin_percent is_on_promotion round_sale_price_cents sale_price_from_cost
    change_sku_price collaborator_unit consume_promo_quota_tx line_amounts promo_units_of
    recalculate_each recalculate_product_skus recalculate_sku collaborator_margin_for_customer
    apply_movement_tx reserve_and_decrement load_items checkout_lines place_order reserve_lines
    count_where ◌-ℤ◌ consume_if_outward consume_lots_fifo_tx consume_rows lock_balance ◌+ℤ◌
    store_balance create_if_inward store_entry_cost record_movement
    apply_order_cancellation_billing_tx period_of_order create_lot_tx sku_fallback_cost
    lot_unit_cost restore_from_sale_tx cancel_order_tx mark_cancelled restore_lines update_where
    recalculate_ended recalculate_sold
cancel_runs = refl

admin_cancel_order-Once_example :
    (o : Order) × (find_by order_key 2 sold.shop.orders ≡ some o)
    × (o.status ≡ OrderStatus.confirmed_order)
    × (cancelled_db.shop.orders ≡ update_by order_key 2 (cancelled 4000) sold.shop.orders)
    × ((zone' : Location) (fresh' : ℕ → FreshIds) (entry' period' adjustment' loc' actor' now' : ℕ)
        → run_tx
            (admin_cancel_order zone' fresh' entry' period' adjustment' loc' 2 actor' now')
            cancelled_db
          ≡ (err order_not_cancellable, cancelled_db))
admin_cancel_order-Once_example =
    admin_cancel_order-Once local_zone fresh 31 32 33 1 2 90 4000 sold {db' = cancelled_db}
      cancel_runs

-- Promotions and prices.
abbrev line : PriceLineInput
line = record {
  sku_id = 7;
  quantity = 3;
  sale_price = 300;
  promo_active = true;
  promo_remain = 2;
  collaborator_margin = none;
}

abbrev priced : PriceLineResult
priced = record { line_total_cents = 950; unit_price_cents = 316; promo_units = 2 }

priced_runs : price_line fixed 1 line (store 5000) ≡ ok priced
unfolding price_line regular_sale_price_cents select_first weighted_average_cost sum_where
    round_cents apply_collaborator_min collaborator_unit sale_price_from_cost
priced_runs = refl

consume-price_example :
    (regular : ℤ) × (db' : Db) × (regular_sale_price_cents fixed 1 7 (store 5000) ≡ ok regular)
    × (950 ≡ charged line regular none 2)
    × (consume_promo_quota_tx 1 2 (store 5000) ≡ ok ((2, true), db'))
    × (get_product 1 db' ≡ some (with_quota 0 sold_product))
    × (2 ≤ 3)
    × (2 ≤ 2)
    × ((priced.promo_units ≡ line.quantity) ⊎ (priced.promo_units ≡ 2))
unfolding select_first collaborator_unit
consume-price_example =
    consume-price fixed 1 1 line (store 5000) {p = sold_product} {r = priced} refl refl refl
      priced_runs (omega arith)

abbrev used_up : Db
used_up = tables_of (store 5000) (consume_promo_quota_tx 1 3 (store 5000))

used_up_runs : consume_promo_quota_tx 1 3 (store 5000) ≡ ok ((2, true), used_up)
unfolding consume_promo_quota_tx select_first
used_up_runs = refl

CatalogStep-HasPromos_example : HasPromos used_up
unfolding select_first
CatalogStep-HasPromos_example =
    CatalogStep-HasPromos fixed 1 {db = store 5000} {db' = used_up} (consumed 1 3 used_up_runs)
      (record {
        unique = (refl, tt);
        sound = (record { offered = λ _. (refl, omega arith); bounded = omega arith }, tt);
      })

-- A customer who is blocked for a while.
unblock-block_example :
    (db' : Db) × ((block 9 >> unblock 9) (store 5000) ≡ ok (tt, db'))
    × (db' ≡ record (store 5000) {
      customers = update_by customer_key 9 forgotten (store 5000).customers;
    })
    × (get_customer 9 db' ≡ some (forgotten (buyer 5000)))
    × (unblock 9 db' ≡ err customer_not_blocked)
unfolding select_first
unblock-block_example = unblock-block 9 (store 5000) {c = buyer 5000} refl refl
