-- ===== src/Sales/Checkout.antt =====
-- `Checkout` of backend/internal/sales/service.go: one transaction that prices the cart, reserves the
-- stock and charges the customer, and prices that follow the stock after it. The key of a request is
-- `none` where it is empty; `zone` is the time zone of the billing months.
pub mod Untouched
pub mod Success
use pontoqap.Sales.Placing.{CheckoutLine, CheckoutIds, place_order}
use pontoqap.Billing.Periods.{add_order_entry_tx}
use pontoqap.Customers.{get_customer, ensure_not_blocked, available_limit}
use pontoqap.Customers.Collaborators.{collaborator_margin_for_customer}
use pontoqap.Billing.Rows.{customer_key}
use pontoqap.Sales.Carts.{get_or_create_cart, cart_key, CartLine, CartView, promo_left}
use pontoqap.Billing.Dates.{Location}
use pontoqap.Base.Int.{pos, ℤ}
use pontoqap.Store.Table.{insert_row, count_where, delete_where, select_first}
use pontoqap.Store.Table.Keys.{find_by, update_by}
use pontoqap.Catalog.Prices.{Float64}
use pontoqap.Inventory.Service.{reserve_and_decrement}
use pontoqap.Store.Tx.{
  ◌>>◌, Tx, ok, err, check_violation, Result, no_rows, empty_cart, idempotency_key_required,
  customer_not_approved, run_tx, throw_if, insufficient_limit, modify, pure,
}
use pontoqap.Store.Shop.{Order, OrderStatus, Product, CartStatus, CartItem}
use pontoqap.Catalog.Pricing.{
  consume_promo_quota_tx, recalculate_product_skus, sku_key, get_product, recalculate_sku,
  price_line,
}
use pontoqap.Store.Schema.{Db, Sku, Customer}
use pontoqap.Inventory.Movements.{FreshIds}
use pontoqap.Base.{
  [], ℕ, none, some, false, Bool, List, ◌∷◌, ◌+◌, Option, if◌then◌else◌, ltb, leb, suc, ◌==◌, ◌&&◌,
  ◌-◌, [],
}

-- The item and the product that a line may sell.
unfoldable pub sellable : ℕ → Db → Option (Sku × Product)
sellable sku db = elim (find_by sku_key sku db.skus) [
  | none ↦ none
  | some s ↦ elim (get_product s.product_id db) [
    | none ↦ none
    | some p ↦ if s.active && (p.active && p.visible) then some (s, p) else none
  ]
]

-- `ConsumePromoQuotaTx` for a line with units at the promotional price: whether it ends.
unfoldable pub consume_quota : ℕ → ℕ → Tx Db Bool
unfolding consume_promo_quota_tx
consume_quota product units db =
    if ltb 0 units
    then elim (consume_promo_quota_tx product units db) [
      | err e ↦ err e
      | ok ((_, ended), db') ↦ ok (ended, db')
    ]
    else ok (false, db)

module _ {W : Type 0} (f : Float64 W) (loc : ℕ) where
  -- One round of the loop over the cart: the line and the promotions that are left. Prices are read
  -- from the tables `pool`, outside the transaction.
  unfoldable pub checkout_line :
      Db → Option ℤ → CartLine → List (ℕ × ℕ) → Tx Db (CheckoutLine × List (ℕ × ℕ))
  unfolding consume_quota sellable
  checkout_line pool margin it left db = elim (sellable it.line_sku db) [
    | none ↦ err no_rows
    | some (s, p) ↦
        let remain = promo_left p.id p.promo_quantity_remaining left in
        elim (price_line f loc
          (record {
            sku_id = it.line_sku;
            quantity = it.line_quantity;
            sale_price = s.sale_price_cents;
            promo_active = p.promo_active;
            promo_remain = remain;
            collaborator_margin = margin;
          })
          pool) [
            | err e ↦ err e
            | ok priced ↦ elim (consume_quota p.id priced.promo_units db) [
              | err e ↦ err e
              | ok (ended, db') ↦ ok (
                (
                  record {
                    sku = it.line_sku;
                    product = p.id;
                    qty = it.line_quantity;
                    unit_price = priced.unit_price_cents;
                    line_total = priced.line_total_cents;
                    promo_ended = ended;
                  },
                  if ltb 0 priced.promo_units
                      then (p.id, remain - priced.promo_units) ∷ left
                      else left,
                ),
                db',
              )
            ]
          ]
  ]

  unfoldable pub checkout_lines :
      Db → Option ℤ → List CartLine → List (ℕ × ℕ) → Tx Db (List CheckoutLine)
  unfolding checkout_line
  checkout_lines pool margin [] left db = ok ([], db)
  checkout_lines pool margin (it ∷ its) left db = elim (checkout_line pool margin it left db) [
    | err e ↦ err e
    | ok ((l, left'), db') ↦ elim (checkout_lines pool margin its left' db') [
      | err e ↦ err e
      | ok (ls, db'') ↦ ok (l ∷ ls, db'')
    ]
  ]

  -- The prices that follow the sale, each item once; their errors are ignored.
  unfoldable pub recalculate_sold : List ℕ → ℕ → List CheckoutLine → Db → Db
  recalculate_sold seen actor [] db = db
  recalculate_sold seen actor (l ∷ ls) db =
      let again = ltb 0 (count_where (λ s. s == l.sku) seen) in
      recalculate_sold (if again then seen else l.sku ∷ seen) actor ls
        (if again then db else (recalculate_sku f loc l.sku actor db).1)

  -- The products whose promotion the sale has ended.
  unfoldable pub recalculate_ended : ℕ → List CheckoutLine → Db → Db
  recalculate_ended actor [] db = db
  recalculate_ended actor (l ∷ ls) db =
      recalculate_ended actor ls
        (if l.promo_ended then (recalculate_product_skus f loc l.product actor db).1 else db)

  -- The transaction of `Checkout`.
  unfoldable pub checkout_tx :
      Location
      → CheckoutIds
      → Customer
      → Option ℤ
      → CartView
      → ℕ
      → ℕ
      → ℕ
      → Db
      → Tx Db (Order × List CheckoutLine)
  unfolding checkout_lines place_order
  checkout_tx zone ids cust margin cart key actor now pool db =
      elim (checkout_lines pool margin cart.items [] db) [
        | err e ↦ err e
        | ok (lines, db') ↦
            elim (place_order loc zone ids cust cart.cart_id key actor now lines db') [
              | err e ↦ err e
              | ok (order, db'') ↦ ok ((order, lines), db'')
            ]
      ]

  -- `Checkout` once the key is known to be new and the customer may buy.
  unfoldable pub checkout_cart :
      Location → CheckoutIds → Customer → ℕ → ℕ → ℕ → Db → Result Order × Db
  checkout_cart zone ids cust key actor now db =
      let margin = collaborator_margin_for_customer cust.id db in
      let (res, db1) = get_or_create_cart f loc ids.cart cust.id db in
      elim res [
        | err e ↦ (err empty_cart, db1)
        | ok cart ↦ elim cart.items [
          | [] ↦ (err empty_cart, db1)
          | _ ∷ _ ↦
              let (done, db2) =
                run_tx (checkout_tx zone ids cust margin cart key actor now db1) db1 in
              elim done [
                | err e ↦ (err e, db2)
                | ok (order, lines) ↦
                    (ok order, recalculate_ended actor lines (recalculate_sold [] actor lines db2))
              ]
        ]
      ]

  -- `Checkout`.
  unfoldable pub checkout : Location → CheckoutIds → ℕ → Option ℕ → ℕ → ℕ → Db → Result Order × Db
  checkout zone ids customer_id none actor now db = (err idempotency_key_required, db)
  checkout zone ids customer_id (some key) actor now db =
      elim (select_first (λ (o : Order). o.idempotency_key == key) db.shop.orders) [
        | some o ↦ (ok o, db)
        | none ↦ elim (get_customer customer_id db) [
          | none ↦ (err customer_not_approved, db)
          | some cust ↦ elim (ensure_not_blocked (some cust)) [
            | err e ↦ (err e, db)
            | ok _ ↦ checkout_cart zone ids cust key actor now db
          ]
        ]
      ]
