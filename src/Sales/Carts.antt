-- ===== src/Sales/Carts.antt =====
-- Carts: backend/internal/sales/service.go. Every statement is its own transaction, so an error
-- keeps what was written before it. The catalog, inventory and customers services are always there.
use pontoqap.Catalog.Pricing.{sku_key, get_product, price_line}
use pontoqap.Customers.Collaborators.{collaborator_margin_for_customer}
use pontoqap.Store.Table.Keys.{find_by}
use pontoqap.Store.Tx.{Result, ok, err, invalid_quantity}
use pontoqap.Base.Int.{ℤ, leb_ℤ, pos, pos_part}
use pontoqap.Store.Table.{select_first, delete_where, insert_row, update_where, select_where}
use pontoqap.Catalog.Prices.{Float64}
use pontoqap.Store.Schema.{Db}
use pontoqap.Store.Shop.{CartStatus, Cart, CartItem}
use pontoqap.Base.{
  ℕ, none, some, true, false, List, Bool, Option, ◌==◌, ◌&&◌, if◌then◌else◌, ◌∷◌, ◌+◌, [], ◌-◌,
}

abbrev pub is_active_cart : CartStatus → Bool
is_active_cart CartStatus.active_cart = true
is_active_cart _ = false

abbrev pub cart_key : Cart → ℕ
cart_key c = c.id

-- `customer_id = $1 AND status = 'active'`.
abbrev pub cart_of : ℕ → Cart → Bool
cart_of customer_id c = c.customer_id == customer_id && is_active_cart c.status

-- `cart_id = $1 AND sku_id = $2`.
abbrev pub cart_item_of : ℕ → ℕ → CartItem → Bool
cart_item_of cart_id sku_id i = i.cart_id == cart_id && i.sku_id == sku_id

-- The `CartItem` of the service: a row with its prices.
pub record CartLine : Type 0 where
  pub line_sku : ℕ
  pub line_quantity : ℕ
  pub cart_unit_price : ℕ
  pub cart_line_total : ℕ

-- The `Cart` of the service.
pub record CartView : Type 0 where
  pub cart_id : ℕ
  pub items : List CartLine

-- `promoLeft[productID]`, or what the row says where the map has no entry.
unfoldable pub promo_left : ℕ → ℕ → List (ℕ × ℕ) → ℕ
promo_left product remaining [] = remaining
promo_left product remaining ((p, left) ∷ ps) =
    let rest = promo_left product remaining ps in if p == product then left else rest

-- The first statement of `GetOrCreateCart`: the active cart, which is inserted where there is none.
unfoldable pub ensure_cart : ℕ → ℕ → Db → ℕ × Db
ensure_cart new_cart customer_id db = elim (select_first (cart_of customer_id) db.shop.carts) [
  | some c ↦ (c.id, db)
  | none ↦ (
    new_cart,
    record db {
      shop = record db.shop {
        carts =
            insert_row
              (record { id = new_cart; customer_id = customer_id; status = CartStatus.active_cart })
              db.shop.carts;
      };
    },
  )
]

-- `INSERT … ON CONFLICT (cart_id, sku_id) DO UPDATE SET quantity = …`: `merge` is the new quantity of
-- a row that is there.
unfoldable pub upsert_item : ℕ → ℕ → ℕ → (ℕ → ℕ) → Db → Db
upsert_item cart_id sku_id quantity merge db = record db {
  shop = record db.shop {
    cart_items =
        elim (select_first (cart_item_of cart_id sku_id) db.shop.cart_items)
          as (λ _. List CartItem) [
            | none ↦
                insert_row (record { cart_id = cart_id; sku_id = sku_id; quantity = quantity })
                  db.shop.cart_items
            | some i ↦
                update_where (cart_item_of cart_id sku_id)
                  (λ x. record x { quantity = merge x.quantity }) db.shop.cart_items
          ];
  };
}

-- `DELETE FROM cart_items WHERE …`.
unfoldable pub delete_items : (CartItem → Bool) → Db → Db
delete_items p db = record db {
  shop = record db.shop { cart_items = delete_where p db.shop.cart_items };
}

module _ {W : Type 0} (f : Float64 W) (loc : ℕ) where
  -- The loop of `loadCart` over the rows of the cart, with the units of each promotion that are left.
  unfoldable pub load_items : Option ℤ → List CartItem → List (ℕ × ℕ) → Db → Result (List CartLine)
  load_items margin [] left db = ok []
  load_items margin (i ∷ is) left db = elim (find_by sku_key i.sku_id db.skus) [
    | none ↦ load_items margin is left db
    | some s ↦ elim (get_product s.product_id db) [
      | none ↦ load_items margin is left db
      | some p ↦
          let remain = promo_left p.id p.promo_quantity_remaining left in
          elim (price_line f loc
            (record {
              sku_id = i.sku_id;
              quantity = i.quantity;
              sale_price = s.sale_price_cents;
              promo_active = p.promo_active;
              promo_remain = remain;
              collaborator_margin = margin;
            })
            db) [
              | err e ↦ err e
              | ok res ↦ elim (load_items margin is ((p.id, remain - res.promo_units) ∷ left) db) [
                | err e ↦ err e
                | ok rest ↦ ok (
                    record {
                      line_sku = i.sku_id;
                      line_quantity = i.quantity;
                      cart_unit_price = res.unit_price_cents;
                      cart_line_total = res.line_total_cents;
                    }
                    ∷ rest)
              ]
            ]
    ]
  ]

  -- `loadCart`.
  unfoldable pub load_cart : ℕ → ℕ → Db → Result CartView
  unfolding load_items
  load_cart cart customer_id db =
      elim (load_items (collaborator_margin_for_customer customer_id db)
        (select_where (λ (i : CartItem). i.cart_id == cart) db.shop.cart_items) [] db) [
          | err e ↦ err e
          | ok items ↦ ok (record { cart_id = cart; items = items })
        ]

  -- `GetOrCreateCart`.
  unfoldable pub get_or_create_cart : ℕ → ℕ → Db → Result CartView × Db
  get_or_create_cart new_cart customer_id db =
      let (cart, db') = ensure_cart new_cart customer_id db in (load_cart cart customer_id db', db')

  -- A change of the items of the active cart, and the cart that is shown after it.
  unfoldable pub change_cart : ℕ → ℕ → (ℕ → Db → Db) → Db → Result CartView × Db
  unfolding get_or_create_cart
  change_cart new_cart customer_id change db =
      let (res, db') = get_or_create_cart new_cart customer_id db in
      elim res [
        | err e ↦ (err e, db')
        | ok cart ↦
            let db'' = change cart.cart_id db' in (load_cart cart.cart_id customer_id db'', db'')
      ]

  -- `AddCartItem`.
  unfoldable pub add_cart_item : ℕ → ℕ → ℕ → ℤ → Db → Result CartView × Db
  unfolding change_cart upsert_item
  add_cart_item new_cart customer_id sku quantity db =
      if leb_ℤ quantity (pos 0)
      then (err invalid_quantity, db)
      else change_cart new_cart customer_id
          (λ cart. upsert_item cart sku (pos_part quantity) (λ n. n + pos_part quantity)) db

  -- `SetCartItemQuantity`, which is also `UpsertCartItem`.
  unfoldable pub set_cart_item_quantity : ℕ → ℕ → ℕ → ℤ → Db → Result CartView × Db
  unfolding change_cart upsert_item delete_items
  set_cart_item_quantity new_cart customer_id sku quantity db =
      change_cart new_cart customer_id
        (λ cart.
          if leb_ℤ quantity (pos 0)
          then delete_items (cart_item_of cart sku)
          else upsert_item cart sku (pos_part quantity) (λ n. pos_part quantity))
        db

  -- `ClearCart`.
  unfoldable pub clear_cart : ℕ → ℕ → Db → Result CartView × Db
  unfolding change_cart delete_items
  clear_cart new_cart customer_id db =
      change_cart new_cart customer_id (λ cart. delete_items (λ (i : CartItem). i.cart_id == cart))
        db
