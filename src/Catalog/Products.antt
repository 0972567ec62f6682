-- ===== src/Catalog/Products.antt =====
-- Products, items and categories: `CreateProduct` and `CreateCategory` of
-- backend/internal/catalog/service.go, admin.go and categories_admin.go. An argument that is a
-- pointer is an option; names, slugs and texts are left out.
pub mod Promotions
pub mod Repricing
pub mod Sound
use pontoqap.Store.Table.Keys.{find_by, update_by}
use pontoqap.Catalog.Pricing.{get_product, sku_key, product_key, change_sku_price}
use pontoqap.Store.Table.{insert_row, select_first, count_where, update_where, delete_where}
use pontoqap.Store.Schema.{Db, Sku}
use pontoqap.Store.Tx.{
  Tx, Result, err, numeric_overflow, check_violation, ok, no_rows, category_not_found,
  promo_margin_required, name_required, run_tx, invalid_margin, promo_quantity_required,
}
use pontoqap.Store.Shop.{Product, Category}
use pontoqap.Catalog.Prices.{round_sale_price_cents, fits_column, is_margin}
use pontoqap.Base.Int.{ℤ, pos_part, pos, ltb_ℤ, leb_ℤ}
use pontoqap.Base.{
  ℕ, Option, Bool, some, false, if◌then◌else◌, not, ◌||◌, true, none, ◌==◌, leb, ◌&&◌,
}

-- `CreateProductInput`.
pub record CreateProductInput : Type 0 where
  pub new_category : Option ℕ
  pub sale_price : ℤ
  pub cost_price : Option ℤ
  pub new_minimum_stock : ℤ

-- `UpdateProductInput`.
pub record UpdateProductInput : Type 0 where
  pub set_category : Option ℕ
  pub clear_category : Bool
  pub set_active : Option Bool
  pub set_visible : Option Bool
  pub set_margin : Option ℤ
  pub set_promo_active : Option Bool
  pub set_promo_margin : Option ℤ
  pub promo_quantity : Option ℤ

-- `UpdateSKUInput`.
pub record UpdateSkuInput : Type 0 where
  pub set_sale_price : Option ℤ
  pub set_cost_price : Option ℤ
  pub set_minimum_stock : Option ℤ
  pub set_sku_active : Option Bool

-- What a pointer that may be nil leaves of the value before it.
abbrev pub or_keep {ℓ} : {A : Type ℓ} → Option A → A → A
or_keep none a = a
or_keep (some b) a = b

abbrev pub is_negative : Option ℤ → Bool
is_negative none = false
is_negative (some x) = ltb_ℤ x (pos 0)

-- A cost that the column takes.
abbrev pub cost_column : Option ℤ → Option ℕ
cost_column none = none
cost_column (some x) = some (pos_part x)

-- `CreateProduct`; the margin is 30 where the store has no default.
unfoldable pub create_product : ℕ → ℕ → CreateProductInput → Tx Db ℕ
unfolding round_sale_price_cents
create_product new_product new_sku i db =
    let margin = or_keep db.shop.default_margin_percent (pos 3000) in
    let price = round_sale_price_cents i.sale_price in
    if not (fits_column margin)
    then err numeric_overflow
    else if ltb_ℤ price (pos 0) || (is_negative i.cost_price || ltb_ℤ i.new_minimum_stock (pos 0))
    then err check_violation
    else ok (
      new_product,
      record db {
        skus =
            insert_row
              (record {
                id = new_sku;
                product_id = new_product;
                cost_price_cents = cost_column i.cost_price;
                sale_price_cents = pos_part price;
                minimum_stock = pos_part i.new_minimum_stock;
                active = true;
              })
              db.skus;
        shop = record db.shop {
          products =
              insert_row
                (record {
                  id = new_product;
                  category_id = i.new_category;
                  margin_percent = margin;
                  promo_active = false;
                  promo_margin_percent = none;
                  promo_quantity_total = 0;
                  promo_quantity_remaining = 0;
                  active = true;
                  visible = true;
                })
                db.shop.products;
        };
      },
    )

-- The promotion that `UpdateProduct` writes: whether it is active, its margin, its total and what
-- remains of it.
unfoldable pub promo_columns : UpdateProductInput → Product → Result (Bool × Option ℤ × ℤ × ℤ)
promo_columns i p =
    let active = or_keep i.set_promo_active p.promo_active in
    let total = or_keep i.promo_quantity (pos p.promo_quantity_total) in
    let margin = elim i.set_promo_margin as (λ _. Option ℤ) [
      | none ↦ p.promo_margin_percent
      | some m ↦ some m
    ] in
    let remaining = elim i.promo_quantity as (λ _. ℤ) [
      | none ↦ if leb p.promo_quantity_remaining 0 then total else pos p.promo_quantity_remaining
      | some q ↦ q
    ] in
    if not active then ok (false, none, pos 0, pos 0) else elim margin [
      | none ↦ err promo_margin_required
      | some m ↦
          if not (is_margin m)
          then err invalid_margin
          else if leb_ℤ total (pos 0)
          then err promo_quantity_required
          else ok (true, some m, total, remaining)
    ]

-- The row that `UpdateProduct` writes, with the columns of its promotion.
abbrev pub updated_product : UpdateProductInput → Product → ℤ → Bool → Option ℤ → ℤ → ℤ → Product
updated_product i p margin promo promo_margin total remaining = record {
  id = p.id;
  category_id =
      if i.clear_category
      then none
      else (elim i.set_category as (λ _. Option ℕ) [ none ↦ p.category_id | some c ↦ some c ]);
  margin_percent = margin;
  promo_active = promo;
  promo_margin_percent = promo_margin;
  promo_quantity_total = pos_part total;
  promo_quantity_remaining = pos_part remaining;
  active = or_keep i.set_active p.active;
  visible = or_keep i.set_visible p.visible;
}

-- `UpdateProduct`, which is no error and changes nothing where the product is missing.
unfoldable pub update_product : ℕ → UpdateProductInput → Tx Db (Option Product)
update_product id i db = elim (get_product id db) [
  | none ↦ ok (none, db)
  | some p ↦ elim (promo_columns i p) [
    | err e ↦ err e
    | ok (promo, promo_margin, total, remaining) ↦
        let margin = or_keep i.set_margin p.margin_percent in
        let p' = updated_product i p margin promo promo_margin total remaining in
        if not (fits_column margin && fits_column (or_keep promo_margin (pos 0)))
        then err numeric_overflow
        else ok (
          some p',
          record db {
            shop = record db.shop {
              products = update_by product_key id (λ _. p') db.shop.products;
            };
          },
        )
  ]
]

-- `UpdateSKU`: the price is changed in a transaction of its own, before the other columns.
unfoldable pub update_sku : ℕ → UpdateSkuInput → ℕ → Db → Result (Unit {0}) × Db
update_sku sku i changed_by db = elim (find_by sku_key sku db.skus) [
  | none ↦ (err no_rows, db)
  | some r ↦
      let new_price = or_keep i.set_sale_price (pos r.sale_price_cents) in
      let same_price =
        leb_ℤ new_price (pos r.sale_price_cents) && leb_ℤ (pos r.sale_price_cents) new_price in
      let (res, db') =
        if same_price then (ok tt, db) else run_tx (change_sku_price sku new_price changed_by) db in
      elim res [
        | err e ↦ (err e, db')
        | ok _ ↦
            if is_negative i.set_cost_price || is_negative i.set_minimum_stock
            then (err check_violation, db')
            else (
              ok tt,
              record db' {
                skus =
                    update_by sku_key sku
                      (λ x. record x {
                        cost_price_cents = elim i.set_cost_price as (λ _. Option ℕ) [
                          | none ↦ r.cost_price_cents
                          | some c ↦ some (pos_part c)
                        ];
                        minimum_stock =
                            pos_part (or_keep i.set_minimum_stock (pos r.minimum_stock));
                        active = or_keep i.set_sku_active r.active;
                      })
                      db'.skus;
              },
            )
      ]
]

-- `PrimarySKUID`: the first item of a product.
unfoldable pub primary_sku_id : ℕ → Db → Option ℕ
primary_sku_id product db = elim (select_first (λ (r : Sku). r.product_id == product) db.skus) [
  | none ↦ none
  | some r ↦ some r.id
]

abbrev pub category_key : Category → ℕ
category_key c = c.id

-- `CreateCategory`.
unfoldable pub create_category : ℕ → Db → Db
create_category new_id db = record db {
  shop = record db.shop {
    categories = insert_row (record { id = new_id; active = true }) db.shop.categories;
  };
}

-- `UpdateCategory`, with whether the name is given and empty.
unfoldable pub update_category : ℕ → Bool → Option Bool → Tx Db (Unit {0})
update_category id name_empty set_active db = elim (find_by category_key id db.shop.categories) [
  | none ↦ err category_not_found
  | some c ↦
      if name_empty
      then err name_required
      else ok (
        tt,
        record db {
          shop = record db.shop {
            categories =
                update_by category_key id (λ x. record x { active = or_keep set_active c.active })
                  db.shop.categories;
          };
        },
      )
]

-- `category_id = $1`, which no product without a category meets.
abbrev pub in_category : ℕ → Product → Bool
in_category id p = elim p.category_id as (λ _. Bool) [ none ↦ false | some c ↦ c == id ]

-- `DeleteCategory`: its products stay, without a category. It gives their number.
unfoldable pub delete_category : ℕ → Tx Db ℕ
delete_category id db = elim (find_by category_key id db.shop.categories) [
  | none ↦ err category_not_found
  | some c ↦ ok (
    count_where (in_category id) db.shop.products,
    record db {
      shop = record db.shop {
        products =
            update_where (in_category id) (λ p. record p { category_id = none }) db.shop.products;
        categories = delete_where (λ (x : Category). x.id == id) db.shop.categories;
      };
    },
  )
]
