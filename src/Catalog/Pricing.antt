-- ===== src/Catalog/Pricing.antt =====
-- Prices that depend on stock: backend/internal/catalog/pricing.go, `RegularSalePriceCents` and
-- `ConsumePromoQuotaTx` of promo.go, `PriceLine` of promo_pricing.go and `ChangeSKUPrice` of
-- service.go. The function that the callers pass for the average cost is that of inventory, at the
-- default location `loc`.
pub mod Quota
pub mod Fair
use pontoqap.Base.{
  ℕ, ◌+◌, ◌-◌, ◌*◌, ◌/◌, Bool, true, false, ◌&&◌, not, Option, none, some, List, [], ◌∷◌, ltb, leb,
  ◌==◌, if◌then◌else◌, ◌||◌,
}
use pontoqap.Base.Int.{ℤ, pos, ltb_ℤ, leb_ℤ, pos_part}
use pontoqap.Store.Shop.{Product}
use pontoqap.Store.Schema.{Sku, Db}
use pontoqap.Store.Table.{select_where, update_where, insert_row, count_where}
use pontoqap.Store.Table.Keys.{find_by, update_by}
use pontoqap.Store.Tx.{
  Tx, Result, ok, err, run_tx, no_rows, invalid_margin, check_violation, numeric_overflow,
}
use pontoqap.Inventory.Lots.{weighted_average_cost}
use pontoqap.Catalog.Prices.{
  Float64, round_cents, sale_price_from_cost, effective_margin_percent, apply_collaborator_min,
  is_margin, fits_column,
}

abbrev pub sku_key : Sku → ℕ
sku_key r = r.id

abbrev pub product_key : Product → ℕ
product_key r = r.id

abbrev pub get_product : ℕ → Db → Option Product
get_product id db = find_by product_key id db.shop.products

-- `PriceLineInput`.
pub record PriceLineInput : Type 0 where
  pub sku_id : ℕ
  pub quantity : ℕ
  pub sale_price : ℕ
  pub promo_active : Bool
  pub promo_remain : ℕ
  pub collaborator_margin : Option ℤ

-- `PriceLineResult`.
pub record PriceLineResult : Type 0 where
  pub line_total_cents : ℕ
  pub unit_price_cents : ℕ
  pub promo_units : ℕ

-- `ChangeSKUPrice`; the table has no negative price.
unfoldable pub change_sku_price : ℕ → ℤ → ℕ → Tx Db (Unit {0})
change_sku_price sku new_price changed_by db = elim (find_by sku_key sku db.skus) [
  | none ↦ err no_rows
  | some r ↦
      if ltb_ℤ new_price (pos 0)
      then err check_violation
      else let price = round_cents (pos_part new_price) in
        ok (
          tt,
          record db {
            skus = update_by sku_key sku (λ x. record x { sale_price_cents = price }) db.skus;
            shop = record db.shop {
              price_history =
                  insert_row
                    (record {
                      sku_id = sku;
                      previous_price_cents = r.sale_price_cents;
                      new_price_cents = price;
                      changed_by = changed_by;
                    })
                    db.shop.price_history;
            };
          },
        )
]

-- `UPDATE products SET promo_quantity_remaining = $2, …`.
abbrev pub with_quota : ℕ → Product → Product
with_quota left p = record p {
  promo_quantity_remaining = left;
  promo_active = if leb left 0 then false else p.promo_active;
}

-- `ConsumePromoQuotaTx`: the units at the promotional price, and whether the promotion ends.
unfoldable pub consume_promo_quota_tx : ℕ → ℕ → Tx Db (ℕ × Bool)
consume_promo_quota_tx product quantity db = elim (get_product product db) [
  | none ↦ err no_rows
  | some p ↦
      if not p.promo_active || leb p.promo_quantity_remaining 0
      then ok ((0, false), db)
      else let units =
          if ltb p.promo_quantity_remaining quantity
          then p.promo_quantity_remaining
          else quantity in
        let left = p.promo_quantity_remaining - units in
        ok (
          (units, leb left 0),
          record db {
            shop = record db.shop {
              products = update_by product_key product (with_quota left) db.shop.products;
            };
          },
        )
]

-- `SetDefaultMarginPercent`.
unfoldable pub set_default_margin_percent : ℤ → Tx Db (Unit {0})
set_default_margin_percent margin db =
    if not (is_margin margin)
    then err invalid_margin
    else ok (tt, record db { shop = record db.shop { default_margin_percent = some margin } })

-- The units of a line that the promotion covers.
unfoldable pub promo_units_of : PriceLineInput → ℕ
promo_units_of i =
    if i.promo_active && (ltb 0 i.promo_remain && ltb 0 i.sale_price)
    then (if ltb i.promo_remain i.quantity then i.promo_remain else i.quantity)
    else 0

-- The amounts of a line, from the regular price and the collaborator's.
unfoldable pub line_amounts : PriceLineInput → ℤ → Option ℤ → PriceLineResult
unfolding promo_units_of
line_amounts i regular0 collab_unit =
    let regular =
      if leb_ℤ regular0 (pos 0)
      then round_cents i.sale_price
      else round_cents (pos_part regular0) in
    let promo_qty = promo_units_of i in
    let (eff_promo, eff_regular) =
      apply_collaborator_min (round_cents i.sale_price) regular collab_unit in
    let line_rounded =
      round_cents (promo_qty * eff_promo + (i.quantity - promo_qty) * eff_regular) in
    record {
      line_total_cents = line_rounded;
      unit_price_cents = if ltb 0 i.quantity then line_rounded / i.quantity else 0;
      promo_units = promo_qty;
    }

module _ {W : Type 0} (f : Float64 W) (loc : ℕ) where
  -- `RegularSalePriceCents`: 0 where the average cost is unknown or 0.
  unfoldable pub regular_sale_price_cents : ℕ → Db → Result ℤ
  regular_sale_price_cents sku db = elim (find_by sku_key sku db.skus) [
    | none ↦ err no_rows
    | some r ↦ elim (get_product r.product_id db) [
      | none ↦ err no_rows
      | some p ↦ elim (weighted_average_cost loc sku db) [
        | none ↦ ok (pos 0)
        | some cost ↦
            if leb cost 0 then ok (pos 0) else ok (sale_price_from_cost f cost p.margin_percent)
      ]
    ]
  ]

  -- The unit price of a collaborator, where there is a margin and a cost.
  unfoldable pub collaborator_unit : ℕ → Option ℤ → Db → Option ℤ
  collaborator_unit sku none db = none
  collaborator_unit sku (some margin) db = elim (weighted_average_cost loc sku db) [
    | none ↦ none
    | some cost ↦ if leb cost 0 then none else some (sale_price_from_cost f cost margin)
  ]

  -- `PriceLine`.
  unfoldable pub price_line : PriceLineInput → Db → Result PriceLineResult
  unfolding line_amounts
  price_line i db = elim (regular_sale_price_cents i.sku_id db) [
    | err e ↦ err e
    | ok regular ↦ ok (line_amounts i regular (collaborator_unit i.sku_id i.collaborator_margin db))
  ]

  -- `RecalculateSKU`. A product that is missing counts with a margin of 0.
  unfoldable pub recalculate_sku : ℕ → ℕ → Db → Result Bool × Db
  unfolding change_sku_price
  recalculate_sku sku changed_by db = elim (find_by sku_key sku db.skus) [
    | none ↦ (err no_rows, db)
    | some r ↦
        let margin = elim (get_product r.product_id db) as (λ _. ℤ) [
          | none ↦ pos 0
          | some p ↦ effective_margin_percent p
        ] in
        elim (weighted_average_cost loc sku db) [
          | none ↦ (ok false, db)
          | some cost ↦
              let new_price = sale_price_from_cost f cost margin in
              if leb cost 0
              then (ok false, db)
              else if leb_ℤ new_price (pos 0)
              then (ok false, db)
              else if pos_part new_price == r.sale_price_cents
              then (ok false, db)
              else let (r', db') = run_tx (change_sku_price sku new_price changed_by) db in
                (elim r' [ ok _ ↦ ok true | err e ↦ err e ], db')
        ]
  ]

  -- The loop over the items of a product.
  unfoldable pub recalculate_each : List Sku → ℕ → Db → Result (Unit {0}) × Db
  unfolding recalculate_sku
  recalculate_each [] changed_by db = (ok tt, db)
  recalculate_each (r ∷ rs) changed_by db =
      let (res, db') = recalculate_sku r.id changed_by db in
      let rest = recalculate_each rs changed_by db' in
      elim res [ err e ↦ (err e, db') | ok _ ↦ rest ]

  -- `RecalculateProductSKUs`.
  unfoldable pub recalculate_product_skus : ℕ → ℕ → Db → Result (Unit {0}) × Db
  unfolding recalculate_each
  recalculate_product_skus product changed_by db =
      recalculate_each (select_where (λ (r : Sku). r.product_id == product) db.skus) changed_by db

  unfoldable pub reprice_each : List Product → ℕ → Db → Result (Unit {0}) × Db
  unfolding recalculate_product_skus
  reprice_each [] changed_by db = (ok tt, db)
  reprice_each (p ∷ ps) changed_by db =
      let (res, db') = recalculate_product_skus p.id changed_by db in
      let rest = reprice_each ps changed_by db' in elim res [ err e ↦ (err e, db') | ok _ ↦ rest ]

  -- `RepriceAllProducts`: the margins are committed before the prices follow.
  unfoldable pub reprice_all_products : ℤ → ℕ → Db → ℕ × Result (Unit {0}) × Db
  unfolding reprice_each
  reprice_all_products margin changed_by db =
      let db' : Db = record db {
        shop = record db.shop {
          products =
              update_where (λ (p : Product). true) (λ p. record p { margin_percent = margin })
                db.shop.products;
        };
      } in
      let (res, db'') = reprice_each db'.shop.products changed_by db' in
      if not (is_margin margin)
      then (0, err invalid_margin, db)
      else if not (fits_column margin)
          && ltb 0 (count_where (λ (p : Product). true) db.shop.products)
      then (0, err numeric_overflow, db)
      else (count_where (λ (p : Product). true) db.shop.products, res, db'')
