-- ===== src/Catalog/Products/Repricing.antt =====
-- Operations of the catalog that leave the rows of products as they are, or change no more of them
-- than the margin: `ChangeSKUPrice` of service.go, `UpdateSKU` of admin.go and pricing.go.
use pontoqap.Base.{
  not, ◌&&◌, ◌||◌, ltb, ◌⊎◌, ℕ, ◌≡◌, refl, Bool, true, List, [], ◌∷◌, arith, inl, inr, Bool-cases,
}
use pontoqap.Base.Int.{ℤ}
use pontoqap.Store.Schema.{Db, Sku}
use pontoqap.Store.Shop.{Product}
use pontoqap.Store.Table.{update_where, count_where}
use pontoqap.Store.Tx.{run_tx}
use pontoqap.Catalog.Prices.{Float64, is_margin, fits_column}
use pontoqap.Catalog.Pricing.{
  change_sku_price, recalculate_sku, recalculate_each, recalculate_product_skus, reprice_each,
  reprice_all_products,
}
use pontoqap.Catalog.Products.{UpdateSkuInput, update_sku}

abbrev pub products_of : Db → List Product
products_of db = db.shop.products

pub change_sku_price-products :
    (sku : ℕ) (price : ℤ) (changed_by : ℕ) (db : Db)
    → products_of (run_tx (change_sku_price sku price changed_by) db).1 ≡ products_of db
unfolding change_sku_price run_tx
change_sku_price-products sku price changed_by db = ground arith

pub update_sku-products :
    (sku : ℕ) (i : UpdateSkuInput) (changed_by : ℕ) (db : Db)
    → products_of (update_sku sku i changed_by db).1 ≡ products_of db
unfolding update_sku
update_sku-products sku i changed_by db = grind (arith, change_sku_price-products)

module _ {W : Type 0} (f : Float64 W) (loc : ℕ) where
  pub recalculate_sku-products :
      (sku changed_by : ℕ) (db : Db)
      → products_of (recalculate_sku f loc sku changed_by db).1 ≡ products_of db
  unfolding recalculate_sku
  recalculate_sku-products sku changed_by db = grind (arith, change_sku_price-products)

  recalculate_each-products :
      (rs : List Sku) (changed_by : ℕ) (db : Db)
      → products_of (recalculate_each f loc rs changed_by db).1 ≡ products_of db
  unfolding recalculate_each
  recalculate_each-products [] changed_by db = refl
  recalculate_each-products (r ∷ rs) changed_by db = ground (
    arith,
    recalculate_sku-products r.id changed_by db,
    recalculate_each-products rs changed_by (recalculate_sku f loc r.id changed_by db).1,
  )

  pub recalculate_product_skus-products :
      (product changed_by : ℕ) (db : Db)
      → products_of (recalculate_product_skus f loc product changed_by db).1 ≡ products_of db
  unfolding recalculate_product_skus
  recalculate_product_skus-products product changed_by db =
      recalculate_each-products _ changed_by db

  reprice_each-products :
      (ps : List Product) (changed_by : ℕ) (db : Db)
      → products_of (reprice_each f loc ps changed_by db).1 ≡ products_of db
  unfolding reprice_each
  reprice_each-products [] changed_by db = refl
  reprice_each-products (p ∷ ps) changed_by db = ground (
    arith,
    recalculate_product_skus-products p.id changed_by db,
    reprice_each-products ps changed_by (recalculate_product_skus f loc p.id changed_by db).1,
  )

  -- A new margin for all products is written whatever becomes of the prices, or nothing is.
  pub reprice_all_products-products :
      (margin : ℤ) (changed_by : ℕ) (db : Db)
      → (products_of (reprice_all_products f loc margin changed_by db).2 ≡ products_of db)
        ⊎ (products_of (reprice_all_products f loc margin changed_by db).2
            ≡ update_where
                (λ (p : Product). true)
                (λ p. record p { margin_percent = margin })
                (products_of db))
  unfolding reprice_all_products
  reprice_all_products-products margin changed_by db =
      let kept : Bool =
        not (is_margin margin)
        || (not (fits_column margin)
            && ltb 0 (count_where (λ (p : Product). true) db.shop.products)) in
      let db' : Db = record db {
        shop = record db.shop {
          products =
              update_where (λ (p : Product). true) (λ p. record p { margin_percent = margin })
                db.shop.products;
        };
      } in
      elim (Bool-cases kept) [
        | inl stopped ↦ inl (ground arith)
        | inr written ↦ inr (ground (arith, reprice_each-products db'.shop.products changed_by db'))
      ]
