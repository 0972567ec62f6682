-- ===== src/Catalog/Products/Promotions.antt =====
-- Promotions through the operations of catalog/service.go, admin.go, pricing.go, promo.go
-- and categories_admin.go that write, those on images aside.
use pontoqap.Base.{ℕ, ◌≡◌, refl, Bool, Option, none, arith}
use pontoqap.Base.Int.{ℤ}
use pontoqap.Store.Schema.{Db}
use pontoqap.Store.Shop.{Product}
use pontoqap.Store.Table.Keys.{find_by}
use pontoqap.Store.Tx.{ok, run_tx}
use pontoqap.Catalog.Prices.{Float64}
use pontoqap.Catalog.Pricing.{
  product_key, consume_promo_quota_tx, set_default_margin_percent, change_sku_price,
  recalculate_sku, recalculate_product_skus, reprice_all_products,
}
use pontoqap.Catalog.Products.{
  CreateProductInput, UpdateProductInput, create_product, update_product, UpdateSkuInput,
  update_sku, create_category, update_category, delete_category,
}
use pontoqap.Catalog.Products.Repricing.{
  change_sku_price-products, update_sku-products, recalculate_sku-products,
  recalculate_product_skus-products,
}
use pontoqap.Catalog.Products.Sound.{
  HasPromos, update_product-HasPromos, consume_promo_quota_tx-HasPromos, delete_category-HasPromos,
  create_product-HasPromos, keep_HasPromos, reprice_all_products-HasPromos,
}

-- An operation of the catalog that writes, images aside, from the tables before it to those after it;
-- a product is created under a new identifier. Where prices follow in transactions of their own, the
-- operation may also fail with some of them written.
pub data CatalogStep {W : Type 0} (f : Float64 W) (loc : ℕ) : Db → Db → Type 0 where
  created :
      {db db' : Db} (product sku : ℕ) (i : CreateProductInput) {id : ℕ}
      → find_by product_key product db.shop.products ≡ none
      → create_product product sku i db ≡ ok (id, db')
      → CatalogStep f loc db db'
  updated :
      {db db' : Db} (product : ℕ) (i : UpdateProductInput) {p : Option Product}
      → update_product product i db ≡ ok (p, db')
      → CatalogStep f loc db db'
  consumed :
      {db db' : Db} (product quantity : ℕ) {units : ℕ} {ended : Bool}
      → consume_promo_quota_tx product quantity db ≡ ok ((units, ended), db')
      → CatalogStep f loc db db'
  category_deleted :
      {db db' : Db} (category : ℕ) {n : ℕ}
      → delete_category category db ≡ ok (n, db')
      → CatalogStep f loc db db'
  category_created : {db : Db} (category : ℕ) → CatalogStep f loc db (create_category category db)
  category_updated :
      {db db' : Db} (category : ℕ) (name_empty : Bool) (active : Option Bool)
      → update_category category name_empty active db ≡ ok (tt, db')
      → CatalogStep f loc db db'
  default_margin_set :
      {db db' : Db} (margin : ℤ)
      → set_default_margin_percent margin db ≡ ok (tt, db')
      → CatalogStep f loc db db'
  sku_updated :
      {db : Db} (sku : ℕ) (i : UpdateSkuInput) (changed_by : ℕ)
      → CatalogStep f loc db (update_sku sku i changed_by db).1
  price_changed :
      {db : Db} (sku : ℕ) (price : ℤ) (changed_by : ℕ)
      → CatalogStep f loc db (run_tx (change_sku_price sku price changed_by) db).1
  sku_recalculated :
      {db : Db} (sku changed_by : ℕ)
      → CatalogStep f loc db (recalculate_sku f loc sku changed_by db).1
  skus_recalculated :
      {db : Db} (product changed_by : ℕ)
      → CatalogStep f loc db (recalculate_product_skus f loc product changed_by db).1
  repriced :
      {db : Db} (margin : ℤ) (changed_by : ℕ)
      → CatalogStep f loc db (reprice_all_products f loc margin changed_by db).2

-- However products, items, prices, margins and categories are created, changed and deleted and
-- promotions used up, every promotion stays sound, and the identifiers of products stay unique.
pub CatalogStep-HasPromos :
    {W : Type 0} (f : Float64 W) (loc : ℕ) {db db' : Db}
    → CatalogStep f loc db db'
    → HasPromos db
    → HasPromos db'
unfolding create_category update_category set_default_margin_percent
CatalogStep-HasPromos f loc (created {db = db} product sku i new e) h =
    create_product-HasPromos product sku i db h new e
CatalogStep-HasPromos f loc (updated {db = db} product i e) h =
    update_product-HasPromos product i db h e
CatalogStep-HasPromos f loc (consumed {db = db} product quantity e) h =
    consume_promo_quota_tx-HasPromos product quantity db h e
CatalogStep-HasPromos f loc (category_deleted {db = db} category e) h =
    delete_category-HasPromos category db h e
CatalogStep-HasPromos f loc (category_created {db = db} category) h =
    keep_HasPromos {db = db} refl h
CatalogStep-HasPromos f loc (category_updated {db = db} category name_empty active e) h =
    keep_HasPromos {db = db} (ground arith) h
CatalogStep-HasPromos f loc (default_margin_set {db = db} margin e) h =
    keep_HasPromos {db = db} (ground arith) h
CatalogStep-HasPromos f loc (sku_updated {db = db} sku i changed_by) h =
    keep_HasPromos {db = db} (update_sku-products sku i changed_by db) h
CatalogStep-HasPromos f loc (price_changed {db = db} sku price changed_by) h =
    keep_HasPromos {db = db} (change_sku_price-products sku price changed_by db) h
CatalogStep-HasPromos f loc (sku_recalculated {db = db} sku changed_by) h =
    keep_HasPromos {db = db} (recalculate_sku-products f loc sku changed_by db) h
CatalogStep-HasPromos f loc (skus_recalculated {db = db} product changed_by) h =
    keep_HasPromos {db = db} (recalculate_product_skus-products f loc product changed_by db) h
CatalogStep-HasPromos f loc (repriced {db = db} margin changed_by) h =
    reprice_all_products-HasPromos f loc margin changed_by db h
