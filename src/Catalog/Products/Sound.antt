-- ===== src/Catalog/Products/Sound.antt =====
-- What is sound in a promotion, and the operations that write products: `CreateProduct` of
-- catalog/service.go, `UpdateProduct` of admin.go, `ConsumePromoQuotaTx` of promo.go, `DeleteCategory`
-- of categories_admin.go and `RepriceAllProducts` of pricing.go.
use pontoqap.Base.{
  ℕ, ◌≡◌, ◌≤◌, ◌<◌, refl, Bool, true, false, Option, Option-cases, none, some, List, ◌++◌, ◌∷◌, [],
  All, arith, inl, inr, Bool-cases, not, ◌||◌, ◌-◌, ◌==◌, leb, ltb, if◌then◌else◌,
}
use pontoqap.Base.Int.{ℤ, pos, pos_part}
use pontoqap.Store.Schema.{Db}
use pontoqap.Store.Shop.{Product}
use pontoqap.Store.Table.{update_where}
use pontoqap.Store.Table.Keys.{
  IsUnique, find_by, update_by, find_by-key, insert-IsUnique, update_by-IsUnique,
}
use pontoqap.Store.Table.Keep.{update_where-IsUnique}
use pontoqap.Store.Table.Rows.{All-select_first, All-append, All-update_where, All-update_by}
use pontoqap.Store.Tx.{ok, Result-cases}
use pontoqap.Catalog.Prices.{Float64, is_margin}
use pontoqap.Catalog.Pricing.{
  product_key, get_product, with_quota, consume_promo_quota_tx, reprice_all_products,
}
use pontoqap.Catalog.Products.{
  CreateProductInput, UpdateProductInput, create_product, update_product, promo_columns,
  delete_category, in_category, updated_product, or_keep,
}
use pontoqap.Catalog.Products.Repricing.{reprice_all_products-products}

abbrev has_margin : Option ℤ → Bool
has_margin none = false
has_margin (some m) = is_margin m

-- An active promotion has a margin between 0 and 1000 percent and units left; no promotion has more
-- units left than it had.
pub record HasPromo (p : Product) : Type 0 where
  pub offered :
      p.promo_active ≡ true
      → (has_margin p.promo_margin_percent ≡ true) × (0 < p.promo_quantity_remaining)
  pub bounded : p.promo_quantity_remaining ≤ p.promo_quantity_total

pub record HasPromos (db : Db) : Type 0 where
  pub unique : IsUnique product_key db.shop.products
  pub sound : All HasPromo db.shop.products

promo_columns-HasPromo :
    (i : UpdateProductInput) (p : Product) {active : Bool} {margin : Option ℤ} {total remaining : ℤ}
    → HasPromo p
    → promo_columns i p ≡ ok (active, margin, total, remaining)
    → (active ≡ true → (has_margin margin ≡ true) × (0 < pos_part remaining))
      × (pos_part remaining ≤ pos_part total)
unfolding promo_columns
promo_columns-HasPromo i p h e = ground (arith, h.bounded)

-- Only the rows with the identifier are rewritten.
update_by-guarded :
    (id : ℕ) (f : Product → Product) (t : List Product)
    → update_by product_key id f t ≡ update_by product_key id (λ r. if r.id == id then f r else r) t
unfolding update_where
update_by-guarded id f [] = refl
update_by-guarded id f (x ∷ xs) = ground (arith, update_by-guarded id f xs)

put_product-HasPromos :
    (id : ℕ) (f : Product → Product) (db db' : Db) {p : Product}
    → ((r : Product) → r.id ≡ id → (f r).id ≡ r.id)
    → HasPromos db
    → get_product id db ≡ some p
    → HasPromo (f p)
    → db'.shop.products ≡ update_by product_key id f db.shop.products
    → HasPromos db'
put_product-HasPromos id f db db' same h found now e = record {
  unique =
      rw (e, update_by-guarded id f db.shop.products)
        (update_by-IsUnique product_key id (λ r. if r.id == id then f r else r) db.shop.products
          (λ r. ground (arith, same r)) h.unique);
  sound =
      rw e (All-update_by HasPromo product_key id f db.shop.products h.unique found now h.sound);
}

pub update_product-HasPromos :
    (product : ℕ) (i : UpdateProductInput) (db : Db) {r : Option Product} {db' : Db}
    → HasPromos db
    → update_product product i db ≡ ok (r, db')
    → HasPromos db'
unfolding update_product
update_product-HasPromos product i db {r} {db'} h e = elim (Option-cases (get_product product db)) [
  | inl missing ↦ let same : db' ≡ db = ground arith in rw same h
  | inr (p, found) ↦ elim (Result-cases (promo_columns i p)) [
    | inl (er, bad) ↦ absurd (ground arith)
    | inr ((promo, margin, total, remaining), good) ↦
        let before = All-select_first HasPromo _ db.shop.products h.sound found in
        let row =
          updated_product i p (or_keep i.set_margin p.margin_percent) promo margin total
            remaining in
        let (offered, bounded) = promo_columns-HasPromo i p before good in
        let found_id = find_by-key product_key product db.shop.products found in
        put_product-HasPromos product (λ _. row) db db' (λ x same. ground arith) h found
          (record { offered = offered; bounded = bounded }) (ground arith)
  ]
]

pub consume_promo_quota_tx-HasPromos :
    (product quantity : ℕ) (db : Db) {r : ℕ × Bool} {db' : Db}
    → HasPromos db
    → consume_promo_quota_tx product quantity db ≡ ok (r, db')
    → HasPromos db'
unfolding consume_promo_quota_tx
consume_promo_quota_tx-HasPromos product quantity db {r} {db'} h e =
    elim (Option-cases (get_product product db)) [
      | inl missing ↦ absurd (ground arith)
      | inr (p, found) ↦
          let before = All-select_first HasPromo _ db.shop.products h.sound found in
          elim (Bool-cases (not p.promo_active || leb p.promo_quantity_remaining 0)) [
            | inl over ↦ let same : db' ≡ db = ground arith in rw same h
            | inr running ↦
                let left =
                  p.promo_quantity_remaining
                  - (if ltb p.promo_quantity_remaining quantity
                      then p.promo_quantity_remaining
                      else quantity) in
                put_product-HasPromos product (with_quota left) db db' (λ x same. refl) h found
                  (record {
                    offered = ground (arith, before.offered);
                    bounded = ground (arith, before.bounded);
                  })
                  (ground arith)
          ]
    ]

pub delete_category-HasPromos :
    (category : ℕ) (db : Db) {n : ℕ} {db' : Db}
    → HasPromos db
    → delete_category category db ≡ ok (n, db')
    → HasPromos db'
unfolding delete_category
delete_category-HasPromos category db {n} {db'} h e =
    let unlink = λ (p : Product). record p { category_id = none } in
    let same : db'.shop.products ≡ update_where (in_category category) unlink db.shop.products =
      ground arith in
    record {
      unique = rw same (
          update_where-IsUnique product_key (in_category category) unlink (λ r. refl)
            db.shop.products h.unique);
      sound = rw same (
          All-update_where HasPromo (in_category category) unlink db.shop.products
            (λ r hit p. record { offered = p.offered; bounded = p.bounded }) h.sound);
    }

pub create_product-HasPromos :
    (product sku : ℕ) (i : CreateProductInput) (db : Db) {id : ℕ} {db' : Db}
    → HasPromos db
    → find_by product_key product db.shop.products ≡ none
    → create_product product sku i db ≡ ok (id, db')
    → HasPromos db'
unfolding create_product
create_product-HasPromos product sku i db {id} {db'} h new e =
    let row : Product = record {
      id = product;
      category_id = i.new_category;
      margin_percent = or_keep db.shop.default_margin_percent (pos 3000);
      promo_active = false;
      promo_margin_percent = none;
      promo_quantity_total = 0;
      promo_quantity_remaining = 0;
      active = true;
      visible = true;
    } in
    let same : db'.shop.products ≡ db.shop.products ++ row ∷ [] = ground arith in
    record {
      unique = rw same (insert-IsUnique product_key row db.shop.products new h.unique);
      sound = rw same (
          All-append HasPromo db.shop.products (row ∷ []) h.sound
            (record { offered = λ e. absurd (ground arith); bounded = omega arith }, tt));
    }

-- Where the rows of products stay, so do their promotions.
pub keep_HasPromos :
    {db db' : Db} → db'.shop.products ≡ db.shop.products → HasPromos db → HasPromos db'
keep_HasPromos same h = record { unique = rw same h.unique; sound = rw same h.sound }

pub reprice_all_products-HasPromos :
    {W : Type 0} (f : Float64 W) (loc : ℕ) (margin : ℤ) (changed_by : ℕ) (db : Db)
    → HasPromos db
    → HasPromos (reprice_all_products f loc margin changed_by db).2
reprice_all_products-HasPromos f loc margin changed_by db h =
    let set = λ (p : Product). record p { margin_percent = margin } in
    elim (reprice_all_products-products f loc margin changed_by db) [
      | inl same ↦ keep_HasPromos {db = db} same h
      | inr written ↦ record {
        unique = rw written (
            update_where-IsUnique product_key (λ (p : Product). true) set (λ r. refl)
              db.shop.products h.unique);
        sound = rw written (
            All-update_where HasPromo (λ (p : Product). true) set db.shop.products
              (λ r hit p. record { offered = p.offered; bounded = p.bounded }) h.sound);
      }
    ]
