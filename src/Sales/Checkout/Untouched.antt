-- ===== src/Sales/Checkout/Untouched.antt =====
-- What the pricing of a checkout leaves alone: customers, orders, their items and the entries of the
-- billing periods (sales/service.go and the operations of catalog that it calls).
use pontoqap.Base.{
  ℕ, ◌≡◌, refl, ◌∙◌, Option, List, [], ◌∷◌, arith, Bool, true, false, if◌then◌else◌, inl, inr, ltb,
  ◌==◌,
}
use pontoqap.Base.Int.{ℤ}
use pontoqap.Store.Schema.{Db, Sku}
use pontoqap.Store.Table.{count_where}
use pontoqap.Store.Tx.{run_tx, Result-cases}
use pontoqap.Store.Tx.Keeps.{Keeps}
use pontoqap.Catalog.Prices.{Float64}
use pontoqap.Catalog.Pricing.{
  change_sku_price, recalculate_sku, recalculate_each, recalculate_product_skus,
}
use pontoqap.Sales.Carts.{CartLine, ensure_cart}
use pontoqap.Sales.Placing.{CheckoutLine}
use pontoqap.Sales.Checkout.{
  consume_quota, checkout_line, checkout_lines, recalculate_sold, recalculate_ended,
}

abbrev pub Untouched : Db → Db → Type 0
Untouched db db' =
    (db'.customers ≡ db.customers)
    × (db'.shop.orders ≡ db.shop.orders)
    × (db'.shop.order_items ≡ db.shop.order_items)
    × (db'.entries ≡ db.entries)

pub Untouched-refl : (a : Db) → Untouched a a
Untouched-refl a = (refl, refl, refl, refl)

pub Untouched-trans : (a b c : Db) → Untouched a b → Untouched b c → Untouched a c
Untouched-trans a b c p q = (q.0 ∙ p.0, q.1 ∙ p.1, q.2 ∙ p.2, q.3 ∙ p.3)

Untouched-then : (b : Bool) (a c : Db) → Untouched a c → Untouched a (if b then c else a)
Untouched-then true a c h = h
Untouched-then false a c h = Untouched-refl a

Untouched-else : (b : Bool) (a c : Db) → Untouched a c → Untouched a (if b then a else c)
Untouched-else true a c h = Untouched-refl a
Untouched-else false a c h = h

change_sku_price-Untouched :
    (sku : ℕ) (price : ℤ) (by : ℕ) (db : Db)
    → Untouched db (run_tx (change_sku_price sku price by) db).1
unfolding change_sku_price run_tx
change_sku_price-Untouched sku price by db = ground arith

consume_quota-Untouched : (product units : ℕ) → Keeps Untouched (consume_quota product units)
unfolding consume_quota
consume_quota-Untouched product units db a db' e = ground arith

pub ensure_cart-Untouched :
    (new customer : ℕ) (db : Db) → Untouched db (ensure_cart new customer db).1
unfolding ensure_cart
ensure_cart-Untouched new customer db = ground arith

module _ {W : Type 0} (f : Float64 W) (loc : ℕ) where
  recalculate_sku-Untouched :
      (sku by : ℕ) (db : Db) → Untouched db (recalculate_sku f loc sku by db).1
  unfolding recalculate_sku change_sku_price run_tx
  recalculate_sku-Untouched sku by db = ground arith

  recalculate_each-Untouched :
      (rows : List Sku) (by : ℕ) (db : Db) → Untouched db (recalculate_each f loc rows by db).1
  unfolding recalculate_each
  recalculate_each-Untouched [] by db = Untouched-refl db
  recalculate_each-Untouched (r ∷ rs) by db =
      let now = recalculate_sku f loc r.id by db in
      let rest = recalculate_each-Untouched rs by now.1 in
      let first = recalculate_sku-Untouched r.id by db in
      let both = Untouched-trans db now.1 (recalculate_each f loc rs by now.1).1 first rest in
      ground (arith, first, both)

  recalculate_product_skus-Untouched :
      (product by : ℕ) (db : Db) → Untouched db (recalculate_product_skus f loc product by db).1
  unfolding recalculate_product_skus
  recalculate_product_skus-Untouched product by db = recalculate_each-Untouched _ by db

  pub recalculate_sold-Untouched :
      (seen : List ℕ) (by : ℕ) (lines : List CheckoutLine) (db : Db)
      → Untouched db (recalculate_sold f loc seen by lines db)
  unfolding recalculate_sold
  recalculate_sold-Untouched seen by [] db = Untouched-refl db
  recalculate_sold-Untouched seen by (l ∷ ls) db =
      let again = ltb 0 (count_where (λ s. s == l.sku) seen) in
      let seen' = if again then seen else l.sku ∷ seen in
      let db' = if again then db else (recalculate_sku f loc l.sku by db).1 in
      Untouched-trans db db' (recalculate_sold f loc seen' by ls db')
        (Untouched-else again db _ (recalculate_sku-Untouched l.sku by db))
        (recalculate_sold-Untouched seen' by ls db')

  pub recalculate_ended-Untouched :
      (by : ℕ) (lines : List CheckoutLine) (db : Db)
      → Untouched db (recalculate_ended f loc by lines db)
  unfolding recalculate_ended
  recalculate_ended-Untouched by [] db = Untouched-refl db
  recalculate_ended-Untouched by (l ∷ ls) db =
      let db' = if l.promo_ended then (recalculate_product_skus f loc l.product by db).1 else db in
      Untouched-trans db db' (recalculate_ended f loc by ls db')
        (Untouched-then l.promo_ended db _ (recalculate_product_skus-Untouched l.product by db))
        (recalculate_ended-Untouched by ls db')

  checkout_line-Untouched :
      (pool : Db) (margin : Option ℤ) (it : CartLine) (left : List (ℕ × ℕ))
      → Keeps Untouched (checkout_line f loc pool margin it left)
  unfolding checkout_line
  checkout_line-Untouched pool margin it left db a db' e = ground arith

  pub checkout_lines-Untouched :
      (pool : Db) (margin : Option ℤ) (its : List CartLine) (left : List (ℕ × ℕ))
      → Keeps Untouched (checkout_lines f loc pool margin its left)
  unfolding checkout_lines
  checkout_lines-Untouched pool margin [] left db a db' e = ground arith
  checkout_lines-Untouched pool margin (it ∷ its) left db a db' e =
      elim (Result-cases (checkout_line f loc pool margin it left db)) [
        | inl (er, h) ↦ ground arith
        | inr (((l, left'), db1), h) ↦
            elim (Result-cases (checkout_lines f loc pool margin its left' db1)) [
              | inl (er, h') ↦ ground arith
              | inr ((ls, db2), h') ↦
                  let both =
                    Untouched-trans db db1 db2
                      (checkout_line-Untouched pool margin it left db (l, left') db1 h)
                      (checkout_lines-Untouched pool margin its left' db1 ls db2 h') in
                  ground (arith, both)
            ]
      ]
