-- ===== src/Catalog/Pricing/Quota.antt =====
-- What a line with units of a promotion is charged, and what the sale takes off the quota:
-- `PriceLine` of catalog/promo_pricing.go and `ConsumePromoQuotaTx` of promo.go.
use pontoqap.Base.{
  ℕ, ◌+◌, ◌-◌, ◌*◌, ◌≡◌, ◌≤◌, ◌<◌, refl, Option, none, some, arith, leb, ltb, ◌&&◌, if◌then◌else◌,
  inl, inr, ◌⊎◌, Bool-cases,
}
use pontoqap.Base.Int.{ℤ, pos, negsuc, leb_ℤ, pos_part}
use pontoqap.Store.Schema.{Db}
use pontoqap.Store.Shop.{Product}
use pontoqap.Store.Tx.{ok, Result-cases}
use pontoqap.Store.Table.Keys.{find_by-update_by, update_by}
use pontoqap.Catalog.Prices.{Float64, round_cents, apply_collaborator_min}
use pontoqap.Catalog.Pricing.{
  PriceLineInput, PriceLineResult, price_line, promo_units_of, product_key, get_product, with_quota,
  consume_promo_quota_tx, line_amounts, regular_sale_price_cents, collaborator_unit,
}

priced_units :
    {W : Type 0} (f : Float64 W) (loc : ℕ) (i : PriceLineInput) (db : Db) {r : PriceLineResult}
    → price_line f loc i db ≡ ok r
    → r.promo_units ≡ promo_units_of i
unfolding price_line
priced_units f loc i db e = ground arith

-- The lower of a price and of the collaborator's unit price, where that is positive.
abbrev pub lowest : ℕ → Option ℤ → ℕ
lowest price none = price
lowest price (some (negsuc n)) = price
lowest price (some (pos n)) = if ltb 0 n && ltb n price then n else price

-- The price without a promotion: the one that follows from the cost, or the item's own where the
-- cost gives none.
abbrev pub usual_price : ℕ → ℤ → ℕ
usual_price sale_price (negsuc n) = sale_price
usual_price sale_price (pos n) = if ltb 0 n then n else sale_price

-- What a line costs: each unit of the promotion at the item's price, each further one at the usual
-- price, a collaborator's unit price in place of either where it is lower.
abbrev pub charged : PriceLineInput → ℤ → Option ℤ → ℕ → ℕ
charged i regular collaborator units = round_cents (
    units * lowest (round_cents i.sale_price) collaborator
    + (i.quantity - units) * lowest (round_cents (usual_price i.sale_price regular)) collaborator)

lowest-apply_collaborator_min :
    (promo regular : ℕ) (collaborator : Option ℤ)
    → apply_collaborator_min promo regular collaborator
      ≡ (lowest promo collaborator, lowest regular collaborator)
unfolding apply_collaborator_min
lowest-apply_collaborator_min promo regular none = refl
lowest-apply_collaborator_min promo regular (some (negsuc n)) = ground arith
lowest-apply_collaborator_min promo regular (some (pos n)) = ground arith

usual_price_lem :
    (sale_price : ℕ) (regular : ℤ)
    → (if leb_ℤ regular (pos 0) then round_cents sale_price else round_cents (pos_part regular))
      ≡ round_cents (usual_price sale_price regular)
usual_price_lem sale_price (pos n) = ground arith
usual_price_lem sale_price (negsuc n) = ground arith

line_amounts-charged :
    (i : PriceLineInput) (regular : ℤ) (collaborator : Option ℤ)
    → (line_amounts i regular collaborator).line_total_cents
      ≡ charged i regular collaborator (promo_units_of i)
unfolding line_amounts
line_amounts-charged i regular collaborator =
    let promo = round_cents i.sale_price in
    let usual = round_cents (usual_price i.sale_price regular) in
    rw
      (usual_price_lem i.sale_price regular, lowest-apply_collaborator_min promo usual collaborator)
      refl

priced_total :
    {W : Type 0} (f : Float64 W) (loc : ℕ) (i : PriceLineInput) (db : Db) {r : PriceLineResult}
    → price_line f loc i db ≡ ok r
    → (regular : ℤ) × (regular_sale_price_cents f loc i.sku_id db ≡ ok regular)
      × (r.line_total_cents
          ≡ charged i regular
              (collaborator_unit f loc i.sku_id i.collaborator_margin db)
              r.promo_units)
unfolding price_line
priced_total f loc i db {r} e = elim (Result-cases (regular_sale_price_cents f loc i.sku_id db)) [
  | inl (wrong, failed) ↦ absurd (ground arith)
  | inr (regular, found) ↦
      let unit = collaborator_unit f loc i.sku_id i.collaborator_margin db in
      (
        regular,
        found,
        ground (arith, line_amounts-charged i regular unit, priced_units f loc i db e),
      )
]

-- A line that is priced with the promotion as the table has it, and of which some units are at the
-- promotional price, costs those units at the item's price and the others at the regular one, each
-- at a collaborator's unit price where that is lower, rounded. The sale takes exactly those units off
-- the quota: they are no more than the quantity and than what is left, all of one or of the other,
-- and the promotion ends when nothing is left.
pub consume-price :
    {W : Type 0} (f : Float64 W) (loc product : ℕ) (i : PriceLineInput) (db : Db) {p : Product}
    {r : PriceLineResult}
    → get_product product db ≡ some p
    → i.promo_active ≡ p.promo_active
    → i.promo_remain ≡ p.promo_quantity_remaining
    → price_line f loc i db ≡ ok r
    → 0 < r.promo_units
    → (regular : ℤ) × (db' : Db) × (regular_sale_price_cents f loc i.sku_id db ≡ ok regular)
      × (r.line_total_cents
          ≡ charged i regular
              (collaborator_unit f loc i.sku_id i.collaborator_margin db)
              r.promo_units)
      × (consume_promo_quota_tx product r.promo_units db
          ≡ ok ((r.promo_units, leb (p.promo_quantity_remaining - r.promo_units) 0), db'))
      × (get_product product db' ≡ some (with_quota (p.promo_quantity_remaining - r.promo_units) p))
      × (r.promo_units ≤ i.quantity)
      × (r.promo_units ≤ p.promo_quantity_remaining)
      × ((r.promo_units ≡ i.quantity) ⊎ (r.promo_units ≡ p.promo_quantity_remaining))
unfolding consume_promo_quota_tx promo_units_of
consume-price f loc product i db {p} {r} found active remain e some_units =
    let units = priced_units f loc i db e in
    let (regular, known, total) = priced_total f loc i db e in
    let left = p.promo_quantity_remaining - r.promo_units in
    let there =
      find_by-update_by product_key product product (with_quota left) db.shop.products
        (λ x. refl) in
    let db' : Db = record db {
      shop = record db.shop {
        products = update_by product_key product (with_quota left) db.shop.products;
      };
    } in
    (
      regular,
      db',
      known,
      total,
      ground (arith, units),
      ground (arith, there),
      ground (arith, units),
      ground (arith, units),
      elim (Bool-cases (ltb i.promo_remain i.quantity)) [
        | inl short ↦ inr (ground (arith, units))
        | inr enough ↦ inl (ground (arith, units))
      ],
    )
