-- ===== src/Catalog/Prices.antt =====
-- The pure rules of prices: backend/internal/catalog/rounding.go, promo.go, promo_pricing.go and
-- `SalePriceFromCost` of pricing.go. `RoundSalePriceCents` divides in `float64`; for amounts below
-- 2 ^ 46 cents the nearest step is the one that whole numbers give, and that is what is written here.
use pontoqap.Base.{ℕ, ◌+◌, ◌-◌, ◌*◌, ◌/◌, Bool, ◌&&◌, Option, none, some, ltb, leb, if◌then◌else◌}
use pontoqap.Base.Int.{ℤ, pos, negsuc, leb_ℤ, pos_part}
use pontoqap.Store.Shop.{Product}

-- What `SalePriceFromCost` does with a `float64`: `margin` is the value of a column of two decimals,
-- and `round` is `int64(math.Round(f))`.
pub record Float64 (W : Type 0) : Type 0 where
  pub of_int : ℕ → W
  pub margin : ℤ → W
  pub add : W → W → W
  pub mul : W → W → W
  pub div : W → W → W
  pub round : W → ℤ

abbrev pub sale_price_round_step_cents : ℕ
sale_price_round_step_cents = 50

-- `RoundSalePriceCents` of an amount that is not negative.
unfoldable pub round_cents : ℕ → ℕ
round_cents cents = (cents + 25) / sale_price_round_step_cents * sale_price_round_step_cents

-- `RoundSalePriceCents`.
unfoldable pub round_sale_price_cents : ℤ → ℤ
unfolding round_cents
round_sale_price_cents (pos n) = pos (round_cents n)
round_sale_price_cents (negsuc n) = negsuc n

-- `SalePriceFromCost`.
unfoldable pub sale_price_from_cost : {W : Type 0} → Float64 W → ℕ → ℤ → ℤ
unfolding round_sale_price_cents
sale_price_from_cost f cost margin =
    if leb cost 0
    then pos 0
    else round_sale_price_cents (
        f.round
          (f.mul (f.of_int cost) (f.add (f.of_int 1) (f.div (f.margin margin) (f.of_int 100)))))

-- `IsOnPromotion`.
unfoldable pub is_on_promotion : Product → Bool
is_on_promotion p = p.promo_active && ltb 0 p.promo_quantity_remaining

-- `EffectiveMarginPercent`.
unfoldable pub effective_margin_percent : Product → ℤ
unfolding is_on_promotion
effective_margin_percent p =
    if is_on_promotion p
    then (elim p.promo_margin_percent [ none ↦ p.margin_percent | some m ↦ m ])
    else p.margin_percent

-- `SplitLinePriceCents` of prices that are not negative: the total, the average and the units at the
-- promotional price.
unfoldable pub split_line_price_cents : ℕ → ℕ → Bool → ℕ → ℕ → ℕ × ℕ × ℕ
split_line_price_cents qty promo_remaining promo_active promo_unit_price regular_unit_price =
    if leb qty 0
    then (0, 0, 0)
    else let promo_units =
        if promo_active && (ltb 0 promo_remaining && ltb 0 promo_unit_price)
        then (if ltb promo_remaining qty then promo_remaining else qty)
        else 0 in
      let line_total = promo_units * promo_unit_price + (qty - promo_units) * regular_unit_price in
      (line_total, line_total / qty, promo_units)

-- `applyCollaboratorMin`: a unit price of the collaborator that is unknown or not positive is none.
unfoldable pub apply_collaborator_min : ℕ → ℕ → Option ℤ → ℕ × ℕ
apply_collaborator_min promo_unit regular_unit none = (promo_unit, regular_unit)
apply_collaborator_min promo_unit regular_unit (some collab_unit) =
    if leb_ℤ collab_unit (pos 0) then (promo_unit, regular_unit) else (
      if ltb (pos_part collab_unit) promo_unit then pos_part collab_unit else promo_unit,
      if ltb (pos_part collab_unit) regular_unit then pos_part collab_unit else regular_unit,
    )

-- `validatePromoMargin`, and the same test of the other margins, in hundredths.
abbrev pub is_margin : ℤ → Bool
is_margin m = leb_ℤ (pos 0) m && leb_ℤ m (pos 100000)

-- What a column `numeric(5,2)` can hold.
abbrev pub fits_column : ℤ → Bool
fits_column m = leb_ℤ (negsuc 99998) m && leb_ℤ m (pos 99999)
