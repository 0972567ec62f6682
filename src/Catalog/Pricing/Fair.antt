-- ===== src/Catalog/Pricing/Fair.antt =====
-- What a collaborator pays (`PriceLine` of catalog/promo_pricing.go).
use pontoqap.Base.{
  ℕ, ◌+◌, ◌-◌, ◌*◌, ◌/◌, ◌%◌, ◌≤◌, ◌≡◌, refl, none, some, arith, Bool-cases, inl, inr, ltb, ltb→lt,
  if◌then◌else◌,
}
use native.Mathlib.Nat.{le-div_iff_mul-le, div-mul-le_self, le_trans}
use pontoqap.Base.Int.{ℤ, pos, pos_part, leb_ℤ}
use pontoqap.Catalog.Prices.{round_cents, apply_collaborator_min}
use pontoqap.Catalog.Pricing.{PriceLineInput, line_amounts, promo_units_of}

-- Prices are rounded to the nearest multiple of 50 cents, which is at most 25 cents away; what is
-- such a multiple already stays.
pub round_cents-nearest :
    (c : ℕ)
    → (round_cents c % 50 ≡ 0)
      × (c ≤ round_cents c + 25)
      × (round_cents c ≤ c + 25)
      × (round_cents (round_cents c) ≡ round_cents c)
unfolding round_cents
round_cents-nearest c = omega arith

round_cents_mono : (a b : ℕ) → a ≤ b → round_cents a ≤ round_cents b
unfolding round_cents
round_cents_mono a b h = omega arith

min_le :
    (promo regular : ℕ) (c : ℤ)
    → ((apply_collaborator_min promo regular (some c)).0 ≤ promo)
      × ((apply_collaborator_min promo regular (some c)).1 ≤ regular)
unfolding apply_collaborator_min
min_le promo regular c = ground arith

mix_mono : (p r a b a' b' : ℕ) → a ≤ a' → b ≤ b' → p * a + r * b ≤ p * a' + r * b'
mix_mono p r a b a' b' h k = grind arith

average_le : (n a b : ℕ) → a ≤ b → (if ltb 0 n then a / n else 0) ≤ (if ltb 0 n then b / n else 0)
average_le n a b h = elim (Bool-cases (ltb 0 n)) [
  | inl more ↦ rw more ((le-div_iff_mul-le (ltb→lt 0 n more)).1 (le_trans (div-mul-le_self a n) h))
  | inr none' ↦ rw none' (omega arith)
]

-- A collaborator never pays more for a line than another customer, and takes as many units of the
-- promotion.
pub line_amounts-collaborator :
    (i : PriceLineInput) (regular : ℤ) (collaborator : ℤ)
    → ((line_amounts i regular (some collaborator)).line_total_cents
        ≤ (line_amounts i regular none).line_total_cents)
      × ((line_amounts i regular (some collaborator)).unit_price_cents
          ≤ (line_amounts i regular none).unit_price_cents)
      × ((line_amounts i regular (some collaborator)).promo_units
          ≡ (line_amounts i regular none).promo_units)
unfolding line_amounts apply_collaborator_min
line_amounts-collaborator i regular c =
    let promo = promo_units_of i in
    let price = round_cents i.sale_price in
    let usual = if leb_ℤ regular (pos 0) then price else round_cents (pos_part regular) in
    let lower = min_le price usual c in
    let (p, r) = apply_collaborator_min price usual (some c) in
    let total =
      round_cents_mono _ _ (mix_mono promo (i.quantity - promo) p r price usual lower.0 lower.1) in
    (total, average_le i.quantity _ _ total, refl)
