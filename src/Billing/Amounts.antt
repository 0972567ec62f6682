-- ===== src/Billing/Amounts.antt =====
-- The pure installment rules of backend/internal/billing/installment_calculator.go.
-- Amounts are whole cents; every caller passes a remaining balance, which is never negative.
pub mod Split
pub mod Limits
pub mod Minimum
use pontoqap.Base.{
  ℕ, zero, suc, ◌+◌, ◌-◌, ◌/◌, ◌%◌, Bool, ◌&&◌, not, Option, none, some, List, [], ◌∷◌, ltb, leb,
  if◌then◌else◌, replicate, ◌==◌,
}

pub record InstallmentPolicyParams : Type 0 where
  pub minimum_invoice_amount_cents : ℕ
  pub minimum_installment_amount_cents : ℕ
  pub maximum_installments : ℕ
  pub installment_enabled : Bool

-- `MaxInstallments`. The quotient is only taken of a positive total; the policy that is stored
-- has a minimum installment of at least one cent, so the division is defined.
unfoldable pub max_installments : ℕ → InstallmentPolicyParams → Bool → ℕ
max_installments total p live_enabled =
    if leb total 0
    then 1
    else if not live_enabled
    then 1
    else if ltb total p.minimum_invoice_amount_cents
    then 1
    else let by_min = total / p.minimum_installment_amount_cents in
      let by_min' = if ltb by_min 1 then 1 else by_min in
      if ltb p.maximum_installments by_min' then p.maximum_installments else by_min'

-- The first loop: `count` cells that hold the quotient.
unfoldable pub fill_base : ℕ → ℕ → List ℕ
fill_base count base = replicate count base

-- The second loop, `for i := from; i < count; i++ { out[i]++ }`, from the front of the slice.
unfoldable pub bump_from : ℕ → List ℕ → List ℕ
bump_from from [] = []
bump_from zero (x ∷ xs) = (x + 1) ∷ bump_from zero xs
bump_from (suc from) (x ∷ xs) = x ∷ bump_from from xs

-- `DistributeInstallmentAmounts`; `nil` is the empty slice.
unfoldable pub distribute_installment_amounts : ℕ → ℕ → List ℕ
unfolding fill_base bump_from
distribute_installment_amounts total count =
    if ltb count 1
    then []
    else let base = total / count in
      let rest = total % count in bump_from (count - rest) (fill_base count base)

-- `InstallmentEligible`.
unfoldable pub installment_eligible : ℕ → Bool → Bool
installment_eligible max_count live_enabled = live_enabled && ltb 1 max_count
