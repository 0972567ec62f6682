-- ===== src/Billing/Amounts/Limits.antt =====
-- How many installments a balance may be split into (installment_calculator.go).
use pontoqap.Base.{ℕ, ◌*◌, ◌≤◌, ◌<◌, ◌≡◌, Bool, true, arith}
use native.Mathlib.Nat.{div-mul-le_self, le-div_iff_mul-le}
use pontoqap.Billing.Amounts.{InstallmentPolicyParams, max_installments}

module _ (total : ℕ) (p : InstallmentPolicyParams) (live : Bool) where
  -- With a maximum of at least one, the number offered lies between one and the maximum.
  pub max_installments_bounds :
      1 ≤ p.maximum_installments
      → (1 ≤ max_installments total p live)
        × (max_installments total p live ≤ p.maximum_installments)
  unfolding max_installments
  max_installments_bounds h = ground arith

  -- More than one installment is only offered when the live policy allows it, the balance reaches
  -- the minimum for an invoice, and every part reaches the minimum for an installment.
  pub max_installments_many :
      1 < max_installments total p live
      → 0 < p.minimum_installment_amount_cents
      → (live ≡ true)
        × (p.minimum_invoice_amount_cents ≤ total)
        × (max_installments total p live * p.minimum_installment_amount_cents ≤ total)
  unfolding max_installments
  max_installments_many h m =
      grind (arith, div-mul-le_self total p.minimum_installment_amount_cents)

  -- Any count that keeps the parts at the minimum and stays within the maximum is offered.
  pub max_installments_complete :
      (n : ℕ)
      → live ≡ true
      → p.minimum_invoice_amount_cents ≤ total
      → 0 < p.minimum_installment_amount_cents
      → 0 < total
      → n ≤ p.maximum_installments
      → n * p.minimum_installment_amount_cents ≤ total
      → n ≤ max_installments total p live
  unfolding max_installments
  max_installments_complete n l inv m pt most fits =
      ground (arith, (le-div_iff_mul-le {x = n} {y = total} m).1 fits)
