-- ===== src/Billing/Amounts/Minimum.antt =====
-- The parts of a balance against the minimum of an installment (installment_calculator.go).

use pontoqap.Billing.Amounts.Split.{distribute-get_elem?}
use pontoqap.Billing.Amounts.Limits.{max_installments_many}
use native.Mathlib.Nat.{le-div_iff_mul-le}
use pontoqap.Billing.Amounts.{
  InstallmentPolicyParams, max_installments, distribute_installment_amounts,
}
use pontoqap.Base.{
  ℕ, Bool, ◌<◌, ◌≤◌, get_elem?, ◌≡◌, some, arith, ◌/◌, ◌+◌, if◌then◌else◌, ltb, ◌-◌, ◌%◌,
}

-- Where more than one installment is asked for and the number is offered, every part of the balance
-- is at least the minimum of an installment.
pub distribute-minimum :
    (total : ℕ) (p : InstallmentPolicyParams) (live : Bool) (n i : ℕ)
    → 0 < p.minimum_installment_amount_cents
    → 1 < n
    → n ≤ max_installments total p live
    → i < n
    → (a : ℕ) × (get_elem? (distribute_installment_amounts total n) i ≡ some a)
      × (p.minimum_installment_amount_cents ≤ a)
distribute-minimum total p live n i positive several offered inside =
    let (allowed, big, fits) = max_installments_many total p live (omega arith) positive in
    let each : p.minimum_installment_amount_cents ≤ total / n =
      (le-div_iff_mul-le {x = p.minimum_installment_amount_cents} {y = total} (omega arith)).1
        (grind (arith)) in
    (
      total / n + (if ltb i (n - total % n) then 0 else 1),
      distribute-get_elem? total n i inside,
      omega arith,
    )
