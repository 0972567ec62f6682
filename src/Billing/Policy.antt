-- ===== src/Billing/Policy.antt =====
-- The versions of the installment policy: backend/internal/billing/installment_policy.go.
pub mod Versions
use pontoqap.Base.{ℕ, suc, ◌+◌, Bool, true, false, Option, none, some, List, ltb, if◌then◌else◌}
use pontoqap.Base.Int.{ℤ, pos, ltb_ℤ, pos_part}
use pontoqap.Store.Table.{select_first, update_where, max_where, insert_row, select_where}
use pontoqap.Store.Schema.{InstallmentPolicy, Db}
use pontoqap.Store.Tx.{
  Tx, Result, ok, err, throw_if, gets, modify, or_throw, ◌>>=◌, ◌>>◌, run_tx,
  invalid_installment_count, no_active_policy,
}
use pontoqap.Billing.Amounts.{InstallmentPolicyParams}

-- `UpdateInstallmentPolicyInput`, as the handler decodes it.
pub record UpdateInstallmentPolicyInput : Type 0 where
  pub installment_enabled : Bool
  pub minimum_invoice_amount_cents : ℤ
  pub minimum_installment_amount_cents : ℤ
  pub maximum_installments : ℤ
  pub installment_interval_months : ℤ
  pub allow_installment_after_due_date : Bool
  pub allow_early_installment_payment : Bool
  pub require_sequential_payment : Bool
  pub adjust_due_date_to_business_day : Bool

abbrev pub is_active : InstallmentPolicy → Bool
is_active p = p.active

-- `GetActiveInstallmentPolicy`.
unfoldable pub get_active_policy : Db → Result InstallmentPolicy
get_active_policy db = elim (select_first is_active db.policies) [
  | some p ↦ ok p
  | none ↦ err no_active_policy
]

-- `InstallmentPolicy.Params`.
unfoldable pub params : InstallmentPolicy → InstallmentPolicyParams
params p = record {
  minimum_invoice_amount_cents = p.minimum_invoice_amount_cents;
  minimum_installment_amount_cents = p.minimum_installment_amount_cents;
  maximum_installments = p.maximum_installments;
  installment_enabled = p.installment_enabled;
}

-- The row of the new version; the guards leave its numbers positive.
abbrev pub policy_row : ℕ → ℕ → UpdateInstallmentPolicyInput → InstallmentPolicy
policy_row id version i = record {
  id = id;
  version = version;
  active = true;
  installment_enabled = i.installment_enabled;
  minimum_invoice_amount_cents = pos_part i.minimum_invoice_amount_cents;
  minimum_installment_amount_cents = pos_part i.minimum_installment_amount_cents;
  maximum_installments = pos_part i.maximum_installments;
  installment_interval_months = pos_part i.installment_interval_months;
  allow_installment_after_due_date = i.allow_installment_after_due_date;
  allow_early_installment_payment = i.allow_early_installment_payment;
  require_sequential_payment = i.require_sequential_payment;
  adjust_due_date_to_business_day = i.adjust_due_date_to_business_day;
}

-- `CreateInstallmentPolicyVersion`, inside its transaction.
unfoldable pub create_policy_version : ℕ → UpdateInstallmentPolicyInput → Tx Db (Unit {0})
create_policy_version new_id i = do
  throw_if (ltb_ℤ i.maximum_installments (pos 1)) invalid_installment_count
  throw_if (ltb_ℤ i.installment_interval_months (pos 1)) invalid_installment_count
  throw_if (ltb_ℤ i.minimum_installment_amount_cents (pos 1)) invalid_installment_count
  throw_if (ltb_ℤ i.minimum_invoice_amount_cents (pos 1)) invalid_installment_count
  next_version ←
      gets
        (λ (db : Db). max_where (λ (p : InstallmentPolicy). true) (λ p. p.version) db.policies + 1)
  modify λ db. record db {
    policies = update_where is_active (λ p. record p { active = false }) db.policies;
  }
  modify λ db. record db { policies = insert_row (policy_row new_id next_version i) db.policies }
