-- ===== src/Billing/Policy/Versions.antt =====
-- One policy is in force at a time, and its numbers make sense (installment_policy.go).
use pontoqap.Base.{ℕ, ◌+◌, ◌≡◌, ◌≤◌, ◌<◌, refl, true, false, some, List, [], ◌∷◌, ◌++◌, arith, All}
use pontoqap.Store.Table.{count_where, update_where, max_where, select_first}
use pontoqap.Store.Schema.{InstallmentPolicy, Db}
use pontoqap.Store.Tx.{ok}
use pontoqap.Billing.Policy.{
  UpdateInstallmentPolicyInput, is_active, policy_row, get_active_policy, create_policy_version,
}

-- What the calculator needs of a policy.
pub record IsSound (p : InstallmentPolicy) : Type 0 where
  pub invoice_minimum : 1 ≤ p.minimum_invoice_amount_cents
  pub installment_minimum : 1 ≤ p.minimum_installment_amount_cents
  pub maximum : 1 ≤ p.maximum_installments
  pub interval : 1 ≤ p.installment_interval_months

abbrev retire : InstallmentPolicy → InstallmentPolicy
retire p = record p { active = false }

abbrev retired : List InstallmentPolicy → List InstallmentPolicy
retired t = update_where is_active retire t

count-retired :
    (t : List InstallmentPolicy) (p : InstallmentPolicy)
    → p.active ≡ true
    → count_where is_active (retired t ++ p ∷ []) ≡ 1
unfolding count_where update_where
count-retired [] p h = ground arith
count-retired (x ∷ xs) p h = ground (arith, count-retired xs p h)

first-retired :
    (t : List InstallmentPolicy) (p : InstallmentPolicy)
    → p.active ≡ true
    → select_first is_active (retired t ++ p ∷ []) ≡ some p
unfolding select_first update_where
first-retired [] p h = ground arith
first-retired (x ∷ xs) p h = ground (arith, first-retired xs p h)

lt-max_where :
    (t : List InstallmentPolicy) (v : ℕ)
    → max_where (λ p. true) (λ p. p.version) t < v
    → All (λ (p : InstallmentPolicy). p.version < v) t
unfolding max_where
lt-max_where [] v h = tt
lt-max_where (x ∷ xs) v h = ground (arith, lt-max_where xs v)

-- After a successful change of the policy exactly one version is active; it is the one that
-- `GetActiveInstallmentPolicy` returns, its numbers are all at least 1, its version is above every
-- version before, and every earlier row is still there.
pub create_policy_version_lem :
    (new_id : ℕ) (i : UpdateInstallmentPolicyInput) (db : Db) {db' : Db}
    → create_policy_version new_id i db ≡ ok (tt, db')
    → (p : InstallmentPolicy) × (get_active_policy db' ≡ ok p)
      × IsSound p
      × (count_where is_active db'.policies ≡ 1)
      × All (λ (q : InstallmentPolicy). q.version < p.version) db.policies
      × (db'.policies ≡ retired db.policies ++ p ∷ [])
unfolding create_policy_version get_active_policy
create_policy_version_lem new_id i db {db'} e =
    let v = max_where (λ (p : InstallmentPolicy). true) (λ p. p.version) db.policies + 1 in
    let p = policy_row new_id v i in
    (
      p,
      ground (arith, first-retired db.policies p refl),
      ground arith,
      ground (arith, count-retired db.policies p refl),
      lt-max_where db.policies v (omega arith),
      ground arith,
    )
