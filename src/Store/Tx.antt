-- ===== src/Store/Tx.antt =====
-- A transaction reads and writes the tables and ends in a value or an error; the deferred
-- `tx.Rollback` undoes its writes unless `tx.Commit` was reached.
pub mod Keeps
use pontoqap.Base.{◌≡◌, Bool, true, false, Option, none, some, arith, ◌⊎◌, inl, inr, refl}

-- The errors of the services, and those of the driver that they pass on.
pub data Error : Type 0 where
  no_rows : Error
  check_violation : Error
  unique_violation : Error
  numeric_overflow : Error
  invalid_quantity : Error
  invalid_cost : Error
  invalid_movement_type : Error
  reason_required : Error
  invalid_physical_count : Error
  no_adjustment_needed : Error
  insufficient_lot_quantity : Error
  insufficient_stock : Error
  concurrent_update : Error
  period_not_found : Error
  period_not_open : Error
  period_empty : Error
  no_open_period : Error
  no_business_day : Error
  no_active_policy : Error
  installments_disabled : Error
  invalid_installment_count : Error
  payment_plan_not_pending : Error
  payment_plan_immutable : Error
  installment_not_payable : Error
  installment_not_sequential : Error
  installment_after_due : Error
  invalid_adjustment : Error
  adjustment_exceeds_total : Error
  total_below_paid : Error
  invoice_not_found : Error
  invoice_already_paid : Error
  installment_not_found : Error
  select_plan_first : Error
  invoice_settled : Error
  gateway_failed : Error
  invalid_signature : Error
  invalid_payload : Error
  amount_mismatch : Error
  invalid_margin : Error
  promo_margin_required : Error
  promo_quantity_required : Error
  category_not_found : Error
  name_required : Error
  invalid_collaborator_category : Error
  customer_not_pending : Error
  customer_not_blocked : Error
  cannot_block : Error
  customer_blocked : Error
  customer_not_approved : Error
  insufficient_limit : Error
  idempotency_key_required : Error
  empty_cart : Error
  order_not_found : Error
  order_not_cancellable : Error
  invalid_credentials : Error
  unauthorized : Error
  forbidden : Error
  email_not_verified : Error
  account_locked : Error
  step_up_required : Error
  not_found : Error
  validation_failed : Error
  conflict : Error
  jwt_secret_required : Error
  handler_failed : Error
  random_failed : Error

pub data Result {ℓ} (A : Type ℓ) : Type ℓ where
  ok : A → Result A
  err : Error → Result A

-- What runs inside a transaction over tables `S`: on an error the tables no longer matter.
abbrev pub Tx {ℓ κ} : Type ℓ → Type κ → Type (ℓ ⊔ κ)
Tx S A = S → Result (A × S)

module _ {ℓ κ} {S : Type ℓ} {A : Type κ} where
  abbrev pub pure : A → Tx S A
  pure a s = ok (a, s)

  abbrev pub throw : Error → Tx S A
  throw e s = err e

  abbrev pub gets : (S → A) → Tx S A
  gets f s = ok (f s, s)

  -- A row that is missing is an error.
  abbrev pub or_throw : Option A → Error → Tx S A
  or_throw none e s = err e
  or_throw (some a) e s = ok (a, s)

  -- `Begin`, the body, `Commit`: the tables that the next caller sees.
  unfoldable pub run_tx : Tx S A → S → Result A × S
  run_tx m s = elim (m s) [ ok (a, s') ↦ (ok a, s') | err e ↦ (err e, s) ]

module _ {ℓ} {S : Type ℓ} where
  abbrev pub modify : (S → S) → Tx S (Unit {0})
  modify f s = ok (tt, f s)

  abbrev pub throw_if : Bool → Error → Tx S (Unit {0})
  throw_if true e s = err e
  throw_if false e s = ok (tt, s)

infixl 5 ◌>>=◌ ◌>>◌
abbrev pub ◌>>=◌ {ℓ κ μ} : {S : Type ℓ} {A : Type κ} {B : Type μ} → Tx S A → (A → Tx S B) → Tx S B
◌>>=◌ m f s = elim (m s) [ ok (a, s') ↦ f a s' | err e ↦ err e ]

abbrev pub ◌>>◌ {ℓ κ} : {S : Type ℓ} {B : Type κ} → Tx S (Unit {0}) → Tx S B → Tx S B
m >> k = m >>= λ _. k

-- A transaction that fails leaves the tables as they were.
pub run_tx-err {ℓ κ} :
    {S : Type ℓ} {A : Type κ} (m : Tx S A) (s : S) {e : Error}
    → (run_tx m s).0 ≡ err e
    → (run_tx m s).1 ≡ s
unfolding run_tx
run_tx-err m s h = ground arith

pub Result-cases {ℓ} :
    {A : Type ℓ} (r : Result A) → ((e : Error) × (r ≡ err e)) ⊎ ((a : A) × (r ≡ ok a))
Result-cases (err e) = inl (e, refl)
Result-cases (ok a) = inr (a, refl)
