-- ===== src/Billing/Selection/Success.antt =====
-- What `SelectPaymentPlan` leaves when it succeeds (payment_plan.go).
use pontoqap.Base.{
  ℕ, ◌+◌, ◌≡◌, ◌≤◌, ◌<◌, true, some, ◌==◌, ◌&&◌, refl, arith, inl, inr, Option-cases, List, ◌∙◌,
  sym,
}
use pontoqap.Store.Schema.{PaymentPlan, PlanStatus, Invoice, InstallmentPolicy, Db}
use pontoqap.Store.Tx.{ok, Result-cases}
use pontoqap.Store.Table.Keep.{find_by-update_some}
use pontoqap.Billing.Dates.{Location}
use pontoqap.Billing.Rows.{remaining_cents, is_pending_plan, plan_invoice}
use pontoqap.Billing.Amounts.{max_installments, distribute_installment_amounts}
use pontoqap.Billing.Amounts.Split.{distribute-sum}
use pontoqap.Billing.Calendar.{build_installment_due_dates}
use pontoqap.Billing.Plan.{load_plan, plan_params_from_snapshots}
use pontoqap.Billing.Selection.{Choice, select_plan_tx, activate_plan, insert_installments}
use pontoqap.Billing.Selection.Insert.{
  amount_of, insert_installments-amount, build_installment_due_dates-length,
}

-- The plan as the selection leaves it.
abbrev pub selected : Choice → ℕ → PaymentPlan → PaymentPlan
selected c count p = record p {
  status = PlanStatus.active_plan;
  selected_installment_count = some count;
  selected_by_user_id = some c.user_id;
  selected_at = some c.now;
}

-- A selection that succeeds: the plan was pending, the count was offered, the plan is active with
-- that count, and its installments have grown by the balance.
pub record Selects (c : Choice) (inv : Invoice) (live : InstallmentPolicy) (count : ℕ) (db db' : Db)
    : Type 0 where
  pub plan : PaymentPlan
  pub found : load_plan c.invoice_id db ≡ some plan
  pub pending : is_pending_plan plan.status ≡ true
  pub offered :
      count
      ≤ max_installments
          (remaining_cents inv)
          (plan_params_from_snapshots plan)
          live.installment_enabled
  pub active : load_plan c.invoice_id db' ≡ some (selected c count plan)
  pub grown : amount_of plan.id db' ≡ amount_of plan.id db + remaining_cents inv

module _ (loc : Location) (c : Choice) (inv : Invoice) (live : InstallmentPolicy) (count : ℕ)
    (db : Db) (db' : Db) where
  -- The steps of a selection that succeeds.
  record Steps : Type 0 where
    plan : PaymentPlan
    dates : List ℕ
    found : load_plan c.invoice_id db ≡ some plan
    pending : is_pending_plan plan.status ≡ true
    offered :
        count
        ≤ max_installments
            (remaining_cents inv)
            (plan_params_from_snapshots plan)
            live.installment_enabled
    built :
        build_installment_due_dates loc db.calendar inv.due_at count plan.interval plan.adjust_biz
        ≡ ok dates
    inserted :
        insert_installments c.new_ids plan.id c.invoice_id 0
          (distribute_installment_amounts (remaining_cents inv) count)
          dates
          (activate_plan plan.id count c.user_id c.now db)
        ≡ ok (tt, db')

  select_plan_tx-Steps : select_plan_tx loc c inv live count db ≡ ok (tt, db') → Steps
  unfolding select_plan_tx
  select_plan_tx-Steps e = elim (Option-cases (load_plan c.invoice_id db)) [
    | inl missing ↦ absurd (ground arith)
    | inr (plan, there) ↦
        elim (Result-cases (
          build_installment_due_dates loc db.calendar inv.due_at count plan.interval
            plan.adjust_biz)) [
              | inl (wrong, failed) ↦ absurd (ground arith)
              | inr (dates, computed) ↦ record {
                plan = plan;
                dates = dates;
                found = there;
                pending = ground arith;
                offered = ground arith;
                built = computed;
                inserted = ground arith;
              }
            ]
  ]

  -- A selection of at least one installment that succeeds was of a pending plan and of a number of
  -- installments that is offered; it leaves the plan active with that number, and adds installments
  -- that come to exactly what remains of the invoice.
  pub select_plan_tx-Selects :
      0 < count
      → select_plan_tx loc c inv live count db ≡ ok (tt, db')
      → Selects c inv live count db db'
  unfolding activate_plan
  select_plan_tx-Selects positive e =
      let s = select_plan_tx-Steps e in
      let split = distribute-sum (remaining_cents inv) count positive in
      let made =
        insert_installments-amount c.new_ids s.plan.id c.invoice_id 0
          (distribute_installment_amounts (remaining_cents inv) count) s.dates
          (activate_plan s.plan.id count c.user_id c.now db) {db' = db'}
          (split.1
            ∙ sym (
                build_installment_due_dates-length loc db.calendar inv.due_at count s.plan.interval
                  s.plan.adjust_biz {dates = s.dates} s.built))
          s.inserted in
      record {
        plan = s.plan;
        found = s.found;
        pending = s.pending;
        offered = s.offered;
        active = rw made.1 (
            ground (
              arith,
              s.pending,
              find_by-update_some plan_invoice (λ p. p.id == s.plan.id && is_pending_plan p.status)
                  (selected c count) (λ p. refl) c.invoice_id db.plans {r = s.plan} s.found,
            ));
        grown = ground (arith, made.0, split.0);
      }
