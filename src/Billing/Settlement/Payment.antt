-- ===== src/Billing/Settlement/Payment.antt =====
-- One payment of an installment (`ApplyInstallmentPaymentTx`, payment_plan.go).
use pontoqap.Store.Table.Keep.{find_by-update_where}
use pontoqap.Billing.Settlement.{
  pay_installment, advance_plan, apply_installment_payment_tx, credit_plan, credit_invoice,
  sync_invoice_due, lower_exposure, next_unpaid_installment_due_date,
}
use pontoqap.Billing.Dates.{Location}
use pontoqap.Billing.Rows.{installment_key, is_payable, invoice_key, plan_key, customer_key}
use pontoqap.Base.{
  ℕ, ◌+◌, ◌≡◌, refl, true, some, arith, ◌==◌, if◌then◌else◌, leb, Option-cases, inl, inr,
  Bool-cases,
}
use pontoqap.Store.Schema.{Installment, Invoice, Db, PaymentPlan}
use pontoqap.Store.Tx.{ok}
use pontoqap.Store.Table.Keys.{find_by, update_by, update_by-IsUnique, find_by-key}
use pontoqap.Store.Table.Sums.{sum_where-update_by}
use pontoqap.Store.Table.Rows.{All-select_first, All-update_where}
use pontoqap.Billing.Settlement.Books.{
  HasBooks, IsBalanced, advance_plan-HasBooks, keep_HasBooks, of_plan, received,
}

-- The four table updates of a payment, before the plan advances.
abbrev pub credited : ℕ → ℕ → ℕ → Installment → Invoice → Db → Db
credited now id amount inst inv db = record db {
  installments = update_by installment_key id pay_installment db.installments;
  plans = update_by plan_key inst.payment_plan_id (credit_plan amount) db.plans;
  invoices = update_by invoice_key inst.invoice_id (credit_invoice now amount) db.invoices;
  customers = update_by customer_key inv.customer_id (lower_exposure amount) db.customers;
}

-- The tables after a payment.
abbrev pub settled : Location → ℕ → ℕ → ℕ → Installment → Invoice → Db → Db
settled loc now id amount inst inv db =
    let db' =
      advance_plan inst.payment_plan_id inst.installment_number
        (credited now id amount inst inv db) in
    if leb inv.total_cents (inv.paid_cents + amount)
    then db'
    else sync_invoice_due loc inst.invoice_id db'

-- What a payment that succeeds has met, and the tables that it leaves.
pub record Settles (loc : Location) (now id amount : ℕ) (db db' : Db) : Type 0 where
  pub inst : Installment
  pub inv : Invoice
  pub inst_found : find_by installment_key id db.installments ≡ some inst
  pub payable : is_payable inst.status ≡ true
  pub exact : amount ≡ inst.remaining_cents
  pub inv_found : find_by invoice_key inst.invoice_id db.invoices ≡ some inv
  pub tables : db' ≡ settled loc now id amount inst inv db

module _ (loc : Location) (now id amount : ℕ) (db : Db) where
  pub apply-Settles :
      {db' : Db}
      → apply_installment_payment_tx loc now id amount db ≡ ok (tt, db')
      → Settles loc now id amount db db'
  unfolding apply_installment_payment_tx
  apply-Settles {db'} e = elim (Option-cases (find_by installment_key id db.installments)) [
    | inl missing ↦ absurd (ground arith)
    | inr (inst, found) ↦ elim (Option-cases (find_by invoice_key inst.invoice_id db.invoices)) [
      | inl missing ↦ absurd (ground arith)
      | inr (inv, there) ↦ record {
        inst = inst;
        inv = inv;
        inst_found = found;
        payable = ground arith;
        exact = ground arith;
        inv_found = there;
        tables = ground arith;
      }
    ]
  ]

module _ (now id amount : ℕ) (inst : Installment) (inv : Invoice) (db : Db) where
  received-pay :
      HasBooks db
      → find_by installment_key id db.installments ≡ some inst
      → is_payable inst.status ≡ true
      → amount ≡ inst.remaining_cents
      → (plan_id : ℕ)
      → received plan_id (update_by installment_key id pay_installment db.installments)
        ≡ received plan_id db.installments + (if inst.payment_plan_id == plan_id then amount else 0)
  received-pay h found payable same plan_id =
      let b =
        All-select_first IsBalanced (λ r. installment_key r == id) db.installments {r = inst}
          h.balanced found in
      ground (
        arith,
        b.parts,
        b.unpaid,
        sum_where-update_by (of_plan plan_id) (λ (r : Installment). r.paid_cents) installment_key id
            pay_installment db.installments {r = inst} h.installments_unique found,
      )

  credited-agree :
      HasBooks db
      → find_by installment_key id db.installments ≡ some inst
      → is_payable inst.status ≡ true
      → amount ≡ inst.remaining_cents
      → (plan_id : ℕ) (p : PaymentPlan)
      → find_by plan_key plan_id
          (update_by plan_key inst.payment_plan_id (credit_plan amount) db.plans)
        ≡ some p
      → p.paid_cents
        ≡ received plan_id (update_by installment_key id pay_installment db.installments)
  credited-agree h found payable same plan_id p e =
      let (p', there, image) =
        find_by-update_where plan_key (λ r. plan_key r == inst.payment_plan_id) (credit_plan amount)
          (λ r. refl) plan_id db.plans {r' = p} e in
      ground (
        arith,
        find_by-key plan_key plan_id db.plans {r = p'},
        there,
        image,
        h.agree plan_id p' there,
        received-pay h found payable same plan_id,
      )

  credited-HasBooks :
      HasBooks db
      → find_by installment_key id db.installments ≡ some inst
      → is_payable inst.status ≡ true
      → amount ≡ inst.remaining_cents
      → HasBooks (credited now id amount inst inv db)
  credited-HasBooks h found payable same = record {
    plans_unique =
        update_by-IsUnique plan_key inst.payment_plan_id (credit_plan amount) db.plans (λ r. refl)
          h.plans_unique;
    installments_unique =
        update_by-IsUnique installment_key id pay_installment db.installments (λ r. refl)
          h.installments_unique;
    balanced =
        All-update_where IsBalanced (λ r. installment_key r == id) pay_installment db.installments
          (λ r hit b. ground arith) h.balanced;
    agree = credited-agree h found payable same;
  }

-- Moving the due time of an invoice leaves the books.
sync_invoice_due-HasBooks :
    (loc : Location) (invoice_id : ℕ) (db : Db)
    → HasBooks db
    → HasBooks (sync_invoice_due loc invoice_id db)
unfolding sync_invoice_due
sync_invoice_due-HasBooks loc invoice_id db h =
    elim (Option-cases (next_unpaid_installment_due_date loc invoice_id db)) [
      | inl missing ↦ rw (missing, sync_invoice_due) h
      | inr (t, found) ↦ rw (found, sync_invoice_due) (keep_HasBooks db _ refl refl h)
    ]

module _ (loc : Location) (now id amount : ℕ) (db : Db) {db' : Db} where
  -- The books are kept: if identifiers are unique, each installment's columns agree and each plan has
  -- received what its installments have, then so it is after a payment that succeeds.
  pub apply_installment_payment_tx-HasBooks :
      HasBooks db → apply_installment_payment_tx loc now id amount db ≡ ok (tt, db') → HasBooks db'
  apply_installment_payment_tx-HasBooks h e =
      let s = apply-Settles loc now id amount db e in
      let kept =
        advance_plan-HasBooks s.inst.payment_plan_id s.inst.installment_number _
          (credited-HasBooks now id amount s.inst s.inv db h s.inst_found s.payable s.exact) in
      rw s.tables (elim (Bool-cases (leb s.inv.total_cents (s.inv.paid_cents + amount))) [
        | inl full ↦ rw full kept
        | inr part ↦ rw part (sync_invoice_due-HasBooks loc s.inst.invoice_id _ kept)
      ])
