-- ===== src/Billing/Settlement/Progress.antt =====
-- A payment of an installment goes through (`ApplyInstallmentPaymentTx`, payment_plan.go).
use pontoqap.Base.{
  ℕ, ◌+◌, ◌≡◌, true, false, some, ◌&&◌, refl, arith, inl, inr, Bool-cases, Option-cases, leb, ltb,
  sym, ◌≤◌, ◌<◌, ◌⊎◌,
}
use pontoqap.Store.Schema.{Installment, InstallmentStatus, Invoice, InvoiceStatus, Db}
use pontoqap.Store.Tx.{ok}
use pontoqap.Store.Table.Keys.{find_by, find_by-update_by}
use pontoqap.Store.Table.Keep.{find_by-update_some}
use pontoqap.Billing.Dates.{Location}
use pontoqap.Billing.Rows.{installment_key, invoice_key, is_payable, is_scheduled}
use pontoqap.Billing.Selection.{numbered}
use pontoqap.Billing.Settlement.{
  apply_installment_payment_tx, pay_installment, credit_invoice, advance_plan, sync_invoice_due,
  next_unpaid_installment_due_date, invoice_status_after_payment,
}
use pontoqap.Billing.Settlement.Payment.{credited, settled}

-- An installment that is paid in full: the same row, all of its amount received and nothing left.
pub record IsPaidInFull (inst inst' : Installment) : Type 0 where
  pub same_id : inst'.id ≡ inst.id
  pub same_plan : inst'.payment_plan_id ≡ inst.payment_plan_id
  pub same_invoice : inst'.invoice_id ≡ inst.invoice_id
  pub same_amount : inst'.amount_cents ≡ inst.amount_cents
  pub received : inst'.paid_cents ≡ inst.amount_cents
  pub nothing_left : inst'.remaining_cents ≡ 0
  pub closed : inst'.status ≡ InstallmentStatus.paid_installment

-- An invoice that has received an amount more. It is paid once all of its total is received and
-- partially paid when some is; where nothing is, its status stays.
pub record IsCredited (amount : ℕ) (inv inv' : Invoice) : Type 0 where
  pub same_id : inv'.id ≡ inv.id
  pub same_total : inv'.total_cents ≡ inv.total_cents
  pub received : inv'.paid_cents ≡ inv.paid_cents + amount
  pub status :
      ((inv'.total_cents ≤ inv'.paid_cents) × (inv'.status ≡ InvoiceStatus.paid_invoice))
      ⊎ (((0 < inv'.paid_cents)
            × (inv'.paid_cents < inv'.total_cents)
            × (inv'.status ≡ InvoiceStatus.partially_paid))
          ⊎ ((inv'.paid_cents ≡ 0) × (0 < inv'.total_cents) × (inv'.status ≡ inv.status)))

pay_installment-IsPaidInFull : (r : Installment) → IsPaidInFull r (pay_installment r)
pay_installment-IsPaidInFull r = record {
  same_id = refl;
  same_plan = refl;
  same_invoice = refl;
  same_amount = refl;
  received = refl;
  nothing_left = refl;
  closed = refl;
}

-- A row that agrees with the credited invoice but for the time that it is due.
credit_invoice-IsCredited :
    (now amount : ℕ) (inv inv' : Invoice)
    → inv'.id ≡ inv.id
    → inv'.total_cents ≡ inv.total_cents
    → inv'.paid_cents ≡ inv.paid_cents + amount
    → inv'.status ≡ (credit_invoice now amount inv).status
    → IsCredited amount inv inv'
unfolding invoice_status_after_payment
credit_invoice-IsCredited now amount inv inv' i t p s = record {
  same_id = i;
  same_total = t;
  received = p;
  status = elim (Bool-cases (leb inv.total_cents (inv.paid_cents + amount))) [
    | inl full ↦ inl (ground arith, ground arith)
    | inr part ↦ elim (Bool-cases (ltb 0 (inv.paid_cents + amount))) [
      | inl some_paid ↦ inr (inl (ground arith, ground arith, ground arith))
      | inr none_paid ↦ inr (inr (ground arith, ground arith, ground arith))
    ]
  ];
}

-- The next installment that opens is never one that is paid.
advance_plan-paid :
    (plan_id number id : ℕ) (db : Db) {r : Installment}
    → is_scheduled r.status ≡ false
    → find_by installment_key id db.installments ≡ some r
    → find_by installment_key id (advance_plan plan_id number db).installments ≡ some r
unfolding advance_plan
advance_plan-paid plan_id number id db {r} settled_row found =
    let after =
      find_by-update_some installment_key
        (λ x. numbered plan_id (number + 1) x && is_scheduled x.status)
        (λ x. record x { status = InstallmentStatus.open_installment }) (λ x. refl) id
        db.installments {r = r} found in
    ground (arith, after)

advance_plan-invoices :
    (plan_id number : ℕ) (db : Db) → (advance_plan plan_id number db).invoices ≡ db.invoices
unfolding advance_plan
advance_plan-invoices plan_id number db = ground arith

module _ (loc : Location) (id : ℕ) (db : Db) where
  sync_invoice_due-installments : (sync_invoice_due loc id db).installments ≡ db.installments
  unfolding sync_invoice_due
  sync_invoice_due-installments = ground arith

  -- The due time alone may change.
  sync_invoice_due-paid :
      {r : Invoice}
      → find_by invoice_key id db.invoices ≡ some r
      → (r' : Invoice) × (find_by invoice_key id (sync_invoice_due loc id db).invoices ≡ some r')
        × (r'.paid_cents ≡ r.paid_cents)
        × (r'.status ≡ r.status)
        × (r'.total_cents ≡ r.total_cents)
        × (r'.id ≡ r.id)
  unfolding sync_invoice_due
  sync_invoice_due-paid {r} found =
      elim (Option-cases (next_unpaid_installment_due_date loc id db)) [
        | inl missing ↦ rw (missing, sync_invoice_due) (r, found, refl, refl, refl, refl)
        | inr (t, there) ↦
            let moved =
              find_by-update_by invoice_key id id (λ i. record i { due_at = t }) db.invoices
                (λ i. refl) in
            rw (there, sync_invoice_due)
              (record r { due_at = t }, ground (arith, moved, found), refl, refl, refl, refl)
      ]

module _ (loc : Location) (now id : ℕ) (db : Db) (inst : Installment) (inv : Invoice) where
  payment_runs :
      find_by installment_key id db.installments ≡ some inst
      → is_payable inst.status ≡ true
      → find_by invoice_key inst.invoice_id db.invoices ≡ some inv
      → apply_installment_payment_tx loc now id inst.remaining_cents db
        ≡ ok (tt, settled loc now id inst.remaining_cents inst inv db)
  unfolding apply_installment_payment_tx
  payment_runs found payable known = ground arith

  -- The tables after a payment, by whether the invoice is paid in full.
  settled_rows :
      {next : Db}
      → next
        ≡ advance_plan inst.payment_plan_id inst.installment_number
            (credited now id inst.remaining_cents inst inv db)
      → find_by installment_key id next.installments ≡ some (pay_installment inst)
      → find_by invoice_key inst.invoice_id next.invoices
        ≡ some (credit_invoice now inst.remaining_cents inv)
      → let db' = settled loc now id inst.remaining_cents inst inv db in
        ((inst' : Installment) × (find_by installment_key id db'.installments ≡ some inst')
          × IsPaidInFull inst inst')
        × ((inv' : Invoice) × (find_by invoice_key inst.invoice_id db'.invoices ≡ some inv')
            × IsCredited inst.remaining_cents inv inv')
  settled_rows {next} same paid funded =
      elim (Bool-cases (leb inv.total_cents (inv.paid_cents + inst.remaining_cents))) [
        | inl full ↦
            rw (full, sym same)
              (
                (pay_installment inst, paid, pay_installment-IsPaidInFull inst),
                (
                  credit_invoice now inst.remaining_cents inv,
                  funded,
                  credit_invoice-IsCredited now inst.remaining_cents inv
                      (credit_invoice now inst.remaining_cents inv) refl refl refl refl,
                ),
              )
        | inr part ↦
            let (r', there, p, st, t, kept_id) =
              sync_invoice_due-paid loc inst.invoice_id next
                {r = credit_invoice now inst.remaining_cents inv} funded in
            rw (part, sym same)
              (
                (
                  pay_installment inst,
                  rw (sync_invoice_due-installments loc inst.invoice_id next) paid,
                  pay_installment-IsPaidInFull inst,
                ),
                (
                  r',
                  there,
                  credit_invoice-IsCredited now inst.remaining_cents inv r' kept_id t p st,
                ),
              )
      ]

  -- An installment that is open or has an active Pix charge, and whose invoice is there, can be paid
  -- with exactly what remains of it: the payment succeeds, the installment is marked paid with all of
  -- its amount received and nothing left, and its invoice has received as much more and is marked paid
  -- when its total is reached, partially paid when a part of it is.
  pub apply_installment_payment_tx_lem :
      find_by installment_key id db.installments ≡ some inst
      → is_payable inst.status ≡ true
      → find_by invoice_key inst.invoice_id db.invoices ≡ some inv
      → (db' : Db) × (apply_installment_payment_tx loc now id inst.remaining_cents db
          ≡ ok (tt, db'))
        × ((inst' : Installment) × (find_by installment_key id db'.installments ≡ some inst')
            × IsPaidInFull inst inst')
        × ((inv' : Invoice) × (find_by invoice_key inst.invoice_id db'.invoices ≡ some inv')
            × IsCredited inst.remaining_cents inv inv')
  apply_installment_payment_tx_lem found payable known =
      let amount = inst.remaining_cents in
      let mid = credited now id amount inst inv db in
      let next = advance_plan inst.payment_plan_id inst.installment_number mid in
      let paid : find_by installment_key id mid.installments ≡ some (pay_installment inst) =
        ground (
          arith,
          found,
          find_by-update_by installment_key id id pay_installment db.installments (λ r. refl),
        ) in
      let kept =
        advance_plan-paid inst.payment_plan_id inst.installment_number id mid
          {r = pay_installment inst} refl paid in
      let funded : find_by invoice_key inst.invoice_id next.invoices
          ≡ some (credit_invoice now amount inv) =
        ground (
          arith,
          known,
          advance_plan-invoices inst.payment_plan_id inst.installment_number mid,
          find_by-update_by invoice_key inst.invoice_id inst.invoice_id (credit_invoice now amount)
              db.invoices (λ r. refl),
        ) in
      let (paid_up, counted) = settled_rows {next = next} refl kept funded in
      (_, payment_runs found payable known, paid_up, counted)
