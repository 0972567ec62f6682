-- ===== src/Payments/Charges.antt =====
-- Asking for a Pix charge again: `CreateOrReusePixCharge` and `CreateOrReusePixChargeForInstallment`
-- (backend/internal/payments/service.go).
use pontoqap.Store.Table.Keys.{find_by-key}
use pontoqap.Payments.{
  create_or_reuse_pix_charge_for_installment, is_installment, is_pending_charge, find_by, Gateway,
  select_last, create_or_reuse_pix_charge, is_live, is_none, insert_charge,
}
use pontoqap.Billing.Selection.{
  get_installment_for_customer, get_installment, invoice_requires_installment_pix,
}
use pontoqap.Billing.Settlement.{validate_installment_for_pix, mark_installment_pix_active}
use pontoqap.Store.Table.Keep.{find_by-update_some}
use pontoqap.Billing.Rows.{
  is_open_installment, installment_key, invoice_of_customer, plan_key, get_invoice, remaining_cents,
}
use pontoqap.Store.Schema.{InstallmentStatus, PaymentPlan, Charge, Invoice, Installment, Db}
use pontoqap.Store.Tx.{installment_not_payable, ok, err, Result-cases}
use pontoqap.Base.{
  ℕ, ◌≡◌, ◌≤◌, ◌<◌, Bool, true, false, some, none, List, [], ◌∷◌, ◌++◌, ◌==◌, ◌&&◌, leb, refl,
  arith, inl, inr, Option-cases, ◌⊎◌,
}
use pontoqap.Store.Table.{insert_row}

select_last-append :
    (p : Charge → Bool) (t : List Charge) (c : Charge)
    → p c ≡ true
    → select_last p (t ++ c ∷ []) ≡ some c
unfolding select_last
select_last-append p [] c e = ground arith
select_last-append p (x ∷ xs) c e = ground (arith, select_last-append p xs c e)

select_last-meets :
    (p : Charge → Bool) (t : List Charge) {c : Charge} → select_last p t ≡ some c → p c ≡ true
unfolding select_last
select_last-meets p [] e = ground arith
select_last-meets p (x ∷ xs) {c} e = elim (Option-cases (select_last p xs)) [
  | inl none_later ↦ ground arith
  | inr (later, found) ↦
      let same : select_last p xs ≡ some c = ground arith in select_last-meets p xs {c = c} same
]

select_last-none :
    (p q : Charge → Bool) (t : List Charge)
    → ((r : Charge) → q r ≡ true → p r ≡ true)
    → select_last p t ≡ none
    → select_last q t ≡ none
unfolding select_last
select_last-none p q [] imply e = refl
select_last-none p q (x ∷ xs) imply e = elim (Option-cases (select_last p xs)) [
  | inr (later, found) ↦ absurd (ground arith)
  | inl none_later ↦ ground (arith, imply x, select_last-none p q xs imply none_later)
]

-- A narrower test that still meets the last row found finds the same row.
select_last-narrow :
    (p q : Charge → Bool) (t : List Charge) (c : Charge)
    → ((r : Charge) → q r ≡ true → p r ≡ true)
    → q c ≡ true
    → select_last p t ≡ some c
    → select_last q t ≡ some c
unfolding select_last
select_last-narrow p q [] c imply hit e = ground arith
select_last-narrow p q (x ∷ xs) c imply hit e = elim (Option-cases (select_last p xs)) [
  | inl none_later ↦ let gone = select_last-none p q xs imply none_later in ground arith
  | inr (later, found) ↦
      let same : select_last p xs ≡ some c = ground arith in
      ground (arith, select_last-narrow p q xs c imply hit same)
]

-- The pending charges of a whole invoice that have not expired.
abbrev live_for : ℕ → ℕ → Charge → Bool
live_for invoice_id now c =
    c.invoice_id == invoice_id && (is_none c.installment_id && is_live now c)

owned_installment :
    (id customer_id : ℕ) (db : Db) {inst : Installment}
    → get_installment_for_customer id customer_id db ≡ some inst
    → (get_installment id db ≡ some inst)
      × ((inv : Invoice) × (invoice_of_customer inst.invoice_id customer_id db ≡ some inv))
unfolding get_installment_for_customer
owned_installment id customer_id db {inst} e = elim (Option-cases (get_installment id db)) [
  | inl missing ↦ absurd (ground arith)
  | inr (r, there) ↦ elim (Option-cases (invoice_of_customer r.invoice_id customer_id db)) [
    | inl other ↦ absurd (ground arith)
    | inr (inv, owned) ↦
        let same : r ≡ inst = ground arith in (ground arith, (inv, rw same at owned))
  ]
]

valid_installment :
    (id : ℕ) (db : Db) {inst : Installment}
    → get_installment id db ≡ some inst
    → validate_installment_for_pix id db ≡ ok tt
    → (is_open_installment inst.status ≡ true)
      × ((plan : PaymentPlan) × (find_by plan_key inst.payment_plan_id db.plans ≡ some plan))
unfolding validate_installment_for_pix
valid_installment id db {inst} known e =
    elim (Option-cases (find_by plan_key inst.payment_plan_id db.plans)) [
      | inl missing ↦ absurd (ground arith)
      | inr (plan, planned) ↦ (ground arith, (plan, planned))
    ]

module _ {Payload Signature : Type 0} (gateway : Gateway Payload Signature) where
  -- A charge that is found is given back.
  reuse_found :
      (new_id now invoice_id : ℕ) (db : Db) {c : Charge} {inv : Invoice}
      → invoice_requires_installment_pix invoice_id db ≡ false
      → get_invoice invoice_id db ≡ some inv
      → leb (remaining_cents inv) 0 ≡ false
      → select_last (live_for invoice_id now) db.charges ≡ some c
      → create_or_reuse_pix_charge gateway new_id now invoice_id db ≡ (ok c, db)
  unfolding create_or_reuse_pix_charge
  reuse_found new_id now invoice_id db r i l f = ground arith

  module _ (new_id now invoice_id : ℕ) (db : Db) {c : Charge} {db' : Db} where
    -- A charge that is given was found, or has just been stored.
    given_charge :
        create_or_reuse_pix_charge gateway new_id now invoice_id db ≡ (ok c, db')
        → ((select_last (live_for invoice_id now) db.charges ≡ some c) × (db' ≡ db))
          ⊎ ((c.invoice_id ≡ invoice_id)
              × (c.installment_id ≡ none)
              × (is_pending_charge c.status ≡ true)
              × (db' ≡ record db { charges = insert_row c db.charges }))
    unfolding create_or_reuse_pix_charge
    given_charge e = elim (Option-cases (get_invoice invoice_id db)) [
      | inl missing ↦ absurd (ground arith)
      | inr (inv, there) ↦ elim (Option-cases (select_last (live_for invoice_id now) db.charges)) [
        | inr (existing, found) ↦ inl (ground arith)
        | inl fresh ↦
            elim (Option-cases (gateway.create_pix_charge invoice_id (remaining_cents inv))) [
              | inl failed ↦ absurd (ground arith)
              | inr (res, created) ↦ inr (ground arith)
            ]
      ]
    ]

    given_invoice :
        create_or_reuse_pix_charge gateway new_id now invoice_id db ≡ (ok c, db')
        → (invoice_requires_installment_pix invoice_id db ≡ false)
          × ((inv : Invoice) × (get_invoice invoice_id db ≡ some inv)
              × (leb (remaining_cents inv) 0 ≡ false))
    unfolding create_or_reuse_pix_charge
    given_invoice e = elim (Option-cases (get_invoice invoice_id db)) [
      | inl missing ↦ absurd (ground arith)
      | inr (inv, there) ↦ (ground arith, (inv, there, ground arith))
    ]

  -- The charge that was given for an invoice is given again, and nothing changes, as long as it has
  -- not expired.
  pub create_or_reuse_pix_charge-again :
      (new_id new_id' now now' invoice_id : ℕ) (db : Db) {c : Charge} {db' : Db}
      → now ≤ now'
      → now' < c.expires_at
      → create_or_reuse_pix_charge gateway new_id now invoice_id db ≡ (ok c, db')
      → create_or_reuse_pix_charge gateway new_id' now' invoice_id db' ≡ (ok c, db')
  unfolding invoice_requires_installment_pix
  create_or_reuse_pix_charge-again new_id new_id' now now' invoice_id db {c} {db'} later live e =
      let (plain, (inv, there, left)) =
        given_invoice new_id now invoice_id db {c = c} {db' = db'} e in
      elim (given_charge new_id now invoice_id db {c = c} {db' = db'} e) [
        | inl (found, same) ↦
            let met = select_last-meets (live_for invoice_id now) db.charges {c = c} found in
            let again =
              select_last-narrow (live_for invoice_id now) (live_for invoice_id now') db.charges c
                (λ r hit. ground arith) (ground (arith, met)) found in
            rw same
              (reuse_found new_id' now' invoice_id db {c = c} {inv = inv} plain there left again)
        | inr (of_invoice, whole, pending, stored) ↦
            let again =
              select_last-append (live_for invoice_id now') db.charges c
                (ground (arith, of_invoice, whole, pending)) in
            rw stored
              (reuse_found new_id' now' invoice_id _ {c = c} {inv = inv} plain there left again)
      ]

  module _ (new_id now id customer_id : ℕ) (db : Db) where
    -- An installment that is not open gets no charge.
    refused_closed :
        {inst : Installment} {plan : PaymentPlan} {inv : Invoice}
        → get_installment id db ≡ some inst
        → invoice_of_customer inst.invoice_id customer_id db ≡ some inv
        → find_by plan_key inst.payment_plan_id db.plans ≡ some plan
        → is_open_installment inst.status ≡ false
        → create_or_reuse_pix_charge_for_installment gateway new_id now id customer_id db
          ≡ (err installment_not_payable, db)
    unfolding create_or_reuse_pix_charge_for_installment get_installment_for_customer
        validate_installment_for_pix
    refused_closed i v p closed = ground arith

    -- A new charge marks its installment.
    issued_charge :
        {c : Charge} {db' : Db}
        → select_last (λ r. is_installment id r.installment_id && is_live now r) db.charges ≡ none
        → create_or_reuse_pix_charge_for_installment gateway new_id now id customer_id db
          ≡ (ok c, db')
        → (validate_installment_for_pix id db ≡ ok tt)
          × ((inst : Installment) × (get_installment_for_customer id customer_id db ≡ some inst)
              × ((charges : List Charge) × (db'
                    ≡ mark_installment_pix_active id (record db { charges = charges }))))
    unfolding create_or_reuse_pix_charge_for_installment
    issued_charge {c} {db'} fresh e =
        elim (Option-cases (get_installment_for_customer id customer_id db)) [
          | inl missing ↦ absurd (ground arith)
          | inr (inst, there) ↦ elim (Result-cases (validate_installment_for_pix id db)) [
            | inl (wrong, failed) ↦ absurd (ground arith)
            | inr (u, valid) ↦ elim (Option-cases (get_invoice inst.invoice_id db)) [
              | inl missing ↦ absurd (ground arith)
              | inr (inv, known) ↦
                  elim (Option-cases
                    (gateway.create_pix_charge inst.invoice_id inst.remaining_cents)) [
                      | inl failed ↦ absurd (ground arith)
                      | inr (res, created) ↦ (
                        ground arith,
                        (
                          inst,
                          there,
                          (
                            (insert_charge new_id inst.invoice_id (some id) res db).charges,
                            ground arith,
                          ),
                        ),
                      )
                    ]
            ]
          ]
        ]

  -- When a charge is newly issued for an installment, where none was live, asking for it again right
  -- after, at any time and with any identifier, is refused as not payable and changes nothing.
  pub create_or_reuse_pix_charge_for_installment-refused :
      (new_id new_id' now now' id customer_id : ℕ) (db : Db) {c : Charge} {db' : Db}
      → select_last (λ r. is_installment id r.installment_id && is_live now r) db.charges ≡ none
      → create_or_reuse_pix_charge_for_installment gateway new_id now id customer_id db
        ≡ (ok c, db')
      → create_or_reuse_pix_charge_for_installment gateway new_id' now' id customer_id db'
        ≡ (err installment_not_payable, db')
  unfolding mark_installment_pix_active invoice_of_customer
  create_or_reuse_pix_charge_for_installment-refused new_id new_id' now now' id customer_id db {c}
        {db'} fresh e =
      let (valid, (inst, there, (charges, stored))) =
        issued_charge new_id now id customer_id db {c = c} {db' = db'} fresh e in
      let (known, (inv, owned)) = owned_installment id customer_id db {inst = inst} there in
      let (opened, (plan, planned)) = valid_installment id db {inst = inst} known valid in
      let marked =
        find_by-update_some installment_key (λ r. r.id == id && is_open_installment r.status)
          (λ r. record r { status = InstallmentStatus.pix_active }) (λ r. refl) id db.installments
          {r = inst} known in
      let same = find_by-key installment_key id db.installments {r = inst} known in
      let now_active : get_installment id
            (mark_installment_pix_active id (record db { charges = charges }))
          ≡ some (record inst { status = InstallmentStatus.pix_active }) =
        ground (arith, marked, same, opened) in
      rw stored (
        refused_closed new_id' now' id customer_id _
          {inst = record inst { status = InstallmentStatus.pix_active }} {plan = plan} {inv = inv}
          now_active owned planned refl)
