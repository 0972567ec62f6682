-- ===== src/Payments.antt =====
-- Pix charges and the gateway's webhook: backend/internal/payments (service.go, gateway.go,
-- sandbox.go).
pub mod Charges
pub mod Webhook
pub mod Settling
pub mod Simulation
use pontoqap.Base.{
  ℕ, zero, suc, ◌+◌, ◌-◌, Bool, true, false, ◌&&◌, ◌||◌, not, Option, none, some, List, [], ◌∷◌,
  ◌==◌, ltb, leb, if◌then◌else◌,
}
use pontoqap.Base.Int.{ℤ, pos, negsuc}
use pontoqap.Store.Table.{select_first, update_where, insert_row}
use pontoqap.Store.Table.Keys.{find_by, update_by}
use pontoqap.Store.Schema.{
  Customer, Invoice, InvoiceStatus, Charge, ChargeStatus, PaymentEvent, Payment, Installment, Db,
}
use pontoqap.Store.Tx.{
  Tx, Result, ok, err, pure, throw, throw_if, gets, modify, or_throw, ◌>>=◌, ◌>>◌, run_tx, no_rows,
  select_plan_first, invoice_not_found, invoice_settled, gateway_failed, installment_not_found,
  invalid_signature, invalid_payload, amount_mismatch,
}
use pontoqap.Billing.Dates.{Location}
use pontoqap.Billing.Rows.{invoice_key, customer_key, get_invoice, remaining_cents}
use pontoqap.Billing.Selection.{invoice_requires_installment_pix, get_installment_for_customer}
use pontoqap.Billing.Settlement.{
  validate_installment_for_pix, mark_installment_pix_active, apply_installment_payment_tx,
  lower_exposure,
}
use pontoqap.Billing.Adjustments.{is_pending_charge}

-- What a webhook says; `confirmed` is the type "payment.confirmed".
pub record WebhookEvent : Type 0 where
  pub event_id : ℕ
  pub confirmed : Bool
  pub payment_id : ℕ
  pub amount_cents : ℤ

-- `ChargeResult`.
pub record ChargeResult : Type 0 where
  pub external_id : ℕ
  pub amount_cents : ℕ
  pub expires_at : ℕ

-- `Gateway`, over the payloads and signatures that reach it.
pub record Gateway (Payload Signature : Type 0) : Type 0 where
  pub create_pix_charge : ℕ → ℕ → Option ChargeResult
  pub verify_webhook_signature : Payload → Signature → Bool
  pub parse_webhook_event : Payload → Option WebhookEvent

-- `SandboxGateway`: a charge over the amount asked for that lasts a day, signatures that are the
-- keyed hash of the payload, and the JSON of the event. The hash, the comparison and the decoder are
-- those of Go's library; `new_external_id` is the identifier drawn, and `now` the time of the call.
unfoldable pub sandbox :
    {Payload Signature : Type 0}
    → (Payload → Signature)
    → (Signature → Signature → Bool)
    → (Payload → Option WebhookEvent)
    → ℕ
    → ℕ
    → Gateway Payload Signature
sandbox sign equal decode new_external_id now = record {
  create_pix_charge = λ invoice_id amount.
      some
        (record { external_id = new_external_id; amount_cents = amount; expires_at = now + 86400 });
  verify_webhook_signature = λ payload signature. equal (sign payload) signature;
  parse_webhook_event = decode;
}

abbrev pub charge_external : Charge → ℕ
charge_external c = c.external_id

abbrev pub charge_key : Charge → ℕ
charge_key c = c.id

abbrev pub is_installment : ℕ → Option ℕ → Bool
is_installment id none = false
is_installment id (some j) = j == id

abbrev pub is_none : Option ℕ → Bool
is_none none = true
is_none (some _) = false

-- A pending charge that has not expired.
abbrev pub is_live : ℕ → Charge → Bool
is_live now c = is_pending_charge c.status && ltb now c.expires_at

-- `ORDER BY created_at DESC LIMIT 1`: the last row inserted.
unfoldable pub select_last : (Charge → Bool) → List Charge → Option Charge
select_last p [] = none
select_last p (c ∷ cs) =
    let later = select_last p cs in
    elim later [ some r ↦ some r | none ↦ if p c then some c else none ]

-- `INSERT INTO payment_charges`.
abbrev pub insert_charge : ℕ → ℕ → Option ℕ → ChargeResult → Db → Db
insert_charge new_id invoice_id installment_id res db = record db {
  charges =
      insert_row
        (record {
          id = new_id;
          invoice_id = invoice_id;
          installment_id = installment_id;
          external_id = res.external_id;
          status = ChargeStatus.pending;
          amount_cents = res.amount_cents;
          expires_at = res.expires_at;
        })
        db.charges;
}

-- The charge with this identifier, just inserted, as the caller is given it.
abbrev pub new_charge : ℕ → ℕ → Option ℕ → ChargeResult → Charge
new_charge new_id invoice_id installment_id res = record {
  id = new_id;
  invoice_id = invoice_id;
  installment_id = installment_id;
  external_id = res.external_id;
  status = ChargeStatus.pending;
  amount_cents = res.amount_cents;
  expires_at = res.expires_at;
}

-- A signed amount equal to an amount of the store's.
abbrev pub is_amount : ℤ → ℕ → Bool
is_amount (pos n) m = n == m
is_amount (negsuc _) m = false

-- The events already received: `ON CONFLICT (provider, external_event_id) DO NOTHING`.
abbrev pub event_external : PaymentEvent → ℕ
event_external e = e.external_event_id

module _ {Payload Signature : Type 0} (gateway : Gateway Payload Signature) where
  -- `CreateOrReusePixCharge`.
  unfoldable pub create_or_reuse_pix_charge : ℕ → ℕ → ℕ → Db → Result Charge × Db
  create_or_reuse_pix_charge new_id now invoice_id db =
      if invoice_requires_installment_pix invoice_id db
      then (err select_plan_first, db)
      else elim (get_invoice invoice_id db) [
        | none ↦ (err invoice_not_found, db)
        | some inv ↦
            if leb (remaining_cents inv) 0
            then (err invoice_settled, db)
            else elim (select_last
                (λ c. c.invoice_id == invoice_id && (is_none c.installment_id && is_live now c))
                db.charges) [
                  | some existing ↦ (ok existing, db)
                  | none ↦ elim (gateway.create_pix_charge invoice_id (remaining_cents inv)) [
                    | none ↦ (err gateway_failed, db)
                    | some res ↦ (
                      ok (new_charge new_id invoice_id none res),
                      insert_charge new_id invoice_id none res db,
                    )
                  ]
                ]
      ]

  -- `CreateOrReusePixChargeForInstallment`.
  unfoldable pub create_or_reuse_pix_charge_for_installment :
      ℕ → ℕ → ℕ → ℕ → Db → Result Charge × Db
  create_or_reuse_pix_charge_for_installment new_id now installment_id customer_id db =
      elim (get_installment_for_customer installment_id customer_id db) [
        | none ↦ (err installment_not_found, db)
        | some inst ↦ elim (validate_installment_for_pix installment_id db) [
          | err e ↦ (err e, db)
          | ok _ ↦ elim (get_invoice inst.invoice_id db) [
            | none ↦ (err invoice_not_found, db)
            | some inv ↦
                if leb (remaining_cents inv) 0
                then (err invoice_settled, db)
                else elim (select_last
                    (λ c. is_installment installment_id c.installment_id && is_live now c)
                    db.charges) [
                      | some existing ↦ (ok existing, db)
                      | none ↦
                          elim (gateway.create_pix_charge inst.invoice_id inst.remaining_cents) [
                            | none ↦ (err gateway_failed, db)
                            | some res ↦ (
                              ok (new_charge new_id inst.invoice_id (some installment_id) res),
                              mark_installment_pix_active installment_id (
                                  insert_charge new_id inst.invoice_id (some installment_id) res
                                    db),
                            )
                          ]
                    ]
          ]
        ]
      ]

-- The payment of a whole invoice in `ProcessWebhook`.
unfoldable pub settle_invoice : ℕ → ℕ → ℕ → Db → Db
settle_invoice now invoice_id amount db =
    let invoices =
      update_by invoice_key invoice_id
        (λ i. record i {
          paid_cents = i.paid_cents + amount;
          status =
              if leb i.total_cents (i.paid_cents + amount)
              then InvoiceStatus.paid_invoice
              else i.status;
          paid_at = if leb i.total_cents (i.paid_cents + amount) then some now else i.paid_at;
        })
        db.invoices in
    elim (get_invoice invoice_id db) [
      | none ↦ record db { invoices = invoices }
      | some inv ↦ record db {
        invoices = invoices;
        customers = update_by customer_key inv.customer_id (lower_exposure amount) db.customers;
      }
    ]

-- The identifiers of the rows that a webhook may insert.
pub record WebhookIds : Type 0 where
  pub event_row : ℕ
  pub payment_row : ℕ

-- The note of a mismatch, which the error after it undoes.
abbrev pub note_mismatch : ℕ → Db → Db
note_mismatch event_row db = record db {
  events =
      update_by (λ (e : PaymentEvent). e.id) event_row
        (λ e. record e { error_message = true; processed = true }) db.events;
}

module _ (loc : Location) where
  -- What a charge pays: an installment, or an invoice.
  unfoldable pub settle_target : ℕ → Option ℕ → ℕ → ℕ → Tx Db (Unit {0})
  settle_target now (some installment_id) invoice_id amount =
      apply_installment_payment_tx loc now installment_id amount
  settle_target now none invoice_id amount = modify (settle_invoice now invoice_id amount)

  -- The body of `ProcessWebhook` after the event is recorded: the charge, the payment and the
  -- installment or invoice that it settles.
  unfoldable pub settle_charge : WebhookIds → ℕ → WebhookEvent → Tx Db (Unit {0})
  unfolding settle_target
  settle_charge ids now ev = do
    charge ← (λ (db : Db). or_throw (find_by charge_external ev.payment_id db.charges) no_rows db)
    (if is_amount ev.amount_cents charge.amount_cents
        then pure tt
        else (modify (note_mismatch ids.event_row) >> throw amount_mismatch))
    modify λ db. record db {
      payments =
          insert_row
            (record {
              id = ids.payment_row;
              invoice_id = charge.invoice_id;
              installment_id = charge.installment_id;
              payment_charge_id = charge.id;
              amount_cents = charge.amount_cents;
            })
            db.payments;
    }
    modify λ db. record db {
      charges =
          update_by charge_key charge.id (λ c. record c { status = ChargeStatus.paid_charge })
            db.charges;
    }
    settle_target now charge.installment_id charge.invoice_id charge.amount_cents
    modify λ db. record db {
      events =
          update_by (λ (e : PaymentEvent). e.id) ids.event_row (λ e. record e { processed = true })
            db.events;
    }

  -- The transaction of `ProcessWebhook`. The note of a mismatched amount is written in this
  -- transaction as well, and is undone with it.
  unfoldable pub process_event : WebhookIds → ℕ → WebhookEvent → Tx Db (Unit {0})
  unfolding settle_charge
  process_event ids now ev db = elim (find_by event_external ev.event_id db.events) [
    | some _ ↦ ok (tt, db)
    | none ↦ settle_charge ids now ev (record db {
      events =
          insert_row
            (record {
              id = ids.event_row;
              external_event_id = ev.event_id;
              processed = false;
              error_message = false;
            })
            db.events;
    })
  ]

  -- `ProcessWebhook`.
  unfoldable pub process_webhook :
      {Payload Signature : Type 0}
      → Gateway Payload Signature
      → WebhookIds
      → ℕ
      → Payload
      → Signature
      → Db
      → Result (Unit {0}) × Db
  unfolding process_event
  process_webhook gateway ids now payload signature db =
      if not (gateway.verify_webhook_signature payload signature)
      then (err invalid_signature, db)
      else elim (gateway.parse_webhook_event payload) [
        | none ↦ (err invalid_payload, db)
        | some ev ↦ if ev.confirmed then run_tx (process_event ids now ev) db else (ok tt, db)
      ]

  -- `SimulateSandboxPayment`: the confirmation that a charge calls for, under a new event, with the
  -- JSON encoder and the keyed hash given.
  unfoldable pub simulate_sandbox_payment :
      {Payload Signature : Type 0}
      → Gateway Payload Signature
      → (WebhookEvent → Payload)
      → (Payload → Signature)
      → WebhookIds
      → ℕ
      → ℕ
      → ℕ
      → Db
      → Result (Unit {0}) × Db
  unfolding process_webhook
  simulate_sandbox_payment gateway marshal sign_payload ids now new_event charge_id db =
      elim (find_by charge_key charge_id db.charges) [
        | none ↦ (err no_rows, db)
        | some c ↦
            let body = marshal (record {
              event_id = new_event;
              confirmed = true;
              payment_id = c.external_id;
              amount_cents = pos c.amount_cents;
            }) in
            process_webhook gateway ids now body (sign_payload body) db
      ]
