-- ===== src/Payments/Settling.antt =====
-- The webhook that pays an installment (`ProcessWebhook`, backend/internal/payments/service.go).
use pontoqap.Base.{ℕ, ◌≡◌, true, false, some, none, arith, sym}
use mathlib.Core.Path.{subst}
use pontoqap.Store.Schema.{Installment, Invoice, Charge, ChargeStatus, PaymentEvent, Db}
use pontoqap.Store.Tx.{ok, run_tx}
use pontoqap.Store.Table.{insert_row}
use pontoqap.Store.Table.Keys.{find_by, update_by}
use pontoqap.Billing.Dates.{Location}
use pontoqap.Billing.Rows.{installment_key, invoice_key, is_payable}
use pontoqap.Billing.Settlement.{apply_installment_payment_tx}
use pontoqap.Billing.Settlement.Progress.{
  IsPaidInFull, IsCredited, apply_installment_payment_tx_lem,
}
use pontoqap.Payments.{
  Gateway, WebhookEvent, WebhookIds, process_webhook, process_event, settle_charge, settle_target,
  is_amount, charge_external, charge_key, event_external,
}

-- The tables when the payment reaches billing: the event, the payment and the charge are written.
abbrev announced : WebhookIds → WebhookEvent → Charge → Db → Db
announced ids ev c db = record db {
  events =
      insert_row
        (record {
          id = ids.event_row;
          external_event_id = ev.event_id;
          processed = false;
          error_message = false;
        })
        db.events;
  payments =
      insert_row
        (record {
          id = ids.payment_row;
          invoice_id = c.invoice_id;
          installment_id = c.installment_id;
          payment_charge_id = c.id;
          amount_cents = c.amount_cents;
        })
        db.payments;
  charges =
      update_by charge_key c.id (λ r. record r { status = ChargeStatus.paid_charge }) db.charges;
}

-- The tables once the event is marked as processed.
abbrev finished : WebhookIds → Db → Db
finished ids db = record db {
  events =
      update_by (λ (e : PaymentEvent). e.id) ids.event_row (λ e. record e { processed = true })
        db.events;
}

module _ (loc : Location) (ids : WebhookIds) (now : ℕ) (ev : WebhookEvent) (db : Db) (c : Charge)
    (id : ℕ) where
  event_settles :
      find_by event_external ev.event_id db.events ≡ none
      → find_by charge_external ev.payment_id db.charges ≡ some c
      → is_amount ev.amount_cents c.amount_cents ≡ true
      → c.installment_id ≡ some id
      → {amount : ℕ} {db' : Db} → c.amount_cents ≡ amount
      → apply_installment_payment_tx loc now id amount (announced ids ev c db) ≡ ok (tt, db')
      → process_event loc ids now ev db ≡ ok (tt, finished ids db')
  unfolding process_event settle_charge settle_target
  event_settles fresh charged same part exact done = ground arith

module _ (loc : Location) {Payload Signature : Type 0} (gateway : Gateway Payload Signature)
    (ids : WebhookIds) (now : ℕ) (payload : Payload) (signature : Signature) (db : Db) where
  -- A signed confirmation that comes for the first time, of the amount of a charge for an installment
  -- that can be paid, of which that much remains and whose invoice is there, is accepted: the
  -- installment is marked paid with all of its amount received and nothing left, and its invoice has
  -- received the amount and is marked paid when its total is reached, partially paid when a part is.
  pub process_webhook-pays :
      (ev : WebhookEvent) (c : Charge) (id : ℕ) (inst : Installment) (inv : Invoice)
      → gateway.verify_webhook_signature payload signature ≡ true
      → gateway.parse_webhook_event payload ≡ some ev
      → ev.confirmed ≡ true
      → find_by event_external ev.event_id db.events ≡ none
      → find_by charge_external ev.payment_id db.charges ≡ some c
      → is_amount ev.amount_cents c.amount_cents ≡ true
      → c.installment_id ≡ some id
      → find_by installment_key id db.installments ≡ some inst
      → is_payable inst.status ≡ true
      → c.amount_cents ≡ inst.remaining_cents
      → find_by invoice_key inst.invoice_id db.invoices ≡ some inv
      → (db' : Db) × (process_webhook loc gateway ids now payload signature db ≡ (ok tt, db'))
        × ((inst' : Installment) × (find_by installment_key id db'.installments ≡ some inst')
            × IsPaidInFull inst inst')
        × ((inv' : Invoice) × (find_by invoice_key inst.invoice_id db'.invoices ≡ some inv')
            × IsCredited c.amount_cents inv inv')
  unfolding process_webhook run_tx
  process_webhook-pays ev c id inst inv signed parsed confirmed fresh charged same part found
        payable exact known =
      let (db', done, paid, (inv', there, received)) =
        apply_installment_payment_tx_lem loc now id (announced ids ev c db) inst inv found payable
          known in
      let settled =
        event_settles loc ids now ev db c id fresh charged same part {amount = inst.remaining_cents}
          {db' = db'} exact done in
      (
        finished ids db',
        ground (arith, settled),
        paid,
        (inv', there, subst (λ n. IsCredited n inv inv') (sym exact) received),
      )
