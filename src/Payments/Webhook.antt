-- ===== src/Payments/Webhook.antt =====
-- `ProcessWebhook` (backend/internal/payments/service.go): events that are sent twice.
use pontoqap.Payments.{
  Gateway, WebhookEvent, WebhookIds, process_webhook, process_event, settle_charge, settle_target,
  event_external, settle_invoice, insert_row,
}
use pontoqap.Base.{
  ℕ, ◌≡◌, true, false, Option, some, none, arith, Option-cases, inl, inr, Bool-cases, ◌==◌,
  if◌then◌else◌, refl,
}
use pontoqap.Store.Tx.{ok, run_tx}
use pontoqap.Store.Schema.{Db, PaymentEvent}
use pontoqap.Store.Table.Keys.{find_by, update_by, find_by-insert}
use pontoqap.Store.Table.Keep.{find_by-update_some}
use pontoqap.Billing.Dates.{Location}
use pontoqap.Billing.Settlement.{sync_invoice_due, advance_plan}
use pontoqap.Billing.Settlement.Payment.{apply-Settles, credited}

sync_invoice_due-events :
    (loc : Location) (invoice_id : ℕ) (db : Db)
    → (sync_invoice_due loc invoice_id db).events ≡ db.events
unfolding sync_invoice_due
sync_invoice_due-events loc invoice_id db = ground arith

advance_plan-events :
    (plan_id number : ℕ) (db : Db) → (advance_plan plan_id number db).events ≡ db.events
unfolding advance_plan
advance_plan-events plan_id number db = ground arith

-- Marks the record of the event as processed.
abbrev mark_processed : PaymentEvent → PaymentEvent
mark_processed e = record e { processed = true }

-- The record of an event that has just come.
abbrev new_event : WebhookIds → WebhookEvent → PaymentEvent
new_event ids ev = record {
  id = ids.event_row;
  external_event_id = ev.event_id;
  processed = false;
  error_message = false;
}

module _ (loc : Location) (now : ℕ) where
  settle_target-events :
      (target : Option ℕ) (invoice_id amount : ℕ) (db : Db) {db' : Db}
      → settle_target loc now target invoice_id amount db ≡ ok (tt, db')
      → db'.events ≡ db.events
  unfolding settle_target settle_invoice
  settle_target-events none invoice_id amount db e = ground arith
  settle_target-events (some id) invoice_id amount db {db'} e =
      let s = apply-Settles loc now id amount db {db' = db'} e in
      ground (
        arith,
        s.tables,
        sync_invoice_due-events loc s.inst.invoice_id (
            advance_plan s.inst.payment_plan_id s.inst.installment_number
              (credited now id amount s.inst s.inv db)),
        advance_plan-events s.inst.payment_plan_id s.inst.installment_number
            (credited now id amount s.inst s.inv db),
      )

  settle_charge-events :
      (ids : WebhookIds) (ev : WebhookEvent) (db : Db) {db' : Db}
      → settle_charge loc ids now ev db ≡ ok (tt, db')
      → db'.events ≡ update_by (λ (e : PaymentEvent). e.id) ids.event_row mark_processed db.events
  unfolding settle_charge
  settle_charge-events ids ev db {db'} e = grind (arith, settle_target-events)

  process_event-known :
      (ids : WebhookIds) (ev : WebhookEvent) (db : Db) {r : PaymentEvent}
      → find_by event_external ev.event_id db.events ≡ some r
      → process_event loc ids now ev db ≡ ok (tt, db)
  unfolding process_event
  process_event-known ids ev db known = ground arith

  -- An event that was processed is on record.
  process_event-recorded :
      (ids : WebhookIds) (ev : WebhookEvent) (db : Db) {db' : Db}
      → process_event loc ids now ev db ≡ ok (tt, db')
      → (r : PaymentEvent) × (find_by event_external ev.event_id db'.events ≡ some r)
  unfolding process_event
  process_event-recorded ids ev db {db'} e =
      elim (Option-cases (find_by event_external ev.event_id db.events)) [
        | inr (r, known) ↦ (r, ground arith)
        | inl fresh ↦
            let row = new_event ids ev in
            let recorded = record db { events = insert_row row db.events } in
            let written = settle_charge-events ids ev recorded {db' = db'} (ground arith) in
            let found : find_by event_external ev.event_id recorded.events ≡ some row =
              ground (arith, find_by-insert event_external ev.event_id row db.events) in
            (
              if row.id == ids.event_row then mark_processed row else row,
              rw written (
                  find_by-update_some event_external (λ r. r.id == ids.event_row) mark_processed
                    (λ r. refl) ev.event_id recorded.events {r = row} found),
            )
      ]

module _ (loc : Location) {Payload Signature : Type 0} (gateway : Gateway Payload Signature)
    (payload : Payload) (signature : Signature) where
  -- A webhook that was accepted and comes again, at any time and with any identifiers at hand, is
  -- accepted again and changes nothing.
  pub process_webhook-again :
      (ids ids' : WebhookIds) (now now' : ℕ) (db : Db) {db' : Db}
      → process_webhook loc gateway ids now payload signature db ≡ (ok tt, db')
      → process_webhook loc gateway ids' now' payload signature db' ≡ (ok tt, db')
  unfolding process_webhook run_tx
  process_webhook-again ids ids' now now' db {db'} e =
      elim (Option-cases (gateway.parse_webhook_event payload)) [
        | inl bad ↦ absurd (ground arith)
        | inr (ev, parsed) ↦ elim (Bool-cases ev.confirmed) [
          | inr other ↦ ground arith
          | inl confirmed ↦
              let (r, known) =
                process_event-recorded loc now ids ev db {db' = db'} (ground arith) in
              ground (arith, process_event-known loc now' ids' ev db' {r = r} known)
        ]
      ]
