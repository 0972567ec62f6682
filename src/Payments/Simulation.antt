-- ===== src/Payments/Simulation.antt =====
-- Paying a charge in the sandbox (`SimulateSandboxPayment`, backend/internal/payments/service.go).
use pontoqap.Base.{ℕ, ◌≡◌, Bool, true, Option, some, none, refl, arith}
use pontoqap.Base.Int.{pos}
use pontoqap.Store.Schema.{Installment, Invoice, Charge, Db}
use pontoqap.Store.Tx.{ok}
use pontoqap.Store.Table.Keys.{find_by}
use pontoqap.Billing.Dates.{Location}
use pontoqap.Billing.Rows.{installment_key, invoice_key, is_payable}
use pontoqap.Billing.Settlement.Progress.{IsPaidInFull, IsCredited}
use pontoqap.Payments.{
  WebhookEvent, WebhookIds, sandbox, simulate_sandbox_payment, is_amount, charge_external,
  charge_key, event_external,
}
use pontoqap.Payments.Settling.{process_webhook-pays}

same_amount : (n : ℕ) → is_amount (pos n) n ≡ true
same_amount n = ground arith

module _ (loc : Location) {Payload Signature : Type 0} (sign_payload : Payload → Signature)
    (equal : Signature → Signature → Bool) (decode : Payload → Option WebhookEvent)
    (marshal : WebhookEvent → Payload) where
  -- Where the decoder reads what the encoder writes and a signature equals itself: simulating the
  -- payment of a charge that alone has its external identifier, for an installment that can be paid, of
  -- which the charge's amount remains and whose invoice is there, is accepted under an event that is
  -- new. The installment is then marked paid with all of its amount received and nothing left, and its
  -- invoice has received the amount and the status that calls for.
  simulate_sandbox_payment-pays :
      (new_external_id t : ℕ) (ids : WebhookIds) (now new_event charge_id : ℕ) (db : Db)
      (c : Charge) (id : ℕ) (inst : Installment) (inv : Invoice)
      → ((ev : WebhookEvent) → decode (marshal ev) ≡ some ev)
      → ((s : Signature) → equal s s ≡ true)
      → find_by charge_key charge_id db.charges ≡ some c
      → find_by charge_external c.external_id db.charges ≡ some c
      → find_by event_external new_event db.events ≡ none
      → c.installment_id ≡ some id
      → find_by installment_key id db.installments ≡ some inst
      → is_payable inst.status ≡ true
      → c.amount_cents ≡ inst.remaining_cents
      → find_by invoice_key inst.invoice_id db.invoices ≡ some inv
      → (db' : Db) × (simulate_sandbox_payment loc
            (sandbox sign_payload equal decode new_external_id t)
            marshal
            sign_payload
            ids
            now
            new_event
            charge_id
            db
          ≡ (ok tt, db'))
        × ((inst' : Installment) × (find_by installment_key id db'.installments ≡ some inst')
            × IsPaidInFull inst inst')
        × ((inv' : Invoice) × (find_by invoice_key inst.invoice_id db'.invoices ≡ some inv')
            × IsCredited c.amount_cents inv inv')
  unfolding simulate_sandbox_payment sandbox
  simulate_sandbox_payment-pays new_external_id t ids now new_event charge_id db c id inst inv
        decoded reflexive there alone new part found payable exact known =
      let ev : WebhookEvent = record {
        event_id = new_event;
        confirmed = true;
        payment_id = c.external_id;
        amount_cents = pos c.amount_cents;
      } in
      let (db', done, paid, credited) =
        process_webhook-pays loc (sandbox sign_payload equal decode new_external_id t) ids now
          (marshal ev) (sign_payload (marshal ev)) db ev c id inst inv
          (reflexive (sign_payload (marshal ev))) (decoded ev) refl new alone
          (same_amount c.amount_cents) part found payable exact known in
      (db', ground (arith, there, done), paid, credited)
