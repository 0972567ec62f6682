-- ===== src/Tests/Pix.antt =====
-- Charges and webhooks at concrete payloads: a payload is its event, and a signature is right or not.
use pontoqap.Billing.Rows.{invoice_of_customer, remaining_cents, installment_key, invoice_key}
use pontoqap.Billing.Selection.{get_installment_for_customer, invoice_requires_installment_pix}
use pontoqap.Billing.Settlement.{validate_installment_for_pix, apply_installment_payment_tx}
use pontoqap.Base.{ℕ, ◌≡◌, refl, none, some, true, arith, [], ◌∷◌, Bool}
use pontoqap.Base.Int.{pos}
use pontoqap.Store.Schema.{Installment, InstallmentStatus, Invoice, Db, Charge, ChargeStatus}
use pontoqap.Store.Tx.{run_tx, ok, err, installment_not_payable}
use pontoqap.Store.Table.{select_first}
use pontoqap.Payments.{
  Gateway, WebhookEvent, WebhookIds, sandbox, process_webhook, create_or_reuse_pix_charge,
  create_or_reuse_pix_charge_for_installment, select_last,
}
use pontoqap.Payments.Webhook.{process_webhook-again}
use pontoqap.Billing.Settlement.Progress.{IsPaidInFull, IsCredited}
use pontoqap.Payments.Charges.{
  create_or_reuse_pix_charge-again, create_or_reuse_pix_charge_for_installment-refused,
}
use pontoqap.Store.Table.Keys.{find_by}
use pontoqap.Payments.Settling.{process_webhook-pays}
use pontoqap.Tests.Data.{installment, local_zone, billed, split_in_two, invoice}

abbrev gateway : Gateway WebhookEvent Bool
unfolding sandbox
gateway = sandbox (λ p. true) (λ a b. b) (λ p. some p) 700 1000

abbrev ids : WebhookIds
ids = record { event_row = 71; payment_row = 72 }

abbrev later_ids : WebhookIds
later_ids = record { event_row = 73; payment_row = 74 }

abbrev charge : Charge
charge = record {
  id = 60;
  invoice_id = 3;
  installment_id = some 21;
  external_id = 61;
  status = ChargeStatus.pending;
  amount_cents = 500;
  expires_at = 90000;
}

-- An installment whose charge waits for its payment.
abbrev waiting : Db
waiting = record split_in_two { charges = charge ∷ [] }

abbrev confirmation : ℕ → WebhookEvent
confirmation amount = record {
  event_id = 62;
  confirmed = true;
  payment_id = 61;
  amount_cents = pos amount;
}

abbrev confirmed : Db
confirmed = (process_webhook local_zone gateway ids 2000 (confirmation 500) true waiting).1

webhook_runs :
    process_webhook local_zone gateway ids 2000 (confirmation 500) true waiting ≡ (ok tt, confirmed)
unfolding process_webhook gateway run_tx select_first apply_installment_payment_tx
webhook_runs = refl

process_webhook-again_example :
    process_webhook local_zone gateway later_ids 3000 (confirmation 500) true confirmed
    ≡ (ok tt, confirmed)
process_webhook-again_example =
    process_webhook-again local_zone gateway (confirmation 500) true ids later_ids 2000 3000 waiting
      webhook_runs

-- An invoice without a plan, charged as a whole.
abbrev whole : Db
whole = record billed { plans = [] }

abbrev whole_charge : Charge
whole_charge = record {
  id = 75;
  invoice_id = 3;
  installment_id = none;
  external_id = 700;
  status = ChargeStatus.pending;
  amount_cents = 1000;
  expires_at = 87400;
}

abbrev charged : Db
charged = record whole { charges = whole_charge ∷ [] }

charge_runs : create_or_reuse_pix_charge gateway 75 1000 3 whole ≡ (ok whole_charge, charged)
unfolding create_or_reuse_pix_charge invoice_requires_installment_pix select_first remaining_cents
    select_last gateway
charge_runs = refl

create_or_reuse_pix_charge-again_example :
    create_or_reuse_pix_charge gateway 76 2000 3 charged ≡ (ok whole_charge, charged)
create_or_reuse_pix_charge-again_example =
    create_or_reuse_pix_charge-again gateway 75 76 1000 2000 3 whole (omega arith) (omega arith)
      charge_runs

abbrev part_charge : Charge
part_charge = record {
  id = 75;
  invoice_id = 3;
  installment_id = some 21;
  external_id = 700;
  status = ChargeStatus.pending;
  amount_cents = 500;
  expires_at = 87400;
}

abbrev part_charged : Db
part_charged = (create_or_reuse_pix_charge_for_installment gateway 75 1000 21 9 split_in_two).1

part_runs :
    create_or_reuse_pix_charge_for_installment gateway 75 1000 21 9 split_in_two
    ≡ (ok part_charge, part_charged)
unfolding create_or_reuse_pix_charge_for_installment get_installment_for_customer select_first
    invoice_of_customer validate_installment_for_pix remaining_cents select_last gateway
part_runs = refl

create_or_reuse_pix_charge_for_installment-refused_example :
    create_or_reuse_pix_charge_for_installment gateway 76 2000 21 9 part_charged
    ≡ (err installment_not_payable, part_charged)
unfolding select_last
create_or_reuse_pix_charge_for_installment-refused_example =
    create_or_reuse_pix_charge_for_installment-refused gateway 75 76 1000 2000 21 9 split_in_two
      refl part_runs

process_webhook-pays_example :
    (db' : Db) × (process_webhook local_zone gateway ids 2000 (confirmation 500) true waiting
      ≡ (ok tt, db'))
    × ((inst' : Installment) × (find_by installment_key 21 db'.installments ≡ some inst')
        × IsPaidInFull (installment 21 1 InstallmentStatus.open_installment) inst')
    × ((inv' : Invoice) × (find_by invoice_key 3 db'.invoices ≡ some inv')
        × IsCredited 500 (invoice 0) inv')
unfolding select_first gateway
process_webhook-pays_example =
    process_webhook-pays local_zone gateway ids 2000 (confirmation 500) true waiting
      (confirmation 500) charge 21 (installment 21 1 InstallmentStatus.open_installment) (invoice 0)
      refl refl refl refl refl refl refl refl refl refl refl
