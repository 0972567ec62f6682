-- ===== src/Billing/Settlement/Books.antt =====
-- The books of the installments: what a plan has received is what its installments have. Kept by the
-- steps of a payment, by `MarkInstallmentPixActive` and by `MarkOverdueInstallments` (payment_plan.go).
use pontoqap.Store.Table.Sums.{sum_where-update_same}
use pontoqap.Store.Table.Rows.{All-update_where}
use pontoqap.Billing.Settlement.{
  advance_plan, mark_installment_pix_active, mark_overdue_installments, falls_overdue, count_where,
  InstallmentStatus, outstanding_of, PlanStatus, numbered,
}
use pontoqap.Store.Table.Keep.{update_where-IsUnique, find_by-update_where}
use pontoqap.Base.{
  ℕ, ◌+◌, ◌≡◌, Bool, true, false, some, List, ◌==◌, All, sym, arith, ◌∙◌, Bool-cases, inl, inr,
  ◌&&◌, refl,
}
use pontoqap.Store.Table.{sum_where, update_where}
use pontoqap.Store.Table.Keys.{find_by, IsUnique}
use pontoqap.Store.Schema.{Installment, PaymentPlan, Db}
use pontoqap.Billing.Rows.{
  plan_key, installment_key, is_paid_installment, is_scheduled, is_open_installment,
}

-- An installment's columns agree: what is paid and what remains make the amount, and only a paid
-- installment has received anything.
pub record IsBalanced (r : Installment) : Type 0 where
  pub parts : r.paid_cents + r.remaining_cents ≡ r.amount_cents
  pub unpaid : is_paid_installment r.status ≡ false → r.paid_cents ≡ 0
  pub paid : is_paid_installment r.status ≡ true → r.remaining_cents ≡ 0

abbrev pub of_plan : ℕ → Installment → Bool
of_plan plan_id r = r.payment_plan_id == plan_id

-- What the installments of a plan have received.
abbrev pub received : ℕ → List Installment → ℕ
received plan_id t = sum_where (of_plan plan_id) (λ r. r.paid_cents) t

-- Identifiers are unique, every installment is balanced, and each plan has received what its
-- installments have.
pub record HasBooks (db : Db) : Type 0 where
  pub plans_unique : IsUnique plan_key db.plans
  pub installments_unique : IsUnique installment_key db.installments
  pub balanced : All IsBalanced db.installments
  pub agree :
      (plan_id : ℕ) (p : PaymentPlan)
      → find_by plan_key plan_id db.plans ≡ some p
      → p.paid_cents ≡ received plan_id db.installments

-- The books are about two tables only.
pub keep_HasBooks :
    (db db' : Db)
    → db'.plans ≡ db.plans
    → db'.installments ≡ db.installments
    → HasBooks db
    → HasBooks db'
keep_HasBooks db db' p i h = record {
  plans_unique = rw p h.plans_unique;
  installments_unique = rw i h.installments_unique;
  balanced = rw i h.balanced;
  agree = λ plan_id r e. rw i (h.agree plan_id r (rw p at e));
}

module _ (db db' : Db) (h : HasBooks db) where
  -- A change of the installments that keeps them balanced and keeps what each has received.
  pub installments_HasBooks :
      (q : Installment → Bool) (f : Installment → Installment)
      → ((r : Installment) → q r ≡ true → IsBalanced r → IsBalanced (f r))
      → ((r : Installment)
          → ((f r).id ≡ r.id)
            × ((f r).payment_plan_id ≡ r.payment_plan_id)
            × ((f r).paid_cents ≡ r.paid_cents))
      → db'.plans ≡ db.plans
      → db'.installments ≡ update_where q f db.installments
      → HasBooks db'
  installments_HasBooks q f balanced fs p i =
      let kept = λ (plan_id : ℕ).
        sum_where-update_same (of_plan plan_id) (λ (x : Installment). x.paid_cents) q f
          db.installments (λ x. ground (arith, fs x)) in
      record {
        plans_unique = rw p h.plans_unique;
        installments_unique = rw i (
            update_where-IsUnique installment_key q f (λ r. (fs r).0) db.installments
              h.installments_unique);
        balanced = rw i (All-update_where IsBalanced q f db.installments balanced h.balanced);
        agree = λ plan_id r e. rw i (h.agree plan_id r (rw p at e) ∙ sym (kept plan_id));
      }

  -- A change of the plans that keeps what their rows say was received.
  pub plans_HasBooks :
      (s : PaymentPlan → Bool) (g : PaymentPlan → PaymentPlan)
      → ((p : PaymentPlan) → ((g p).id ≡ p.id) × ((g p).paid_cents ≡ p.paid_cents))
      → db'.plans ≡ update_where s g db.plans
      → db'.installments ≡ db.installments
      → HasBooks db'
  plans_HasBooks s g gs p i = record {
    plans_unique =
        rw p (update_where-IsUnique plan_key s g (λ r. (gs r).0) db.plans h.plans_unique);
    installments_unique = rw i h.installments_unique;
    balanced = rw i h.balanced;
    agree = λ plan_id r e.
        let (r', found, image) =
          find_by-update_where plan_key s g (λ x. (gs x).0) plan_id db.plans {r' = r} (rw p at e) in
        rw i (ground (arith, image, gs r', h.agree plan_id r' found));
  }

-- After a payment: the next installment opens, or the plan is complete.
pub advance_plan-HasBooks :
    (plan_id number : ℕ) (db : Db) → HasBooks db → HasBooks (advance_plan plan_id number db)
unfolding advance_plan
advance_plan-HasBooks plan_id number db h =
    elim (Bool-cases (count_where (outstanding_of plan_id) db.installments == 0)) [
      | inl all_paid ↦ rw all_paid (
          plans_HasBooks db _ h (λ p. p.id == plan_id)
            (λ p. record p { status = PlanStatus.completed_plan }) (λ p. (refl, refl)) refl refl)
      | inr some_left ↦ rw some_left (
          installments_HasBooks db _ h
            (λ r. numbered plan_id (number + 1) r && is_scheduled r.status)
            (λ r. record r { status = InstallmentStatus.open_installment })
            (λ r hit b. ground (arith, b.parts, b.unpaid)) (λ r. (refl, refl, refl)) refl refl)
    ]

pub mark_installment_pix_active-HasBooks :
    (id : ℕ) (db : Db) → HasBooks db → HasBooks (mark_installment_pix_active id db)
unfolding mark_installment_pix_active
mark_installment_pix_active-HasBooks id db h =
    installments_HasBooks db _ h (λ r. r.id == id && is_open_installment r.status)
      (λ r. record r { status = InstallmentStatus.pix_active })
      (λ r hit b. ground (arith, b.parts, b.unpaid)) (λ r. (refl, refl, refl)) refl refl

-- The books are kept when installments fall overdue.
pub mark_overdue_installments-HasBooks :
    (now : ℕ) (db : Db) → HasBooks db → HasBooks (mark_overdue_installments now db).1
unfolding mark_overdue_installments
mark_overdue_installments-HasBooks now db h =
    installments_HasBooks db _ h (falls_overdue now)
      (λ r. record r { status = InstallmentStatus.overdue_installment })
      (λ r hit b. ground (arith, b.parts, b.unpaid)) (λ r. (refl, refl, refl)) refl refl
