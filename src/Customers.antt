-- ===== src/Customers.antt =====
-- Customers: the status and the limit of backend/internal/customers/service.go, and admin.go. A
-- customer's user exists, as its foreign key demands.
use pontoqap.Billing.Rows.{customer_key}
use pontoqap.Store.Table.{insert_row}
use pontoqap.Store.Table.Keys.{find_by, update_by}
use pontoqap.Store.Tx.{
  Tx, Result, err, customer_not_approved, customer_blocked, ok, customer_not_pending, no_rows,
  cannot_block, customer_not_blocked, check_violation,
}
use pontoqap.Base.Int.{ℤ, ltb_ℤ, pos, pos_part}
use pontoqap.Store.Shop.{User, Shop, UserStatus}
use pontoqap.Store.Schema.{CustomerStatus, Db, Customer}
pub mod Collaborators
pub mod Blocking
use pontoqap.Base.{
  none, some, true, false, ℕ, Option, Bool, ◌-◌, true, some, false, if◌then◌else◌, not,
}

abbrev pub is_pending_customer : CustomerStatus → Bool
is_pending_customer CustomerStatus.pending_customer = true
is_pending_customer _ = false

abbrev pub is_approved_customer : CustomerStatus → Bool
is_approved_customer CustomerStatus.approved_customer = true
is_approved_customer _ = false

abbrev pub is_blocked_customer : CustomerStatus → Bool
is_blocked_customer CustomerStatus.blocked_customer = true
is_blocked_customer _ = false

-- `GetByID`.
abbrev pub get_customer : ℕ → Db → Option Customer
get_customer id db = find_by customer_key id db.customers

abbrev pub user_key : User → ℕ
user_key u = u.id

-- `COALESCE(email_verified_at, NOW())`.
abbrev pub verified_by : ℕ → User → User
verified_by now u = record u {
  status = UserStatus.active_user;
  email_verified_at = some (elim u.email_verified_at as (λ _. ℕ) [ none ↦ now | some t ↦ t ]);
}

abbrev limit_change : ℕ → ℕ → ℕ → ℕ → Shop → Shop
limit_change customer_id previous new changed_by shop = record shop {
  limit_history =
      insert_row
        (record {
          customer_id = customer_id;
          previous_limit_cents = previous;
          new_limit_cents = new;
          changed_by = changed_by;
        })
        shop.limit_history;
}

-- `Approve`: three statements, of which only the first can fail on a customer that exists.
unfoldable pub approve : ℕ → ℕ → ℕ → ℤ → Tx Db (Unit {0})
approve now customer_id manager_id limit db = elim (get_customer customer_id db) [
  | none ↦ err customer_not_pending
  | some c ↦
      if not (is_pending_customer c.status)
      then err customer_not_pending
      else if ltb_ℤ limit (pos 0)
      then err check_violation
      else ok (
        tt,
        record db {
          customers =
              update_by customer_key customer_id
                (λ x. record x {
                  status = CustomerStatus.approved_customer;
                  credit_limit_cents = pos_part limit;
                })
                db.customers;
          accounts = record db.accounts {
            users = update_by user_key c.user_id (verified_by now) db.accounts.users;
          };
          shop = limit_change customer_id 0 (pos_part limit) manager_id db.shop;
        },
      )
]

-- `ChangeLimit`.
unfoldable pub change_limit : ℕ → ℕ → ℤ → Tx Db (Unit {0})
change_limit customer_id manager_id new_limit db = elim (get_customer customer_id db) [
  | none ↦ err no_rows
  | some c ↦
      if ltb_ℤ new_limit (pos 0)
      then err check_violation
      else ok (
        tt,
        record db {
          customers =
              update_by customer_key customer_id
                (λ x. record x { credit_limit_cents = pos_part new_limit }) db.customers;
          shop =
              limit_change customer_id c.credit_limit_cents (pos_part new_limit) manager_id db.shop;
        },
      )
]

-- `AvailableLimit`: the difference, 0 where it is negative.
unfoldable pub available_limit : Customer → ℕ
available_limit c = c.credit_limit_cents - c.current_exposure_cents

-- `EnsureNotBlocked`.
unfoldable pub ensure_not_blocked : Option Customer → Result (Unit {0})
ensure_not_blocked none = err customer_not_approved
ensure_not_blocked (some c) =
    if is_blocked_customer c.status
    then err customer_blocked
    else if not (is_approved_customer c.status)
    then err customer_not_approved
    else ok tt

-- `Block`: a customer that is blocked stays as it is.
unfoldable pub block : ℕ → Tx Db (Unit {0})
block customer_id db = elim (get_customer customer_id db) [
  | none ↦ err cannot_block
  | some c ↦
      if is_blocked_customer c.status
      then ok (tt, db)
      else ok (
        tt,
        record db {
          customers =
              update_by customer_key customer_id
                (λ x. record x {
                  status = CustomerStatus.blocked_customer;
                  status_before_block = some x.status;
                })
                db.customers;
        },
      )
]

-- `COALESCE(status_before_block, 'approved')`.
abbrev pub status_after_block : Customer → CustomerStatus
status_after_block c = elim c.status_before_block as (λ _. CustomerStatus) [
  | none ↦ CustomerStatus.approved_customer
  | some s ↦ s
]

-- `Unblock`.
unfoldable pub unblock : ℕ → Tx Db (Unit {0})
unblock customer_id db = elim (get_customer customer_id db) [
  | none ↦ err customer_not_blocked
  | some c ↦
      if not (is_blocked_customer c.status)
      then err customer_not_blocked
      else ok (
        tt,
        record db {
          customers =
              update_by customer_key customer_id
                (λ x. record x { status = status_after_block x; status_before_block = none })
                db.customers;
        },
      )
]
