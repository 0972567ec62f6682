-- ===== src/Customers/Blocking.antt =====
-- Blocking a customer and taking the block back (`Block` and `Unblock` of customers/admin.go).
use pontoqap.Base.{ℕ, ◌≡◌, refl, ap, some, none, false, arith}
use pontoqap.Store.Schema.{Db, Customer, CustomerStatus}
use pontoqap.Store.Tx.{ok, err, ◌>>=◌, ◌>>◌, customer_not_blocked}
use pontoqap.Store.Table.Keys.{update_by, find_by-update_by, update_by-twice}
use pontoqap.Billing.Rows.{customer_key}
use pontoqap.Customers.{get_customer, block, unblock, is_blocked_customer, status_after_block}

-- A customer that remembers no earlier status.
abbrev pub forgotten : Customer → Customer
forgotten c = record c { status_before_block = none }

abbrev pub blocked : Customer → Customer
blocked c = record c {
  status = CustomerStatus.blocked_customer;
  status_before_block = some c.status;
}

abbrev restored : Customer → Customer
restored c = record c { status = status_after_block c; status_before_block = none }

-- Blocking a customer that is not blocked and then unblocking it gives it back the status that it
-- had, whichever that was; nothing else is changed but the note of the earlier status, and unblocking
-- once more is refused.
pub unblock-block :
    (customer_id : ℕ) (db : Db) {c : Customer}
    → get_customer customer_id db ≡ some c
    → is_blocked_customer c.status ≡ false
    → (db' : Db) × ((block customer_id >> unblock customer_id) db ≡ ok (tt, db'))
      × (db' ≡ record db { customers = update_by customer_key customer_id forgotten db.customers })
      × (get_customer customer_id db' ≡ some (forgotten c))
      × (unblock customer_id db' ≡ err customer_not_blocked)
unfolding block unblock
unblock-block customer_id db {c} found running =
    let db' : Db = record db {
      customers = update_by customer_key customer_id forgotten db.customers;
    } in
    let there =
      find_by-update_by customer_key customer_id customer_id blocked db.customers (λ r. refl) in
    let db1 : Db = record db {
      customers = update_by customer_key customer_id blocked db.customers;
    } in
    let first : block customer_id db ≡ ok (tt, db1) = ground arith in
    let there' : get_customer customer_id db1 ≡ some (blocked c) = ground (arith, there, found) in
    let second : unblock customer_id db1 ≡ ok (tt, db') =
      rw (unblock, there')
        (ap (λ t. ok (tt, record db { customers = t }))
          (update_by-twice customer_key customer_id blocked restored db.customers (λ r. refl))) in
    let back =
      find_by-update_by customer_key customer_id customer_id forgotten db.customers (λ r. refl) in
    (db', rw (◌>>◌, ◌>>=◌, first) second, refl, ground (arith, back), ground (arith, back))
