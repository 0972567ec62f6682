-- ===== src/Identity/Verification.antt =====
-- Confirming an address: backend/internal/identity/verification.go, and `Register` of
-- backend/internal/customers/service.go, which begins it.
use pontoqap.Base.{ℕ, ◌+◌, Bool, false, ◌&&◌, not, none, some, ◌==◌, ltb, if◌then◌else◌}
use pontoqap.Store.Schema.{Customer, CustomerStatus, Db}
use pontoqap.Store.Shop.{UserStatus, Role, VerificationToken, JobStatus}
use pontoqap.Store.Table.{select_first, update_where, insert_row, count_where}
use pontoqap.Store.Tx.{Tx, ok, err, not_found, validation_failed, conflict, random_failed}
use pontoqap.Customers.{is_pending_customer, is_blocked_customer}
use pontoqap.Identity.{Security, set_user, find_user_by_email, is_none, is_pending_email}

-- 24 hours, in seconds.
abbrev pub verification_ttl : ℕ
verification_ttl = 86400

-- The identifiers and texts that one message takes: its token, the row of the token, the row of the
-- event, and what the event says.
pub record MessageIds : Type 0 where
  pub token : ℕ
  pub token_row : ℕ
  pub event_row : ℕ
  pub content : ℕ

-- `PublishOutbox`.
unfoldable pub publish_outbox : ℕ → ℕ → ℕ → Db → Db
publish_outbox now event_row content db = record db {
  queue = record db.queue {
    outbox =
        insert_row
          (record {
            id = event_row;
            content = content;
            status = JobStatus.waiting;
            attempts = 0;
            available_at = now;
          })
          db.queue.outbox;
  };
}

-- `user_id = $1 AND used_at IS NULL`.
abbrev pub unused_of : ℕ → VerificationToken → Bool
unused_of user t = t.user_id == user && is_none t.used_at

-- `token_hash = $1 AND used_at IS NULL`.
abbrev pub unused_with : ℕ → VerificationToken → Bool
unused_with hash t = t.token_hash == hash && is_none t.used_at

abbrev pub used : ℕ → VerificationToken → VerificationToken
used now t = record t { used_at = some now }

-- `EnqueueVerification`: the tokens before are used up.
unfoldable pub enqueue_verification : Security → ℕ → MessageIds → ℕ → Db → Db
unfolding publish_outbox
enqueue_verification sec now ids user db = publish_outbox now ids.event_row ids.content (record db {
  accounts = record db.accounts {
    tokens =
        insert_row
          (record {
            id = ids.token_row;
            user_id = user;
            token_hash = sec.hash_token ids.token;
            expires_at = now + verification_ttl;
            used_at = none;
          })
          (update_where (unused_of user) (used now) db.accounts.tokens);
  };
})

-- `user_id = $1 AND status = 'pending'`.
abbrev pub pending_of : ℕ → Customer → Bool
pending_of user c = c.user_id == user && is_pending_customer c.status

-- `user_id = $1 AND status != 'blocked'`.
abbrev pub unblocked_of : ℕ → Customer → Bool
unblocked_of user c = c.user_id == user && not (is_blocked_customer c.status)

-- The customers of a user whose address is confirmed: those that are pending are approved with the
-- default limit; where there is none, all that are not blocked are approved.
unfoldable pub approve_verified : ℕ → ℕ → Db → Db
approve_verified default_limit user db =
    if count_where (pending_of user) db.customers == 0
    then record db {
      customers =
          update_where (unblocked_of user)
            (λ c. record c { status = CustomerStatus.approved_customer }) db.customers;
    }
    else record db {
      customers =
          update_where (pending_of user)
            (λ c. record c {
              status = CustomerStatus.approved_customer;
              credit_limit_cents = default_limit;
            })
            db.customers;
    }

-- `VerifyEmail`, inside its transaction.
unfoldable pub verify_email : Security → ℕ → ℕ → ℕ → Tx Db (Unit {0})
verify_email sec default_limit now token db =
    let hash = sec.hash_token token in
    elim (select_first (unused_with hash) db.accounts.tokens) [
      | none ↦ err not_found
      | some t ↦
          if ltb t.expires_at now
          then err validation_failed
          else ok (
            tt,
            approve_verified default_limit t.user_id (
                set_user t.user_id
                  (λ u. record u { status = UserStatus.active_user; email_verified_at = some now })
                  (record db {
                    accounts = record db.accounts {
                      tokens =
                          update_where (λ (x : VerificationToken). x.token_hash == hash) (used now)
                            db.accounts.tokens;
                    };
                  })),
          )
    ]

-- `ResendVerification`, which is no error for an address that is unknown or not pending.
unfoldable pub resend_verification : Security → ℕ → MessageIds → ℕ → Db → Db
unfolding enqueue_verification
resend_verification sec now ids email db = elim (find_user_by_email email db) [
  | none ↦ db
  | some u ↦ if is_pending_email u.status then enqueue_verification sec now ids u.id db else db
]

-- `Register`; the address is taken as it is compared, without regard to case.
unfoldable pub register : Security → ℕ → MessageIds → ℕ → ℕ → ℕ → ℕ → Tx Db (Unit {0})
register sec now ids new_user new_customer email password db = elim (sec.hash_password password) [
  | none ↦ err random_failed
  | some hash ↦ elim (find_user_by_email email db) [
    | some u ↦
        if count_where (λ (c : Customer). c.user_id == u.id) db.customers == 0
        then err validation_failed
        else err conflict
    | none ↦ ok (
      tt,
      enqueue_verification sec now ids new_user (record db {
        customers =
            insert_row
              (record {
                id = new_customer;
                user_id = new_user;
                status = CustomerStatus.pending_customer;
                status_before_block = none;
                credit_limit_cents = 0;
                current_exposure_cents = 0;
                collaborator_category_id = none;
              })
              db.customers;
        accounts = record db.accounts {
          users =
              insert_row
                (record {
                  id = new_user;
                  email = email;
                  password_hash = hash;
                  status = UserStatus.pending_email;
                  mfa_secret = 0;
                  mfa_enabled = false;
                  failed_login_attempts = 0;
                  locked_until = none;
                  last_login_at = none;
                  email_verified_at = none;
                })
                db.accounts.users;
          user_roles =
              insert_row (record { user_id = new_user; code = Role.customer_role })
                db.accounts.user_roles;
        };
      }),
    )
  ]
]
