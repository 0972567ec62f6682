-- ===== src/Identity/Invitations.antt =====
-- Invitations of staff: `CreateInvitation`, `RevokeInvitation` and `AcceptInvitation` of
-- backend/internal/identity/admin_users.go. Names are left out, so an empty
-- one is given as a test; a token is trimmed before it comes here.
use pontoqap.Base.{ℕ, ◌+◌, Bool, ◌&&◌, ◌||◌, not, Option, none, some, ◌==◌, ltb, if◌then◌else◌}
use pontoqap.Store.Schema.{Customer, Db}
use pontoqap.Store.Shop.{User, UserStatus, Role, Invitation}
use pontoqap.Store.Table.{count_where, update_where, insert_row}
use pontoqap.Store.Table.Keys.{find_by, update_by}
use pontoqap.Store.Tx.{
  Tx, ok, err, not_found, no_rows, validation_failed, forbidden, invalid_credentials, random_failed,
}
use pontoqap.Identity.{
  Security, AuthUser, is_staff_role, is_system_admin, has_staff_role, has_system_admin_role,
  list_user_roles, find_user_by_email, is_active_user, is_suspended_user, is_none, set_user,
}
use pontoqap.Identity.Staff.{replace_user_role}
use pontoqap.Identity.Verification.{MessageIds, publish_outbox}

-- 48 hours, in seconds.
abbrev pub invitation_ttl : ℕ
invitation_ttl = 172800

abbrev pub invitation_key : Invitation → ℕ
invitation_key i = i.id

-- `LOWER(email) = LOWER($1) AND accepted_at IS NULL AND revoked_at IS NULL`.
abbrev pub open_for_email : ℕ → Invitation → Bool
open_for_email email i = i.email == email && (is_none i.accepted_at && is_none i.revoked_at)

abbrev pub withdrawn : ℕ → Invitation → Invitation
withdrawn now i = record i { revoked_at = some now }

abbrev pub accepted : ℕ → Invitation → Invitation
accepted now i = record i { accepted_at = some now }

-- The writes of `CreateInvitation`.
unfoldable pub issue_invitation : Security → ℕ → MessageIds → ℕ → ℕ → Role → Db → Db
unfolding publish_outbox
issue_invitation sec now ids actor email role db =
    publish_outbox now ids.event_row ids.content (record db {
      accounts = record db.accounts {
        invitations =
            insert_row
              (record {
                id = ids.token_row;
                email = email;
                role = role;
                token_hash = sec.hash_token ids.token;
                expires_at = now + invitation_ttl;
                invited_by = actor;
                accepted_at = none;
                revoked_at = none;
              })
              (update_where (open_for_email email) (withdrawn now) db.accounts.invitations);
      };
    })

-- `CreateInvitation`: only someone who is registered in the store is invited.
unfoldable pub create_invitation :
    Security → ℕ → MessageIds → AuthUser → ℕ → Bool → Option Role → Tx Db (Unit {0})
create_invitation sec now ids actor email empty none db = err no_rows
create_invitation sec now ids actor email empty (some role) db =
    if is_system_admin role && not (has_system_admin_role actor.roles)
    then err forbidden
    else if not (is_staff_role role) || empty
    then err validation_failed
    else elim (find_user_by_email email db) [
      | none ↦ err validation_failed
      | some u ↦
          if count_where (λ (c : Customer). c.user_id == u.id) db.customers == 0
          then err validation_failed
          else if (is_active_user u.status || is_suspended_user u.status)
              && has_staff_role (list_user_roles u.id db)
          then err validation_failed
          else ok (tt, issue_invitation sec now ids actor.user.id email role db)
    ]

-- `RevokeInvitation`.
unfoldable pub revoke_invitation : ℕ → ℕ → Tx Db (Unit {0})
revoke_invitation now id db = elim (find_by invitation_key id db.accounts.invitations) [
  | none ↦ err not_found
  | some i ↦
      if not (is_none i.accepted_at && is_none i.revoked_at)
      then err validation_failed
      else ok (
        tt,
        record db {
          accounts = record db.accounts {
            invitations = update_by invitation_key id (withdrawn now) db.accounts.invitations;
          };
        },
      )
]

-- What accepting writes for the user of the address: a user who is not active becomes so, with the
-- password; the role replaces those of staff, and the invitation is accepted.
unfoldable pub accept_as : ℕ → ℕ → User → Invitation → Db → Db
unfolding replace_user_role
accept_as now hash u i db =
    let db1 =
      if is_active_user u.status
      then db
      else set_user u.id (λ x. record x { password_hash = hash; status = UserStatus.active_user })
          db in
    let db2 = replace_user_role u.id i.role db1 in
    record db2 {
      accounts = record db2.accounts {
        invitations = update_by invitation_key i.id (accepted now) db2.accounts.invitations;
      };
    }

-- `AcceptInvitation`, inside its transaction.
unfoldable pub accept_invitation : Security → ℕ → ℕ → ℕ → Tx Db (Unit {0})
accept_invitation sec now token password db =
    elim (find_by (λ (i : Invitation). i.token_hash) (sec.hash_token token)
      db.accounts.invitations) [
        | none ↦ err not_found
        | some i ↦
            if not (is_none i.revoked_at) || (not (is_none i.accepted_at) || ltb i.expires_at now)
            then err validation_failed
            else elim (sec.hash_password password) [
              | none ↦ err random_failed
              | some hash ↦ elim (find_user_by_email i.email db) [
                | none ↦ err no_rows
                | some u ↦
                    if is_active_user u.status && not (sec.verify_password u.password_hash password)
                    then err invalid_credentials
                    else ok (tt, accept_as now hash u i db)
              ]
            ]
      ]
