-- ===== src/Tests/Staff.antt =====
-- Staff and the outbox at concrete tables; a password, a hash and a token are the same number.
use pontoqap.Base.{
  if◌then◌else◌, ℕ, ◌+◌, ◌==◌, ◌≡◌, ◌<◌, refl, true, false, none, some, [], ◌∷◌, arith, Bool-cases,
  inl, inr,
}
use pontoqap.Store.Tx.{err, unauthorized, ok}
use pontoqap.Identity.{
  login_state, store_session_allowed_status, AuthUser, build_auth_user, roles_of,
  has_system_admin_role, find_customer_id_by_user, has_staff_role,
}
use pontoqap.Identity.Login.{
  LoginInput, signed_in, login, authenticate_session, login_barred, audience_guard, open_session,
  Identity, authenticate_admin_bearer,
}
use pontoqap.Identity.Login.Sessions.{authenticate_session-login, login-ends}
use pontoqap.Jobs.{process_outbox, acquire_outbox}
use pontoqap.Jobs.Attempts.{process_outbox-HasTriesLeft}
use pontoqap.Jobs.Marking.{HasTriesLeft}
use pontoqap.Store.Schema.{Db}
use pontoqap.Store.Shop.{User, UserStatus, UserRole, Role, Audience, OutboxEvent, JobStatus}
use pontoqap.Store.Table.{select_first, count_where, select_where}
use pontoqap.Identity.Staff.{set_user_role, first_staff_role, get_staff_by_id, demote_or_promote}
use pontoqap.Identity.Staff.LastAdmin.{role_set, StaffStep-HasAdmin}
use pontoqap.Identity.Staff.Accepting.{accept_invitation-demotes}
use pontoqap.Identity.Staff.Roles.{is_active_admin}
use pontoqap.Identity.Invitations.{accept_invitation}
use pontoqap.Identity.Staff.Replacing.{HasAdmin}
use pontoqap.Jobs.Once.{is_event, acquire_outbox-once}
use pontoqap.Tests.Data.{empty_db, tables_of}

abbrev identity : Identity
identity = record {
  security = record {
    verify_password = λ hash password. hash == password;
    hash_password = λ password. some password;
    hash_token = λ token. token;
    validate_totp = λ code secret. code == secret;
    has_secret = true;
  };
  store_ttl = 1000;
  admin_ttl = 500;
}

abbrev user : ℕ → User
user id = record {
  id = id;
  email = 100 + id;
  password_hash = 200 + id;
  status = UserStatus.active_user;
  mfa_secret = 0;
  mfa_enabled = false;
  failed_login_attempts = 0;
  locked_until = none;
  last_login_at = none;
  email_verified_at = none;
}

abbrev role : ℕ → Role → UserRole
role id code = record { user_id = id; code = code }

-- Two administrators, of whom the first is signed in.
abbrev panel : Db
panel = record empty_db {
  accounts = record empty_db.accounts {
    users = user 1 ∷ user 2 ∷ [];
    user_roles = role 1 Role.system_admin ∷ role 2 Role.system_admin ∷ [];
    sessions =
        record {
          id = 9;
          user_id = 1;
          token_hash = 0;
          audience = Audience.admin_audience;
          expires_at = 800;
          revoked_at = none;
        }
        ∷ [];
  };
}

abbrev admin : AuthUser
admin = record { user = user 1; roles = Role.system_admin ∷ []; customer_id = none }

admin_signed_in : authenticate_admin_bearer identity 600 (some (1, 9)) panel ≡ ok admin
unfolding authenticate_admin_bearer select_first build_auth_user roles_of find_customer_id_by_user
admin_signed_in = refl

abbrev demoted : Db
demoted =
    tables_of panel
      (set_user_role identity.security 600 admin 2 (some Role.manager) (some 201) none panel)

demotion_runs :
    set_user_role identity.security 600 admin 2 (some Role.manager) (some 201) none panel
    ≡ ok (tt, demoted)
unfolding set_user_role select_first get_staff_by_id has_staff_role roles_of has_system_admin_role
    demote_or_promote count_where
demotion_runs = refl

panel-HasAdmin : HasAdmin panel
unfolding count_where has_system_admin_role roles_of first_staff_role
panel-HasAdmin = record {
  alive = omega arith;
  leading = λ u h. elim (Bool-cases (1 == u)) [
    | inl first ↦ rw first refl
    | inr other ↦ elim (Bool-cases (2 == u)) [
      | inl second ↦ rw (other, second) refl
      | inr none_of ↦ absurd (ground arith)
    ]
  ];
}

StaffStep-HasAdmin_example : HasAdmin demoted
StaffStep-HasAdmin_example =
    StaffStep-HasAdmin identity 600 panel demoted
      (role_set {db = panel} {db' = demoted} admin (some (1, 9)) 2 (some Role.manager) (some 201)
        none admin_signed_in demotion_runs)
      panel-HasAdmin

-- The only administrator, who was invited as a manager before.
abbrev invited : Db
invited = record panel {
  accounts = record panel.accounts {
    users = user 1 ∷ [];
    user_roles = role 1 Role.system_admin ∷ [];
    invitations =
        record {
          id = 5;
          email = 101;
          role = Role.manager;
          token_hash = 77;
          expires_at = 900;
          invited_by = 2;
          accepted_at = none;
          revoked_at = none;
        }
        ∷ [];
  };
}

abbrev joined_db : Db
joined_db = tables_of invited (accept_invitation identity.security 600 77 201 invited)

acceptance_runs : accept_invitation identity.security 600 77 201 invited ≡ ok (tt, joined_db)
unfolding accept_invitation select_first
acceptance_runs = refl

accept_invitation-demotes_example :
    count_where (is_active_admin joined_db.accounts.user_roles) joined_db.accounts.users ≡ 0
unfolding select_first count_where
accept_invitation-demotes_example =
    accept_invitation-demotes identity.security 600 77 201
      (record {
        id = 5;
        email = 101;
        role = Role.manager;
        token_hash = 77;
        expires_at = 900;
        invited_by = 2;
        accepted_at = none;
        revoked_at = none;
      })
      (user 1) invited {db' = joined_db} refl refl refl refl acceptance_runs

abbrev message : ℕ → ℕ → OutboxEvent
message id at = record {
  id = id;
  content = 40;
  status = JobStatus.waiting;
  attempts = 0;
  available_at = at;
}

abbrev mailbox : Db
mailbox = record empty_db {
  queue = record { jobs = []; outbox = message 1 30 ∷ message 2 20 ∷ [] };
}

message_acquired : 0 < count_where (is_event 2) (acquire_outbox 50 1 mailbox).0
unfolding acquire_outbox count_where select_where
message_acquired = omega arith

acquire_outbox-once_example :
    count_where (is_event 2) (acquire_outbox 60 5 (acquire_outbox 50 1 mailbox).1).0 ≡ 0
acquire_outbox-once_example = acquire_outbox-once 50 1 60 5 2 mailbox message_acquired

-- A message that was tried five times and is refused again.
abbrev tired : Db
tired = record empty_db {
  queue = record { jobs = []; outbox = record (message 1 30) { attempts = 5 } ∷ message 2 20 ∷ [] };
}

tired-HasTriesLeft : HasTriesLeft tired
unfolding count_where
tired-HasTriesLeft = refl

process_outbox-HasTriesLeft_example : HasTriesLeft (process_outbox (λ content. false) 50 5 tired)
unfolding select_first
process_outbox-HasTriesLeft_example =
    process_outbox-HasTriesLeft (λ content. false) 50 5 tired (refl, (refl, tt)) tired-HasTriesLeft

-- The first administrator signs in once more.
abbrev sign_in : LoginInput
sign_in = record {
  email = 101;
  password = 201;
  audience = some Audience.admin_audience;
  mfa_code = none;
}

abbrev signed_in_db : Db
signed_in_db = (login identity 600 10 55 sign_in panel).1

sign_in_runs : login identity 600 10 55 sign_in panel ≡ (ok (signed_in 55 1100 admin), signed_in_db)
unfolding login select_first login_barred audience_guard has_staff_role roles_of open_session
    build_auth_user find_customer_id_by_user
sign_in_runs = refl

authenticate_session-login_example :
    authenticate_session identity 700 55 Audience.admin_audience signed_in_db ≡ (
      if store_session_allowed_status admin.user.status
      then ok (record admin { user = login_state 0 none (some 600) admin.user })
      else err unauthorized)
unfolding select_first
authenticate_session-login_example =
    authenticate_session-login identity 600 10 55 sign_in panel Audience.admin_audience 700
      (refl, (refl, tt)) refl refl sign_in_runs (omega arith)

login-ends_example :
    authenticate_session identity 700 0 Audience.admin_audience signed_in_db ≡ err unauthorized
unfolding select_first
login-ends_example =
    login-ends identity 600 10 55 sign_in panel Audience.admin_audience 0 700
      {sess = record {
        id = 9;
        user_id = 1;
        token_hash = 0;
        audience = Audience.admin_audience;
        expires_at = 800;
        revoked_at = none;
      }}
      refl sign_in_runs refl refl refl
