-- ===== src/Identity.antt =====
-- Accounts: the rules of backend/internal/identity on statuses and roles, and the statements of
-- identity/postgres/repository.go. Argon2, TOTP and the signing of tokens are a parameter.
pub mod Login
pub mod Verification
pub mod Staff
pub mod Invitations
use pontoqap.Base.{
  ℕ, ◌+◌, Bool, true, false, ◌&&◌, ◌||◌, not, Option, none, some, List, [], ◌∷◌, ◌==◌, ltb, leb,
  if◌then◌else◌,
}
use pontoqap.Store.Table.{select_first, select_where, update_where, insert_row}
use pontoqap.Store.Table.Keys.{find_by, update_by}
use pontoqap.Store.Schema.{Customer, CustomerStatus, Db}
use pontoqap.Store.Shop.{User, UserStatus, Session, Audience, Role, UserRole}
use pontoqap.Store.Tx.{Result, ok, err, invalid_credentials, step_up_required}

-- What the service asks of argon2, TOTP and JWT: whether a password fits a hash, the hash of a
-- password (`none` where the random source fails) and of a token, whether a code is valid for a
-- secret, and whether the secret that signs tokens is set.
pub record Security : Type 0 where
  pub verify_password : ℕ → ℕ → Bool
  pub hash_password : ℕ → Option ℕ
  pub hash_token : ℕ → ℕ
  pub validate_totp : ℕ → ℕ → Bool
  pub has_secret : Bool

abbrev pub is_admin_audience : Audience → Bool
is_admin_audience Audience.admin_audience = true
is_admin_audience Audience.store_audience = false

abbrev pub same_audience : Audience → Audience → Bool
same_audience Audience.admin_audience a = is_admin_audience a
same_audience Audience.store_audience a = not (is_admin_audience a)

abbrev pub is_active_user : UserStatus → Bool
is_active_user UserStatus.active_user = true
is_active_user _ = false

abbrev pub is_disabled_user : UserStatus → Bool
is_disabled_user UserStatus.disabled = true
is_disabled_user _ = false

abbrev pub is_suspended_user : UserStatus → Bool
is_suspended_user UserStatus.suspended = true
is_suspended_user _ = false

abbrev pub is_pending_email : UserStatus → Bool
is_pending_email UserStatus.pending_email = true
is_pending_email _ = false

-- `status == "blocked" || status == "temporarily_blocked"`.
abbrev pub is_barred_user : UserStatus → Bool
is_barred_user UserStatus.blocked_user = true
is_barred_user UserStatus.temporarily_blocked = true
is_barred_user _ = false

-- `storeSessionAllowedStatus`.
abbrev pub store_session_allowed_status : UserStatus → Bool
store_session_allowed_status UserStatus.active_user = true
store_session_allowed_status UserStatus.suspended = true
store_session_allowed_status UserStatus.pending_email = true
store_session_allowed_status _ = false

-- `IsStaffRole`.
abbrev pub is_staff_role : Role → Bool
is_staff_role Role.customer_role = false
is_staff_role _ = true

abbrev pub is_system_admin : Role → Bool
is_system_admin Role.system_admin = true
is_system_admin _ = false

-- `HasStaffRole`.
unfoldable pub has_staff_role : List Role → Bool
has_staff_role [] = false
has_staff_role (r ∷ rs) = is_staff_role r || has_staff_role rs

-- `HasSystemAdminRole`.
unfoldable pub has_system_admin_role : List Role → Bool
has_system_admin_role [] = false
has_system_admin_role (r ∷ rs) = is_system_admin r || has_system_admin_role rs

abbrev pub user_key : User → ℕ
user_key u = u.id

abbrev pub session_key : Session → ℕ
session_key s = s.id

-- `FindUserByID`.
abbrev pub find_user_by_id : ℕ → Db → Option User
find_user_by_id id db = find_by user_key id db.accounts.users

-- `FindUserByEmail`.
abbrev pub find_user_by_email : ℕ → Db → Option User
find_user_by_email email db = find_by (λ (u : User). u.email) email db.accounts.users

-- `FindSessionByID`.
abbrev pub find_session_by_id : ℕ → Db → Option Session
find_session_by_id id db = find_by session_key id db.accounts.sessions

-- `FindSessionByTokenHash`.
abbrev pub find_session_by_token_hash : ℕ → Db → Option Session
find_session_by_token_hash hash db =
    find_by (λ (s : Session). s.token_hash) hash db.accounts.sessions

-- `ListUserRoles`.
unfoldable pub roles_of : ℕ → List UserRole → List Role
roles_of user [] = []
roles_of user (r ∷ rs) =
    let rest = roles_of user rs in if r.user_id == user then r.code ∷ rest else rest

abbrev pub list_user_roles : ℕ → Db → List Role
list_user_roles user db = roles_of user db.accounts.user_roles

-- `IsCustomerBlocked`.
unfoldable pub is_customer_blocked : ℕ → Db → Bool
is_customer_blocked user db =
    elim (select_first (λ (c : Customer). c.user_id == user) db.customers) [
      | none ↦ false
      | some c ↦ (elim c.status [ CustomerStatus.blocked_customer ↦ true | _ ↦ false ])
    ]

-- `FindCustomerIDByUser`.
unfoldable pub find_customer_id_by_user : ℕ → Db → Option ℕ
find_customer_id_by_user user db =
    elim (select_first (λ (c : Customer). c.user_id == user) db.customers) [
      | none ↦ none
      | some c ↦ some c.id
    ]

-- The rows of `users` after a statement on the one with an identifier.
abbrev pub set_user : ℕ → (User → User) → Db → Db
set_user id f db = record db {
  accounts = record db.accounts { users = update_by user_key id f db.accounts.users };
}

abbrev pub set_sessions : (Session → Bool) → (Session → Session) → Db → Db
set_sessions p f db = record db {
  accounts = record db.accounts { sessions = update_where p f db.accounts.sessions };
}

-- The columns of `UpdateUserLoginState`.
abbrev pub login_state : ℕ → Option ℕ → Option ℕ → User → User
login_state failed locked last u = record u {
  failed_login_attempts = failed;
  locked_until = locked;
  last_login_at = last;
}

-- `UpdateUserLoginState`.
unfoldable pub update_user_login_state : ℕ → ℕ → Option ℕ → Option ℕ → Db → Db
update_user_login_state id failed locked last = set_user id (login_state failed locked last)

-- `UpdateMFA`.
unfoldable pub update_mfa : ℕ → ℕ → Bool → Db → Db
update_mfa id secret enabled =
    set_user id (λ u. record u { mfa_secret = secret; mfa_enabled = enabled })

abbrev pub revoked : ℕ → Session → Session
revoked now s = record s { revoked_at = some now }

-- `RevokeSession`.
unfoldable pub revoke_session : ℕ → ℕ → Db → Db
revoke_session now id = set_sessions (λ s. s.id == id) (revoked now)

abbrev pub is_none {ℓ} : {A : Type ℓ} → Option A → Bool
is_none none = true
is_none (some a) = false

-- `user_id = $1 AND audience = $2 AND revoked_at IS NULL`.
abbrev pub live_for : ℕ → Audience → Session → Bool
live_for user audience s =
    s.user_id == user && (same_audience s.audience audience && is_none s.revoked_at)

-- `RevokeUserSessions`.
unfoldable pub revoke_user_sessions : ℕ → ℕ → Audience → Db → Db
revoke_user_sessions now user audience = set_sessions (live_for user audience) (revoked now)

-- `CreateSession`.
unfoldable pub create_session : Session → Db → Db
create_session s db = record db {
  accounts = record db.accounts { sessions = insert_row s db.accounts.sessions };
}

-- `AuthUser`; what the roles permit is left out.
pub record AuthUser : Type 0 where
  pub user : User
  pub roles : List Role
  pub customer_id : Option ℕ

-- `buildAuthUser`.
unfoldable pub build_auth_user : User → Db → AuthUser
build_auth_user u db = record {
  user = u;
  roles = list_user_roles u.id db;
  customer_id = find_customer_id_by_user u.id db;
}

-- `VerifyStepUp`; `none` stands for an empty code or password.
unfoldable pub verify_step_up : Security → User → Option ℕ → Option ℕ → Result (Unit {0})
verify_step_up sec actor password (some code) =
    if actor.mfa_enabled
    then (if sec.validate_totp code actor.mfa_secret then ok tt else err invalid_credentials)
    else elim password [
      | none ↦ err step_up_required
      | some p ↦ if sec.verify_password actor.password_hash p then ok tt else err step_up_required
    ]
verify_step_up sec actor none none = err step_up_required
verify_step_up sec actor (some p) none =
    if sec.verify_password actor.password_hash p then ok tt else err step_up_required
