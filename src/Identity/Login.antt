-- ===== src/Identity/Login.antt =====
-- Signing in, sessions and MFA: backend/internal/identity/service.go. Every statement is its own
-- transaction. A bearer token is given as the user and the session that its parser finds in it.
pub mod Sessions
use pontoqap.Base.{
  ℕ, ◌+◌, Bool, true, false, ◌&&◌, ◌||◌, not, Option, none, some, ◌==◌, ltb, leb, if◌then◌else◌,
}
use pontoqap.Store.Schema.{Db}
use pontoqap.Store.Shop.{User, Session, Audience}
use pontoqap.Store.Tx.{
  Result, ok, err, Error, Tx, invalid_credentials, unauthorized, forbidden, email_not_verified,
  account_locked, check_violation, not_found, jwt_secret_required,
}
use pontoqap.Identity.{
  Security, AuthUser, build_auth_user, is_admin_audience, same_audience, is_active_user,
  is_disabled_user, is_suspended_user, is_pending_email, is_barred_user,
  store_session_allowed_status, has_staff_role, find_user_by_id, find_user_by_email,
  find_session_by_id, find_session_by_token_hash, list_user_roles, is_customer_blocked,
  update_user_login_state, update_mfa, revoke_session, revoke_user_sessions, create_session,
  is_none,
}

abbrev pub max_failed_attempts : ℕ
max_failed_attempts = 5

-- 15 minutes, in seconds.
abbrev pub lock_duration : ℕ
lock_duration = 900

-- `LoginInput`: an audience other than the two is `none`, and so is an empty code.
pub record LoginInput : Type 0 where
  pub email : ℕ
  pub password : ℕ
  pub audience : Option Audience
  pub mfa_code : Option ℕ

-- `LoginResult`.
pub data LoginResult : Type 0 where
  mfa_required : LoginResult
  signed_in : (token expires_at : ℕ) → AuthUser → LoginResult

-- `Service`, with the times that sessions of the store and of the panel last.
pub record Identity : Type 0 where
  pub security : Security
  pub store_ttl : ℕ
  pub admin_ttl : ℕ

abbrev pub for_store : Option Audience → Bool
for_store none = false
for_store (some a) = not (is_admin_audience a)

abbrev pub for_admin : Option Audience → Bool
for_admin none = false
for_admin (some a) = is_admin_audience a

-- `user.LockedUntil != nil && user.LockedUntil.After(now)`.
abbrev pub is_locked : ℕ → User → Bool
is_locked now u = elim u.locked_until as (λ _. Bool) [ none ↦ false | some t ↦ ltb now t ]

-- The guards before the password is looked at.
unfoldable pub login_barred : ℕ → Option Audience → User → Option Error
login_barred now audience u =
    if is_barred_user u.status
    then some forbidden
    else if is_disabled_user u.status
    then some forbidden
    else if is_suspended_user u.status && for_admin audience
    then some forbidden
    else if is_locked now u
    then some account_locked
    else none

-- What a wrong password writes: one more failed attempt, or a lock and none.
unfoldable pub record_failure : ℕ → User → Db → Db
unfolding update_user_login_state
record_failure now u db =
    if leb max_failed_attempts (u.failed_login_attempts + 1)
    then update_user_login_state u.id 0 (some (now + lock_duration)) u.last_login_at db
    else update_user_login_state u.id (u.failed_login_attempts + 1) none u.last_login_at db

-- The guards after the password, for the audience of the request: an error, the request for a code,
-- or neither.
unfoldable pub audience_guard : Security → Option ℕ → Option Audience → User → Db → Result Bool
audience_guard sec code none u db = ok false
audience_guard sec code (some Audience.store_audience) u db =
    if is_pending_email u.status
    then err email_not_verified
    else if is_customer_blocked u.id db
    then err forbidden
    else ok false
audience_guard sec code (some Audience.admin_audience) u db =
    if not (is_active_user u.status)
    then err forbidden
    else if not (has_staff_role (list_user_roles u.id db))
    then err forbidden
    else if not u.mfa_enabled
    then ok false
    else elim code [
      | none ↦ ok true
      | some c ↦ if sec.validate_totp c u.mfa_secret then ok false else err invalid_credentials
    ]

module _ (s : Identity) where
  -- The session that `Login` opens.
  abbrev pub new_session : ℕ → ℕ → ℕ → Audience → User → Session
  new_session now id token audience u = record {
    id = id;
    user_id = u.id;
    token_hash = s.security.hash_token token;
    audience = audience;
    expires_at = now + (if is_admin_audience audience then s.admin_ttl else s.store_ttl);
    revoked_at = none;
  }

  -- `Login` once every guard is passed. The table takes no third audience.
  unfoldable pub open_session : ℕ → ℕ → ℕ → Option Audience → User → Db → Result LoginResult × Db
  unfolding update_user_login_state revoke_user_sessions create_session
  open_session now id token none u db =
      (err check_violation, update_user_login_state u.id 0 none (some now) db)
  open_session now id token (some audience) u db =
      let db1 = update_user_login_state u.id 0 none (some now) db in
      let db2 =
        create_session (new_session now id token audience u)
          (revoke_user_sessions now u.id audience db1) in
      if s.security.has_secret
      then (
        ok (
            signed_in token (new_session now id token audience u).expires_at
              (build_auth_user u db2)),
        db2,
      )
      else (err jwt_secret_required, db2)

  -- `Login`. `id` and `token` are what the uuid package and the random source give.
  unfoldable pub login : ℕ → ℕ → ℕ → LoginInput → Db → Result LoginResult × Db
  login now id token i db = elim (find_user_by_email i.email db) [
    | none ↦ (err invalid_credentials, db)
    | some u ↦ elim (login_barred now i.audience u) [
      | some e ↦ (err e, db)
      | none ↦
          if s.security.verify_password u.password_hash i.password
          then elim (audience_guard s.security i.mfa_code i.audience u db) [
            | err e ↦ (err e, db)
            | ok true ↦ (ok mfa_required, db)
            | ok false ↦ open_session now id token i.audience u db
          ]
          else (err invalid_credentials, record_failure now u db)
    ]
  ]

  -- `sess.RevokedAt != nil || sess.ExpiresAt.Before(now)`.
  abbrev pub is_over : ℕ → Session → Bool
  is_over now sess = not (is_none sess.revoked_at) || ltb sess.expires_at now

  -- `AuthenticateSession`.
  unfoldable pub authenticate_session : ℕ → ℕ → Audience → Db → Result AuthUser
  authenticate_session now token expected db =
      elim (find_session_by_token_hash (s.security.hash_token token) db) [
        | none ↦ err unauthorized
        | some sess ↦
            if is_over now sess || not (same_audience sess.audience expected)
            then err unauthorized
            else elim (find_user_by_id sess.user_id db) [
              | none ↦ err unauthorized
              | some u ↦
                  if not (store_session_allowed_status u.status) || is_pending_email u.status
                  then err unauthorized
                  else ok (build_auth_user u db)
            ]
      ]

  -- The part of `AuthenticateAdminBearer` and `AuthenticateStoreBearer` up to the user: the session of
  -- the token, live, of this audience and this user.
  unfoldable pub bearer_user : ℕ → Audience → Option (ℕ × ℕ) → Db → Option User
  bearer_user now audience none db = none
  bearer_user now audience (some (user_id, session_id)) db =
      elim (find_session_by_id session_id db) [
        | none ↦ none
        | some sess ↦
            if is_over now sess
              || (not (same_audience sess.audience audience) || not (sess.user_id == user_id))
            then none
            else find_user_by_id sess.user_id db
      ]

  -- `AuthenticateAdminBearer`.
  unfoldable pub authenticate_admin_bearer : ℕ → Option (ℕ × ℕ) → Db → Result AuthUser
  unfolding bearer_user
  authenticate_admin_bearer now bearer db =
      elim (bearer_user now Audience.admin_audience bearer db) [
        | none ↦ err unauthorized
        | some u ↦ if is_active_user u.status then ok (build_auth_user u db) else err unauthorized
      ]

  -- `AuthenticateStoreBearer`.
  unfoldable pub authenticate_store_bearer : ℕ → Option (ℕ × ℕ) → Db → Result AuthUser
  unfolding bearer_user
  authenticate_store_bearer now bearer db =
      elim (bearer_user now Audience.store_audience bearer db) [
        | none ↦ err unauthorized
        | some u ↦
            if not (store_session_allowed_status u.status) || is_pending_email u.status
            then err unauthorized
            else if is_customer_blocked u.id db
            then err forbidden
            else ok (build_auth_user u db)
      ]

  -- `Logout`.
  unfoldable pub logout : ℕ → ℕ → Db → Db
  unfolding revoke_session
  logout now token db = elim (find_session_by_token_hash (s.security.hash_token token) db) [
    | none ↦ db
    | some sess ↦ revoke_session now sess.id db
  ]

  -- `LogoutAdminBearer` and `LogoutStoreBearer`, which differ in the parser of the token.
  unfoldable pub logout_bearer : ℕ → Option (ℕ × ℕ) → Db → Db
  unfolding revoke_session
  logout_bearer now none db = db
  logout_bearer now (some (user_id, session_id)) db = revoke_session now session_id db

  -- `SetupMFA`, with the secret that is generated.
  unfoldable pub setup_mfa : ℕ → ℕ → Db → Db
  unfolding update_mfa
  setup_mfa user_id secret = update_mfa user_id secret false

  -- `VerifyMFA`.
  unfoldable pub verify_mfa : ℕ → ℕ → Tx Db (Unit {0})
  unfolding update_mfa
  verify_mfa user_id code db = elim (find_user_by_id user_id db) [
    | none ↦ err not_found
    | some u ↦
        if s.security.validate_totp code u.mfa_secret
        then ok (tt, update_mfa user_id u.mfa_secret true db)
        else err invalid_credentials
  ]
