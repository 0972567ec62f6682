-- ===== src/Identity/Staff/Keeping.antt =====
-- Active administrators after a role or a status of staff is set and after the first one joins:
-- `SetUserRole`, `AssignStaffRoleFromCustomer` and `SetUserStatus` of admin_users.go and
-- `CreateBootstrapSystemAdmin` of postgres/admin_users.go.
use mathlib.Core.List.{append-nil}
use pontoqap.Base.{
  [], ◌∷◌, ℕ, ◌≡◌, ◌<◌, refl, true, false, Option, Option-cases, none, some, List, ◌==◌, arith,
  Bool-cases, inl, inr,
}
use pontoqap.Store.Shop.{UserRole, User, UserStatus, Role}
use pontoqap.Identity.Staff.{
  create_bootstrap_system_admin, first_staff_role, is_admin_role, first_role, assignable_role,
  get_staff_by_id, count_active_system_admins, ensure_not_last_active_admin, set_user_role,
  set_user_status, assign_staff_role_from_customer,
}
use pontoqap.Identity.Staff.Roles.{
  same_roles, roles_of-append, grown-le, others-le, le-others, other_found, activated-le, is_other,
}
use pontoqap.Store.Schema.{Db}
use pontoqap.Store.Table.{count_where}
use pontoqap.Store.Table.Keys.{find_by, update_by, find_by-key}
use pontoqap.Store.Tx.{ok, Result-cases}
use pontoqap.Identity.Login.{Identity, authenticate_admin_bearer, bearer_user}
use pontoqap.Identity.{
  AuthUser, user_key, is_active_user, has_system_admin_role, roles_of, revoke_user_sessions,
  find_session_by_id, find_user_by_id, build_auth_user, list_user_roles, verify_step_up,
}
use pontoqap.Billing.Rows.{customer_key}
use pontoqap.Identity.Staff.Replacing.{HasAdmin, demote_or_promote-HasAdmin}

-- Only an administrator gives a role to an administrator.
assignable_role-admin :
    (actor : AuthUser) (role : Option Role) (roles : List Role) {new : Role}
    → assignable_role actor role roles ≡ ok new
    → has_system_admin_role roles ≡ true
    → has_system_admin_role actor.roles ≡ true
unfolding assignable_role
assignable_role-admin actor none roles e h = ground arith
assignable_role-admin actor (some role) roles e h = ground arith

-- Who carries a token of the panel is an active user with the roles of the tables.
bearer-stored :
    (s : Identity) (now : ℕ) (bearer : Option (ℕ × ℕ)) (actor : AuthUser) (db : Db)
    → authenticate_admin_bearer s now bearer db ≡ ok actor
    → (find_by user_key actor.user.id db.accounts.users ≡ some actor.user)
      × ((is_active_user actor.user.status ≡ true)
          × (actor.roles ≡ roles_of actor.user.id db.accounts.user_roles))
unfolding authenticate_admin_bearer bearer_user build_auth_user
bearer-stored s now none actor db e = absurd (ground arith)
bearer-stored s now (some (user_id, session_id)) actor db e =
    elim (Option-cases (find_session_by_id session_id db)) [
      | inl missing ↦ absurd (ground arith)
      | inr (sess, found) ↦ elim (Option-cases (find_user_by_id sess.user_id db)) [
        | inl missing ↦ absurd (ground arith)
        | inr (u, there) ↦
            let own : u.id ≡ sess.user_id =
              find_by-key user_key sess.user_id db.accounts.users there in
            (ground arith, (ground arith, ground arith))
      ]
    ]

-- A role that is given without a guard is given to no administrator, or by another one.
others_of :
    (target actor : ℕ) (actor_user : User) (db : Db)
    → HasAdmin db
    → (has_system_admin_role (roles_of target db.accounts.user_roles) ≡ true
        → (find_by user_key actor db.accounts.users ≡ some actor_user)
          × ((is_active_user actor_user.status ≡ true)
              × ((has_system_admin_role (roles_of actor db.accounts.user_roles) ≡ true)
                  × ((actor == target) ≡ false))))
    → 0 < count_where (is_other target db.accounts.user_roles) db.accounts.users
others_of target actor actor_user db h by_admin =
    let rs = db.accounts.user_roles in
    elim (Bool-cases (has_system_admin_role (roles_of target rs))) [
      | inl admin ↦
          let (found, (active, (rank, apart))) = by_admin admin in
          other_found target actor rs db.accounts.users found active rank apart
      | inr plain ↦ ground (arith, le-others target rs db.accounts.users plain, h.alive)
    ]

pub set_user_role-HasAdmin :
    (s : Identity) (now : ℕ) (actor : AuthUser) (bearer : Option (ℕ × ℕ)) (target : ℕ)
    (role : Option Role) (password code : Option ℕ) (db db' : Db)
    → authenticate_admin_bearer s now bearer db ≡ ok actor
    → set_user_role s.security now actor target role password code db ≡ ok (tt, db')
    → HasAdmin db
    → HasAdmin db'
unfolding set_user_role get_staff_by_id
set_user_role-HasAdmin s now actor bearer target role password code db db' signed e h =
    let (stored, (active, own_roles)) = bearer-stored s now bearer actor db signed in
    let roles = list_user_roles target db in
    elim (Result-cases (verify_step_up s.security actor.user password code)) [
      | inl (wrong, failed) ↦ absurd (ground arith)
      | inr (u, passed) ↦ elim (Result-cases (assignable_role actor role roles)) [
        | inl (wrong, failed) ↦ absurd (ground arith)
        | inr (new, allowed) ↦
            demote_or_promote-HasAdmin now target (first_role roles) new db db' h
              (λ was. others_of target actor.user.id actor.user db h (λ admin. (
                stored,
                (
                  active,
                  (
                    ground (arith, assignable_role-admin actor role roles allowed admin),
                    ground arith,
                  ),
                ),
              )))
              (ground arith)
      ]
    ]

-- A user whose first staff role is not that of an administrator is none.
unled :
    (user : ℕ) (db : Db)
    → HasAdmin db
    → is_admin_role (first_staff_role (roles_of user db.accounts.user_roles)) ≡ false
    → 0 < count_where (is_other user db.accounts.user_roles) db.accounts.users
unled user db h plain =
    let rs = db.accounts.user_roles in
    elim (Bool-cases (has_system_admin_role (roles_of user rs))) [
      | inl admin ↦ absurd (ground (arith, h.leading user admin))
      | inr never ↦ ground (arith, le-others user rs db.accounts.users never, h.alive)
    ]

pub assign_staff_role-HasAdmin :
    (s : Identity) (now : ℕ) (actor : AuthUser) (customer_id : ℕ) (role : Option Role)
    (password code : Option ℕ) (db db' : Db)
    → assign_staff_role_from_customer s.security now actor customer_id role password code db
      ≡ ok (tt, db')
    → HasAdmin db
    → HasAdmin db'
unfolding assign_staff_role_from_customer
assign_staff_role-HasAdmin s now actor customer_id role password code db db' e h =
    elim (Result-cases (verify_step_up s.security actor.user password code)) [
      | inl (wrong, failed) ↦ absurd (ground arith)
      | inr (u, passed) ↦ elim (Option-cases (find_by customer_key customer_id db.customers)) [
        | inl missing ↦ absurd (ground arith)
        | inr (c, found) ↦ elim (Option-cases (find_user_by_id c.user_id db)) [
          | inl missing ↦ absurd (ground arith)
          | inr (user, there) ↦
              let old = first_staff_role (list_user_roles user.id db) in
              elim (Result-cases (assignable_role actor role (list_user_roles user.id db))) [
                | inl (wrong, failed) ↦ absurd (ground arith)
                | inr (new, allowed) ↦
                    demote_or_promote-HasAdmin now user.id old new db db' h (unled user.id db h)
                      (ground arith)
              ]
        ]
      ]
    ]

-- A status that is set touches one user, and not the last administrator unless it is active.
set_user_status-tables :
    (s : Identity) (now : ℕ) (actor : AuthUser) (target : ℕ) (status : UserStatus)
    (password code : Option ℕ) (db db' : Db)
    → set_user_status s.security now actor target (some status) password code db ≡ ok (tt, db')
    → (db'.accounts.users
        ≡ update_by user_key target (λ x. record x { status = status }) db.accounts.users)
      × ((db'.accounts.user_roles ≡ db.accounts.user_roles)
          × (is_active_user status ≡ false
              → has_system_admin_role (roles_of target db.accounts.user_roles) ≡ true
              → 0 < count_where (is_other target db.accounts.user_roles) db.accounts.users))
unfolding set_user_status get_staff_by_id ensure_not_last_active_admin count_active_system_admins
    revoke_user_sessions
set_user_status-tables s now actor target status password code db db' e =
    elim (Result-cases (verify_step_up s.security actor.user password code)) [
      | inl (wrong, failed) ↦ (ground arith, (ground arith, λ ended admin. ground arith))
      | inr (u, passed) ↦ (ground arith, (ground arith, λ ended admin. ground arith))
    ]

pub set_user_status-HasAdmin :
    (s : Identity) (now : ℕ) (actor : AuthUser) (target : ℕ) (status : Option UserStatus)
    (password code : Option ℕ) (db db' : Db)
    → set_user_status s.security now actor target status password code db ≡ ok (tt, db')
    → HasAdmin db
    → HasAdmin db'
unfolding set_user_status
set_user_status-HasAdmin s now actor target none password code db db' e h = absurd (ground arith)
set_user_status-HasAdmin s now actor target (some status) password code db db' e h =
    let rs = db.accounts.user_roles in
    let us = db.accounts.users in
    let (set, (kept, guarded)) =
      set_user_status-tables s now actor target status password code db db' e in
    record {
      alive = elim (Bool-cases (is_active_user status)) [
        | inl active ↦ ground (
          arith,
          activated-le target (λ x. record x { status = status }) rs us (λ u. (refl, active)),
          h.alive,
        )
        | inr ended ↦
            let others : 0 < count_where (is_other target rs) us =
              elim (Bool-cases (has_system_admin_role (roles_of target rs))) [
                | inl admin ↦ guarded ended admin
                | inr plain ↦ ground (arith, le-others target rs us plain, h.alive)
              ] in
            ground
              (arith, others-le target (λ x. record x { status = status }) rs rs us (λ u n. refl))
      ];
      leading = λ user admin. ground (arith, kept, h.leading user);
    }

-- The first administrator joins.
pub create_bootstrap_system_admin-HasAdmin :
    (new_user email password_hash : ℕ) (db : Db)
    → roles_of new_user db.accounts.user_roles ≡ []
    → HasAdmin db
    → HasAdmin (create_bootstrap_system_admin new_user email password_hash db)
unfolding create_bootstrap_system_admin roles_of first_staff_role
create_bootstrap_system_admin-HasAdmin new_user email password_hash db new h =
    let rs = db.accounts.user_roles in
    let r : UserRole = record { user_id = new_user; code = Role.system_admin } in
    let row : User = record {
      id = new_user;
      email = email;
      password_hash = password_hash;
      status = UserStatus.active_user;
      mfa_secret = 0;
      mfa_enabled = false;
      failed_login_attempts = 0;
      locked_until = none;
      last_login_at = none;
      email_verified_at = none;
    } in
    record {
      alive = ground (arith, grown-le r row rs db.accounts.users, h.alive);
      leading = λ user admin. elim (Bool-cases (user == new_user)) [
        | inl hit ↦
            let same : user ≡ new_user = ground arith in
            ground (arith, roles_of-append user rs (r ∷ []), new, same_roles user new_user rs same)
        | inr miss ↦
            ground (
              arith,
              roles_of-append user rs (r ∷ []),
              append-nil (roles_of user rs),
              h.leading user,
            )
      ];
    }
