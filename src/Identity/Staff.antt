-- ===== src/Identity/Staff.antt =====
-- Roles and statuses of staff: backend/internal/identity/admin_users.go and
-- identity/postgres/admin_users.go. A role that an operation is given is the code that
-- `RoleCodeByID` finds for it, `none` where there is no such role. Audit records are left out.
pub mod Roles
pub mod Replacing
pub mod Accepting
pub mod Keeping
pub mod LastAdmin
use pontoqap.Base.{
  ℕ, ◌+◌, Bool, true, false, ◌&&◌, ◌||◌, not, Option, none, some, List, [], ◌∷◌, ◌==◌, leb,
  if◌then◌else◌,
}
use pontoqap.Store.Schema.{Customer, Db}
use pontoqap.Store.Shop.{User, UserStatus, Audience, Role, UserRole}
use pontoqap.Store.Table.{select_first, count_where, delete_where, insert_row}
use pontoqap.Store.Table.Keys.{find_by}
use pontoqap.Store.Tx.{
  Tx, Result, ok, err, Error, throw_if, modify, ◌>>=◌, ◌>>◌, not_found, validation_failed, conflict,
  forbidden,
}
use pontoqap.Billing.Rows.{customer_key}
use pontoqap.Identity.{
  Security, AuthUser, is_staff_role, is_system_admin, has_staff_role, has_system_admin_role,
  list_user_roles, roles_of, find_user_by_id, is_active_user, is_disabled_user, set_user,
  revoke_user_sessions, verify_step_up,
}

-- `ro.code <> 'customer'` for some role of the user.
abbrev pub is_staff_of : ℕ → UserRole → Bool
is_staff_of user r = r.user_id == user && is_staff_role r.code

-- `u.status = 'invited' AND NOT EXISTS (SELECT 1 FROM customers …)`.
abbrev pub is_invited_only : User → Db → Bool
is_invited_only u db =
    (elim u.status [ UserStatus.invited ↦ true | _ ↦ false ])
    && count_where (λ (c : Customer). c.user_id == u.id) db.customers == 0

-- `GetStaffByID`: the user and its roles, if it is staff.
unfoldable pub get_staff_by_id : ℕ → Db → Option (User × List Role)
get_staff_by_id user db = elim (find_user_by_id user db) [
  | none ↦ none
  | some u ↦
      if is_invited_only u db || has_staff_role (list_user_roles user db)
      then some (u, list_user_roles user db)
      else none
]

-- `u.status = 'active' AND u.id <> $1`, for a user who has the role of an administrator.
abbrev pub is_other_admin : ℕ → Db → User → Bool
is_other_admin excluded db u =
    (is_active_user u.status && not (u.id == excluded))
    && has_system_admin_role (list_user_roles u.id db)

-- `CountActiveSystemAdmins`.
unfoldable pub count_active_system_admins : ℕ → Db → ℕ
count_active_system_admins excluded db = count_where (is_other_admin excluded db) db.accounts.users

-- `ensureNotLastActiveAdmin`.
unfoldable pub ensure_not_last_active_admin : ℕ → Tx Db (Unit {0})
unfolding count_active_system_admins
ensure_not_last_active_admin excluded db =
    if count_active_system_admins excluded db == 0 then err forbidden else ok (tt, db)

-- `ReplaceUserRoleTx`: the role of a customer stays.
unfoldable pub replace_user_role : ℕ → Role → Db → Db
replace_user_role user role db = record db {
  accounts = record db.accounts {
    user_roles =
        insert_row (record { user_id = user; code = role })
          (delete_where (is_staff_of user) db.accounts.user_roles);
  };
}

-- `firstStaffRole`.
unfoldable pub first_staff_role : List Role → Option Role
first_staff_role [] = none
first_staff_role (r ∷ rs) = if is_staff_role r then some r else first_staff_role rs

abbrev pub is_admin_role : Option Role → Bool
is_admin_role none = false
is_admin_role (some r) = is_system_admin r

-- The first of the roles of a user, `target.Roles[0]`.
abbrev pub first_role : List Role → Option Role
first_role [] = none
first_role (r ∷ rs) = some r

abbrev pub role_number : Role → ℕ
role_number Role.system_admin = 0
role_number Role.manager = 1
role_number Role.inventory_operator = 2
role_number Role.finance_operator = 3
role_number Role.customer_role = 4

-- `oldRole == newRole`.
abbrev pub is_role : Role → Option Role → Bool
is_role r none = false
is_role r (some r') = role_number r == role_number r'

-- The role that an operation may assign: `err != nil || !IsStaffRole(newRole)` is refused, and only
-- administrators make or change administrators.
unfoldable pub assignable_role : AuthUser → Option Role → List Role → Result Role
assignable_role actor none target = err validation_failed
assignable_role actor (some role) target =
    if not (is_staff_role role)
    then err validation_failed
    else if is_system_admin role && not (has_system_admin_role actor.roles)
    then err forbidden
    else if has_system_admin_role target && not (has_system_admin_role actor.roles)
    then err forbidden
    else ok role

-- The guard that an administrator who loses the role is not the last one, and the new role.
unfoldable pub demote_or_promote : ℕ → ℕ → Option Role → Role → Tx Db (Unit {0})
unfolding ensure_not_last_active_admin replace_user_role revoke_user_sessions
demote_or_promote now user old new db =
    elim (if is_admin_role old && not (is_system_admin new)
      then ensure_not_last_active_admin user db
      else ok (tt, db)) [
        | err e ↦ err e
        | ok (_, db') ↦ ok (
          tt,
          revoke_user_sessions now user Audience.admin_audience (replace_user_role user new db'),
        )
      ]

module _ (sec : Security) (now : ℕ) (actor : AuthUser) where
  -- `SetUserRole`.
  unfoldable pub set_user_role : ℕ → Option Role → Option ℕ → Option ℕ → Tx Db (Unit {0})
  unfolding verify_step_up assignable_role
  set_user_role target role password code db = elim (verify_step_up sec actor.user password code) [
    | err e ↦ err e
    | ok _ ↦ elim (get_staff_by_id target db) [
      | none ↦ err not_found
      | some (u, roles) ↦ elim (assignable_role actor role roles) [
        | err e ↦ err e
        | ok new ↦
            if target == actor.user.id
            then err forbidden
            else demote_or_promote now target (first_role roles) new db
      ]
    ]
  ]

  -- `AssignStaffRoleFromCustomer`.
  unfoldable pub assign_staff_role_from_customer :
      ℕ → Option Role → Option ℕ → Option ℕ → Tx Db (Unit {0})
  unfolding verify_step_up assignable_role first_staff_role
  assign_staff_role_from_customer customer_id role password code db =
      elim (verify_step_up sec actor.user password code) [
        | err e ↦ err e
        | ok _ ↦ elim (find_by customer_key customer_id db.customers) [
          | none ↦ err not_found
          | some c ↦ elim (find_user_by_id c.user_id db) [
            | none ↦ err not_found
            | some u ↦
                if is_disabled_user u.status
                then err validation_failed
                else elim (assignable_role actor role (list_user_roles u.id db)) [
                  | err e ↦ err e
                  | ok new ↦
                      let old = first_staff_role (list_user_roles u.id db) in
                      -- The guard on the last administrator never meets an equal role.
                      if is_role new old
                      then err conflict
                      else demote_or_promote now u.id old new db
                ]
          ]
        ]
      ]

  -- `SetUserStatus`, to one of the three statuses that it takes; `none` is any other text.
  unfoldable pub set_user_status : ℕ → Option UserStatus → Option ℕ → Option ℕ → Tx Db (Unit {0})
  unfolding verify_step_up ensure_not_last_active_admin revoke_user_sessions
  set_user_status target none password code db = err validation_failed
  set_user_status target (some status) password code db =
      let ends =
        is_disabled_user status || (elim status [ UserStatus.suspended ↦ true | _ ↦ false ]) in
      if not (ends || is_active_user status)
      then err validation_failed
      else elim (if ends then verify_step_up sec actor.user password code else ok tt) [
        | err e ↦ err e
        | ok _ ↦ elim (get_staff_by_id target db) [
          | none ↦ err not_found
          | some (u, roles) ↦
              if target == actor.user.id && ends
              then err forbidden
              else elim (if has_system_admin_role roles && ends
                  then ensure_not_last_active_admin target db
                  else ok (tt, db)) [
                    | err e ↦ err e
                    | ok (_, db1) ↦
                        let db2 = set_user target (λ x. record x { status = status }) db1 in
                        ok (
                          tt,
                          if ends
                              then revoke_user_sessions now target Audience.admin_audience db2
                              else db2,
                        )
                  ]
        ]
      ]

  -- `RevokeUserSessions` of the panel.
  unfoldable pub revoke_staff_sessions : ℕ → Option ℕ → Option ℕ → Tx Db (Unit {0})
  unfolding verify_step_up revoke_user_sessions
  revoke_staff_sessions target password code db =
      elim (verify_step_up sec actor.user password code) [
        | err e ↦ err e
        | ok _ ↦ elim (get_staff_by_id target db) [
          | none ↦ err not_found
          | some _ ↦ ok (tt, revoke_user_sessions now target Audience.admin_audience db)
        ]
      ]

-- `CreateBootstrapSystemAdmin`.
unfoldable pub create_bootstrap_system_admin : ℕ → ℕ → ℕ → Db → Db
create_bootstrap_system_admin new_user email password_hash db = record db {
  accounts = record db.accounts {
    users =
        insert_row
          (record {
            id = new_user;
            email = email;
            password_hash = password_hash;
            status = UserStatus.active_user;
            mfa_secret = 0;
            mfa_enabled = false;
            failed_login_attempts = 0;
            locked_until = none;
            last_login_at = none;
            email_verified_at = none;
          })
          db.accounts.users;
    user_roles =
        insert_row (record { user_id = new_user; code = Role.system_admin }) db.accounts.user_roles;
  };
}
