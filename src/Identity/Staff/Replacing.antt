-- ===== src/Identity/Staff/Replacing.antt =====
-- Active administrators where a role is replaced (ReplaceUserRoleTx and its guard).
use pontoqap.Base.{ℕ, ◌≡◌, ◌<◌, true, false, Option, ◌==◌, arith, Bool-cases, inl, inr}
use pontoqap.Store.Schema.{Db}
use pontoqap.Store.Shop.{Role}
use pontoqap.Store.Table.{count_where}
use pontoqap.Store.Tx.{ok}
use pontoqap.Identity.{is_system_admin, has_system_admin_role, roles_of, revoke_user_sessions}
use pontoqap.Identity.Staff.{
  replace_user_role, first_staff_role, is_admin_role, count_active_system_admins,
  ensure_not_last_active_admin, demote_or_promote,
}
use pontoqap.Identity.Staff.Roles.{
  same_roles, others-le, update_by-id, replaced, roles_of-replaced_other, leading_replaced,
  promoted-le, is_active_admin, is_other,
}

-- An active administrator exists, and the role of an administrator is the first staff role of those
-- who have it.
pub record HasAdmin (db : Db) : Type 0 where
  pub alive : 0 < count_where (is_active_admin db.accounts.user_roles) db.accounts.users
  pub leading :
      (user : ℕ)
      → has_system_admin_role (roles_of user db.accounts.user_roles) ≡ true
      → is_admin_role (first_staff_role (roles_of user db.accounts.user_roles)) ≡ true

pub replaced-leading :
    (target : ℕ) (role : Role) (db : Db)
    → HasAdmin db
    → (user : ℕ)
    → has_system_admin_role (roles_of user (replaced target role db.accounts.user_roles)) ≡ true
    → is_admin_role (first_staff_role (roles_of user (replaced target role db.accounts.user_roles)))
      ≡ true
replaced-leading target role db h user admin = elim (Bool-cases (user == target)) [
  | inl hit ↦
      let rs = db.accounts.user_roles in
      let same : user ≡ target = ground arith in
      ground (
        arith,
        same_roles user target (replaced target role rs) same,
        leading_replaced target role rs,
      )
  | inr miss ↦
      let same = roles_of-replaced_other user target role db.accounts.user_roles miss in
      ground (arith, same, h.leading user)
]

-- A role that is replaced leaves an administrator where there is another one.
replace_user_role-HasAdmin :
    (target : ℕ) (role : Role) (db : Db)
    → HasAdmin db
    → 0 < count_where (is_other target db.accounts.user_roles) db.accounts.users
    → HasAdmin (replace_user_role target role db)
unfolding replace_user_role
replace_user_role-HasAdmin target role db h others =
    let rs = db.accounts.user_roles in
    let us = db.accounts.users in
    record {
      alive = ground (
        arith,
        update_by-id target us,
        others-le target (λ u. u) rs (replaced target role rs) us
            (λ u n. roles_of-replaced_other u target role rs n),
      );
      leading = replaced-leading target role db h;
    }

pub same_accounts :
    (db db' : Db)
    → db'.accounts.users ≡ db.accounts.users
    → db'.accounts.user_roles ≡ db.accounts.user_roles
    → HasAdmin db
    → HasAdmin db'
same_accounts db db' e e' h = record {
  alive = ground (arith, e, e', h.alive);
  leading = λ user admin. ground (arith, e', h.leading user);
}

-- A user whose role is replaced becomes an administrator, or is not the last one.
pub demote_or_promote-HasAdmin :
    (now user : ℕ) (old : Option Role) (new : Role) (db db' : Db)
    → HasAdmin db
    → (is_admin_role old ≡ false
        → 0 < count_where (is_other user db.accounts.user_roles) db.accounts.users)
    → demote_or_promote now user old new db ≡ ok (tt, db')
    → HasAdmin db'
unfolding demote_or_promote ensure_not_last_active_admin count_active_system_admins
    revoke_user_sessions
demote_or_promote-HasAdmin now user old new db db' h others e =
    elim (Bool-cases (is_system_admin new)) [
      | inl admin ↦
          same_accounts (replace_user_role user new db) db' (ground arith) (ground arith) (record {
            alive = ground (
              arith,
              promoted-le user new db.accounts.user_roles db.accounts.users admin,
              h.alive,
            );
            leading = replaced-leading user new db h;
          })
      | inr staff ↦
          same_accounts (replace_user_role user new db) db' (ground arith) (ground arith) (
            replace_user_role-HasAdmin user new db h (elim (Bool-cases (is_admin_role old)) [
              | inl was ↦ ground arith
              | inr other ↦ others other
            ]))
    ]
