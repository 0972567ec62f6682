-- ===== src/Identity/Staff/Accepting.antt =====
-- Administrators after an invitation is accepted (`AcceptInvitation`, admin_users.go), which takes no
-- care of the last one.
use pontoqap.Base.{
  ℕ, ◌≡◌, ◌<◌, refl, true, false, Option-cases, some, arith, Bool-cases, ◌⊎◌, inl, inr,
  if◌then◌else◌,
}
use pontoqap.Store.Schema.{Db}
use pontoqap.Store.Shop.{User, UserStatus, Invitation}
use pontoqap.Store.Table.{count_where}
use pontoqap.Store.Table.Keys.{find_by, update_by}
use pontoqap.Store.Tx.{ok}
use pontoqap.Identity.{Security, user_key, is_active_user, is_system_admin, find_user_by_email}
use pontoqap.Identity.Staff.{replace_user_role}
use pontoqap.Identity.Staff.Roles.{
  others-le, update_by-id, activated-le, replaced, roles_of-replaced_other, promoted-le, demoted-le,
  is_active_admin, is_other,
}
use pontoqap.Identity.Staff.Replacing.{HasAdmin, replaced-leading}
use pontoqap.Identity.Invitations.{accept_as, accept_invitation}

-- What accepting writes to the user.
abbrev joined : ℕ → User → User → User
joined hash u x =
    if is_active_user u.status
    then x
    else record x { password_hash = hash; status = UserStatus.active_user }

-- The users and roles after an invitation is accepted, of the user whose address it is for.
pub record IsAccepted (sec : Security) (token : ℕ) (i : Invitation) (u : User) (db db' : Db)
    : Type 0 where
  pub sent :
      find_by (λ (x : Invitation). x.token_hash) (sec.hash_token token) db.accounts.invitations
      ≡ some i
  pub addressed : find_user_by_email i.email db ≡ some u
  pub hash : ℕ
  pub users : db'.accounts.users ≡ update_by user_key u.id (joined hash u) db.accounts.users
  pub roles : db'.accounts.user_roles ≡ replaced u.id i.role db.accounts.user_roles

accept_as-users :
    (now hash : ℕ) (u : User) (i : Invitation) (db : Db)
    → (accept_as now hash u i db).accounts.users
      ≡ update_by user_key u.id (joined hash u) db.accounts.users
unfolding accept_as replace_user_role
accept_as-users now hash u i db = elim (Bool-cases (is_active_user u.status)) [
  | inl active ↦ ground (arith, update_by-id u.id db.accounts.users)
  | inr other ↦ ground arith
]

accept_as-roles :
    (now hash : ℕ) (u : User) (i : Invitation) (db : Db)
    → (accept_as now hash u i db).accounts.user_roles ≡ replaced u.id i.role db.accounts.user_roles
unfolding accept_as replace_user_role
accept_as-roles now hash u i db = ground arith

pub accept_invitation-IsAccepted :
    (sec : Security) (now token password : ℕ) (db db' : Db)
    → accept_invitation sec now token password db ≡ ok (tt, db')
    → (i : Invitation) × (u : User) × IsAccepted sec token i u db db'
unfolding accept_invitation
accept_invitation-IsAccepted sec now token password db db' e =
    elim (Option-cases
      (find_by (λ (x : Invitation). x.token_hash) (sec.hash_token token) db.accounts.invitations)) [
        | inl missing ↦ absurd (ground arith)
        | inr (i, sent) ↦ elim (Option-cases (sec.hash_password password)) [
          | inl failed ↦ absurd (ground arith)
          | inr (hash, drawn) ↦ elim (Option-cases (find_user_by_email i.email db)) [
            | inl missing ↦ absurd (ground arith)
            | inr (u, addressed) ↦
                let done : db' ≡ accept_as now hash u i db = ground arith in
                (
                  i,
                  u,
                  record {
                    sent = sent;
                    addressed = addressed;
                    hash = hash;
                    users = ground (arith, done, accept_as-users now hash u i db);
                    roles = ground (arith, done, accept_as-roles now hash u i db);
                  },
                )
          ]
        ]
      ]

-- An administrator remains where the invitation is to be one, or where there is another one.
pub IsAccepted-HasAdmin :
    {sec : Security} {token : ℕ} {i : Invitation} {u : User} {db db' : Db}
    → IsAccepted sec token i u db db'
    → HasAdmin db
    → (is_system_admin i.role ≡ true)
      ⊎ (0 < count_where (is_other u.id db.accounts.user_roles) db.accounts.users)
    → HasAdmin db'
IsAccepted-HasAdmin {i = i} {u = u} {db = db} {db' = db'} a h safe =
    let rs = db.accounts.user_roles in
    let us = db.accounts.users in
    let f = joined a.hash u in
    record {
      alive = elim safe [
        | inl admin ↦ elim (Bool-cases (is_active_user u.status)) [
          | inl active ↦ ground (
            arith,
            a.users,
            a.roles,
            update_by-id u.id us,
            promoted-le u.id i.role rs us admin,
            h.alive,
          )
          | inr other ↦
              let join : User → User =
                λ x. record x { password_hash = a.hash; status = UserStatus.active_user } in
              ground (
                arith,
                a.users,
                a.roles,
                activated-le u.id join rs us (λ x. (refl, refl)),
                promoted-le u.id i.role rs (update_by user_key u.id join us) admin,
                h.alive,
              )
        ]
        | inr others ↦ ground (
          arith,
          a.users,
          a.roles,
          others-le u.id f rs (replaced u.id i.role rs) us
              (λ x n. roles_of-replaced_other x u.id i.role rs n),
        )
      ];
      leading = λ user admin. ground (arith, a.roles, replaced-leading u.id i.role db h user);
    }

-- An invitation to be anything but an administrator, accepted by the only one, leaves the panel
-- without any.
pub accept_invitation-demotes :
    (sec : Security) (now token password : ℕ) (i : Invitation) (u : User) (db : Db) {db' : Db}
    → find_by (λ (x : Invitation). x.token_hash) (sec.hash_token token) db.accounts.invitations
      ≡ some i
    → find_user_by_email i.email db ≡ some u
    → is_system_admin i.role ≡ false
    → count_where (is_other u.id db.accounts.user_roles) db.accounts.users ≡ 0
    → accept_invitation sec now token password db ≡ ok (tt, db')
    → count_where (is_active_admin db'.accounts.user_roles) db'.accounts.users ≡ 0
accept_invitation-demotes sec now token password i u db {db'} sent addressed role alone e =
    let (i', u', a) = accept_invitation-IsAccepted sec now token password db db' e in
    let same : i' ≡ i = ground (arith, a.sent) in
    let same_user : u' ≡ u = ground (arith, a.addressed, same) in
    let rs = db.accounts.user_roles in
    let f = joined a.hash u in
    ground (
      arith,
      a.users,
      a.roles,
      same,
      same_user,
      demoted-le u.id i.role f rs db.accounts.users role (λ x. ground arith),
    )
