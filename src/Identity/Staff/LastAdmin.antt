-- ===== src/Identity/Staff/LastAdmin.antt =====
-- Active administrators through the operations on staff of admin_users.go and the first administrator;
-- Accepting is about an invitation that the only administrator accepts.
use pontoqap.Base.{Bool, [], ◌⊎◌, ℕ, ◌≡◌, ◌<◌, true, Option, none, some, arith}
use pontoqap.Store.Shop.{Invitation, User, UserStatus, Role}
use pontoqap.Identity.{is_system_admin, find_user_by_email, AuthUser, roles_of}
use pontoqap.Identity.Staff.{
  create_bootstrap_system_admin, set_user_role, set_user_status, assign_staff_role_from_customer,
  revoke_staff_sessions,
}
use pontoqap.Identity.Staff.Accepting.{accept_invitation-IsAccepted, IsAccepted-HasAdmin}
use pontoqap.Identity.Verification.{MessageIds, publish_outbox}
use pontoqap.Identity.Invitations.{
  create_invitation, issue_invitation, revoke_invitation, accept_invitation,
}
use pontoqap.Store.Schema.{Db}
use pontoqap.Store.Table.{count_where}
use pontoqap.Store.Table.Keys.{find_by}
use pontoqap.Store.Tx.{ok}
use pontoqap.Identity.Login.{Identity, authenticate_admin_bearer}
use pontoqap.Identity.Staff.Roles.{is_other}
use pontoqap.Identity.Staff.Replacing.{HasAdmin, same_accounts}
use pontoqap.Identity.Staff.Keeping.{
  set_user_role-HasAdmin, assign_staff_role-HasAdmin, set_user_status-HasAdmin,
  create_bootstrap_system_admin-HasAdmin,
}

-- What is done to staff, from the tables before an operation that succeeds to those after it: every
-- operation of admin_users.go that writes, and the first administrator, who is a new user. Who
-- changes a role of staff is signed in. An invitation is to be an administrator, or there is an
-- active administrator beside the user whose address it is for.
pub data StaffStep (s : Identity) (now : ℕ) : Db → Db → Type 0 where
  status_set :
      {db db' : Db} (actor : AuthUser) (target : ℕ) (status : Option UserStatus)
      (password code : Option ℕ)
      → set_user_status s.security now actor target status password code db ≡ ok (tt, db')
      → StaffStep s now db db'
  role_set :
      {db db' : Db} (actor : AuthUser) (bearer : Option (ℕ × ℕ)) (target : ℕ) (role : Option Role)
      (password code : Option ℕ)
      → authenticate_admin_bearer s now bearer db ≡ ok actor
      → set_user_role s.security now actor target role password code db ≡ ok (tt, db')
      → StaffStep s now db db'
  role_assigned :
      {db db' : Db} (actor : AuthUser) (customer_id : ℕ) (role : Option Role)
      (password code : Option ℕ)
      → assign_staff_role_from_customer s.security now actor customer_id role password code db
        ≡ ok (tt, db')
      → StaffStep s now db db'
  sessions_revoked :
      {db db' : Db} (actor : AuthUser) (target : ℕ) (password code : Option ℕ)
      → revoke_staff_sessions s.security now actor target password code db ≡ ok (tt, db')
      → StaffStep s now db db'
  invitation_created :
      {db db' : Db} (ids : MessageIds) (actor : AuthUser) (email : ℕ) (empty : Bool)
      (role : Option Role)
      → create_invitation s.security now ids actor email empty role db ≡ ok (tt, db')
      → StaffStep s now db db'
  invitation_revoked :
      {db db' : Db} (id : ℕ) → revoke_invitation now id db ≡ ok (tt, db') → StaffStep s now db db'
  invitation_accepted :
      {db db' : Db} (token password : ℕ)
      → ((i : Invitation) (u : User)
          → find_by
              (λ (x : Invitation). x.token_hash)
              (s.security.hash_token token)
              db.accounts.invitations
            ≡ some i
          → find_user_by_email i.email db ≡ some u
          → (is_system_admin i.role ≡ true)
            ⊎ (0 < count_where (is_other u.id db.accounts.user_roles) db.accounts.users))
      → accept_invitation s.security now token password db ≡ ok (tt, db')
      → StaffStep s now db db'
  bootstrapped :
      {db : Db} (new_user email password_hash : ℕ)
      → roles_of new_user db.accounts.user_roles ≡ []
      → StaffStep s now db (create_bootstrap_system_admin new_user email password_hash db)

-- No step leaves the panel without an active administrator: if there is one, and the role of an
-- administrator comes first among the staff roles of those who have it, so it is after the step.
pub StaffStep-HasAdmin :
    (s : Identity) (now : ℕ) (db db' : Db) → StaffStep s now db db' → HasAdmin db → HasAdmin db'
unfolding revoke_staff_sessions create_invitation issue_invitation revoke_invitation publish_outbox
StaffStep-HasAdmin s now db db' (status_set actor target status password code e) h =
    set_user_status-HasAdmin s now actor target status password code db db' e h
StaffStep-HasAdmin s now db db' (role_set actor bearer target role password code signed e) h =
    set_user_role-HasAdmin s now actor bearer target role password code db db' signed e h
StaffStep-HasAdmin s now db db' (role_assigned actor customer_id role password code e) h =
    assign_staff_role-HasAdmin s now actor customer_id role password code db db' e h
StaffStep-HasAdmin s now db db' (sessions_revoked actor target password code e) h =
    same_accounts db db' (ground arith) (ground arith) h
StaffStep-HasAdmin s now db db' (invitation_created ids actor email empty none e) h =
    absurd (ground arith)
StaffStep-HasAdmin s now db db' (invitation_created ids actor email empty (some role) e) h =
    same_accounts db db' (ground arith) (ground arith) h
StaffStep-HasAdmin s now db db' (invitation_revoked id e) h =
    same_accounts db db' (ground arith) (ground arith) h
StaffStep-HasAdmin s now db db' (invitation_accepted token password safe e) h =
    let (i, u, a) = accept_invitation-IsAccepted s.security now token password db db' e in
    IsAccepted-HasAdmin {i = i} {u = u} {db = db} {db' = db'} a h (safe i u a.sent a.addressed)
StaffStep-HasAdmin s now db _ (bootstrapped new_user email password_hash new) h =
    create_bootstrap_system_admin-HasAdmin new_user email password_hash db new h
