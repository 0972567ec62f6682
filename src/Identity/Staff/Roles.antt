-- ===== src/Identity/Staff/Roles.antt =====
-- Who is an administrator after a role is replaced (ReplaceUserRoleTx, CountActiveSystemAdmins).
use pontoqap.Base.{
  ℕ, ◌≡◌, ◌≤◌, ◌<◌, refl, ap, Bool, true, false, ◌&&◌, not, none, some, List, [], ◌∷◌, ◌++◌, ◌==◌,
  arith, Bool-cases, inl, inr, if◌then◌else◌,
}
use mathlib.Core.List.{append-nil}
use pontoqap.Store.Shop.{User, Role, UserRole}
use pontoqap.Store.Table.{select_first, count_where, update_where, delete_where}
use pontoqap.Store.Table.Keys.{find_by, update_by}
use pontoqap.Identity.{
  user_key, is_active_user, is_staff_role, is_system_admin, has_system_admin_role, has_staff_role,
  roles_of,
}
use pontoqap.Identity.Staff.{is_staff_of, first_staff_role, is_admin_role}

-- An active user with the role of an administrator.
abbrev pub is_active_admin : List UserRole → User → Bool
is_active_admin roles u = is_active_user u.status && has_system_admin_role (roles_of u.id roles)

-- Another active administrator.
abbrev pub is_other : ℕ → List UserRole → User → Bool
is_other excluded roles u =
    (is_active_user u.status && not (u.id == excluded))
    && has_system_admin_role (roles_of u.id roles)

pub same_roles : (a b : ℕ) (roles : List UserRole) → a ≡ b → roles_of a roles ≡ roles_of b roles
same_roles a b roles e = ap (λ u. roles_of u roles) e

pub roles_of-append :
    (u : ℕ) (xs ys : List UserRole) → roles_of u (xs ++ ys) ≡ roles_of u xs ++ roles_of u ys
unfolding roles_of
roles_of-append u [] ys = refl
roles_of-append u (x ∷ xs) ys = ground (arith, roles_of-append u xs ys)

roles_of-delete_other :
    (u target : ℕ) (rs : List UserRole)
    → (u == target) ≡ false
    → roles_of u (delete_where (is_staff_of target) rs) ≡ roles_of u rs
unfolding roles_of delete_where
roles_of-delete_other u target [] h = refl
roles_of-delete_other u target (x ∷ xs) h = ground (arith, roles_of-delete_other u target xs)

pub others-le :
    (target : ℕ) (f : User → User) (roles roles' : List UserRole) (us : List User)
    → ((u : ℕ) → (u == target) ≡ false → roles_of u roles' ≡ roles_of u roles)
    → count_where (is_other target roles) us
      ≤ count_where (is_active_admin roles') (update_by user_key target f us)
unfolding count_where update_where
others-le target f roles roles' [] h = omega arith
others-le target f roles roles' (x ∷ xs) h =
    ground (arith, h x.id, others-le target f roles roles' xs h)

pub le-others :
    (target : ℕ) (roles : List UserRole) (us : List User)
    → has_system_admin_role (roles_of target roles) ≡ false
    → count_where (is_active_admin roles) us ≤ count_where (is_other target roles) us
unfolding count_where
le-others target roles [] h = omega arith
le-others target roles (x ∷ xs) h = elim (Bool-cases (x.id == target)) [
  | inl hit ↦ ground (arith, le-others target roles xs h, same_roles x.id target roles)
  | inr miss ↦ ground (arith, le-others target roles xs h)
]

pub other_found :
    (target actor : ℕ) (roles : List UserRole) (us : List User) {u : User}
    → find_by user_key actor us ≡ some u
    → is_active_user u.status ≡ true
    → has_system_admin_role (roles_of actor roles) ≡ true
    → (actor == target) ≡ false
    → 0 < count_where (is_other target roles) us
unfolding count_where select_first
other_found target actor roles [] e a r n = cc
other_found target actor roles (x ∷ xs) {u} e a r n = elim (Bool-cases (x.id == actor)) [
  | inl hit ↦ ground (arith, same_roles x.id actor roles)
  | inr miss ↦ ground (arith, other_found target actor roles xs {u = u})
]

pub update_by-id : (target : ℕ) (us : List User) → update_by user_key target (λ u. u) us ≡ us
unfolding update_where
update_by-id target [] = refl
update_by-id target (x ∷ xs) = ground (arith, update_by-id target xs)

-- A user who is made active is no administrator the less.
pub activated-le :
    (target : ℕ) (f : User → User) (roles : List UserRole) (us : List User)
    → ((u : User) → ((f u).id ≡ u.id) × (is_active_user (f u).status ≡ true))
    → count_where (is_active_admin roles) us
      ≤ count_where (is_active_admin roles) (update_by user_key target f us)
unfolding count_where update_where
activated-le target f roles [] h = omega arith
activated-le target f roles (x ∷ xs) h =
    ground (arith, h x, same_roles (f x).id x.id roles (h x).0, activated-le target f roles xs h)

no_staff_left :
    (user : ℕ) (rs : List UserRole)
    → has_staff_role (roles_of user (delete_where (is_staff_of user) rs)) ≡ false
unfolding has_staff_role roles_of delete_where
no_staff_left user [] = refl
no_staff_left user (x ∷ xs) = ground (arith, no_staff_left user xs)

-- Where no role is of staff, one that is added counts alone.
added_role :
    (role : Role) (rs : List Role)
    → has_staff_role rs ≡ false
    → (has_system_admin_role (rs ++ role ∷ []) ≡ is_system_admin role)
      × (first_staff_role (rs ++ role ∷ []) ≡ (if is_staff_role role then some role else none))
unfolding has_staff_role has_system_admin_role first_staff_role
added_role role [] h = ground arith
added_role role (x ∷ xs) h = ground (arith, added_role role xs)

abbrev pub replaced : ℕ → Role → List UserRole → List UserRole
replaced user role rs =
    delete_where (is_staff_of user) rs ++ record { user_id = user; code = role } ∷ []

pub roles_of-replaced_other :
    (user role_user : ℕ) (role : Role) (rs : List UserRole)
    → (user == role_user) ≡ false
    → roles_of user (replaced role_user role rs) ≡ roles_of user rs
unfolding roles_of
roles_of-replaced_other user role_user role rs h = ground (
  arith,
  roles_of-append user (delete_where (is_staff_of role_user) rs)
      (record { user_id = role_user; code = role } ∷ []),
  roles_of-delete_other user role_user rs h,
  append-nil (roles_of user rs),
)

roles_of-replaced :
    (user : ℕ) (role : Role) (rs : List UserRole)
    → roles_of user (replaced user role rs)
      ≡ roles_of user (delete_where (is_staff_of user) rs) ++ role ∷ []
unfolding roles_of
roles_of-replaced user role rs = ground (
  arith,
  roles_of-append user (delete_where (is_staff_of user) rs)
      (record { user_id = user; code = role } ∷ []),
)

pub leading_replaced :
    (user : ℕ) (role : Role) (rs : List UserRole)
    → has_system_admin_role (roles_of user (replaced user role rs)) ≡ true
    → is_admin_role (first_staff_role (roles_of user (replaced user role rs))) ≡ true
leading_replaced user role rs h =
    let kept = roles_of user (delete_where (is_staff_of user) rs) in
    let (is_admin, first) = added_role role kept (no_staff_left user rs) in
    ground (arith, roles_of-replaced user role rs, is_admin, first)

promoted_roles :
    (user target : ℕ) (role : Role) (rs : List UserRole)
    → is_system_admin role ≡ true
    → has_system_admin_role (roles_of user rs) ≡ true
    → has_system_admin_role (roles_of user (replaced target role rs)) ≡ true
promoted_roles user target role rs new h = elim (Bool-cases (user == target)) [
  | inl hit ↦
      let same : user ≡ target = ground arith in
      let (is_admin, first) =
        added_role role (roles_of target (delete_where (is_staff_of target) rs))
          (no_staff_left target rs) in
      ground (
        arith,
        same_roles user target (replaced target role rs) same,
        roles_of-replaced target role rs,
        is_admin,
      )
  | inr miss ↦ ground (arith, roles_of-replaced_other user target role rs miss)
]

pub promoted-le :
    (target : ℕ) (role : Role) (rs : List UserRole) (us : List User)
    → is_system_admin role ≡ true
    → count_where (is_active_admin rs) us
      ≤ count_where (is_active_admin (replaced target role rs)) us
unfolding count_where
promoted-le target role rs [] h = omega arith
promoted-le target role rs (x ∷ xs) h =
    ground (arith, promoted_roles x.id target role rs h, promoted-le target role rs xs h)

-- Who is given another role is no administrator.
pub demoted-le :
    (target : ℕ) (role : Role) (f : User → User) (rs : List UserRole) (us : List User)
    → is_system_admin role ≡ false
    → ((u : User) → (f u).id ≡ u.id)
    → count_where (is_active_admin (replaced target role rs)) (update_by user_key target f us)
      ≤ count_where (is_other target rs) us
unfolding count_where update_where
demoted-le target role f rs [] h k = omega arith
demoted-le target role f rs (x ∷ xs) h k = elim (Bool-cases (x.id == target)) [
  | inl hit ↦
      let same : (f x).id ≡ target = ground (arith, k x) in
      let kept = roles_of target (delete_where (is_staff_of target) rs) in
      let (is_admin, first) = added_role role kept (no_staff_left target rs) in
      ground (
        arith,
        same_roles (f x).id target (replaced target role rs) same,
        roles_of-replaced target role rs,
        is_admin,
        demoted-le target role f rs xs h k,
      )
  | inr miss ↦
      ground (
        arith,
        roles_of-replaced_other x.id target role rs miss,
        demoted-le target role f rs xs h k,
      )
]

-- A role that is added takes none away.
kept_admin :
    (xs ys : List Role) → has_system_admin_role xs ≡ true → has_system_admin_role (xs ++ ys) ≡ true
unfolding has_system_admin_role
kept_admin [] ys h = cc
kept_admin (x ∷ xs) ys h = ground (arith, kept_admin xs ys)

pub grown-le :
    (r : UserRole) (u : User) (rs : List UserRole) (us : List User)
    → count_where (is_active_admin rs) us
      ≤ count_where (is_active_admin (rs ++ r ∷ [])) (us ++ u ∷ [])
unfolding count_where
grown-le r u rs [] = omega arith
grown-le r u rs (x ∷ xs) = ground (
  arith,
  roles_of-append x.id rs (r ∷ []),
  kept_admin (roles_of x.id rs) (roles_of x.id (r ∷ [])),
  grown-le r u rs xs,
)
