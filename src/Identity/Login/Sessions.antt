-- ===== src/Identity/Login/Sessions.antt =====
-- Signing in opens one session and ends the others (service.go).
use pontoqap.Base.{
  ℕ, ◌≡◌, ◌≤◌, refl, Bool, false, Option, Option-cases, none, some, List, [], ◌∷◌, ◌++◌, ◌==◌,
  arith, inl, inr, if◌then◌else◌,
}
use pontoqap.Store.Schema.{Db}
use pontoqap.Store.Shop.{User, Session, Audience}
use pontoqap.Store.Table.{select_first, update_where}
use pontoqap.Store.Table.Keys.{find_by, update_by, IsUnique, find_by-append, find_by-update_by}
use pontoqap.Store.Table.Counts.{find_by-select_first}
use pontoqap.Store.Tx.{ok, err, unauthorized}
use pontoqap.Identity.{
  AuthUser, build_auth_user, find_customer_id_by_user, user_key, list_user_roles,
  find_user_by_email, find_user_by_id, find_session_by_token_hash, live_for, revoked,
  revoke_user_sessions, update_user_login_state, create_session, login_state,
  store_session_allowed_status, is_pending_email,
}
use pontoqap.Identity.Login.{
  Identity, LoginInput, signed_in, login, login_barred, audience_guard, open_session,
  authenticate_session, new_session,
}

abbrev pub by_hash : Session → ℕ
by_hash s = s.token_hash

-- Revoking some sessions leaves them where they are.
find-revoked :
    (h now : ℕ) (p : Session → Bool) (t : List Session)
    → find_by by_hash h (update_where p (revoked now) t)
      ≡ (elim (find_by by_hash h t) as (λ _. Option Session) [
        | none ↦ none
        | some s ↦ some (if p s then revoked now s else s)
      ])
unfolding select_first update_where
find-revoked h now p [] = refl
find-revoked h now p (x ∷ xs) = ground (arith, find-revoked h now p xs)

-- A row that is found is found before rows that are inserted.
found-append :
    (h : ℕ) (xs ys : List Session) {r : Session}
    → find_by by_hash h xs ≡ some r
    → find_by by_hash h (xs ++ ys) ≡ some r
unfolding select_first
found-append h [] ys e = cc
found-append h (x ∷ xs) ys {r} e = ground (arith, found-append h xs ys {r = r})

module _ (s : Identity) (now id token : ℕ) (i : LoginInput) (db : Db) where
  -- What a sign-in that succeeds has written.
  pub record IsSignedIn (a : Audience) (u : User) (actor : AuthUser) (expires_at : ℕ) (db' : Db)
      : Type 0 where
    pub known : find_user_by_email i.email db ≡ some u
    pub asked : i.audience ≡ some a
    pub let_in : is_pending_email u.status ≡ false
    pub actor_user : actor.user ≡ u
    pub actor_roles : actor.roles ≡ list_user_roles u.id db'
    pub actor_customer : actor.customer_id ≡ find_customer_id_by_user u.id db'
    pub users :
        db'.accounts.users
        ≡ update_by user_key u.id (login_state 0 none (some now)) db.accounts.users
    pub sessions :
        db'.accounts.sessions
        ≡ update_where (live_for u.id a) (revoked now) db.accounts.sessions
          ++ new_session s now id token a u ∷ []
    pub until : expires_at ≡ (new_session s now id token a u).expires_at

  login-IsSignedIn :
      {token' expires_at : ℕ} {actor : AuthUser} {db' : Db}
      → login s now id token i db ≡ (ok (signed_in token' expires_at actor), db')
      → (a : Audience) × (u : User) × IsSignedIn a u actor expires_at db'
  unfolding login open_session audience_guard login_barred build_auth_user update_user_login_state
      revoke_user_sessions create_session
  login-IsSignedIn {token'} {expires_at} {actor} {db'} e =
      elim (Option-cases (find_user_by_email i.email db)) [
        | inl missing ↦ absurd (ground arith)
        | inr (u, known) ↦ elim (Option-cases i.audience) [
          | inl other ↦ absurd (ground arith)
          | inr (a, asked) ↦ (
            a,
            u,
            record {
              known = known;
              asked = asked;
              let_in = ground arith;
              actor_user = ground arith;
              actor_roles = ground arith;
              actor_customer = ground arith;
              users = ground arith;
              sessions = ground arith;
              until = ground arith;
            },
          )
        ]
      ]

  -- The session that was opened is the one that its token finds, if no session had it.
  session_found :
      {a : Audience} {u : User} {actor : AuthUser} {expires_at : ℕ} {db' : Db}
      → IsSignedIn a u actor expires_at db'
      → find_session_by_token_hash (s.security.hash_token token) db ≡ none
      → find_session_by_token_hash (s.security.hash_token token) db'
        ≡ some (new_session s now id token a u)
  unfolding select_first
  session_found {a} {u} g new =
      let h = s.security.hash_token token in
      let before = update_where (live_for u.id a) (revoked now) db.accounts.sessions in
      ground (
        arith,
        g.sessions,
        find-revoked h now (live_for u.id a) db.accounts.sessions,
        find_by-append by_hash h before (new_session s now id token a u ∷ []),
      )

  user_found :
      {a : Audience} {u : User} {actor : AuthUser} {expires_at : ℕ} {db' : Db}
      → IsSignedIn a u actor expires_at db'
      → IsUnique user_key db.accounts.users
      → find_user_by_id u.id db' ≡ some (login_state 0 none (some now) u)
  user_found {u = u} g unique = ground (
    arith,
    g.users,
    find_by-select_first (λ (x : User). x.email == i.email) user_key db.accounts.users {r = u}
        unique g.known,
    find_by-update_by user_key u.id u.id (login_state 0 none (some now)) db.accounts.users
        (λ r. refl),
  )

  -- After a sign-in, with identifiers of users unique and a token that no session had: until the
  -- session expires its token is taken for the user who signed in, with the roles and the customer
  -- that the sign-in gave and the login state that it wrote, if the user's status is one that
  -- sessions are allowed, and it is refused if not.
  pub authenticate_session-login :
      (a : Audience) (later : ℕ) {token' expires_at : ℕ} {actor : AuthUser} {db' : Db}
      → IsUnique user_key db.accounts.users
      → find_session_by_token_hash (s.security.hash_token token) db ≡ none
      → i.audience ≡ some a
      → login s now id token i db ≡ (ok (signed_in token' expires_at actor), db')
      → later ≤ expires_at
      → authenticate_session s later token a db' ≡ (
          if store_session_allowed_status actor.user.status
          then ok (record actor { user = login_state 0 none (some now) actor.user })
          else err unauthorized)
  unfolding authenticate_session build_auth_user
  authenticate_session-login a later {token'} {expires_at} {actor} {db'} unique new asked e alive =
      let (a', u, g) =
        login-IsSignedIn {token' = token'} {expires_at = expires_at} {actor = actor} {db' = db'}
          e in
      let same : a' ≡ a = ground (arith, g.asked) in
      ground (
        arith,
        session_found {a = a'} {u = u} {actor = actor} {expires_at = expires_at} {db' = db'} g new,
        user_found {a = a'} {u = u} {actor = actor} {expires_at = expires_at} {db' = db'} g unique,
        g.until,
        g.let_in,
        g.actor_user,
        g.actor_roles,
        g.actor_customer,
      )

  -- A sign-in ends every earlier session of the user for the audience: none of their tokens is taken
  -- any more.
  pub login-ends :
      (a : Audience) (other later : ℕ) {token' expires_at : ℕ} {actor : AuthUser} {sess : Session}
      {db' : Db}
      → i.audience ≡ some a
      → login s now id token i db ≡ (ok (signed_in token' expires_at actor), db')
      → find_session_by_token_hash (s.security.hash_token other) db ≡ some sess
      → sess.user_id ≡ actor.user.id
      → sess.audience ≡ a
      → authenticate_session s later other a db' ≡ err unauthorized
  unfolding authenticate_session select_first
  login-ends a other later {token'} {expires_at} {actor} {sess} {db'} asked e found own same =
      let (a', u, g) =
        login-IsSignedIn {token' = token'} {expires_at = expires_at} {actor = actor} {db' = db'}
          e in
      let h = s.security.hash_token other in
      let ended = if live_for u.id a' sess then revoked now sess else sess in
      let before = update_where (live_for u.id a') (revoked now) db.accounts.sessions in
      let kept = find-revoked h now (live_for u.id a') db.accounts.sessions in
      let there : find_by by_hash h before ≡ some ended = ground (arith, kept, found) in
      ground (
        arith,
        g.sessions,
        g.asked,
        g.actor_user,
        found-append h before (new_session s now id token a' u ∷ []) {r = ended} there,
      )
