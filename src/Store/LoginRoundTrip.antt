-- ===== src/Store/LoginRoundTrip.antt =====
-- The session that `CreateSession` makes for a row of `LoginRecord`, and what it resolves to.
use nexus_control.Base.{
  ℕ, ◌<◌, ◌≡◌, refl, ap, sym, subst, any-In, ◌∙◌, inl, inr, true, false, ◌&&◌, some, List, [], ◌∷◌,
  Text, ltb, leb, ◌==◌, any, count, find, select, Option-cases, Bool-cases, arith, In, find-In,
  select-In, find-key, find-append_new, any_weaken,
}
use nexus_control.Schema.{Db, User, DeploymentMembership, is_active, is_current}
use nexus_control.Tx.{ok}
use nexus_control.Store.Principals.{active_user, active_deployment, active_member}
use nexus_control.Store.Resolution.{
  LoginRecord, earliest, login_row, login_user, login_record, principal_row, resolved_row,
  resolved_session, resolve_session, resolve_session_by_token_hash, stands,
}
use nexus_control.Store.Sessions.{SessionRecord, session_row, create_session, purge_sessions}
use nexus_control.Store.LoginLaws.{
  taken, logged_in, live_at, create_session_cases, stands-logged_in, resolved_row-stamp,
}

-- The keys of the tables of users and of deployment memberships.
pub record IsKeyed (db : Db) : Type 0 where
  pub user_key : (user : Text) → count (λ u. u.user_id == user) db.users < 2
  pub membership_key :
      (deployment user : Text)
      → count (λ m. m.deployment_id == deployment && m.user_id == user) db.memberships < 2

earliest-In :
    (ms : List DeploymentMembership) (m : DeploymentMembership) → earliest ms ≡ some m → In m ms
unfolding earliest
earliest-In [] m e = cc
earliest-In (n ∷ ms) m e = elim (Option-cases (earliest ms)) [
  | inl f ↦ inl (ground (arith, e, f))
  | inr (k, f) ↦ elim (Bool-cases (leb n.created_at k.created_at)) [
    | inl g ↦ inl (ground (arith, e, f, g))
    | inr g ↦ inr (earliest-In ms m (f ∙ ground (arith, e, f, g)))
  ]
]

-- What a row of `LoginRecord` is made of.
pub login_record-rows :
    (username : Text) (db : Db) (r : LoginRecord)
    → login_record username db ≡ some r
    → (u : User) × (m : DeploymentMembership) × In u db.users
      × In m db.memberships
      × (m.user_id == u.user_id && active_deployment m.deployment_id db ≡ true)
      × (r.principal ≡ principal_row u m [] [] db)
      × (r.user_status ≡ u.status)
      × (r.membership_state ≡ m.status)
unfolding login_record login_user login_row
login_record-rows username db r e =
    elim (Option-cases (find (λ u. u.username == username) db.users)) [
      | inl f ↦ absurd (ground (arith, e, f))
      | inr (u, f) ↦ elim (Option-cases (find (λ c. c.user_id == u.user_id) db.credentials)) [
        | inl g ↦ absurd (ground (arith, e, f, g))
        | inr (c, g) ↦
            elim (Option-cases (
              earliest (
                select (λ m. m.user_id == u.user_id && active_deployment m.deployment_id db)
                  db.memberships))) [
                    | inl h ↦ absurd (ground (arith, e, f, g, h))
                    | inr (m, h) ↦
                        let row : LoginRecord = record {
                          principal = principal_row u m [] [] db;
                          password_hash = c.password_hash;
                          user_status = u.status;
                          membership_state = m.status;
                        } in
                        let same : row ≡ r = ground (arith, e, f, g, h) in
                        let (i, k) = select-In _ db.memberships m (earliest-In _ m h) in
                        (
                          u,
                          m,
                          find-In _ db.users u f,
                          i,
                          k,
                          sym (ap (λ x. x.principal) same),
                          sym (ap (λ x. x.user_status) same),
                          sym (ap (λ x. x.membership_state) same),
                        )
                  ]
      ]
    ]

module _ (r : SessionRecord) (db : Db) (u : User) (m : DeploymentMembership) (key : IsKeyed db)
    (iu : In u db.users) (im : In m db.memberships) (same_user : r.principal.user_id ≡ u.user_id)
    (same_deployment : r.principal.deployment_id ≡ m.deployment_id) (joined : m.user_id ≡ u.user_id)
    (active : is_active u.status ≡ true) (current : is_current m.status ≡ true)
    (deployed : active_deployment m.deployment_id db ≡ true) where
  row_stands : stands db (session_row r) ≡ true
  unfolding stands active_user active_member
  row_stands = ground (
    arith,
    same_user,
    same_deployment,
    deployed,
    any-In (λ x. x.user_id == r.principal.user_id && is_active x.status) db.users u iu
        (ground (arith, same_user, active)),
    any-In
        (λ x.
          x.deployment_id == r.principal.deployment_id
          && (x.user_id == r.principal.user_id && is_current x.status))
        db.memberships m im (ground (arith, same_user, same_deployment, joined, current)),
  )

  row_found :
      (now : ℕ)
      → ltb now r.expires_at ≡ true
      → any (taken r) (purge_sessions r.created_at db).sessions ≡ false
      → find (live_at r.token_hash now (logged_in r db)) (logged_in r db).sessions
        ≡ some (session_row r)
  row_found now soon fresh =
      find-append_new (live_at r.token_hash now (logged_in r db)) _ (session_row r)
        (any_weaken _ _ (purge_sessions r.created_at db).sessions (λ x. ground arith) fresh)
        (ground (arith, soon, stands-logged_in r db (session_row r), row_stands))

  user_row : find (λ x. x.user_id == r.principal.user_id) db.users ≡ some u
  user_row = find-key _ db.users u iu (ground (arith, same_user)) (key.user_key _)

  membership_row :
      find
        (λ x. x.deployment_id == r.principal.deployment_id && x.user_id == r.principal.user_id)
        db.memberships
      ≡ some m
  membership_row =
      find-key _ db.memberships m im (ground (arith, same_user, same_deployment, joined))
        (key.membership_key _ _)

  resolve-new_session :
      (now : ℕ)
      → ltb now r.expires_at ≡ true
      → any (taken r) (purge_sessions r.created_at db).sessions ≡ false
      → resolve_session_by_token_hash r.token_hash now (logged_in r db)
        ≡ some (principal_row u m r.principal.auth_method r.session_id db)
  unfolding resolve_session_by_token_hash resolve_session resolved_session purge_sessions
  resolve-new_session now soon fresh = rw (row_found now soon fresh) (
      resolved_row-stamp r (session_row r) _ db db.users
      ∙ rw (user_row, membership_row) (unfold resolved_row in refl))

  -- The session that a login makes resolves to the principal of its rows until it expires.
  pub create_session-resolve :
      (now : ℕ) (db' : Db)
      → create_session r db ≡ (ok tt, db')
      → ltb now r.expires_at ≡ true
      → resolve_session_by_token_hash r.token_hash now db'
        ≡ some (principal_row u m r.principal.auth_method r.session_id db)
  create_session-resolve now db' run soon = elim (create_session_cases r db) [
    | inl (fresh, went) ↦
        subst
          (λ d.
            resolve_session_by_token_hash r.token_hash now d
            ≡ some (principal_row u m r.principal.auth_method r.session_id db))
          (cc) (resolve-new_session now soon fresh)
    | inr failed ↦ absurd (cc)
  ]
