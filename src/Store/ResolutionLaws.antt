-- ===== src/Store/ResolutionLaws.antt =====
-- Whom a session of internal/storage/auth/session.go resolves to.
use nexus_control.Base.{
  ℕ, ◌≡◌, refl, sym, inl, inr, Bool, true, ◌&&◌, some, Text, ltb, ◌==◌, is_none, any, find, arith,
  Option-cases, find_holds, find-some-any, find_narrow, any_mono,
}
use nexus_control.Schema.{Db, Session, User, DeploymentMembership}
use nexus_control.Store.Principals.{PrincipalRecord, active_user, active_deployment, active_member}
use nexus_control.Store.Resolution.{
  principal_row, stands, resolved_row, resolved_session, resolve_session,
  resolve_session_by_token_hash,
}

-- The principal of three rows that belong together.
row_fields :
    (s : Session) (u : User) (m : DeploymentMembership) (db : Db) (p : PrincipalRecord)
    → (u.user_id == s.user_id) ≡ true
    → (m.deployment_id == s.deployment_id && m.user_id == s.user_id) ≡ true
    → principal_row u m s.auth_method s.session_id db ≡ p
    → (p.user_id ≡ s.user_id) × (p.deployment_id ≡ s.deployment_id) × (p.session_id ≡ s.session_id)
unfolding principal_row
row_fields s u m db p a b e =
    (rw (sym e) (ground (arith, a)), rw (sym e) (ground (arith, b)), rw (sym e) refl)

-- The row and the principal of a session that resolves.
resolve_session-some :
    (predicate : Session → Bool) (db : Db) (p : PrincipalRecord)
    → resolve_session predicate db ≡ some p
    → (s : Session) × (find (λ x. predicate x && stands db x) db.sessions ≡ some s)
      × (p.user_id ≡ s.user_id)
      × (p.deployment_id ≡ s.deployment_id)
      × (p.session_id ≡ s.session_id)
unfolding resolve_session resolved_session resolved_row
resolve_session-some predicate db p h =
    elim (Option-cases (find (λ x. predicate x && stands db x) db.sessions)) [
      | inl e ↦ ground (arith, e, h)
      | inr (s, e) ↦ elim (Option-cases (find (λ u. u.user_id == s.user_id) db.users)) [
        | inl f ↦ ground (arith, e, f, h)
        | inr (u, f) ↦
            elim (Option-cases (
              find (λ m. m.deployment_id == s.deployment_id && m.user_id == s.user_id)
                db.memberships)) [
                  | inl g ↦ ground (arith, e, f, g, h)
                  | inr (m, g) ↦
                      let (a, b, c) =
                        row_fields s u m db p
                          (find_holds (λ x. x.user_id == s.user_id) db.users u f)
                          (find_holds
                            (λ x. x.deployment_id == s.deployment_id && x.user_id == s.user_id)
                            db.memberships m g)
                          (ground (arith, e, f, g, h)) in
                      (s, e, a, b, c)
                ]
      ]
    ]

-- A token that resolves belongs to a session that is not revoked and not expired at that instant, and
-- the user, the deployment and the membership of the principal are active.
pub resolve_session_by_token_hash_lem :
    (hash : Text) (now : ℕ) (db : Db) (p : PrincipalRecord)
    → resolve_session_by_token_hash hash now db ≡ some p
    → (any
          (λ s.
            s.session_token_hash == hash
            && (is_none s.revoked_at
                && (ltb now s.expires_at
                    && (s.user_id == p.user_id
                        && (s.deployment_id == p.deployment_id && s.session_id == p.session_id)))))
          db.sessions
        ≡ true)
      × (active_user p.user_id db ≡ true)
      × (active_deployment p.deployment_id db ≡ true)
      × (active_member p.deployment_id p.user_id db ≡ true)
unfolding resolve_session_by_token_hash stands
resolve_session_by_token_hash_lem hash now db p h =
    let (s, e, user, deployment, session) =
      resolve_session-some (λ x. x.session_token_hash == hash && ltb now x.expires_at) db p h in
    let ok =
      find_holds (λ x. (x.session_token_hash == hash && ltb now x.expires_at) && stands db x)
        db.sessions s e in
    (
      any_mono
          (λ x.
            ((x.session_token_hash == hash && ltb now x.expires_at) && stands db x)
            && (x.user_id == p.user_id
                && (x.deployment_id == p.deployment_id && x.session_id == p.session_id)))
          _ db.sessions (λ x. ground arith)
          (find-some-any _ db.sessions s (
            find_narrow (λ x. (x.session_token_hash == hash && ltb now x.expires_at) && stands db x)
              (λ x.
                x.user_id == p.user_id
                && (x.deployment_id == p.deployment_id && x.session_id == p.session_id))
              db.sessions s e (rw (user, deployment, session) (ground arith)))),
      rw user (ground (arith, ok)),
      rw deployment (ground (arith, ok)),
      rw (user, deployment) (ground (arith, ok)),
    )
