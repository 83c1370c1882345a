-- ===== src/Store/LoginLaws.antt =====
-- What a login changes: `CreateSession` of internal/storage/auth/session.go.
use nexus_control.Base.{
  ℕ, ◌≤◌, ◌≡◌, refl, ◌∙◌, ◌⊎◌, inl, inr, Bool, true, false, ◌&&◌, ◌||◌, not, Option, some, List, [],
  ◌∷◌, ◌++◌, Text, ltb, ◌==◌, is_none, any, find, update, Option-cases, arith, find-delete,
  find-append_old, find_ext, any-update_same,
}
use nexus_control.Schema.{Db, User, DeploymentMembership, Session}
use nexus_control.Tx.{ok, err, constraint}
use nexus_control.Store.Principals.{PrincipalRecord, active_user, active_deployment, active_member}
use nexus_control.Store.Resolution.{
  principal_row, resolved_row, resolved_session, stands, resolve_session, joined_membership,
  joined_organization, resolve_session_by_token_hash,
}
use nexus_control.Store.Sessions.{
  SessionRecord, session_row, purgeable, purge_sessions, create_session,
}

abbrev pub taken : SessionRecord → Session → Bool
taken r s = s.session_id == r.session_id || s.session_token_hash == r.token_hash

abbrev pub stamp : SessionRecord → User → User
stamp r u = record u { last_login_at = some r.created_at; updated_at = r.created_at }

-- The database after a login that goes through.
abbrev pub logged_in : SessionRecord → Db → Db
logged_in r db = record (purge_sessions r.created_at db) {
  sessions = (purge_sessions r.created_at db).sessions ++ session_row r ∷ [];
  users = update (λ u. u.user_id == r.principal.user_id) (stamp r) db.users;
}

-- A login goes through, if its identifiers are new, or it changes nothing.
pub create_session_cases :
    (r : SessionRecord) (db : Db)
    → ((any (taken r) (purge_sessions r.created_at db).sessions ≡ false)
        × (create_session r db ≡ (ok tt, logged_in r db)))
      ⊎ (create_session r db ≡ (err constraint, db))
unfolding create_session purge_sessions
create_session_cases r db = ground arith

active_user-stamp :
    (r : SessionRecord) (user : Text) (db : Db)
    → active_user user (logged_in r db) ≡ active_user user db
unfolding active_user
active_user-stamp r user db = any-update_same _ _ (stamp r) db.users (λ u. refl)

pub stands-logged_in :
    (r : SessionRecord) (db : Db) (s : Session) → stands (logged_in r db) s ≡ stands db s
unfolding stands active_deployment active_member purge_sessions
stands-logged_in r db s = rw (active_user-stamp r s.user_id db)

-- The stamp of a login shows in no principal.
pub resolved_row-stamp :
    (r : SessionRecord) (s : Session) (m : Option DeploymentMembership) (db : Db) (us : List User)
    → resolved_row s
        (find
          (λ u. u.user_id == s.user_id)
          (update (λ u. u.user_id == r.principal.user_id) (stamp r) us))
        m
        (logged_in r db)
      ≡ resolved_row s (find (λ u. u.user_id == s.user_id) us) m db
unfolding resolved_row find update principal_row joined_membership joined_organization
    purge_sessions
resolved_row-stamp r s m db [] = ground arith
resolved_row-stamp r s m db (u ∷ us) = ground (arith, resolved_row-stamp r s m db us)

-- What `resolveSession` asks of the row.
abbrev pub live_at : Text → ℕ → Db → Session → Bool
live_at hash now db s = (s.session_token_hash == hash && ltb now s.expires_at) && stands db s

live_at-kept :
    (r : SessionRecord) (hash : Text) (now : ℕ) (db : Db) (x : Session)
    → r.created_at ≤ now
    → live_at hash now db x ≡ true
    → purgeable r.created_at db.nodes x ≡ false
unfolding purgeable stands
live_at-kept r hash now db x le = ground arith

find-logged_in :
    (r : SessionRecord) (hash : Text) (now : ℕ) (db : Db) (s : Session)
    → r.created_at ≤ now
    → find (live_at hash now db) db.sessions ≡ some s
    → find (live_at hash now (logged_in r db)) (logged_in r db).sessions ≡ some s
unfolding purge_sessions
find-logged_in r hash now db s le e =
    rw
      (find_ext (live_at hash now (logged_in r db)) (live_at hash now db) (logged_in r db).sessions
        (λ x. rw (stands-logged_in r db x)))
      (find-append_old (live_at hash now db) _ (session_row r ∷ []) s (
        find-delete (live_at hash now db) (purgeable r.created_at db.nodes) db.sessions
          (λ x. live_at-kept r hash now db x le)
        ∙ e))

resolve-logged_in :
    (r : SessionRecord) (hash : Text) (now : ℕ) (db : Db)
    → r.created_at ≤ now
    → not (is_none (resolve_session_by_token_hash hash now db)) ≡ true
    → resolve_session_by_token_hash hash now (logged_in r db)
      ≡ resolve_session_by_token_hash hash now db
unfolding resolve_session_by_token_hash resolve_session resolved_session purge_sessions
resolve-logged_in r hash now db le h =
    elim (Option-cases (find (live_at hash now db) db.sessions)) [
      | inl e ↦ ground (arith, e, h)
      | inr (s, e) ↦ rw (find-logged_in r hash now db s le e) (
          rw e (
            resolved_row-stamp r s
              (find (λ m. m.deployment_id == s.deployment_id && m.user_id == s.user_id)
                db.memberships)
              db db.users))
    ]

-- A login leaves every other session as it was: a token that resolves before it resolves to the
-- same principal after it, at every instant that is not earlier than the login.
pub create_session-resolve_other :
    (r : SessionRecord) (hash : Text) (now : ℕ) (db : Db) (p : PrincipalRecord)
    → r.created_at ≤ now
    → resolve_session_by_token_hash hash now db ≡ some p
    → resolve_session_by_token_hash hash now (create_session r db).1 ≡ some p
create_session-resolve_other r hash now db p le e = elim (create_session_cases r db) [
  | inl (fresh, run) ↦ rw run (resolve-logged_in r hash now db le (ground (arith, e)) ∙ e)
  | inr run ↦ rw run e
]
