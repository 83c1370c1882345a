-- ===== src/Store/Sessions.antt =====
-- internal/storage/auth/session.go: creating, revoking and touching a browser session.
use nexus_control.Base.{
  ℕ, Bool, ◌&&◌, ◌||◌, not, Option, none, some, List, [], ◌∷◌, ◌++◌, Text, leb, ◌==◌, is_none, any,
  find, update, delete,
}
use nexus_control.Strings.{nullable_string}
use nexus_control.Schema.{Db, Session, Node, session_revoked}
use nexus_control.Tx.{
  Tx, Result, ok, constraint, pure, read, write, require, row_or_return, transaction, ◌>>=◌, ◌>>◌,
}
use nexus_control.Store.Events.{append_event, append_identity_invalidation}
use nexus_control.Store.Principals.{PrincipalRecord}

-- `SessionRecord`
pub record SessionRecord : Type 0 where
  pub session_id : Text
  pub token_hash : Text
  pub principal : PrincipalRecord
  pub expires_at : ℕ
  pub client_ip : Text
  pub user_agent : Text
  pub created_at : ℕ

-- `RevokedSessionRecord`
pub record RevokedSessionRecord : Type 0 where
  pub deployment_id : Text
  pub user_id : Text
  pub session_id : Text

-- The rows that `CreateSession` purges: expired or revoked, and not the parent of a live node.
unfoldable pub purgeable : ℕ → List Node → Session → Bool
purgeable now nodes s =
    (leb s.expires_at now || not (is_none s.revoked_at))
    && not (any (λ n. n.parent_session_id == s.session_id && is_none n.revoked_at) nodes)

-- DELETE FROM sessions, and the nodes that go with a session (ON DELETE CASCADE).
unfoldable pub purge_sessions : ℕ → Db → Db
purge_sessions now db = record db {
  sessions = delete (purgeable now db.nodes) db.sessions;
  nodes =
      delete
        (λ n.
          any (λ s. s.session_id == n.parent_session_id && purgeable now db.nodes s) db.sessions)
        db.nodes;
}

abbrev pub session_row : SessionRecord → Session
session_row r = record {
  session_id = r.session_id;
  deployment_id = r.principal.deployment_id;
  user_id = r.principal.user_id;
  session_token_hash = r.token_hash;
  auth_method = r.principal.auth_method;
  expires_at = r.expires_at;
  last_seen_at = r.created_at;
  client_ip = nullable_string r.client_ip;
  user_agent = nullable_string r.user_agent;
  revoked_at = none;
  created_at = r.created_at;
  updated_at = r.created_at;
}

unfoldable pub create_session_body : SessionRecord → Tx (Unit {0}) (Unit {0})
create_session_body r = do
  write (purge_sessions r.created_at)
  taken ← read λ db.
      any (λ s. s.session_id == r.session_id || s.session_token_hash == r.token_hash) db.sessions
  require (not taken) constraint
  known ← read λ db.
      any (λ m. m.deployment_id == r.principal.deployment_id && m.user_id == r.principal.user_id)
        db.memberships
  require known constraint
  write λ db. record db { sessions = db.sessions ++ session_row r ∷ [] }
  write λ db. record db {
    users =
        update (λ u. u.user_id == r.principal.user_id)
          (λ u. record u { last_login_at = some r.created_at; updated_at = r.created_at }) db.users;
  }

-- `CreateSession`
unfoldable pub create_session : SessionRecord → Db → Result (Unit {0}) × Db
unfolding transaction create_session_body
create_session r = transaction (create_session_body r)

abbrev pub revoke_row : ℕ → Session → Session
revoke_row now s = record s { revoked_at = some now; updated_at = now }

unfoldable pub revoke_session_body :
    Text → ℕ → Tx (Option RevokedSessionRecord) (Option RevokedSessionRecord)
revoke_session_body hash now = do
  found ← read λ db. find (λ s. s.session_token_hash == hash && is_none s.revoked_at) db.sessions
  s ← row_or_return found (ok none)
  write λ db. record db {
    sessions =
        update (λ x. x.session_token_hash == hash && is_none x.revoked_at) (revoke_row now)
          db.sessions;
  }
  append_identity_invalidation s.deployment_id s.user_id s.session_id session_revoked now
  pure (
      some (record {
        deployment_id = s.deployment_id;
        user_id = s.user_id;
        session_id = s.session_id;
      }))

-- `RevokeSession`
unfoldable pub revoke_session : Text → ℕ → Db → Result (Option RevokedSessionRecord) × Db
unfolding transaction revoke_session_body append_identity_invalidation append_event
revoke_session hash now = transaction (revoke_session_body hash now)

-- `TouchSession`
unfoldable pub touch_session : Text → ℕ → Db → Db
touch_session session_id now db = record db {
  sessions =
      update (λ s. s.session_id == session_id)
        (λ s. record s { last_seen_at = now; updated_at = now }) db.sessions;
}
