-- ===== src/Store/SessionLaws.antt =====
-- What a logout and a login change for the sessions of internal/storage/auth/session.go.
use nexus_control.Base.{
  ℕ, ◌≡◌, inl, inr, false, ◌&&◌, none, some, [], Text, ltb, ◌==◌, is_none, any, find, update,
  Option-cases, arith, any_weaken, find-none-any, any-find-none, any-update_clear,
}
use nexus_control.Strings.{nullable_string}
use nexus_control.Schema.{Db, Session, session_revoked}
use nexus_control.Tx.{ok}
use nexus_control.Store.Events.{append_event}
use nexus_control.Store.Resolution.{stands, resolve_session, resolve_session_by_token_hash}
use nexus_control.Store.Sessions.{revoke_row, revoke_session}

-- No live session has the token.
abbrev pub IsDead : Text → Db → Type 0
IsDead hash db = any (λ s. s.session_token_hash == hash && is_none s.revoked_at) db.sessions ≡ false

-- A logout with an unknown or dead token does nothing and says so.
revoke_session-none :
    (hash : Text) (now : ℕ) (db : Db)
    → find (λ s. s.session_token_hash == hash && is_none s.revoked_at) db.sessions ≡ none
    → revoke_session hash now db ≡ (ok none, db)
unfolding revoke_session
revoke_session-none hash now db e = ground (arith, e)

-- A logout with a live token revokes its session and reports it, in the result and as an event.
revoke_session-some :
    (hash : Text) (now : ℕ) (db : Db) (s : Session)
    → find (λ x. x.session_token_hash == hash && is_none x.revoked_at) db.sessions ≡ some s
    → revoke_session hash now db ≡ (
      ok (
          some (record {
            deployment_id = s.deployment_id;
            user_id = s.user_id;
            session_id = s.session_id;
          })),
      append_event s.deployment_id s.user_id
          (nullable_string s.session_id)
          session_revoked
          now
          []
          false
          (record db {
            sessions =
                update
                  (λ x. x.session_token_hash == hash && is_none x.revoked_at)
                  (revoke_row now)
                  db.sessions;
          }),
    )
unfolding revoke_session
revoke_session-some hash now db s e = ground (arith, e)

pub revoke_session-IsDead :
    (hash : Text) (now : ℕ) (db : Db) → IsDead hash (revoke_session hash now db).1
unfolding append_event
revoke_session-IsDead hash now db =
    elim (Option-cases
      (find (λ s. s.session_token_hash == hash && is_none s.revoked_at) db.sessions)) [
        | inl e ↦ rw (revoke_session-none hash now db e) (find-none-any _ db.sessions e)
        | inr (s, e) ↦
            rw (revoke_session-some hash now db s e)
              (any-update_clear _ _ (revoke_row now) db.sessions (λ x h. h) (λ x. ground arith))
      ]

-- A dead token resolves to nobody, at any time.
pub IsDead-resolve :
    (hash : Text) (now : ℕ) (db : Db)
    → IsDead hash db
    → resolve_session_by_token_hash hash now db ≡ none
unfolding resolve_session_by_token_hash resolve_session stands
IsDead-resolve hash now db dead = ground (
  arith,
  any-find-none (λ s. (s.session_token_hash == hash && ltb now s.expires_at) && stands db s)
      db.sessions (any_weaken _ _ db.sessions (λ s. ground arith) dead),
)

-- After a logout the token resolves to nobody, whatever the clock says then.
pub revoke_session-resolve :
    (hash : Text) (now later : ℕ) (db : Db)
    → resolve_session_by_token_hash hash later (revoke_session hash now db).1 ≡ none
revoke_session-resolve hash now later db =
    IsDead-resolve hash later _ (revoke_session-IsDead hash now db)
