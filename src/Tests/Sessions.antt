-- ===== src/Tests/Sessions.antt =====
-- Sessions on the fixture.
use nexus_control.Base.{
  true, ◌&&◌, ◌==◌, ltb, is_none, dec_text, ◌≡◌, refl, none, some, text, arith, find, any,
}
use nexus_control.Schema.{role_owner, role_member}
use nexus_control.Store.Principals.{active_user, active_deployment, active_member}
use nexus_control.Store.Resolution.{
  stands, resolve_session, principal_row, joined_membership, joined_organization,
  resolve_session_by_token_hash,
}
use nexus_control.Store.Sessions.{SessionRecord, create_session, revoke_session}
use nexus_control.Store.SessionLaws.{revoke_session-resolve}
use nexus_control.Store.ResolutionLaws.{resolve_session_by_token_hash_lem}
use nexus_control.Store.LoginLaws.{create_session-resolve_other}
use nexus_control.Tests.Fixtures.{ann, bob, dep, office, principal}

abbrev new_login : SessionRecord
new_login = record {
  session_id = text "sess2";
  token_hash = text "cookie2";
  principal = principal ann role_owner;
  expires_at = 90;
  client_ip = text "";
  user_agent = text "";
  created_at = 10;
}

bob_resolves :
    resolve_session_by_token_hash (text "cookie") 20 office ≡ some (principal bob role_member)
unfolding resolve_session_by_token_hash resolve_session stands find any active_user
    active_deployment active_member principal_row joined_membership joined_organization dec_text
bob_resolves = refl

create_session-resolve_other_example :
    resolve_session_by_token_hash (text "cookie") 20 (create_session new_login office).1
    ≡ some (principal bob role_member)
create_session-resolve_other_example =
    create_session-resolve_other new_login (text "cookie") 20 office (principal bob role_member)
      (omega arith) bob_resolves

revoke_session-resolve_example :
    resolve_session_by_token_hash (text "cookie") 20 (revoke_session (text "cookie") 10 office).1
    ≡ none
revoke_session-resolve_example = revoke_session-resolve (text "cookie") 10 20 office

resolve_session_by_token_hash_lem_example :
    (any
        (λ s.
          s.session_token_hash == text "cookie"
          && (is_none s.revoked_at
              && (ltb 20 s.expires_at
                  && (s.user_id == bob
                      && (s.deployment_id == dep && s.session_id == text "sess")))))
        office.sessions
      ≡ true)
    × (active_user bob office ≡ true)
    × (active_deployment dep office ≡ true)
    × (active_member dep bob office ≡ true)
resolve_session_by_token_hash_lem_example =
    resolve_session_by_token_hash_lem (text "cookie") 20 office (principal bob role_member)
      bob_resolves
