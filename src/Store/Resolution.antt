-- ===== src/Store/Resolution.antt =====
-- internal/storage/auth/session.go: the lookups that turn a username, a session or a node into a
-- principal.
use nexus_control.Base.{
  ℕ, Bool, ◌&&◌, Option, none, some, List, [], ◌∷◌, Text, ltb, leb, ◌==◌, is_none, any, find,
  select, if◌then◌else◌,
}
use nexus_control.Schema.{
  Db, Role, User, Status, MembershipStatus, Credential, DeploymentMembership, Organization,
  OrganizationMembership, Session, Node, is_active,
}
use nexus_control.Store.Principals.{PrincipalRecord, active_user, active_deployment, active_member}
use nexus_control.Store.Memberships.{current_of}

-- `LoginRecord`
pub record LoginRecord : Type 0 where
  pub principal : PrincipalRecord
  pub password_hash : Text
  pub user_status : Status
  pub membership_state : MembershipStatus

-- COALESCE(…, '').
abbrev pub or_empty : Option Text → Text
or_empty none = []
or_empty (some s) = s

-- The LEFT JOINs: the user's active membership, and its organization if that is active in the
-- deployment. The role comes from the membership alone.
unfoldable pub joined_membership : Text → Db → Option OrganizationMembership
joined_membership user db = find (current_of user) db.organization_memberships

unfoldable pub joined_organization : Text → Option OrganizationMembership → Db → Option Organization
joined_organization deployment none db = none
joined_organization deployment (some m) db =
    find
      (λ o.
        o.organization_id == m.organization_id
        && (o.deployment_id == deployment && is_active o.status))
      db.organizations

abbrev pub role_of : Option OrganizationMembership → Option Role
role_of none = none
role_of (some m) = some m.role

abbrev pub id_of : Option Organization → Text
id_of none = []
id_of (some o) = o.organization_id

abbrev pub name_of : Option Organization → Text
name_of none = []
name_of (some o) = o.name

-- The row of a joined query as a principal.
unfoldable pub principal_row : User → DeploymentMembership → Text → Text → Db → PrincipalRecord
principal_row u m auth_method session_id db =
    let om = joined_membership u.user_id db in
    let o = joined_organization m.deployment_id om db in
    record {
      web_access_disabled = m.web_access_disabled;
      organization_role = role_of om;
      deployment_id = m.deployment_id;
      organization_id = id_of o;
      organization_name = name_of o;
      user_id = u.user_id;
      username = u.username;
      display_name = u.display_name;
      role = m.role;
      avatar = or_empty u.avatar;
      auth_method = auth_method;
      session_id = session_id;
    }

-- ORDER BY m.created_at ASC LIMIT 1.
abbrev pub earlier : DeploymentMembership → Option DeploymentMembership → DeploymentMembership
earlier m none = m
earlier m (some n) = if leb m.created_at n.created_at then m else n

unfoldable pub earliest : List DeploymentMembership → Option DeploymentMembership
earliest [] = none
earliest (m ∷ ms) = some (earlier m (earliest ms))

unfoldable pub login_row :
    User → Option Credential → Option DeploymentMembership → Db → Option LoginRecord
login_row u none m db = none
login_row u (some c) none db = none
login_row u (some c) (some m) db = some (record {
  principal = principal_row u m [] [] db;
  password_hash = c.password_hash;
  user_status = u.status;
  membership_state = m.status;
})

unfoldable pub login_user : Option User → Db → Option LoginRecord
login_user none db = none
login_user (some u) db =
    login_row u (find (λ c. c.user_id == u.user_id) db.credentials)
      (earliest (
        select (λ m. m.user_id == u.user_id && active_deployment m.deployment_id db)
          db.memberships))
      db

-- `LoginRecord`, the method: `none` for no row.
unfoldable pub login_record : Text → Db → Option LoginRecord
unfolding login_user login_row
login_record username db = login_user (find (λ u. u.username == username) db.users) db

-- The conditions of `resolveSession` besides its predicate.
unfoldable pub stands : Db → Session → Bool
stands db s =
    is_none s.revoked_at
    && (active_deployment s.deployment_id db
        && (active_user s.user_id db && active_member s.deployment_id s.user_id db))

unfoldable pub resolved_row :
    Session → Option User → Option DeploymentMembership → Db → Option PrincipalRecord
resolved_row s (some u) (some m) db = some (principal_row u m s.auth_method s.session_id db)
resolved_row s _ _ db = none

unfoldable pub resolved_session : Option Session → Db → Option PrincipalRecord
resolved_session none db = none
resolved_session (some s) db =
    resolved_row s (find (λ u. u.user_id == s.user_id) db.users)
      (find (λ m. m.deployment_id == s.deployment_id && m.user_id == s.user_id) db.memberships) db

-- `resolveSession`
unfoldable pub resolve_session : (Session → Bool) → Db → Option PrincipalRecord
unfolding resolved_session resolved_row
resolve_session predicate db =
    resolved_session (find (λ s. predicate s && stands db s) db.sessions) db

-- `ResolveSessionByTokenHash`
unfoldable pub resolve_session_by_token_hash : Text → ℕ → Db → Option PrincipalRecord
resolve_session_by_token_hash hash now =
    resolve_session (λ s. s.session_token_hash == hash && ltb now s.expires_at)

-- `ResolveSessionByID`
unfoldable pub resolve_session_by_id : Text → ℕ → Db → Option PrincipalRecord
resolve_session_by_id session_id now =
    resolve_session (λ s. s.session_id == session_id && ltb now s.expires_at)

-- `ResolveNodeOwner`
unfoldable pub resolve_node_owner : Node → Db → Option PrincipalRecord
resolve_node_owner node db =
    resolve_session
      (λ s.
        s.session_id == node.parent_session_id
        && any
            (λ n.
              n.node_id == node.node_id
              && (n.parent_session_id == s.session_id
                  && (n.owner_user_id == s.user_id
                      && (n.deployment_id == s.deployment_id && is_none n.revoked_at))))
            db.nodes)
      db
