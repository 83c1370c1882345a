-- ===== src/Store/Principals.antt =====
-- The records of internal/storage/auth/model.go that carry a principal, the live permission checks
-- `requireOrganizationManager` and `requireDeploymentManager`, and the tests that joins make.
use nexus_control.Base.{Bool, ◌&&◌, ◌||◌, not, Option, Text, ◌==◌, any, find}
use nexus_control.Schema.{
  Db, Role, OrganizationMembership, is_owner, is_admin, is_member, is_active, is_current,
}
use nexus_control.Tx.{Tx, state_conflict, read, require, row_or, ◌>>=◌}

-- `PrincipalRecord`; an empty organization role is `none`.
pub record PrincipalRecord : Type 0 where
  pub web_access_disabled : Bool
  pub organization_role : Option Role
  pub deployment_id : Text
  pub organization_id : Text
  pub organization_name : Text
  pub user_id : Text
  pub username : Text
  pub display_name : Text
  pub role : Role
  pub avatar : Text
  pub auth_method : Text
  pub session_id : Text

-- JOIN users … AND u.status = 'active', along the primary key.
unfoldable pub active_user : Text → Db → Bool
active_user user db = any (λ u. u.user_id == user && is_active u.status) db.users

-- JOIN deployments … AND d.status = 'active'.
unfoldable pub active_deployment : Text → Db → Bool
active_deployment deployment db =
    any (λ d. d.deployment_id == deployment && is_active d.status) db.deployments

-- JOIN organizations … AND o.deployment_id = … AND o.status = 'active'.
unfoldable pub active_organization : Text → Text → Db → Bool
active_organization deployment org db =
    any (λ o. o.organization_id == org && (o.deployment_id == deployment && is_active o.status))
      db.organizations

-- JOIN deployment_memberships … AND dm.status = 'active'.
unfoldable pub active_member : Text → Text → Db → Bool
active_member deployment user db =
    any (λ m. m.deployment_id == deployment && (m.user_id == user && is_current m.status))
      db.memberships

-- The rule at the end of both permission checks: nobody grants or touches an owner, an owner
-- manages the rest, an admin manages members.
unfoldable pub may_manage : Role → Role → Bool
may_manage role target =
    not (is_owner target) && (is_owner role || is_admin role && is_member target)

-- The row of `requireOrganizationManager`: the membership with its organization, deployment,
-- deployment membership and user all active.
unfoldable pub live_manager : Text → Text → Db → OrganizationMembership → Bool
live_manager org user db m =
    m.organization_id == org
    && (m.user_id == user && is_current m.status)
    && any
        (λ o.
          o.organization_id == org
          && (is_active o.status
              && (active_member o.deployment_id user db && active_deployment o.deployment_id db)))
        db.organizations
    && active_user user db

module _ {R : Type 0} where
  -- `requireOrganizationManager`
  unfoldable pub require_organization_manager : Text → Text → Role → Tx R (Unit {0})
  require_organization_manager org user target = do
    found ← read λ db. find (live_manager org user db) db.organization_memberships
    m ← row_or found state_conflict
    require (may_manage m.role target) state_conflict

  -- `requireDeploymentManager`
  unfoldable pub require_deployment_manager : Text → Text → Role → Tx R (Unit {0})
  require_deployment_manager deployment user target = do
    found ← read λ db.
        find
          (λ m.
            m.deployment_id == deployment
            && (m.user_id == user && is_current m.status)
            && (active_user user db && active_deployment deployment db))
          db.memberships
    m ← row_or found state_conflict
    require (may_manage m.role target) state_conflict
