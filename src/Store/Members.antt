-- ===== src/Store/Members.antt =====
-- internal/storage/auth/member.go: the members of an organization.
use nexus_control.Base.{◌&&◌, ◌||◌, not, Option, none, some, Text, ◌==◌, any, find, update}
use nexus_control.Schema.{
  Db, User, DeploymentMembership, OrganizationMembership, is_current, same_role, same_membership,
}
use nexus_control.Tx.{
  Tx, Result, state_conflict, not_found, pure, read, require, row_or, when, transaction, ◌>>=◌,
  ◌>>◌,
}
use nexus_control.Store.Events.{append_organization_invalidation}
use nexus_control.Store.Principals.{require_organization_manager}
use nexus_control.Store.Memberships.{membership_of, write_memberships, revoke_organization_member}
use nexus_control.Store.Accounts.{
  DeploymentMemberRecord, MemberChange, scan_deployment_member, in_deployment, lock_deployment,
  rename_user, unchanged_since, changed_target,
}

unfoldable pub joined_organization_member :
    Option DeploymentMembership
    → Option User
    → Option OrganizationMembership
    → Option DeploymentMemberRecord
joined_organization_member (some m) (some u) (some om) =
    some (scan_deployment_member u m om.role om.status om.updated_at)
joined_organization_member _ _ _ = none

-- The SELECT of `queryOrganizationMember` and `MemberByID`; no row is `ErrNotFound`.
unfoldable pub query_organization_member : Text → Text → Text → Db → Option DeploymentMemberRecord
unfolding joined_organization_member
query_organization_member deployment org user db =
    joined_organization_member (find (in_deployment deployment user) db.memberships)
      (find (λ u. u.user_id == user) db.users)
      (find (membership_of org user) db.organization_memberships)

abbrev pub regrade_member : MemberChange → OrganizationMembership → OrganizationMembership
regrade_member c m = record m { role = c.next_role; status = c.next_status; updated_at = c.now }

module _ {R : Type 0} where
  -- UPDATE organization_memberships, with the test of the affected rows.
  unfoldable pub write_member : MemberChange → Text → Tx R (Unit {0})
  write_member c org = do
    ms ← read λ db. db.organization_memberships
    require (any (membership_of org c.user_id) ms) state_conflict
    write_memberships org c.user_id (update (membership_of org c.user_id) (regrade_member c) ms)

unfoldable pub update_member_body :
    MemberChange → Text → Tx DeploymentMemberRecord DeploymentMemberRecord
update_member_body c org = do
  lock_deployment c.deployment_id
  found ← read (query_organization_member c.deployment_id org c.user_id)
  target ← row_or found not_found
  require (unchanged_since c target) state_conflict
  require (is_current target.membership_status) state_conflict
  require_organization_manager org c.actor_user_id target.role
  require_organization_manager org c.actor_user_id c.next_role
  require (not (c.actor_user_id == c.user_id && not (is_current c.next_status))) state_conflict
  write_member c org
  when (not (c.next_name == target.display_name))
      (rename_user c.user_id target.display_name c.next_name c.now)
  when (not (is_current c.next_status))
      (revoke_organization_member c.deployment_id org c.user_id c.now)
  when
      (is_current c.next_status
        && (not (same_role target.role c.next_role)
            || not (same_membership target.membership_status c.next_status)))
      (append_organization_invalidation c.deployment_id org c.user_id
        (not (is_current c.next_status)) c.now)
  pure (changed_target c target)

-- `UpdateMember`
unfoldable pub update_member : MemberChange → Text → Db → Result DeploymentMemberRecord × Db
update_member c org = transaction (update_member_body c org)
