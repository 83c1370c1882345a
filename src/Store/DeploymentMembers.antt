-- ===== src/Store/DeploymentMembers.antt =====
-- internal/storage/auth/deployment_member.go: the accounts of a deployment and their roles.
use nexus_control.Base.{
  Bool, false, ◌&&◌, ◌||◌, not, Option, none, some, [], Text, ◌==◌, is_none, find, update,
}
use nexus_control.Schema.{
  Db, User, DeploymentMembership, membership_active, is_current, same_role, same_membership,
  principal_changed, Session,
}
use nexus_control.Tx.{
  Tx, Result, state_conflict, not_found, pure, read, write, require, row_or, when, transaction,
  ◌>>=◌, ◌>>◌,
}
use nexus_control.Store.Events.{append_identity_invalidation}
use nexus_control.Store.Principals.{require_deployment_manager}
use nexus_control.Store.Accounts.{
  NewMemberRecord, DeploymentMemberRecord, MemberChange, scan_deployment_member, in_deployment,
  insert_user, insert_identity, insert_credential, insert_deployment_membership, lock_deployment,
  rename_user, unchanged_since, changed_target,
}

abbrev pub new_member : NewMemberRecord → DeploymentMemberRecord
new_member r = record {
  deployment_id = r.deployment_id;
  user_id = r.user_id;
  username = r.username;
  display_name = r.display_name;
  role = r.role;
  membership_status = membership_active;
  web_access_disabled = false;
  avatar = [];
  last_login_at = none;
  created_at = r.created_at;
  updated_at = r.created_at;
}

unfoldable pub create_deployment_member_body :
    Text → NewMemberRecord → Tx DeploymentMemberRecord DeploymentMemberRecord
create_deployment_member_body actor r = do
  require_deployment_manager r.deployment_id actor r.role
  lock_deployment r.deployment_id
  insert_user r
  insert_identity r
  insert_credential r
  insert_deployment_membership r.deployment_id r.user_id r.role false r.created_at
  pure (new_member r)

-- `CreateDeploymentMember`
unfoldable pub create_deployment_member :
    Text → NewMemberRecord → Db → Result DeploymentMemberRecord × Db
create_deployment_member actor r = transaction (create_deployment_member_body actor r)

unfoldable pub joined_member :
    Option DeploymentMembership → Option User → Option DeploymentMemberRecord
joined_member (some m) (some u) = some (scan_deployment_member u m m.role m.status m.updated_at)
joined_member _ _ = none

-- The SELECT of `queryDeploymentMember` and `DeploymentMemberByID`; no row is `ErrNotFound`.
unfoldable pub query_deployment_member : Text → Text → Db → Option DeploymentMemberRecord
unfolding joined_member
query_deployment_member deployment user db =
    joined_member (find (in_deployment deployment user) db.memberships)
      (find (λ u. u.user_id == user) db.users)

abbrev pub regrade : MemberChange → DeploymentMembership → DeploymentMembership
regrade c m = record m { role = c.next_role; status = c.next_status; updated_at = c.now }

abbrev pub session_of : Text → Text → Session → Bool
session_of deployment user s =
    s.deployment_id == deployment && (s.user_id == user && is_none s.revoked_at)

module _ {R : Type 0} where
  -- UPDATE deployment_memberships, which a deployment member's row survives.
  unfoldable pub write_regrade : MemberChange → Tx R (Unit {0})
  write_regrade c = write λ db. record db {
    memberships = update (in_deployment c.deployment_id c.user_id) (regrade c) db.memberships;
  }

  -- UPDATE sessions, where the member loses access.
  unfoldable pub end_sessions : MemberChange → Tx R (Unit {0})
  end_sessions c = write λ db. record db {
    sessions =
        update (session_of c.deployment_id c.user_id)
          (λ s. record s { revoked_at = some c.now; updated_at = c.now }) db.sessions;
  }

unfoldable pub update_deployment_member_body :
    MemberChange → Tx DeploymentMemberRecord DeploymentMemberRecord
update_deployment_member_body c = do
  lock_deployment c.deployment_id
  found ← read (query_deployment_member c.deployment_id c.user_id)
  target ← row_or found not_found
  require (unchanged_since c target) state_conflict
  require_deployment_manager c.deployment_id c.actor_user_id target.role
  require_deployment_manager c.deployment_id c.actor_user_id c.next_role
  require (not (c.actor_user_id == c.user_id && not (is_current c.next_status))) state_conflict
  write_regrade c
  when (not (c.next_name == target.display_name))
      (rename_user c.user_id target.display_name c.next_name c.now)
  when (not (is_current c.next_status)) (end_sessions c)
  when
      (not (same_role target.role c.next_role)
        || not (same_membership target.membership_status c.next_status))
      (append_identity_invalidation c.deployment_id c.user_id [] principal_changed c.now)
  pure (changed_target c target)

-- `UpdateDeploymentMember`
unfoldable pub update_deployment_member : MemberChange → Db → Result DeploymentMemberRecord × Db
update_deployment_member c = transaction (update_deployment_member_body c)
