-- ===== src/Tests/Members.antt =====
-- Changes of members on the fixture.
use nexus_control.Base.{dec_text, ◌≡◌, refl, false, none, [], arith, any, count, find, update}
use nexus_control.Schema.{
  Role, role_admin, role_member, MembershipStatus, membership_active, membership_revoked,
}
use nexus_control.Tx.{ok, transaction}
use nexus_control.Store.Events.{append_event, append_identity_invalidation}
use nexus_control.Store.Principals.{
  active_user, active_deployment, active_member, may_manage, require_deployment_manager,
}
use nexus_control.Store.Accounts.{
  DeploymentMemberRecord, MemberChange, scan_deployment_member, lock_deployment, unchanged_since,
}
use nexus_control.Store.DeploymentMembers.{
  session_of, query_deployment_member, write_regrade, end_sessions, update_deployment_member_body,
  update_deployment_member,
}
use nexus_control.Store.Members.{update_member}
use nexus_control.Store.Owners.{IsGoverned}
use nexus_control.Store.DeploymentMemberLaws.{
  HasKey, owner_row, update_deployment_member-owner, update_deployment_member-revoked,
}
use nexus_control.Store.MemberLaws.{update_member-IsGoverned}
use nexus_control.Tests.Fixtures.{ann, bob, dep, org, office}
use nexus_control.Tests.Organization.{office-IsGoverned}

abbrev change : Role → MembershipStatus → MemberChange
change role status = record {
  deployment_id = dep;
  user_id = bob;
  actor_user_id = ann;
  expected_role = role_member;
  expected_status = membership_active;
  expected_version = 1;
  next_role = role;
  next_status = status;
  next_name = bob;
  now = 10;
}

abbrev removal : MemberChange
removal = change role_member membership_revoked

office-HasKey : HasKey office
unfolding count
office-HasKey deployment user = ground arith

update_deployment_member-owner_example :
    find
      (owner_row dep ann)
      (update_deployment_member (change role_admin membership_active) office).1.memberships
    ≡ find (owner_row dep ann) office.memberships
update_deployment_member-owner_example =
    update_deployment_member-owner (change role_admin membership_active) office office-HasKey dep
      ann

abbrev removed : DeploymentMemberRecord
removed = record {
  deployment_id = dep;
  user_id = bob;
  username = bob;
  display_name = bob;
  role = role_member;
  membership_status = membership_revoked;
  web_access_disabled = false;
  avatar = [];
  last_login_at = none;
  created_at = 1;
  updated_at = 10;
}

removal_succeeds :
    update_deployment_member removal office
    ≡ (ok removed, (update_deployment_member removal office).1)
unfolding update_deployment_member transaction update_deployment_member_body lock_deployment
    query_deployment_member scan_deployment_member unchanged_since require_deployment_manager
    write_regrade end_sessions append_identity_invalidation append_event find any update active_user
    active_deployment may_manage dec_text
removal_succeeds = refl

update_deployment_member-revoked_example :
    (any (session_of dep bob) (update_deployment_member removal office).1.sessions ≡ false)
    × (active_member dep bob (update_deployment_member removal office).1 ≡ false)
update_deployment_member-revoked_example =
    update_deployment_member-revoked removal office (update_deployment_member removal office).1
      removed office-HasKey refl removal_succeeds

update_member-IsGoverned_example :
    IsGoverned (update_member (change role_admin membership_active) org office).1
update_member-IsGoverned_example =
    update_member-IsGoverned (change role_admin membership_active) org office office-IsGoverned
