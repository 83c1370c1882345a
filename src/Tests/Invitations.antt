-- ===== src/Tests/Invitations.antt =====
-- The acceptance of an invitation on the fixture.
use nexus_control.Base.{
  dec_text, ◌≡◌, refl, ◌<◌, false, none, Text, [], text, arith, any, count, find, update, ◌==◌,
}
use nexus_control.Schema.{Db, role_member, membership_active}
use nexus_control.Tx.{ok, err, invitation_invalid, transaction}
use nexus_control.Store.Principals.{active_deployment}
use nexus_control.Store.Memberships.{memberships_ok, write_memberships}
use nexus_control.Store.Accounts.{
  DeploymentMemberRecord, insert_user, insert_identity, insert_credential,
  insert_deployment_membership, lock_deployment,
}
use nexus_control.Store.Invitations.{
  AcceptInvitationRecord, organization_invitation_by_token, insert_membership, use_invitation,
  accept_invitation_body, accept_organization_invitation,
}
use nexus_control.Store.InvitationLaws.{
  Admits, accept_organization_invitation-joins, accept_organization_invitation-once,
}
use nexus_control.Tests.Fixtures.{dep, office}
use nexus_control.Tests.Organization.{office-IsGoverned}

abbrev request : Text → AcceptInvitationRecord
request name = record {
  token_hash = text "token";
  user_id = name;
  identity_id = name;
  credential_id = name;
  username = name;
  display_name = name;
  password_hash = text "hash";
  accepted_at = 10;
}

abbrev dave : AcceptInvitationRecord
dave = request (text "dave")

abbrev accepted : Db
accepted = (accept_organization_invitation dave office).1

abbrev member : DeploymentMemberRecord
member = record {
  deployment_id = dep;
  user_id = text "dave";
  username = text "dave";
  display_name = text "dave";
  role = role_member;
  membership_status = membership_active;
  web_access_disabled = false;
  avatar = [];
  last_login_at = none;
  created_at = 10;
  updated_at = 10;
}

one_token : count (λ x. x.token_hash == text "token") office.invitations < 2
unfolding count
one_token = ground arith

dave_accepts : accept_organization_invitation dave office ≡ (ok member, accepted)
unfolding accept_organization_invitation transaction accept_invitation_body
    organization_invitation_by_token active_deployment lock_deployment insert_user insert_identity
    insert_credential insert_deployment_membership insert_membership write_memberships
    memberships_ok use_invitation find any update count dec_text
dave_accepts = refl

accept_organization_invitation-joins_example : Admits dave office accepted
accept_organization_invitation-joins_example =
    accept_organization_invitation-joins dave office accepted member office-IsGoverned dave_accepts

accept_organization_invitation-once_example :
    accept_organization_invitation (request (text "erin")) accepted
    ≡ (err invitation_invalid, accepted)
accept_organization_invitation-once_example =
    accept_organization_invitation-once dave (request (text "erin")) office accepted member
      one_token office-IsGoverned dave_accepts refl
