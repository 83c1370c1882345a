-- ===== src/Tests/Fixtures.antt =====
-- A small database that the tests and examples run on: a deployment with an organization, whose
-- owner is ann, with bob as a member, and carol in no organization.
use nexus_control.Base.{false, none, some, [], ◌∷◌, Text, text}
use nexus_control.Schema.{
  Db, User, DeploymentMembership, OrganizationMembership, Invitation, Session, Credential, Role,
  role_owner, role_admin, role_member, status_active, membership_active,
}
use nexus_control.Store.Principals.{PrincipalRecord}

abbrev pub ann : Text
ann = text "ann"

abbrev pub bob : Text
bob = text "bob"

abbrev pub carol : Text
carol = text "carol"

abbrev pub dep : Text
dep = text "dep"

abbrev pub org : Text
org = text "org"

abbrev pub account : Text → User
account name = record {
  user_id = name;
  username = name;
  display_name = name;
  status = status_active;
  avatar = none;
  last_login_at = none;
  created_at = 1;
  updated_at = 1;
}

abbrev pub credential : Text → Credential
credential name = record {
  credential_id = name;
  user_id = name;
  password_hash = text "hash";
  password_algo = text "argon2id";
  password_updated_at = 1;
  created_at = 1;
  updated_at = 1;
}

abbrev pub deployed : Text → Role → DeploymentMembership
deployed name role = record {
  deployment_id = dep;
  user_id = name;
  role = role;
  status = membership_active;
  created_at = 1;
  updated_at = 1;
  web_access_disabled = false;
}

abbrev pub enrolled : Text → Role → OrganizationMembership
enrolled name role = record {
  organization_id = org;
  user_id = name;
  role = role;
  status = membership_active;
  created_at = 1;
  updated_at = 1;
}

abbrev pub invitation : Invitation
invitation = record {
  invitation_id = text "inv";
  organization_id = org;
  token_hash = text "token";
  role = role_member;
  created_by_user_id = ann;
  accepted_by_user_id = none;
  expires_at = 100;
  accepted_at = none;
  revoked_at = none;
  created_at = 1;
  updated_at = 1;
}

abbrev pub session : Session
session = record {
  session_id = text "sess";
  deployment_id = dep;
  user_id = bob;
  session_token_hash = text "cookie";
  auth_method = text "password";
  expires_at = 50;
  last_seen_at = 1;
  client_ip = none;
  user_agent = none;
  revoked_at = none;
  created_at = 1;
  updated_at = 1;
}

abbrev pub office : Db
office = record {
  deployments =
      record {
        deployment_id = dep;
        name = dep;
        status = status_active;
        created_at = 1;
        updated_at = 1;
      }
      ∷ [];
  users = account ann ∷ account bob ∷ account carol ∷ [];
  identities = [];
  credentials = credential ann ∷ credential bob ∷ credential carol ∷ [];
  memberships = deployed ann role_owner ∷ deployed bob role_member ∷ deployed carol role_admin ∷ [];
  organizations =
      record {
        organization_id = org;
        deployment_id = dep;
        name = org;
        status = status_active;
        created_at = 1;
        updated_at = 1;
      }
      ∷ [];
  organization_memberships = enrolled ann role_owner ∷ enrolled bob role_member ∷ [];
  invitations = invitation ∷ [];
  agents = [];
  nodes = [];
  sessions = session ∷ [];
  receipts = [];
  invalidations = [];
  plans = [];
  entitlements = [];
  next_event_id = 1;
}

abbrev pub principal : Text → Role → PrincipalRecord
principal name role = record {
  web_access_disabled = false;
  organization_role = some role;
  deployment_id = dep;
  organization_id = org;
  organization_name = org;
  user_id = name;
  username = name;
  display_name = name;
  role = role;
  avatar = [];
  auth_method = text "password";
  session_id = text "sess";
}
