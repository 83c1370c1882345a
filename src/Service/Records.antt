-- ===== src/Service/Records.antt =====
-- The records of internal/service/auth/model.go and the copies of store records into them.
use nexus_control.Base.{ℕ, ℤ, Bool, false, Option, none, some, List, [], Text, ◌||◌}
use nexus_control.Schema.{User, Role, Status, MembershipStatus, is_owner, is_admin}
use nexus_control.Store.Principals.{PrincipalRecord}
use nexus_control.Store.Resolution.{or_empty}
use nexus_control.Store.Accounts.{DeploymentMemberRecord}
use nexus_control.Store.Entitlements.{EntitlementRecord}

-- `Entitlement`; `no_entitlement` is its zero value.
pub record Entitlement : Type 0 where
  pub plan_key : Text
  pub plan_name : Text
  pub monthly_token_limit : Option ℕ
  pub updated_at : ℕ

abbrev pub no_entitlement : Entitlement
no_entitlement = record {
  plan_key = [];
  plan_name = [];
  monthly_token_limit = none;
  updated_at = 0;
}

-- `entitlementFromRecord`
unfoldable pub entitlement_from_record : EntitlementRecord → Entitlement
entitlement_from_record r = record {
  plan_key = r.plan_key;
  plan_name = r.plan_name;
  monthly_token_limit = r.monthly_token_limit;
  updated_at = r.updated_at;
}

-- `Principal`; an empty organization role is `none`. The role `"node"` is written into the token of
-- a node and nowhere else, so it stands in the claims only.
pub record Principal : Type 0 where
  pub web_access_disabled : Bool
  pub organization_role : Option Role
  pub node_id : Text
  pub parent_session_id : Text
  pub agent_ids : List Text
  pub deployment_id : Text
  pub organization_id : Text
  pub organization_name : Text
  pub user_id : Text
  pub username : Text
  pub display_name : Text
  pub role : Role
  pub avatar : Text
  pub auth_method : Text
  pub session_id : Text
  pub entitlement : Entitlement

-- `principalFromRecord`
unfoldable pub principal_from_record : PrincipalRecord → Principal
principal_from_record r = record {
  web_access_disabled = r.web_access_disabled;
  organization_role = r.organization_role;
  node_id = [];
  parent_session_id = [];
  agent_ids = [];
  deployment_id = r.deployment_id;
  organization_id = r.organization_id;
  organization_name = r.organization_name;
  user_id = r.user_id;
  username = r.username;
  display_name = r.display_name;
  role = r.role;
  avatar = r.avatar;
  auth_method = r.auth_method;
  session_id = r.session_id;
  entitlement = no_entitlement;
}

-- `principalRecord`
unfoldable pub principal_record : Principal → PrincipalRecord
principal_record p = record {
  web_access_disabled = p.web_access_disabled;
  organization_role = p.organization_role;
  deployment_id = p.deployment_id;
  organization_id = p.organization_id;
  organization_name = p.organization_name;
  user_id = p.user_id;
  username = p.username;
  display_name = p.display_name;
  role = p.role;
  avatar = p.avatar;
  auth_method = p.auth_method;
  session_id = p.session_id;
}

-- `role == RoleOwner || role == RoleAdmin`
unfoldable pub manages : Role → Bool
manages r = is_owner r || is_admin r

unfoldable pub manages_organization : Option Role → Bool
unfolding manages
manages_organization none = false
manages_organization (some r) = manages r

-- `User`
pub record UserView : Type 0 where
  pub user_id : Text
  pub username : Text
  pub display_name : Text
  pub status : Status
  pub avatar : Text
  pub last_login_at : Option ℕ
  pub created_at : ℕ
  pub updated_at : ℕ

-- `userFromRecord`
unfoldable pub user_from_record : User → UserView
user_from_record u = record {
  user_id = u.user_id;
  username = u.username;
  display_name = u.display_name;
  status = u.status;
  avatar = or_empty u.avatar;
  last_login_at = u.last_login_at;
  created_at = u.created_at;
  updated_at = u.updated_at;
}

-- `DeploymentMember`
pub record DeploymentMember : Type 0 where
  pub deployment_id : Text
  pub user_id : Text
  pub username : Text
  pub display_name : Text
  pub role : Role
  pub membership_status : MembershipStatus
  pub web_access_disabled : Bool
  pub avatar : Text
  pub last_login_at : Option ℕ
  pub created_at : ℕ
  pub updated_at : ℕ

-- `memberFromRecord`
unfoldable pub member_from_record : DeploymentMemberRecord → DeploymentMember
member_from_record r = record {
  deployment_id = r.deployment_id;
  user_id = r.user_id;
  username = r.username;
  display_name = r.display_name;
  role = r.role;
  membership_status = r.membership_status;
  web_access_disabled = r.web_access_disabled;
  avatar = r.avatar;
  last_login_at = r.last_login_at;
  created_at = r.created_at;
  updated_at = r.updated_at;
}

-- `MemberDirectoryEntry`
pub record MemberDirectoryEntry : Type 0 where
  pub user_id : Text
  pub username : Text
  pub display_name : Text
  pub avatar : Text

-- `AgentDirectoryEntry`
pub record AgentDirectoryEntry : Type 0 where
  pub agent_id : Text
  pub owner_user_id : Text
  pub name : Text
  pub avatar : Text

-- `State`
pub record SetupState : Type 0 where
  pub registration_enabled : Bool
  pub setup_required : Bool
  pub setup_enabled : Bool
  pub auth_required : Bool
  pub password_login_enabled : Bool

-- `LoginResult`
pub record LoginResult : Type 0 where
  pub session_token : Text
  pub principal : Principal

-- `SetupOwnerInput`
pub record SetupOwnerInput : Type 0 where
  pub username : Text
  pub display_name : Text
  pub password : Text
  pub deployment_name : Text
  pub organization_name : Text

-- `LoginInput`
pub record LoginInput : Type 0 where
  pub username : Text
  pub password : Text
  pub client_ip : Text
  pub user_agent : Text

-- `ChangePasswordInput`
pub record ChangePasswordInput : Type 0 where
  pub user_id : Text
  pub request_id : Text
  pub current_password : Text
  pub new_password : Text

-- `CreateMemberInput`
pub record CreateMemberInput : Type 0 where
  pub username : Text
  pub display_name : Text
  pub password : Text
  pub role : Text

-- `UpdateMemberInput`
pub record UpdateMemberInput : Type 0 where
  pub display_name : Option Text
  pub expected_version : Option ℤ
  pub role : Option Text
  pub status : Option Text
