-- ===== src/Schema/Accounts.antt =====
-- The rows of the account tables: db/migrations/postgres/00001_initial.sql, 00010 and 00011, with
-- the constants of internal/service/auth/model.go for what the CHECK constraints allow.
use nexus_control.Base.{ℕ, Bool, true, false, Option, Text}

pub data Role : Type 0 where
  role_owner role_admin role_member : Role

-- Of a deployment, an organization or a user.
pub data Status : Type 0 where
  status_active status_disabled : Status

-- Of a membership or an agent.
pub data MembershipStatus : Type 0 where
  membership_active membership_revoked : MembershipStatus

abbrev pub is_owner : Role → Bool
is_owner role_owner = true
is_owner role_admin = false
is_owner role_member = false

abbrev pub is_admin : Role → Bool
is_admin role_owner = false
is_admin role_admin = true
is_admin role_member = false

abbrev pub is_member : Role → Bool
is_member role_owner = false
is_member role_admin = false
is_member role_member = true

abbrev pub is_active : Status → Bool
is_active status_active = true
is_active status_disabled = false

abbrev pub is_current : MembershipStatus → Bool
is_current membership_active = true
is_current membership_revoked = false

abbrev pub same_role : Role → Role → Bool
same_role role_owner r = is_owner r
same_role role_admin r = is_admin r
same_role role_member r = is_member r

abbrev pub same_membership : MembershipStatus → MembershipStatus → Bool
same_membership membership_active s = is_current s
same_membership membership_revoked membership_active = false
same_membership membership_revoked membership_revoked = true

pub record Deployment : Type 0 where
  pub deployment_id : Text
  pub name : Text
  pub status : Status
  pub created_at : ℕ
  pub updated_at : ℕ

pub record User : Type 0 where
  pub user_id : Text
  pub username : Text
  pub display_name : Text
  pub status : Status
  pub avatar : Option Text
  pub last_login_at : Option ℕ
  pub created_at : ℕ
  pub updated_at : ℕ

pub record Identity : Type 0 where
  pub identity_id : Text
  pub user_id : Text
  pub provider : Text
  pub subject : Text
  pub created_at : ℕ
  pub updated_at : ℕ

pub record Credential : Type 0 where
  pub credential_id : Text
  pub user_id : Text
  pub password_hash : Text
  pub password_algo : Text
  pub password_updated_at : ℕ
  pub created_at : ℕ
  pub updated_at : ℕ

pub record DeploymentMembership : Type 0 where
  pub deployment_id : Text
  pub user_id : Text
  pub role : Role
  pub status : MembershipStatus
  pub created_at : ℕ
  pub updated_at : ℕ
  pub web_access_disabled : Bool
