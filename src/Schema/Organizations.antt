-- ===== src/Schema/Organizations.antt =====
-- The rows of the organization tables: db/migrations/postgres/00005, 00006, 00007 and 00009.
use nexus_control.Base.{ℕ, Option, List, Text}
use nexus_control.Schema.Accounts.{Role, Status, MembershipStatus}

pub record Organization : Type 0 where
  pub organization_id : Text
  pub deployment_id : Text
  pub name : Text
  pub status : Status
  pub created_at : ℕ
  pub updated_at : ℕ

pub record OrganizationMembership : Type 0 where
  pub organization_id : Text
  pub user_id : Text
  pub role : Role
  pub status : MembershipStatus
  pub created_at : ℕ
  pub updated_at : ℕ

pub record Invitation : Type 0 where
  pub invitation_id : Text
  pub organization_id : Text
  pub token_hash : Text
  pub role : Role
  pub created_by_user_id : Text
  pub accepted_by_user_id : Option Text
  pub expires_at : ℕ
  pub accepted_at : Option ℕ
  pub revoked_at : Option ℕ
  pub created_at : ℕ
  pub updated_at : ℕ

pub record Agent : Type 0 where
  pub agent_id : Text
  pub deployment_id : Text
  pub organization_id : Text
  pub owner_user_id : Text
  pub source_agent_id : Text
  pub name : Text
  pub avatar : Option Text
  pub status : MembershipStatus
  pub created_at : ℕ
  pub updated_at : ℕ

-- `agent_ids` is the list that the column `agent_ids_json` encodes.
pub record Node : Type 0 where
  pub node_id : Text
  pub deployment_id : Text
  pub organization_id : Text
  pub owner_user_id : Text
  pub parent_session_id : Text
  pub credential_hash : Text
  pub name : Text
  pub agent_ids : List Text
  pub created_at : ℕ
  pub revoked_at : Option ℕ
