-- ===== src/Schema/Sessions.antt =====
-- The rows of sessions, password receipts, identity invalidations and subscription plans:
-- db/migrations/postgres/00001, 00002, 00003, 00004 and 00008.
use nexus_control.Base.{ℕ, ℤ, Bool, Option, Text}

pub record Session : Type 0 where
  pub session_id : Text
  pub deployment_id : Text
  pub user_id : Text
  pub session_token_hash : Text
  pub auth_method : Text
  pub expires_at : ℕ
  pub last_seen_at : ℕ
  pub client_ip : Option Text
  pub user_agent : Option Text
  pub revoked_at : Option ℕ
  pub created_at : ℕ
  pub updated_at : ℕ

-- `PasswordChangeOutcome` without `unknown`, which the CHECK constraint keeps out of the table.
pub data Effect : Type 0 where
  committed not_applied : Effect

pub record Receipt : Type 0 where
  pub user_id : Text
  pub request_id : Text
  pub effect : Effect
  pub resolved_at : ℕ
  pub created_at : ℕ

-- The texts that the repository writes as the reason of an event.
pub data Reason : Type 0 where
  session_revoked principal_changed profile_changed organization_changed : Reason
  entitlement_changed : Reason

pub record Invalidation : Type 0 where
  pub event_id : ℕ
  pub deployment_id : Text
  pub user_id : Text
  pub session_id : Option Text
  pub reason : Reason
  pub created_at : ℕ
  pub organization_id : Text
  pub membership_revoked : Bool

pub data PlanStatus : Type 0 where
  plan_active plan_archived : PlanStatus

pub record Plan : Type 0 where
  pub deployment_id : Text
  pub plan_key : Text
  pub display_name : Text
  pub status : PlanStatus
  pub monthly_token_limit : Option ℕ
  pub notes : Text
  pub sort_order : ℤ
  pub created_at : ℕ
  pub updated_at : ℕ

pub record MemberEntitlement : Type 0 where
  pub deployment_id : Text
  pub user_id : Text
  pub plan_key : Text
  pub created_at : ℕ
  pub updated_at : ℕ
