-- ===== src/Schema.antt =====
-- The database that internal/storage/auth works on: db/migrations/postgres, all tables in one
-- record. Instants are microseconds since 1970, the precision of TIMESTAMPTZ.
mod Accounts
mod Organizations
mod Sessions
pub use Accounts.*
pub use Organizations.*
pub use Sessions.*
use nexus_control.Base.{ℕ, List}

pub record Db : Type 0 where
  pub deployments : List Deployment
  pub users : List User
  pub identities : List Identity
  pub credentials : List Credential
  pub memberships : List DeploymentMembership
  pub organizations : List Organization
  pub organization_memberships : List OrganizationMembership
  pub invitations : List Invitation
  pub agents : List Agent
  pub nodes : List Node
  pub sessions : List Session
  pub receipts : List Receipt
  pub invalidations : List Invalidation
  pub plans : List Plan
  pub entitlements : List MemberEntitlement
  -- The sequence behind `identity_invalidations.event_id`.
  pub next_event_id : ℕ
