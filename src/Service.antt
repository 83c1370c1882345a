-- ===== src/Service.antt =====
-- internal/service/auth: what the service does before and after the store.
pub mod Validate
pub mod ValidateLaws
pub mod Act
pub mod Base64
pub mod PasswordHash
pub mod Records
pub mod Signing
pub mod Sessions
pub mod Passwords
pub mod Members
pub mod Invitations
pub mod Organizations
pub mod Agents
pub mod Nodes
pub mod Entitlements
pub mod Refinement
pub mod Serving
pub mod Ensures
pub mod PasswordReplies
pub mod Base64Laws
pub mod PasswordHashLaws
pub mod SessionRoundTrip
pub mod MemberChecks
pub mod PlanLaws
pub mod DutyRules
pub mod Duties
pub mod Roles
pub mod DutySteps
pub mod Permissions
