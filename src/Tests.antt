-- ===== src/Tests.antt =====
-- Runs on a small database, and the theorems at concrete inputs.
mod Fixtures
mod Organization
mod Sessions
mod Members
mod Invitations
mod Passwords
mod Nodes
mod Setup
mod Entitlements
mod Events
mod Validate
mod Listings
mod Surroundings
mod Serving
mod PasswordHash
mod PasswordReplies
mod SessionRoundTrip
mod MemberChecks
mod DotEnv
mod Permissions
