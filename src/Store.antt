-- ===== src/Store.antt =====
-- internal/storage/auth: the statements and transactions of the repository.
pub mod Events
pub mod EventLaws
pub mod Principals
pub mod Memberships
pub mod Organization
pub mod Owners
pub mod Resolution
pub mod Sessions
pub mod SessionLaws
pub mod LoginLaws
pub mod ResolutionLaws
pub mod Governance
pub mod Accounts
pub mod DeploymentMembers
pub mod Members
pub mod Invitations
pub mod Passwords
pub mod Nodes
pub mod Listings
pub mod ListingLaws
pub mod Registration
pub mod Agents
pub mod Plans
pub mod Entitlements
pub mod EntitlementLaws
pub mod Untouched
pub mod Setup
pub mod SetupLaws
pub mod Reachable
pub mod Frames
pub mod MemberLaws
pub mod DeploymentMemberLaws
pub mod Acceptance
pub mod InvitationLaws
pub mod PasswordLaws
pub mod NodeStatements
pub mod NodeLaws
pub mod PasswordOutcomes
pub mod SubscriptionAccounts
pub mod Apart
pub mod LoginRoundTrip
