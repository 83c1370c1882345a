-- ===== src/Store/Reachable.antt =====
-- The databases that the operations of internal/storage/auth reach from an empty one, in any order
-- and with any outcome.
use nexus_control.Base.{ℕ, ◌≡◌, refl, ◌≢◌, [], Text, any, count, arith}
use nexus_control.Schema.{Db}
use nexus_control.Store.Organization.{create, OrganizationCommand, mutate_organization}
use nexus_control.Store.Accounts.{NewMemberRecord, MemberChange}
use nexus_control.Store.DeploymentMembers.{create_deployment_member}
use nexus_control.Store.Members.{update_member}
use nexus_control.Store.Invitations.{
  InvitationRecord, AcceptInvitationRecord, create_organization_invitation,
  revoke_organization_invitation, delete_organization_invitation, accept_organization_invitation,
}
use nexus_control.Store.Registration.{register_account, update_avatar}
use nexus_control.Schema.{Effect, Node, Agent, Plan}
use nexus_control.Store.DeploymentMembers.{update_deployment_member}
use nexus_control.Store.Sessions.{SessionRecord, create_session, revoke_session, touch_session}
use nexus_control.Store.Passwords.{try_commit_password_change, settle_password_change}
use nexus_control.Store.Nodes.{register_node, revoke_node}
use nexus_control.Store.Agents.{upsert_owned_agent}
use nexus_control.Store.Plans.{upsert_subscription_plan}
use nexus_control.Store.Entitlements.{set_member_entitlement}
use nexus_control.Store.Apart.{orgs-IsGoverned}
use nexus_control.Store.Apart.Operations.{
  update_deployment_member-orgs, create_session-orgs, revoke_session-orgs, touch_session-orgs,
  try_commit_password_change-orgs, settle_password_change-orgs, register_node-orgs,
  revoke_node-orgs, upsert_owned_agent-orgs, upsert_subscription_plan-orgs,
  set_member_entitlement-orgs,
}
use nexus_control.Store.Setup.{OwnerRecord, create_owner}
use nexus_control.Store.Owners.{IsGoverned}
use nexus_control.Store.Governance.{mutate_organization-IsGoverned}
use nexus_control.Store.MemberLaws.{update_member-IsGoverned}
use nexus_control.Store.InvitationLaws.{accept_organization_invitation-IsGoverned}
use nexus_control.Store.SetupLaws.{create_owner-IsGoverned}
use nexus_control.Store.Untouched.{
  register_account-IsGoverned, create_deployment_member-IsGoverned, update_avatar-IsGoverned,
  create_organization_invitation-IsGoverned, revoke_organization_invitation-IsGoverned,
  delete_organization_invitation-IsGoverned,
}

-- One operation. Where it takes an identifier for a new organization, that is not empty.
pub data Step : Db → Db → Type 0 where
  sets_up : {db : Db} (r : OwnerRecord) → r.organization_id ≢ [] → Step db (create_owner r db).1
  commands :
      {db : Db} (c : OrganizationCommand)
      → (c.action ≡ create → c.organization_id ≢ [])
      → Step db (mutate_organization c db).1
  changes_member : {db : Db} (c : MemberChange) (org : Text) → Step db (update_member c org db).1
  accepts : {db : Db} (a : AcceptInvitationRecord) → Step db (accept_organization_invitation a db).1
  registers : {db : Db} (r : NewMemberRecord) → Step db (register_account r db).1
  creates_member :
      {db : Db} (actor : Text) (r : NewMemberRecord)
      → Step db (create_deployment_member actor r db).1
  draws : {db : Db} (user avatar : Text) (now : ℕ) → Step db (update_avatar user avatar now db).1
  invites : {db : Db} (r : InvitationRecord) → Step db (create_organization_invitation r db).1
  withdraws :
      {db : Db} (org invitation actor : Text) (now : ℕ)
      → Step db (revoke_organization_invitation org invitation actor now db).1
  clears :
      {db : Db} (org invitation actor : Text) (now : ℕ)
      → Step db (delete_organization_invitation org invitation actor now db).1
  touches : {db : Db} (id : Text) (now : ℕ) → Step db (touch_session id now db)
  regrades : {db : Db} (c : MemberChange) → Step db (update_deployment_member c db).1
  logs_in : {db : Db} (r : SessionRecord) → Step db (create_session r db).1
  logs_out : {db : Db} (hash : Text) (now : ℕ) → Step db (revoke_session hash now db).1
  tries :
      {db : Db} (user request current next_hash : Text) (now : ℕ)
      → Step db (try_commit_password_change user request current next_hash now db).1
  settles :
      {db : Db} (user request : Text) (effect : Effect) (now : ℕ)
      → Step db (settle_password_change user request effect now db).1
  adds_node : {db : Db} (node : Node) → Step db (register_node node db).1
  ends_node :
      {db : Db} (deployment org owner session node : Text) (now : ℕ)
      → Step db (revoke_node deployment org owner session node now db).1
  publishes : {db : Db} (r : Agent) (now : ℕ) → Step db (upsert_owned_agent r now db).1
  plans : {db : Db} (r : Plan) (now : ℕ) → Step db (upsert_subscription_plan r now db).1
  entitles :
      {db : Db} (deployment user key : Text) (now : ℕ)
      → Step db (set_member_entitlement deployment user key now db).1

-- No organization, no membership.
abbrev pub IsFresh : Db → Type 0
IsFresh db = (db.organizations ≡ []) × (db.organization_memberships ≡ [])

pub data Reachable : Db → Type 0 where
  starts : {db : Db} → IsFresh db → Reachable db
  steps : {db db' : Db} → Reachable db → Step db db' → Reachable db'

IsFresh-IsGoverned : (db : Db) → IsFresh db → IsGoverned db
unfolding count any
IsFresh-IsGoverned db (orgs, ms) = record {
  one_current = λ user. rw ms (omega arith);
  one_owner = λ o. rw ms (omega arith);
  has_owner = λ o live. ground (arith, rw orgs at live);
  named = rw orgs refl;
}

Step-IsGoverned : {db db' : Db} → Step db db' → IsGoverned db → IsGoverned db'
Step-IsGoverned {db} (sets_up r ne) g = create_owner-IsGoverned r db ne g
Step-IsGoverned {db} (commands c ne) g = mutate_organization-IsGoverned c db ne g
Step-IsGoverned {db} (changes_member c org) g = update_member-IsGoverned c org db g
Step-IsGoverned {db} (accepts a) g = accept_organization_invitation-IsGoverned a db g
Step-IsGoverned {db} (registers r) g = register_account-IsGoverned r db g
Step-IsGoverned {db} (creates_member actor r) g = create_deployment_member-IsGoverned actor r db g
Step-IsGoverned {db} (draws user avatar now) g = update_avatar-IsGoverned user avatar now db g
Step-IsGoverned {db} (invites r) g = create_organization_invitation-IsGoverned r db g
Step-IsGoverned {db} (withdraws org i actor now) g =
    revoke_organization_invitation-IsGoverned org i actor now db g
Step-IsGoverned {db} (clears org i actor now) g =
    delete_organization_invitation-IsGoverned org i actor now db g
Step-IsGoverned {db} (touches id now) g = orgs-IsGoverned db _ (touch_session-orgs id now db) g
Step-IsGoverned {db} (regrades c) g = orgs-IsGoverned db _ (update_deployment_member-orgs c db) g
Step-IsGoverned {db} (logs_in r) g = orgs-IsGoverned db _ (create_session-orgs r db) g
Step-IsGoverned {db} (logs_out hash now) g =
    orgs-IsGoverned db _ (revoke_session-orgs hash now db) g
Step-IsGoverned {db} (tries user request current next_hash now) g =
    orgs-IsGoverned db _ (try_commit_password_change-orgs user request current next_hash now db) g
Step-IsGoverned {db} (settles user request effect now) g =
    orgs-IsGoverned db _ (settle_password_change-orgs user request effect now db) g
Step-IsGoverned {db} (adds_node node) g = orgs-IsGoverned db _ (register_node-orgs node db) g
Step-IsGoverned {db} (ends_node deployment org owner session node now) g =
    orgs-IsGoverned db _ (revoke_node-orgs deployment org owner session node now db) g
Step-IsGoverned {db} (publishes r now) g = orgs-IsGoverned db _ (upsert_owned_agent-orgs r now db) g
Step-IsGoverned {db} (plans r now) g =
    orgs-IsGoverned db _ (upsert_subscription_plan-orgs r now db) g
Step-IsGoverned {db} (entitles deployment user key now) g =
    orgs-IsGoverned db _ (set_member_entitlement-orgs deployment user key now db) g

-- In every database that the operations of the store but the import reach from one without
-- organizations, by anyone, in any order and with any outcome, each user is in at most one
-- organization, and each active organization has exactly one active owner. The identifiers of new
-- organizations are not empty.
pub Reachable-IsGoverned : (db : Db) → Reachable db → IsGoverned db
Reachable-IsGoverned db (starts fresh) = IsFresh-IsGoverned db fresh
Reachable-IsGoverned db (steps {db = before} r s) =
    Step-IsGoverned s (Reachable-IsGoverned before r)
