-- ===== src/Store/Apart/Operations.antt =====
-- The operations on sessions, passwords, nodes, agents, plans and deployment members, and the tables
-- of organizations.
use nexus_control.Base.{◌≡◌, refl, ℕ, List, [], ◌∷◌, Text}
use nexus_control.Schema.{Db, Role, Node, Agent, Plan, Effect, Reason, DeploymentMembership}
use nexus_control.Store.Events.{
  append_event, append_identity_invalidation, append_profile_events, append_profile_invalidations,
}
use nexus_control.Store.Principals.{require_deployment_manager}
use nexus_control.Store.Accounts.{MemberChange, lock_deployment, rename_user}
use nexus_control.Store.Sessions.{
  SessionRecord, create_session_body, create_session, revoke_session_body, revoke_session,
  touch_session, purge_sessions,
}
use nexus_control.Store.Passwords.{
  try_commit_body, try_commit_password_change, settle_body, settle_password_change,
}
use nexus_control.Store.Nodes.{
  append_node_events, revoke_user_nodes, require_agents, insert_node, register_node_body,
  register_node, revoke_node_body, revoke_node,
}
use nexus_control.Store.Agents.{upsert_agent, upsert_owned_agent_body, upsert_owned_agent}
use nexus_control.Store.Plans.{
  upsert_subscription_plan_row, append_entitlement_events, upsert_plan_body,
  upsert_subscription_plan,
}
use nexus_control.Store.Entitlements.{set_entitlement_body, set_member_entitlement}
use nexus_control.Store.DeploymentMembers.{
  write_regrade, end_sessions, update_deployment_member_body, update_deployment_member,
}
use nexus_control.Store.Apart.{
  orgs, Apart, Apart-pure, Apart-write, Apart-bind, Apart-read, Apart-require, Apart-transaction,
  apart_rules,
}

module _ {R : Type 0} where
  append_identity_invalidation-Apart :
      (deployment user session : Text) (reason : Reason) (now : ℕ)
      → Apart (append_identity_invalidation {R = R} deployment user session reason now)
  unfolding append_identity_invalidation append_event
  append_identity_invalidation-Apart deployment user session reason now = Apart-write _ (λ db. refl)

  append_profile_events-Apart :
      (ms : List DeploymentMembership) (user : Text) (now : ℕ)
      → Apart (append_profile_events {R = R} ms user now)
  unfolding append_profile_events
  append_profile_events-Apart [] user now = Apart-pure tt
  append_profile_events-Apart (m ∷ ms) user now =
      Apart-bind _ _ (append_identity_invalidation-Apart _ _ _ _ _)
        λ _. append_profile_events-Apart ms user now

  append_node_events-Apart :
      (ns : List Node) (user : Text) (now : ℕ) → Apart (append_node_events {R = R} ns user now)
  unfolding append_node_events
  append_node_events-Apart [] user now = Apart-pure tt
  append_node_events-Apart (n ∷ ns) user now =
      Apart-bind _ _ (append_identity_invalidation-Apart _ _ _ _ _)
        λ _. append_node_events-Apart ns user now

  append_entitlement_events-Apart :
      (ms : List DeploymentMembership) (deployment : Text) (now : ℕ)
      → Apart (append_entitlement_events {R = R} ms deployment now)
  unfolding append_entitlement_events
  append_entitlement_events-Apart [] deployment now = Apart-pure tt
  append_entitlement_events-Apart (m ∷ ms) deployment now =
      Apart-bind _ _ (append_identity_invalidation-Apart _ _ _ _ _)
        λ _. append_entitlement_events-Apart ms deployment now

  require_agents-Apart : (node : Node) (ids : List Text) → Apart (require_agents {R = R} node ids)
  unfolding require_agents
  require_agents-Apart node [] = Apart-pure tt
  require_agents-Apart node (id ∷ ids) =
      Apart-bind _ _ (Apart-read _)
        λ active. Apart-bind _ _ (Apart-require active _) λ _. require_agents-Apart node ids

  insert_node-Apart : (node : Node) → Apart (insert_node {R = R} node)
  unfolding insert_node
  insert_node-Apart node = search apart_rules depth 20

  revoke_user_nodes-Apart : (user : Text) (now : ℕ) → Apart (revoke_user_nodes {R = R} user now)
  unfolding revoke_user_nodes
  revoke_user_nodes-Apart user now = search (apart_rules, append_node_events-Apart) depth 20

create_session_body-Apart : (r : SessionRecord) → Apart (create_session_body r)
unfolding create_session_body purge_sessions
create_session_body-Apart r = search apart_rules depth 20

pub create_session-orgs : (r : SessionRecord) (db : Db) → orgs (create_session r db).1 ≡ orgs db
unfolding create_session
create_session-orgs r = Apart-transaction _ (create_session_body-Apart r)

revoke_session_body-Apart : (hash : Text) (now : ℕ) → Apart (revoke_session_body hash now)
unfolding revoke_session_body
revoke_session_body-Apart hash now =
    search (apart_rules, append_identity_invalidation-Apart) depth 20

pub revoke_session-orgs :
    (hash : Text) (now : ℕ) (db : Db) → orgs (revoke_session hash now db).1 ≡ orgs db
unfolding revoke_session
revoke_session-orgs hash now = Apart-transaction _ (revoke_session_body-Apart hash now)

pub touch_session-orgs : (id : Text) (now : ℕ) (db : Db) → orgs (touch_session id now db) ≡ orgs db
unfolding touch_session
touch_session-orgs id now db = refl

try_commit_body-Apart :
    (user request current next_hash : Text) (now : ℕ)
    → Apart (try_commit_body user request current next_hash now)
unfolding try_commit_body
try_commit_body-Apart user request current next_hash now =
    search (apart_rules, revoke_user_nodes-Apart) depth 20

pub try_commit_password_change-orgs :
    (user request current next_hash : Text) (now : ℕ) (db : Db)
    → orgs (try_commit_password_change user request current next_hash now db).1 ≡ orgs db
unfolding try_commit_password_change
try_commit_password_change-orgs user request current next_hash now =
    Apart-transaction _ (try_commit_body-Apart user request current next_hash now)

settle_body-Apart :
    (user request : Text) (effect : Effect) (now : ℕ) → Apart (settle_body user request effect now)
unfolding settle_body
settle_body-Apart user request effect now = search apart_rules depth 20

pub settle_password_change-orgs :
    (user request : Text) (effect : Effect) (now : ℕ) (db : Db)
    → orgs (settle_password_change user request effect now db).1 ≡ orgs db
unfolding settle_password_change
settle_password_change-orgs user request effect now =
    Apart-transaction _ (settle_body-Apart user request effect now)

register_node_body-Apart : (node : Node) → Apart (register_node_body node)
unfolding register_node_body
register_node_body-Apart node =
    search (apart_rules, require_agents-Apart, insert_node-Apart) depth 20

pub register_node-orgs : (node : Node) (db : Db) → orgs (register_node node db).1 ≡ orgs db
unfolding register_node
register_node-orgs node = Apart-transaction _ (register_node_body-Apart node)

revoke_node_body-Apart :
    (deployment org owner session node : Text) (now : ℕ)
    → Apart (revoke_node_body deployment org owner session node now)
unfolding revoke_node_body
revoke_node_body-Apart deployment org owner session node now =
    search (apart_rules, append_identity_invalidation-Apart, insert_node-Apart) depth 20

pub revoke_node-orgs :
    (deployment org owner session node : Text) (now : ℕ) (db : Db)
    → orgs (revoke_node deployment org owner session node now db).1 ≡ orgs db
unfolding revoke_node
revoke_node-orgs deployment org owner session node now =
    Apart-transaction _ (revoke_node_body-Apart deployment org owner session node now)

upsert_owned_agent_body-Apart : (r : Agent) (now : ℕ) → Apart (upsert_owned_agent_body r now)
unfolding upsert_owned_agent_body lock_deployment upsert_agent
upsert_owned_agent_body-Apart r now = search apart_rules depth 20

pub upsert_owned_agent-orgs :
    (r : Agent) (now : ℕ) (db : Db) → orgs (upsert_owned_agent r now db).1 ≡ orgs db
unfolding upsert_owned_agent
upsert_owned_agent-orgs r now = Apart-transaction _ (upsert_owned_agent_body-Apart r now)

upsert_plan_body-Apart : (r : Plan) (now : ℕ) → Apart (upsert_plan_body r now)
unfolding upsert_plan_body lock_deployment upsert_subscription_plan_row
upsert_plan_body-Apart r now = search (apart_rules, append_entitlement_events-Apart) depth 20

pub upsert_subscription_plan-orgs :
    (r : Plan) (now : ℕ) (db : Db) → orgs (upsert_subscription_plan r now db).1 ≡ orgs db
unfolding upsert_subscription_plan
upsert_subscription_plan-orgs r now = Apart-transaction _ (upsert_plan_body-Apart r now)

set_entitlement_body-Apart :
    (deployment user key : Text) (now : ℕ) → Apart (set_entitlement_body deployment user key now)
unfolding set_entitlement_body lock_deployment
set_entitlement_body-Apart deployment user key now =
    search (apart_rules, append_identity_invalidation-Apart) depth 20

pub set_member_entitlement-orgs :
    (deployment user key : Text) (now : ℕ) (db : Db)
    → orgs (set_member_entitlement deployment user key now db).1 ≡ orgs db
unfolding set_member_entitlement
set_member_entitlement-orgs deployment user key now =
    Apart-transaction _ (set_entitlement_body-Apart deployment user key now)

module _ {R : Type 0} where
  rename_user-Apart : (user old new : Text) (now : ℕ) → Apart (rename_user {R = R} user old new now)
  unfolding rename_user append_profile_invalidations
  rename_user-Apart user old new now = search (apart_rules, append_profile_events-Apart) depth 20

  require_deployment_manager-Apart :
      (deployment user : Text) (target : Role)
      → Apart (require_deployment_manager {R = R} deployment user target)
  unfolding require_deployment_manager
  require_deployment_manager-Apart deployment user target = search apart_rules depth 20

update_deployment_member_body-Apart : (c : MemberChange) → Apart (update_deployment_member_body c)
unfolding update_deployment_member_body lock_deployment write_regrade end_sessions
update_deployment_member_body-Apart c =
    search
      (
        apart_rules, require_deployment_manager-Apart, rename_user-Apart,
        append_identity_invalidation-Apart,
      )
      depth 20

pub update_deployment_member-orgs :
    (c : MemberChange) (db : Db) → orgs (update_deployment_member c db).1 ≡ orgs db
unfolding update_deployment_member
update_deployment_member-orgs c = Apart-transaction _ (update_deployment_member_body-Apart c)
