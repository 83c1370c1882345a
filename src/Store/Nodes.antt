-- ===== src/Store/Nodes.antt =====
-- internal/storage/auth/node.go: the execution nodes that a browser session registers.
use nexus_control.Base.{
  ℕ, Bool, true, false, ◌&&◌, ◌||◌, Option, none, some, List, [], ◌∷◌, ◌++◌, Text, text, ltb, ◌==◌,
  is_none, any, find, select, update, if◌then◌else◌,
}
use nexus_control.Schema.{Db, Agent, Node, Session, session_revoked, is_current}
use nexus_control.Tx.{
  Tx, Result, constraint, not_found, state_conflict, pure, read, write, require, row_or, when,
  transaction, ◌>>=◌, ◌>>◌,
}
use nexus_control.Store.Events.{append_identity_invalidation}
use nexus_control.Store.Principals.{active_user, active_organization, active_member}
use nexus_control.Store.Memberships.{membership_of}

-- The EXISTS on sessions: the session is the owner's, in the deployment, and live at `now`.
abbrev pub live_session : Text → Text → Text → ℕ → Session → Bool
live_session session owner deployment now s =
    s.session_id == session
    && (s.user_id == owner
        && (s.deployment_id == deployment && (is_none s.revoked_at && ltb now s.expires_at)))

-- `activeAgentOwner` of agent.go.
unfoldable pub active_agent_owner : Db → Agent → Bool
active_agent_owner db a =
    any (λ m. membership_of a.organization_id a.owner_user_id m && is_current m.status)
      db.organization_memberships
    && (active_organization a.deployment_id a.organization_id db
        && (active_member a.deployment_id a.owner_user_id db && active_user a.owner_user_id db))

-- The EXISTS on agents: the agent is the owner's own, active, and so is its owner.
unfoldable pub owned_agent : Node → Db → Text → Bool
owned_agent node db agent =
    any
      (λ a.
        a.agent_id == agent
        && (a.deployment_id == node.deployment_id
            && (a.organization_id == node.organization_id
                && (a.owner_user_id == node.owner_user_id
                    && (is_current a.status && active_agent_owner db a)))))
      db.agents

-- Two encoded lists of agents are the same text where the lists are.
abbrev pub same_ids : List Text → List Text → Bool
same_ids [] [] = true
same_ids [] (t ∷ ts) = false
same_ids (s ∷ ss) [] = false
same_ids (s ∷ ss) (t ∷ ts) = s == t && same_ids ss ts

-- The test at the end of `RegisterNode`: the stored row is the one asked for, and live.
unfoldable pub same_node : Node → Node → Bool
same_node stored node =
    stored.deployment_id == node.deployment_id
    && (stored.organization_id == node.organization_id
        && (stored.owner_user_id == node.owner_user_id
            && (stored.parent_session_id == node.parent_session_id
                && (stored.name == node.name
                    && (same_ids stored.agent_ids node.agent_ids
                        && (stored.credential_hash == node.credential_hash
                            && is_none stored.revoked_at))))))

abbrev pub node_conflict : Node → Node → Bool
node_conflict node n = n.node_id == node.node_id || n.credential_hash == node.credential_hash

-- `NodeColumns` of one owner, as `Node` and `RevokeNode` read it.
abbrev pub node_of : Text → Text → Text → Text → Node → Bool
node_of deployment org owner node n =
    n.node_id == node
    && (n.deployment_id == deployment && (n.organization_id == org && n.owner_user_id == owner))

module _ {R : Type 0} where
  -- The loop over `node.AgentIDs`.
  unfoldable pub require_agents : Node → List Text → Tx R (Unit {0})
  require_agents node [] = pure tt
  require_agents node (id ∷ ids) = do
    active ← read λ db. owned_agent node db id
    require active not_found
    require_agents node ids

  -- INSERT INTO execution_nodes … ON CONFLICT DO NOTHING.
  unfoldable pub insert_node : Node → Tx R (Unit {0})
  insert_node node = do
    taken ← read λ db. any (node_conflict node) db.nodes
    known ← read λ db. any (λ o. o.organization_id == node.organization_id) db.organizations
    require (taken || known) constraint
    write λ db. record db { nodes = if taken then db.nodes else db.nodes ++ node ∷ [] }

  -- The loop of `revokeUserNodes` over the rows that it has revoked.
  unfoldable pub append_node_events : List Node → Text → ℕ → Tx R (Unit {0})
  append_node_events [] user now = pure tt
  append_node_events (n ∷ ns) user now = do
    append_identity_invalidation n.deployment_id user (text "node:" ++ n.node_id) session_revoked
        now
    append_node_events ns user now

  -- `revokeUserNodes`
  unfoldable pub revoke_user_nodes : Text → ℕ → Tx R (Unit {0})
  revoke_user_nodes user now = do
    ns ← read λ db. select (λ n. n.owner_user_id == user && is_none n.revoked_at) db.nodes
    write λ db. record db {
      nodes =
          update (λ n. n.owner_user_id == user && is_none n.revoked_at)
            (λ n. record n { revoked_at = some now }) db.nodes;
    }
    append_node_events ns user now

unfoldable pub register_node_body : Node → Tx Node Node
register_node_body node = do
  active ← read λ db.
      any
        (live_session node.parent_session_id node.owner_user_id node.deployment_id node.created_at)
        db.sessions
  require active not_found
  require_agents node node.agent_ids
  insert_node (record node { revoked_at = none })
  found ← read λ db. find (λ n. n.node_id == node.node_id) db.nodes
  stored ← row_or found state_conflict
  require (same_node stored node) state_conflict
  pure stored

-- `RegisterNode`
unfoldable pub register_node : Node → Db → Result Node × Db
register_node node = transaction (register_node_body node)

-- `NodeByCredential`
unfoldable pub node_by_credential : Text → Db → Option Node
node_by_credential hash db = find (λ n. n.credential_hash == hash && is_none n.revoked_at) db.nodes

-- `Node`, the method; no row is `ErrNotFound`.
unfoldable pub get_node : Text → Text → Text → Text → Db → Option Node
get_node deployment org owner node db = find (node_of deployment org owner node) db.nodes

-- The row that a revocation leaves of a node that was never registered.
abbrev pub tombstone : Text → Text → Text → Text → Text → ℕ → Node
tombstone deployment org owner session node now = record {
  node_id = node;
  deployment_id = deployment;
  organization_id = org;
  owner_user_id = owner;
  parent_session_id = session;
  credential_hash = text "revoked:" ++ node;
  name = text "Revoked";
  agent_ids = [];
  created_at = now;
  revoked_at = some now;
}

unfoldable pub revoke_node_body : Text → Text → Text → Text → Text → ℕ → Tx (Unit {0}) (Unit {0})
revoke_node_body deployment org owner session node now = do
  active ← read λ db. any (live_session session owner deployment now) db.sessions
  when active (insert_node (tombstone deployment org owner session node now))
  found ← read (get_node deployment org owner node)
  stored ← row_or found not_found
  when (is_none stored.revoked_at) do
    write λ db. record db {
      nodes = update (λ n. n.node_id == node) (λ n. record n { revoked_at = some now }) db.nodes;
    }
    append_identity_invalidation deployment owner (text "node:" ++ node) session_revoked now

-- `RevokeNode`
unfoldable pub revoke_node : Text → Text → Text → Text → Text → ℕ → Db → Result (Unit {0}) × Db
revoke_node deployment org owner session node now =
    transaction (revoke_node_body deployment org owner session node now)
