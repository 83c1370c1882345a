-- ===== src/Service/Nodes.antt =====
-- internal/service/auth/node.go: the execution nodes and their tokens. Instants are counted in microseconds.
use nexus_control.Base.{
  ℕ, ◌+◌, Bool, true, ◌&&◌, ◌||◌, not, Option, none, some, List, [], ◌∷◌, ◌++◌, Text, text, ltb,
  leb, eqb, ◌==◌, map, any, select, length, sort_by, leb_text, if◌then◌else◌,
}
use nexus_control.Strings.{trim_space, is_space, is_empty, len}
use nexus_control.Schema.{Node}
use nexus_control.Tx.{StoreError, not_found, state_conflict}
use nexus_control.Store.Resolution.{resolve_node_owner}
use nexus_control.Store.Nodes.{register_node, revoke_node, get_node, node_by_credential}
use nexus_control.Store.Listings.{list_nodes}
use nexus_control.Service.Validate.{every_char}
use nexus_control.Service.Base64.{url, decode}
use nexus_control.Service.Signing.{sign, node_role}
use nexus_control.Service.Records.{Principal, principal_from_record, AgentDirectoryEntry}
use nexus_control.Service.Sessions.{Service, missing_error}
use nexus_control.Service.Agents.{AgentView, sized, organization_agents, verify_owned_agents}
use nexus_control.Service.Act.{
  Env, Act, ServiceError, err_conflict, err_forbidden, err_unauthenticated, err_not_found,
  err_request_invalid, err_other, internal, ◌>>=◌, ◌>>◌, pure, guard, some_or, now, ask, command,
}

-- `ExecutionNode`
pub record ExecutionNode : Type 0 where
  pub node_id : Text
  pub name : Text
  pub agent_ids : List Text
  pub created_at : ℕ
  pub revoked_at : Option ℕ

-- `executionNode`
unfoldable pub execution_node : Node → ExecutionNode
execution_node n = record {
  node_id = n.node_id;
  name = n.name;
  agent_ids = n.agent_ids;
  created_at = n.created_at;
  revoked_at = n.revoked_at;
}

-- `RegisterNodeInput`
pub record RegisterNodeInput : Type 0 where
  pub node_id : Text
  pub name : Text
  pub credential : Text
  pub agent_ids : List Text

-- `NodeTokenResult`
pub record NodeTokenResult : Type 0 where
  pub token : Text
  pub expires_at : ℕ
  pub agents : List AgentView
  pub directory : List AgentDirectoryEntry

-- `unicode.IsControl`
abbrev pub is_control : ℕ → Bool
is_control c = leb c 31 || leb 127 c && leb c 159

abbrev pub node_char : ℕ → Bool
node_char c = not (eqb c b':' || (eqb c b'/' || (is_space c || is_control c)))

-- `validNodeID`
unfoldable pub valid_node_id : Text → Bool
unfolding every_char
valid_node_id id = not (is_empty id) && (leb (len id) 128 && every_char node_char id)

-- A step of `slices.Compact`: a text that equals the one behind it goes.
unfoldable pub compact_before : Text → List Text → List Text
compact_before s [] = s ∷ []
compact_before s (t ∷ ts) = if s == t then t ∷ ts else s ∷ t ∷ ts

-- `slices.Compact`
unfoldable pub compact : List Text → List Text
unfolding compact_before
compact [] = []
compact (s ∷ ss) = compact_before s (compact ss)

unfoldable pub every_text : (Text → Bool) → List Text → Bool
every_text p [] = true
every_text p (s ∷ ss) = p s && every_text p ss

abbrev pub node_error : StoreError → ServiceError
node_error not_found = err_forbidden
node_error state_conflict = err_conflict
node_error e = internal e

-- `nodeTokenTTL`: fifteen minutes.
abbrev pub node_token_ttl : ℕ
node_token_ttl = 900_000_000

abbrev pub relay_node_audience : Text
relay_node_audience = text "nexus-relay-node"

module _ (env : Env) where
  -- `nodeCredentialHash`; `none` is `ErrRequestInvalid`.
  unfoldable pub node_credential_hash : Text → Option Text
  unfolding decode
  node_credential_hash credential = hashed (decode url credential)
    where
      hashed : Option (List ℕ) → Option Text
      hashed none = none
      hashed (some bytes) = if eqb (length bytes) 32 then some (env.sha256 bytes) else none

  -- `Service.RegisterNode`
  unfoldable pub add_node : Principal → RegisterNodeInput → Act ExecutionNode
  add_node actor input = do
    let name = trim_space input.name
    guard
        (valid_node_id input.node_id
          && sized name
          && (not (eqb (length input.agent_ids) 0) && not (ltb 32 (length input.agent_ids))))
        err_request_invalid
    hash ← some_or (node_credential_hash input.credential) err_request_invalid
    let ids = compact (sort_by leb_text input.agent_ids)
    guard (every_text sized ids) err_request_invalid
    t ← now env
    n ←
        command env
          (register_node (record {
            node_id = input.node_id;
            deployment_id = actor.deployment_id;
            organization_id = actor.organization_id;
            owner_user_id = actor.user_id;
            parent_session_id = actor.session_id;
            credential_hash = hash;
            name = name;
            agent_ids = ids;
            created_at = t;
            revoked_at = none;
          }))
          node_error
    pure (execution_node n)

  -- `Service.ListNodes`
  unfoldable pub nodes_for : Principal → Act (List ExecutionNode)
  nodes_for actor = do
    records ← ask env (list_nodes actor.deployment_id actor.organization_id actor.user_id)
    pure (map execution_node records)

  -- `Service.RevokeNode`
  unfoldable pub withdraw_node : Principal → Text → Act (Unit {0})
  withdraw_node actor id = do
    guard (valid_node_id id) err_request_invalid
    t ← now env
    command env
        (revoke_node actor.deployment_id actor.organization_id actor.user_id actor.session_id id t)
        missing_error

  -- `Service.Node`
  unfoldable pub node_for : Principal → Text → Act ExecutionNode
  node_for actor id = do
    found ← ask env (get_node actor.deployment_id actor.organization_id actor.user_id id)
    n ← some_or found err_not_found
    pure (execution_node n)

  -- The public entries among those asked for; without a question the store is not read.
  unfoldable pub directory_for : Principal → List Text → Act (List AgentDirectoryEntry)
  directory_for actor [] = pure []
  directory_for actor (id ∷ ids) = do
    entries ← organization_agents env actor
    pure (select (λ e. any (λ t. t == e.agent_id) (id ∷ ids)) entries)

  -- The principal that a node's token carries.
  abbrev pub acting_node : Principal → Node → Principal
  acting_node actor n = record actor {
    parent_session_id = actor.session_id;
    session_id = text "node:" ++ n.node_id;
    node_id = n.node_id;
    auth_method = text "node";
    agent_ids = n.agent_ids;
  }

  -- `ExchangeNodeTokenWithDirectory`; the result that it returns beside an error is left out.
  unfoldable pub exchange_node_token : Service → Text → List Text → Act NodeTokenResult
  exchange_node_token s credential ids = do
    guard (not (ltb 100 (length ids))) err_request_invalid
    t ← now env
    hash ← some_or (node_credential_hash credential) err_unauthenticated
    known ← ask env (node_by_credential hash)
    n ← some_or known err_unauthenticated
    owner ← ask env (resolve_node_owner n)
    r ← some_or owner err_unauthenticated
    let actor = principal_from_record r
    guard (actor.deployment_id == n.deployment_id && actor.organization_id == n.organization_id)
        err_forbidden
    agents ← verify_owned_agents env n.deployment_id n.organization_id n.owner_user_id n.agent_ids
    directory ← directory_for actor ids
    token ←
        some_or (sign s.signer (acting_node actor n) node_role relay_node_audience t node_token_ttl)
          err_other
    pure (record {
      token = token;
      expires_at = t + node_token_ttl;
      agents = agents;
      directory = directory;
    })
