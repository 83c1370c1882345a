-- ===== src/Service/Agents.antt =====
-- internal/service/auth/agent.go: the agents that a user publishes, and their directory.
use nexus_control.Base.{
  ℕ, Bool, ◌&&◌, not, Option, none, some, List, [], ◌∷◌, Text, text, ltb, eqb, ◌==◌, map, any,
  length, if◌then◌else◌,
}
use nexus_control.Strings.{trim_space, is_empty, len}
use nexus_control.Schema.{Agent, MembershipStatus, membership_active}
use nexus_control.Tx.{StoreError, not_found}
use nexus_control.Store.Resolution.{or_empty}
use nexus_control.Store.Agents.{
  list_owned_agents, list_organization_agents, list_verified_agents, upsert_owned_agent,
}
use nexus_control.Service.Records.{Principal, AgentDirectoryEntry}
use nexus_control.Service.Act.{
  Env, Act, ServiceError, err_forbidden, err_request_invalid, internal, ◌>>=◌, ◌>>◌, pure, guard,
  some_or, now, ask, command, new_id,
}

-- `Agent` of model.go
pub record AgentView : Type 0 where
  pub agent_id : Text
  pub owner_user_id : Text
  pub source_agent_id : Text
  pub name : Text
  pub avatar : Text
  pub status : MembershipStatus
  pub created_at : ℕ
  pub updated_at : ℕ

-- `agentFromRecord`
unfoldable pub agent_from_record : Agent → AgentView
agent_from_record a = record {
  agent_id = a.agent_id;
  owner_user_id = a.owner_user_id;
  source_agent_id = a.source_agent_id;
  name = a.name;
  avatar = or_empty a.avatar;
  status = a.status;
  created_at = a.created_at;
  updated_at = a.updated_at;
}

-- `PublishAgentInput`
pub record PublishAgentInput : Type 0 where
  pub source_agent_id : Text
  pub name : Text
  pub avatar : Text

-- An identifier that is neither empty nor longer than 128 bytes.
abbrev pub sized : Text → Bool
sized id = not (is_empty id) && not (ltb 128 (len id))

-- The loop of `VerifyOwnedAgents`: trimmed, refused if empty or too long, repetitions dropped.
unfoldable pub distinct_ids : List Text → List Text → Option (List Text)
distinct_ids seen [] = some []
distinct_ids seen (id ∷ ids) =
    let s = trim_space id in
    let rest = distinct_ids (s ∷ seen) ids in
    if not (sized s) then none else if any (λ t. t == s) seen then rest else add rest
  where
    add : Option (List Text) → Option (List Text)
    add none = none
    add (some l) = some (trim_space id ∷ l)

abbrev pub agent_error : StoreError → ServiceError
agent_error not_found = err_forbidden
agent_error e = internal e

abbrev directory_entry : Agent → AgentDirectoryEntry
directory_entry a = record {
  agent_id = a.agent_id;
  owner_user_id = a.owner_user_id;
  name = a.name;
  avatar = or_empty a.avatar;
}

module _ (env : Env) where
  -- `Service.ListOwnedAgents`
  unfoldable pub owned_agents : Principal → Act (List AgentView)
  owned_agents actor = do
    records ← ask env (list_owned_agents actor.deployment_id actor.organization_id actor.user_id)
    pure (map agent_from_record records)

  -- `Service.ListOrganizationAgents`
  unfoldable pub organization_agents : Principal → Act (List AgentDirectoryEntry)
  organization_agents actor = do
    records ← ask env (list_organization_agents actor.deployment_id actor.organization_id)
    pure (map directory_entry records)

  -- `PublishAgent`
  unfoldable pub publish : Principal → PublishAgentInput → Act AgentView
  publish actor input = do
    let source = trim_space input.source_agent_id
    let name = trim_space input.name
    let avatar = trim_space input.avatar
    guard (sized source && (sized name && not (ltb 2048 (len avatar)))) err_request_invalid
    id ← new_id env (text "agent")
    t ← now env
    a ←
        command env
          (upsert_owned_agent
            (record {
              agent_id = id;
              deployment_id = actor.deployment_id;
              organization_id = actor.organization_id;
              owner_user_id = actor.user_id;
              source_agent_id = source;
              name = name;
              avatar = some avatar;
              status = membership_active;
              created_at = 0;
              updated_at = 0;
            })
            t)
          agent_error
    pure (agent_from_record a)

  -- `VerifyOwnedAgents`
  unfoldable pub verify_owned_agents : Text → Text → Text → List Text → Act (List AgentView)
  verify_owned_agents deployment org owner ids = do
    guard
        (not (is_empty (trim_space deployment))
          && not (is_empty (trim_space org))
          && not (is_empty (trim_space owner))
          && (not (eqb (length ids) 0) && not (ltb 100 (length ids))))
        err_request_invalid
    normalized ← some_or (distinct_ids [] ids) err_request_invalid
    found ← ask env (
        list_verified_agents (trim_space deployment) (trim_space org) (trim_space owner) normalized)
    records ← some_or found err_forbidden
    pure (map agent_from_record records)
