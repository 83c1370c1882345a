-- ===== src/Store/Agents.antt =====
-- internal/storage/auth/agent.go: the public identities of the agents that members own.
use nexus_control.Base.{
  ℕ, Bool, ◌&&◌, ◌||◌, not, Option, none, some, List, [], ◌∷◌, ◌++◌, Text, ◌==◌, any, find, select,
  update, sort_by, leb_text, if◌then◌else◌,
}
use nexus_control.Strings.{nullable_string}
use nexus_control.Schema.{Db, Agent, membership_active, is_current}
use nexus_control.Tx.{
  Tx, Result, constraint, not_found, read, write, require, row_or, transaction, ◌>>=◌, ◌>>◌,
}
use nexus_control.Store.Principals.{active_user, active_organization, active_member}
use nexus_control.Store.Resolution.{or_empty}
use nexus_control.Store.Memberships.{membership_of}
use nexus_control.Store.Accounts.{lock_deployment}
use nexus_control.Store.Nodes.{active_agent_owner}

-- ORDER BY name, agent_id.
abbrev by_name : Agent → Agent → Bool
by_name a b = if a.name == b.name then leb_text a.agent_id b.agent_id else leb_text a.name b.name

abbrev pub published_in : Text → Text → Db → Agent → Bool
published_in deployment org db a =
    a.deployment_id == deployment
    && (a.organization_id == org && (is_current a.status && active_agent_owner db a))

-- `ListOwnedAgents`
unfoldable pub list_owned_agents : Text → Text → Text → Db → List Agent
list_owned_agents deployment org owner db =
    sort_by by_name
      (select (λ a. published_in deployment org db a && a.owner_user_id == owner) db.agents)

-- `ListOrganizationAgents`
unfoldable pub list_organization_agents : Text → Text → Db → List Agent
list_organization_agents deployment org db =
    sort_by by_name (select (published_in deployment org db) db.agents)

unfoldable pub prepend_agent : Option Agent → Option (List Agent) → Option (List Agent)
prepend_agent (some a) (some rest) = some (a ∷ rest)
prepend_agent _ _ = none

-- `ListVerifiedAgents`; `none` is `ErrNotFound`.
unfoldable pub list_verified_agents : Text → Text → Text → List Text → Db → Option (List Agent)
list_verified_agents deployment org owner [] db = some []
list_verified_agents deployment org owner (id ∷ ids) db =
    prepend_agent
      (find
        (λ a. (published_in deployment org db a && a.owner_user_id == owner) && a.agent_id == id)
        db.agents)
      (list_verified_agents deployment org owner ids db)

-- The unique key of the table besides `agent_id`.
abbrev pub agent_key : Agent → Agent → Bool
agent_key r a =
    a.deployment_id == r.deployment_id
    && (a.organization_id == r.organization_id
        && (a.owner_user_id == r.owner_user_id && a.source_agent_id == r.source_agent_id))

abbrev pub publish_agent : Agent → ℕ → Agent → Agent
publish_agent r now a = record a {
  name = r.name;
  avatar = nullable_string (or_empty r.avatar);
  status = membership_active;
  updated_at = now;
}

abbrev pub new_agent : Agent → ℕ → Agent
new_agent r now = record r {
  avatar = nullable_string (or_empty r.avatar);
  status = membership_active;
  created_at = now;
  updated_at = now;
}

module _ {R : Type 0} where
  -- INSERT INTO agents … ON CONFLICT (…) DO UPDATE.
  unfoldable pub upsert_agent : Agent → ℕ → Tx R (Unit {0})
  upsert_agent r now = do
    known ← read λ db. any (agent_key r) db.agents
    repeated ← read λ db. any (λ a. a.agent_id == r.agent_id) db.agents
    require (known || not repeated) constraint
    write λ db. record db {
      agents =
          if known
          then update (agent_key r) (publish_agent r now) db.agents
          else db.agents ++ new_agent r now ∷ [];
    }

unfoldable pub upsert_owned_agent_body : Agent → ℕ → Tx Agent Agent
upsert_owned_agent_body r now = do
  lock_deployment r.deployment_id
  active ← read λ db.
      any (λ m. membership_of r.organization_id r.owner_user_id m && is_current m.status)
        db.organization_memberships
      && (active_organization r.deployment_id r.organization_id db
          && (active_member r.deployment_id r.owner_user_id db && active_user r.owner_user_id db))
  require active not_found
  upsert_agent r now
  found ← read λ db. find (agent_key r) db.agents
  row_or found not_found

-- `UpsertOwnedAgent`; the avatar of `r` is a text that may be blank.
unfoldable pub upsert_owned_agent : Agent → ℕ → Db → Result Agent × Db
upsert_owned_agent r now = transaction (upsert_owned_agent_body r now)
