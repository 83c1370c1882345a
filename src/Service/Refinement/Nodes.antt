-- ===== src/Service/Refinement/Nodes.antt =====
-- The operations on nodes, agents and plans over the operations of the store.
use nexus_control.Base.{List, [], ◌∷◌, Text}
use nexus_control.Store.Reachable.{adds_node, ends_node, publishes, plans, entitles}
use nexus_control.Service.Records.{Principal}
use nexus_control.Service.Act.{Env}
use nexus_control.Service.Sessions.{Service}
use nexus_control.Service.Refinement.Rules.{IsFair, Tame, Tame-pure, tame_rules}
use nexus_control.Service.Agents.{
  PublishAgentInput, organization_agents, publish, verify_owned_agents,
}
use nexus_control.Service.Nodes.{
  RegisterNodeInput, add_node, withdraw_node, directory_for, exchange_node_token,
}
use nexus_control.Service.Entitlements.{PlanInput, subscription_overview, save_plan, assign_plan}

module _ (env : Env) (fair : IsFair env) where
  pub publish-Tame :
      (actor : Principal) (input : PublishAgentInput) → Tame (publish env actor input)
  unfolding publish
  publish-Tame actor input = search (tame_rules, publishes) depth 60

  verify_owned_agents-Tame :
      (deployment org owner : Text) (ids : List Text)
      → Tame (verify_owned_agents env deployment org owner ids)
  unfolding verify_owned_agents
  verify_owned_agents-Tame deployment org owner ids = search (tame_rules) depth 60

  pub add_node-Tame :
      (actor : Principal) (input : RegisterNodeInput) → Tame (add_node env actor input)
  unfolding add_node
  add_node-Tame actor input = search (tame_rules, adds_node) depth 60

  pub withdraw_node-Tame : (actor : Principal) (id : Text) → Tame (withdraw_node env actor id)
  unfolding withdraw_node
  withdraw_node-Tame actor id = search (tame_rules, ends_node) depth 60

  directory_for-Tame : (actor : Principal) (ids : List Text) → Tame (directory_for env actor ids)
  unfolding directory_for organization_agents
  directory_for-Tame actor [] = Tame-pure []
  directory_for-Tame actor (id ∷ ids) = search tame_rules depth 30

  pub exchange_node_token-Tame :
      (s : Service) (credential : Text) (ids : List Text)
      → Tame (exchange_node_token env s credential ids)
  unfolding exchange_node_token
  exchange_node_token-Tame s credential ids =
      search (tame_rules, verify_owned_agents-Tame, directory_for-Tame) depth 60

  subscription_overview-Tame : (actor : Principal) → Tame (subscription_overview env actor)
  unfolding subscription_overview
  subscription_overview-Tame actor = search (tame_rules) depth 60

  pub save_plan-Tame : (actor : Principal) (input : PlanInput) → Tame (save_plan env actor input)
  unfolding save_plan
  save_plan-Tame actor input = search (tame_rules, plans, subscription_overview-Tame) depth 60

  pub assign_plan-Tame : (actor : Principal) (id plan : Text) → Tame (assign_plan env actor id plan)
  unfolding assign_plan
  assign_plan-Tame actor id plan =
      search (tame_rules, entitles, subscription_overview-Tame) depth 60
