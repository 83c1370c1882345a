-- ===== src/Service/Serving.antt =====
-- The requests that the service answers, and what a request does to the database.
use nexus_control.Base.{Text, List, [], ◌∷◌}
use nexus_control.Store.Organization.{Action}
use nexus_control.Store.Owners.{IsGoverned}
use nexus_control.Store.Reachable.{Reachable, Reachable-IsGoverned}
use nexus_control.Service.Records.{
  Principal, SetupOwnerInput, LoginInput, ChangePasswordInput, CreateMemberInput, UpdateMemberInput,
}
use nexus_control.Service.Act.{Env, World, Act}
use nexus_control.Service.Sessions.{
  Service, setup_owner, login, logout, resolve_token, verify_bound_human, exchange_bound_human,
  exchange_principal, set_avatar,
}
use nexus_control.Service.Passwords.{change_password, settle_not_applied}
use nexus_control.Service.Members.{change_member, add_deployment_member, change_deployment_member}
use nexus_control.Service.Invitations.{
  CreateOrganizationInvitationInput, AcceptOrganizationInvitationInput, invite, revoke_invitation,
  delete_invitation, accept_invitation,
}
use nexus_control.Service.Organizations.{
  OrganizationInput, organization_action, join_by_token, register,
}
use nexus_control.Service.Agents.{PublishAgentInput, publish}
use nexus_control.Service.Nodes.{RegisterNodeInput, add_node, withdraw_node, exchange_node_token}
use nexus_control.Service.Entitlements.{PlanInput, save_plan, assign_plan}
use nexus_control.Service.Refinement.Rules.{IsFair, Leads, Leads-Reachable}
use nexus_control.Service.Refinement.Sessions.{
  setup_owner-Tame, login-Tame, logout-Tame, resolve_token-Tame, verify_bound_human-Tame,
  exchange_bound_human-Tame, exchange_principal-Tame, set_avatar-Tame,
}
use nexus_control.Service.Refinement.Passwords.{change_password-Tame, settle_not_applied-Tame}
use nexus_control.Service.Refinement.Members.{
  change_member-Tame, add_deployment_member-Tame, change_deployment_member-Tame, invite-Tame,
  revoke_invitation-Tame, delete_invitation-Tame, accept_invitation-Tame, organization_action-Tame,
  join_by_token-Tame, register-Tame,
}
use nexus_control.Service.Refinement.Nodes.{
  publish-Tame, add_node-Tame, withdraw_node-Tame, exchange_node_token-Tame, save_plan-Tame,
  assign_plan-Tame,
}

-- The operations of the service that write to the database.
pub data Request : Type 0 where
  set_up : SetupOwnerInput → Request
  log_in : LoginInput → Request
  log_out : Text → Request
  resolve : Text → Request
  verify : Text → Text → Request
  exchange_bound : Text → Text → Text → Request
  exchange : Text → Text → Request
  avatar : Text → Text → Request
  new_password : ChangePasswordInput → Request
  not_applied_password : Text → Text → Request
  member : Principal → Text → UpdateMemberInput → Request
  new_member : Principal → CreateMemberInput → Request
  deployment_member : Principal → Text → UpdateMemberInput → Request
  invitation : Principal → CreateOrganizationInvitationInput → Request
  no_invitation : Principal → Text → Request
  clear_invitation : Principal → Text → Request
  accepted : AcceptOrganizationInvitationInput → Request
  organization : Principal → Action → OrganizationInput → Request
  joining : Principal → Text → Request
  registration : LoginInput → Request
  agent : Principal → PublishAgentInput → Request
  new_node : Principal → RegisterNodeInput → Request
  no_node : Principal → Text → Request
  node_token : Text → List Text → Request
  plan : Principal → PlanInput → Request
  assignment : Principal → Text → Text → Request

module _ (env : Env) (s : Service) where
  abbrev end : {A : Type 0} → Act A → World → World
  end m w = (m w).1

  -- The world after a request, whatever the reply.
  unfoldable pub serve : Request → World → World
  serve (set_up input) = end (setup_owner env input)
  serve (log_in input) = end (login env s input)
  serve (log_out token) = end (logout env token)
  serve (resolve token) = end (resolve_token env token)
  serve (verify user session) = end (verify_bound_human env user session)
  serve (exchange_bound user session audience) =
      end (exchange_bound_human env s user session audience)
  serve (exchange token audience) = end (exchange_principal env s token audience)
  serve (avatar user value) = end (set_avatar env user value)
  serve (new_password input) = end (change_password env input)
  serve (not_applied_password user request) = end (settle_not_applied env user request)
  serve (member actor id input) = end (change_member env actor id input)
  serve (new_member actor input) = end (add_deployment_member env actor input)
  serve (deployment_member actor id input) = end (change_deployment_member env actor id input)
  serve (invitation actor input) = end (invite env actor input)
  serve (no_invitation actor id) = end (revoke_invitation env actor id)
  serve (clear_invitation actor id) = end (delete_invitation env actor id)
  serve (accepted input) = end (accept_invitation env input)
  serve (organization actor action input) = end (organization_action env actor action input)
  serve (joining actor token) = end (join_by_token env actor token)
  serve (registration input) = end (register env s input)
  serve (agent actor input) = end (publish env actor input)
  serve (new_node actor input) = end (add_node env actor input)
  serve (no_node actor id) = end (withdraw_node env actor id)
  serve (node_token credential ids) = end (exchange_node_token env s credential ids)
  serve (plan actor input) = end (save_plan env actor input)
  serve (assignment actor id key) = end (assign_plan env actor id key)

  module _ (fair : IsFair env) where
    -- A request goes through the store's operations alone, as the other requests do.
    serve-Leads : (q : Request) (w : World) → Leads w.db (serve q w).db
    unfolding serve
    serve-Leads (set_up input) = (setup_owner-Tame env fair input).at
    serve-Leads (log_in input) = (login-Tame env fair s input).at
    serve-Leads (log_out token) = (logout-Tame env fair token).at
    serve-Leads (resolve token) = (resolve_token-Tame env fair token).at
    serve-Leads (verify user session) = (verify_bound_human-Tame env fair user session).at
    serve-Leads (exchange_bound user session audience) =
        (exchange_bound_human-Tame env fair s user session audience).at
    serve-Leads (exchange token audience) = (exchange_principal-Tame env fair s token audience).at
    serve-Leads (avatar user value) = (set_avatar-Tame env fair user value).at
    serve-Leads (new_password input) = (change_password-Tame env fair input).at
    serve-Leads (not_applied_password user request) =
        (settle_not_applied-Tame env fair user request).at
    serve-Leads (member actor id input) = (change_member-Tame env fair actor id input).at
    serve-Leads (new_member actor input) = (add_deployment_member-Tame env fair actor input).at
    serve-Leads (deployment_member actor id input) =
        (change_deployment_member-Tame env fair actor id input).at
    serve-Leads (invitation actor input) = (invite-Tame env fair actor input).at
    serve-Leads (no_invitation actor id) = (revoke_invitation-Tame env fair actor id).at
    serve-Leads (clear_invitation actor id) = (delete_invitation-Tame env fair actor id).at
    serve-Leads (accepted input) = (accept_invitation-Tame env fair input).at
    serve-Leads (organization actor action input) =
        (organization_action-Tame env fair actor action input).at
    serve-Leads (joining actor token) = (join_by_token-Tame env fair actor token).at
    serve-Leads (registration input) = (register-Tame env fair s input).at
    serve-Leads (agent actor input) = (publish-Tame env fair actor input).at
    serve-Leads (new_node actor input) = (add_node-Tame env fair actor input).at
    serve-Leads (no_node actor id) = (withdraw_node-Tame env fair actor id).at
    serve-Leads (node_token credential ids) =
        (exchange_node_token-Tame env fair s credential ids).at
    serve-Leads (plan actor input) = (save_plan-Tame env fair actor input).at
    serve-Leads (assignment actor id key) = (assign_plan-Tame env fair actor id key).at

  -- A sequence of requests.
  unfoldable pub serve_all : List Request → World → World
  serve_all [] w = w
  serve_all (q ∷ qs) w = serve_all qs (serve q w)

-- In whatever order requests are served, each with any outcome and with other requests running in
-- between, each user is in at most one organization and each active organization has exactly one
-- active owner at the end. The first request meets a database that the store's operations have
-- reached, and what other requests do is a sequence of the store's operations.
pub serve_all-IsGoverned :
    (env : Env) (s : Service) (qs : List Request) (w : World)
    → IsFair env
    → Reachable w.db
    → IsGoverned (serve_all env s qs w).db
unfolding serve_all
serve_all-IsGoverned env s [] w fair r = Reachable-IsGoverned w.db r
serve_all-IsGoverned env s (q ∷ qs) w fair r =
    serve_all-IsGoverned env s qs (serve env s q w) fair
      (Leads-Reachable (serve-Leads env s fair q w) r)
