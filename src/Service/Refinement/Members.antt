-- ===== src/Service/Refinement/Members.antt =====
-- The operations on members, invitations and organizations over the operations of the store.
use nexus_control.Base.{◌≡◌, Option, none, some, Text}
use nexus_control.Schema.{Db, Role}
use nexus_control.Store.Organization.{OrganizationCommand, mutate_organization, Action, join}
use nexus_control.Store.Reachable.{
  Step, commands, changes_member, accepts, registers, creates_member, invites, withdraws, clears,
  regrades,
}
use nexus_control.Service.Records.{Principal, LoginInput, CreateMemberInput, UpdateMemberInput}
use nexus_control.Service.Act.{Env}
use nexus_control.Service.Sessions.{Service}
use nexus_control.Service.Refinement.Rules.{IsFair, Tame, Tame-pure, Tame-named, tame_rules}
use nexus_control.Service.Members.{change_member, add_deployment_member, change_deployment_member}
use nexus_control.Service.Invitations.{
  CreateOrganizationInvitationInput, AcceptOrganizationInvitationInput, invite, check_invitation,
  mutate_invitation, revoke_invitation, delete_invitation, active_invitation, accept_invitation,
}
use nexus_control.Service.Organizations.{
  OrganizationInput, organization_action, join_by_token, register,
}

-- Joining creates no organization.
joins : {db : Db} (c : OrganizationCommand) → c.action ≡ join → Step db (mutate_organization c db).1
joins c e = commands c (λ k. cc)

module _ (env : Env) (fair : IsFair env) where
  pub change_member-Tame :
      (actor : Principal) (id : Text) (input : UpdateMemberInput)
      → Tame (change_member env actor id input)
  unfolding change_member
  change_member-Tame actor id input = search (tame_rules, changes_member) depth 60

  pub add_deployment_member-Tame :
      (actor : Principal) (input : CreateMemberInput) → Tame (add_deployment_member env actor input)
  unfolding add_deployment_member
  add_deployment_member-Tame actor input = search (tame_rules, creates_member) depth 60

  pub change_deployment_member-Tame :
      (actor : Principal) (id : Text) (input : UpdateMemberInput)
      → Tame (change_deployment_member env actor id input)
  unfolding change_deployment_member
  change_deployment_member-Tame actor id input = search (tame_rules, regrades) depth 60

  pub invite-Tame :
      (actor : Principal) (input : CreateOrganizationInvitationInput)
      → Tame (invite env actor input)
  unfolding invite
  invite-Tame actor input = search (tame_rules, invites) depth 60

  check_invitation-Tame :
      (actor : Principal) (r : Option Role) (id : Text) → Tame (check_invitation env actor r id)
  unfolding check_invitation
  check_invitation-Tame actor none id = Tame-pure tt
  check_invitation-Tame actor (some r) id = search tame_rules depth 30

  pub revoke_invitation-Tame :
      (actor : Principal) (id : Text) → Tame (revoke_invitation env actor id)
  unfolding revoke_invitation mutate_invitation
  revoke_invitation-Tame actor id = search (tame_rules, check_invitation-Tame, withdraws) depth 60

  pub delete_invitation-Tame :
      (actor : Principal) (id : Text) → Tame (delete_invitation env actor id)
  unfolding delete_invitation mutate_invitation
  delete_invitation-Tame actor id = search (tame_rules, check_invitation-Tame, clears) depth 60

  active_invitation-Tame : (token : Text) → Tame (active_invitation env token)
  unfolding active_invitation
  active_invitation-Tame token = search (tame_rules) depth 60

  pub accept_invitation-Tame :
      (input : AcceptOrganizationInvitationInput) → Tame (accept_invitation env input)
  unfolding accept_invitation
  accept_invitation-Tame input = search (tame_rules, active_invitation-Tame, accepts) depth 60

  pub organization_action-Tame :
      (actor : Principal) (action : Action) (input : OrganizationInput)
      → Tame (organization_action env actor action input)
  unfolding organization_action
  organization_action-Tame actor action input = search (tame_rules, Tame-named, commands) depth 60

  pub join_by_token-Tame : (actor : Principal) (token : Text) → Tame (join_by_token env actor token)
  unfolding join_by_token
  join_by_token-Tame actor token = search (tame_rules, joins) depth 60

  pub register-Tame : (s : Service) (input : LoginInput) → Tame (register env s input)
  unfolding register
  register-Tame s input = search (tame_rules, registers) depth 60
