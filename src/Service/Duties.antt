-- ===== src/Service/Duties.antt =====
-- What the administrative requests are for: the step of the store that each of them may take, with the
-- permission and the input that it asks for. The permissions are stated with `may_manage`, the rule of
-- the store, and not with the tests of the service.
use nexus_control.Base.{
  if◌then◌else◌, ℕ, ◌≤◌, ◌≡◌, ◌+◌, ◌*◌, Bool, true, false, Option, none, some, Text,
}
use nexus_control.Strings.{trim_space, is_empty, len}
use nexus_control.Schema.{Db, Role}
use nexus_control.Store.Principals.{may_manage}
use nexus_control.Store.Accounts.{NewMemberRecord, MemberChange}
use nexus_control.Store.DeploymentMembers.{create_deployment_member, update_deployment_member}
use nexus_control.Store.Members.{update_member}
use nexus_control.Store.Invitations.{
  InvitationRecord, create_organization_invitation, revoke_organization_invitation,
  delete_organization_invitation,
}
use nexus_control.Store.Organization.{OrganizationCommand, Action, join, mutate_organization}
use nexus_control.Store.Registration.{register_account}
use nexus_control.Store.Plans.{upsert_subscription_plan}
use nexus_control.Store.Entitlements.{set_member_entitlement}
use nexus_control.Store.Sessions.{revoke_session}
use nexus_control.Service.Act.{Env, World, Act, hash_token}
use nexus_control.Service.Validate.{normalize_username, normalize_role, validate_password}
use nexus_control.Service.Records.{
  Principal, CreateMemberInput, UpdateMemberInput, LoginInput, principal_record,
}
use nexus_control.Service.Sessions.{Service, logout}
use nexus_control.Service.Invitations.{
  CreateOrganizationInvitationInput, hour, invite, revoke_invitation, delete_invitation,
}
use nexus_control.Service.Organizations.{
  OrganizationInput, acceptable, organization_action, join_by_token, register,
}
use nexus_control.Service.Entitlements.{
  PlanInput, SubscriptionPlan, normalize_subscription_plan, is_plan_key, plan_row, save_plan,
  assign_plan,
}
use nexus_control.Service.Members.{
  optional, membership_status_of, current_version, change_member, add_deployment_member,
  change_deployment_member,
}
use nexus_control.Service.DutyRules.{is_done}

-- The requests of an actor on accounts, memberships, invitations and plans, with the logout.
pub data Administration : Type 0 where
  ends_session : Text → Administration
  changes : Principal → Text → UpdateMemberInput → Administration
  creates : Principal → CreateMemberInput → Administration
  regrades : Principal → Text → UpdateMemberInput → Administration
  invites : Principal → CreateOrganizationInvitationInput → Administration
  withdraws : Principal → Text → Administration
  clears : Principal → Text → Administration
  organizes : Principal → Action → OrganizationInput → Administration
  joins : Principal → Text → Administration
  signs_up : LoginInput → Administration
  plans : Principal → PlanInput → Administration
  assigns : Principal → Text → Text → Administration

abbrev outcome : {A : Type 0} → Act A → World → Bool × World
outcome m w = (is_done (m w).0, (m w).1)

-- Whether the reply is a value, and the world after it.
unfoldable pub administer : Env → Service → Administration → World → Bool × World
administer env s (ends_session token) = outcome (logout env token)
administer env s (changes actor id input) = outcome (change_member env actor id input)
administer env s (creates actor input) = outcome (add_deployment_member env actor input)
administer env s (regrades actor id input) = outcome (change_deployment_member env actor id input)
administer env s (invites actor input) = outcome (invite env actor input)
administer env s (withdraws actor id) = outcome (revoke_invitation env actor id)
administer env s (clears actor id) = outcome (delete_invitation env actor id)
administer env s (organizes actor action input) =
    outcome (organization_action env actor action input)
administer env s (joins actor token) = outcome (join_by_token env actor token)
administer env s (signs_up input) = outcome (register env s input)
administer env s (plans actor input) = outcome (save_plan env actor input)
administer env s (assigns actor id key) = outcome (assign_plan env actor id key)

-- The number of steps of a request that succeeds.
abbrev pub aim : Administration → ℕ
aim (ends_session token) = if is_empty (trim_space token) then 0 else 1
aim _ = 1

-- Whether a role, if there is one, manages another: an owner all but owners, an administrator members.
abbrev pub may : Option Role → Role → Bool
may none target = false
may (some r) target = may_manage r target

-- A role that manages somebody.
abbrev pub leads : Option Role → Bool
leads r = may r Role.role_member

-- A change of a member that the actor's role allows: of one that it manages into one that it manages,
-- the one that the input asks for, against the version that the input has seen.
abbrev pub Permitted : Principal → Option Role → Text → UpdateMemberInput → MemberChange → Type 0
Permitted actor role id input c =
    (may role c.expected_role ≡ true)
    × (may role c.next_role ≡ true)
    × (optional normalize_role c.expected_role input.role ≡ some c.next_role)
    × (optional membership_status_of c.expected_status input.status ≡ some c.next_status)
    × (current_version input.expected_version c.expected_version ≡ true)
    × (c.deployment_id ≡ actor.deployment_id)
    × (c.actor_user_id ≡ actor.user_id)
    × (c.user_id ≡ trim_space id)
    × (is_empty c.user_id ≡ false)

-- The step that a request may take, with what it has made sure of.
abbrev pub Duty : Env → Service → Administration → Db → Db → Type 0
Duty env s (ends_session token) d e =
    (is_empty (trim_space token) ≡ false)
    × (t : ℕ) × (e ≡ (revoke_session (hash_token env token) t d).1)
Duty env s (changes actor id input) d e =
    (c : MemberChange) × Permitted actor actor.organization_role id input c
    × (e ≡ (update_member c actor.organization_id d).1)
Duty env s (creates actor input) d e =
    (n : NewMemberRecord) × (may (some actor.role) n.role ≡ true)
    × (normalize_role input.role ≡ some n.role)
    × (n.deployment_id ≡ actor.deployment_id)
    × (normalize_username input.username ≡ some n.username)
    × (validate_password input.password ≡ true)
    × (len n.display_name ≤ 128)
    × (e ≡ (create_deployment_member actor.user_id n d).1)
Duty env s (regrades actor id input) d e =
    (c : MemberChange) × Permitted actor (some actor.role) id input c
    × (e ≡ (update_deployment_member c d).1)
Duty env s (invites actor input) d e =
    (r : InvitationRecord) × (may actor.organization_role r.row.role ≡ true)
    × (normalize_role input.role ≡ some r.row.role)
    × (r.row.organization_id ≡ actor.organization_id)
    × (r.row.created_by_user_id ≡ actor.user_id)
    × (r.row.expires_at ≤ r.row.created_at + 720 * hour)
    × (e ≡ (create_organization_invitation r d).1)
Duty env s (withdraws actor id) d e =
    (leads actor.organization_role ≡ true)
    × (t : ℕ) × (e
        ≡ (revoke_organization_invitation actor.organization_id (trim_space id) actor.user_id t
            d).1)
Duty env s (clears actor id) d e =
    (leads actor.organization_role ≡ true)
    × (t : ℕ) × (e
        ≡ (delete_organization_invitation actor.organization_id (trim_space id) actor.user_id t
            d).1)
Duty env s (organizes actor action input) d e =
    (c : OrganizationCommand) × (c.actor ≡ principal_record actor)
    × (c.action ≡ action)
    × (c.name ≡ trim_space input.name)
    × (c.target_user_id ≡ trim_space input.target_user_id)
    × (acceptable action c.name c.target_user_id ≡ true)
    × (e ≡ (mutate_organization c d).1)
Duty env s (joins actor token) d e =
    (c : OrganizationCommand) × (c.actor ≡ principal_record actor)
    × (c.action ≡ join)
    × (c.token_hash ≡ hash_token env token)
    × (len token ≡ 64)
    × (e ≡ (mutate_organization c d).1)
Duty env s (signs_up input) d e =
    (n : NewMemberRecord) × (s.registration_enabled ≡ true)
    × (normalize_username input.username ≡ some n.username)
    × (validate_password input.password ≡ true)
    × (e ≡ (register_account n d).1)
Duty env s (plans actor input) d e =
    (p : SubscriptionPlan) × (t : ℕ) × (leads (some actor.role) ≡ true)
    × (normalize_subscription_plan input ≡ some p)
    × (e ≡ (upsert_subscription_plan (plan_row actor.deployment_id p) t d).1)
Duty env s (assigns actor id key) d e =
    (t : ℕ) × (leads (some actor.role) ≡ true)
    × (is_empty (trim_space id) ≡ false)
    × (is_plan_key (trim_space key) ≡ true)
    × (e ≡ (set_member_entitlement actor.deployment_id (trim_space id) (trim_space key) t d).1)
