-- ===== src/Service/DutySteps.antt =====
-- The operations behind the administrative requests of internal/service/auth, statement by statement.
use nexus_control.Base.{refl, arith, inl, inr, Bool-cases, Text, Option, none, some}
use nexus_control.Strings.{trim_space, is_empty}
use nexus_control.Schema.{Db, Role, is_admin}
use nexus_control.Store.Organization.{Action}
use nexus_control.Service.Act.{Env}
use nexus_control.Service.Records.{Principal, CreateMemberInput, UpdateMemberInput, LoginInput}
use nexus_control.Service.Sessions.{Service, logout}
use nexus_control.Service.Members.{change_member, add_deployment_member, change_deployment_member}
use nexus_control.Service.Invitations.{
  CreateOrganizationInvitationInput, invite, check_invitation, mutate_invitation, revoke_invitation,
  delete_invitation,
}
use nexus_control.Service.Organizations.{
  OrganizationInput, organization_action, join_by_token, register,
}
use nexus_control.Service.Entitlements.{PlanInput, subscription_overview, save_plan, assign_plan}
use nexus_control.Service.DutyRules.{
  Only, Only-look, Only-step, Only-pure, Only-guard, Only-some_or, Only-now, Only-new_id,
  Only-new_token, Only-hash_password, Only-ask, Only-command, Only-when,
}
use nexus_control.Service.Duties.{
  ends_session, changes, creates, regrades, invites, withdraws, clears, organizes, joins, signs_up,
  plans, assigns, aim, Duty,
}
use nexus_control.Service.Roles.{
  leads-manages, leads-manages_organization, leads_some, invite_may, limited_may,
  invitation_hours_le, in_time,
}

module _ (env : Env) (s : Service) where
  subscription_overview-Only :
      (P : Db → Db → Type 0) (actor : Principal) → Only env P 0 (subscription_overview env actor)
  unfolding subscription_overview
  subscription_overview-Only P actor = Only-guard _ _ _ λ m.
      Only-look (Only-ask _) λ _. Only-look (Only-ask _) λ _. Only-look Only-now λ _. Only-pure _

  pub save_plan-Only :
      (actor : Principal) (input : PlanInput)
      → Only env (Duty env s (plans actor input)) 1 (save_plan env actor input)
  unfolding save_plan
  save_plan-Only actor input = Only-guard _ _ _ λ m. Only-some_or _ _ _ λ p e.
      Only-look Only-now λ t.
        Only-step (Only-command _ _ λ db. (p, t, leads-manages actor.role m, e, refl))
          λ _. subscription_overview-Only _ actor

  pub assign_plan-Only :
      (actor : Principal) (id key : Text)
      → Only env (Duty env s (assigns actor id key)) 1 (assign_plan env actor id key)
  unfolding assign_plan
  assign_plan-Only actor id key = Only-guard _ _ _ λ m. Only-guard _ _ _ λ v.
      Only-look Only-now λ t.
        Only-step
          (Only-command _ _
            λ db. (t, leads-manages actor.role m, ground (arith, v), ground (arith, v), refl))
          λ _. subscription_overview-Only _ actor

  pub register-Only :
      (input : LoginInput) → Only env (Duty env s (signs_up input)) 1 (register env s input)
  unfolding register
  register-Only input = Only-guard _ _ _ λ on. Only-some_or _ _ _ λ name e.
      Only-guard _ _ _ λ strong. Only-look (Only-hash_password _) λ _.
        Only-look (Only-new_id _) λ _. Only-look (Only-new_id _) λ _.
          Only-look (Only-new_id _)
            λ _. Only-look Only-now λ _. Only-command _ _ λ db. (_, on, e, strong, refl)

  pub join_by_token-Only :
      (actor : Principal) (token : Text)
      → Only env (Duty env s (joins actor token)) 1 (join_by_token env actor token)
  unfolding join_by_token
  join_by_token-Only actor token = Only-guard _ _ _ λ long.
      Only-look Only-now
        λ t. Only-command _ _ λ db. (_, refl, refl, refl, ground (arith, long), refl)

  pub organization_action-Only :
      (actor : Principal) (action : Action) (input : OrganizationInput)
      → Only env
          (Duty env s (organizes actor action input))
          1
          (organization_action env actor action input)
  unfolding organization_action
  organization_action-Only actor action input = Only-guard _ _ _ λ ok.
      Only-look (Only-new_id _)
        λ _. Only-look Only-now λ t. Only-command _ _ λ db. (_, refl, refl, refl, refl, ok, refl)

  pub logout-Only :
      (token : Text)
      → Only env (Duty env s (ends_session token)) (aim (ends_session token)) (logout env token)
  unfolding logout
  logout-Only token = elim (Bool-cases (is_empty (trim_space token))) [
    | inl blank ↦ rw blank (Only-pure tt)
    | inr filled ↦ rw filled (
        Only-look Only-now
          λ t. Only-step (Only-command _ _ λ db. (filled, t, refl)) λ _. Only-pure tt)
  ]

  check_invitation-Only :
      (P : Db → Db → Type 0) (actor : Principal) (r : Option Role) (id : Text)
      → Only env P 0 (check_invitation env actor r id)
  unfolding check_invitation
  check_invitation-Only P actor none id = Only-pure tt
  check_invitation-Only P actor (some r) id = elim (Bool-cases (is_admin r)) [
    | inl a ↦ rw a (Only-look (Only-ask _) λ found. Only-some_or _ _ _ λ i e. Only-when _ _)
    | inr a ↦ rw a (Only-pure tt)
  ]

  pub revoke_invitation-Only :
      (actor : Principal) (id : Text)
      → Only env (Duty env s (withdraws actor id)) 1 (revoke_invitation env actor id)
  unfolding revoke_invitation mutate_invitation
  revoke_invitation-Only actor id = Only-guard _ _ _ λ m. Only-guard _ _ _ λ short.
      Only-look (check_invitation-Only _ actor actor.organization_role (trim_space id)) λ _.
        Only-look Only-now λ t.
          Only-command _ _ λ db. (leads-manages_organization actor.organization_role m, t, refl)

  pub delete_invitation-Only :
      (actor : Principal) (id : Text)
      → Only env (Duty env s (clears actor id)) 1 (delete_invitation env actor id)
  unfolding delete_invitation mutate_invitation
  delete_invitation-Only actor id = Only-guard _ _ _ λ m. Only-guard _ _ _ λ short.
      Only-look (check_invitation-Only _ actor actor.organization_role (trim_space id)) λ _.
        Only-look Only-now λ t.
          Only-command _ _ λ db. (leads-manages_organization actor.organization_role m, t, refl)

  pub invite-Only :
      (actor : Principal) (input : CreateOrganizationInvitationInput)
      → Only env (Duty env s (invites actor input)) 1 (invite env actor input)
  unfolding invite
  invite-Only actor input = Only-guard _ _ _ λ m. Only-some_or _ _ _ λ role e.
      Only-guard _ _ _ λ below. Only-guard _ _ _ λ plain. Only-some_or _ _ _ λ hours f.
        Only-look Only-new_token λ token. Only-look Only-now λ t. Only-look (Only-new_id _) λ new.
          Only-step
            (Only-command _ _ λ db. (
              _,
              invite_may actor.organization_role role m (ground (arith, below)) plain,
              e,
              refl,
              refl,
              in_time t hours (invitation_hours_le input.expires_in_hours hours f),
              refl,
            ))
            λ r. Only-pure _

  pub add_deployment_member-Only :
      (actor : Principal) (input : CreateMemberInput)
      → Only env (Duty env s (creates actor input)) 1 (add_deployment_member env actor input)
  unfolding add_deployment_member
  add_deployment_member-Only actor input = Only-guard _ _ _ λ m. Only-some_or _ _ _ λ name e.
      Only-guard _ _ _ λ strong. Only-some_or _ _ _ λ role f. Only-guard _ _ _ λ below.
        Only-guard _ _ _ λ plain. Only-guard _ _ _ λ short. Only-look (Only-hash_password _) λ _.
          Only-look (Only-new_id _) λ _. Only-look (Only-new_id _) λ _.
            Only-look (Only-new_id _) λ _. Only-look Only-now λ t.
              Only-step
                (Only-command _ _ λ db. (
                  _,
                  invite_may (some actor.role) role (rw (leads_some actor.role) m)
                      (ground (arith, below)) plain,
                  f,
                  refl,
                  e,
                  strong,
                  ground (arith, short),
                  refl,
                ))
                λ r. Only-pure _

  pub change_member-Only :
      (actor : Principal) (id : Text) (input : UpdateMemberInput)
      → Only env (Duty env s (changes actor id input)) 1 (change_member env actor id input)
  unfolding change_member
  change_member-Only actor id input = Only-guard _ _ _ λ m. Only-guard _ _ _ λ asked.
      Only-look (Only-ask _) λ found. Only-some_or _ _ _ λ target e. Only-guard _ _ _ λ fresh.
        Only-some_or _ _ _ λ name f. Only-guard _ _ _ λ below. Only-some_or _ _ _ λ role g.
          Only-guard _ _ _ λ next. Only-some_or _ _ _ λ status h. Only-guard _ _ _ λ limited.
            Only-guard _ _ _ λ self. Only-look Only-now λ t.
              let (old, new) =
                limited_may actor.organization_role target.role role m (ground (arith, below))
                  (ground (arith, next)) limited in
              Only-step
                (Only-command _ _
                  λ db. (_, (old, new, g, h, fresh, refl, refl, refl, ground (arith, asked)), refl))
                λ r. Only-pure _

  pub change_deployment_member-Only :
      (actor : Principal) (id : Text) (input : UpdateMemberInput)
      → Only env
          (Duty env s (regrades actor id input))
          1
          (change_deployment_member env actor id input)
  unfolding change_deployment_member
  change_deployment_member-Only actor id input = Only-guard _ _ _ λ m. Only-guard _ _ _ λ asked.
      Only-look (Only-ask _) λ found. Only-some_or _ _ _ λ target e. Only-guard _ _ _ λ fresh.
        Only-some_or _ _ _ λ name f. Only-guard _ _ _ λ below. Only-some_or _ _ _ λ role g.
          Only-guard _ _ _ λ next. Only-some_or _ _ _ λ status h. Only-guard _ _ _ λ limited.
            Only-guard _ _ _ λ self. Only-look Only-now λ t.
              let (old, new) =
                limited_may (some actor.role) target.role role (rw (leads_some actor.role) m)
                  (ground (arith, below)) (ground (arith, next)) limited in
              Only-step
                (Only-command _ _
                  λ db. (_, (old, new, g, h, fresh, refl, refl, refl, ground (arith, asked)), refl))
                λ r. Only-pure _
