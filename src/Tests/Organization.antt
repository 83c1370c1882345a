-- ===== src/Tests/Organization.antt =====
-- Organization commands on the fixture.
use nexus_control.Base.{◌≡◌, refl, [], ◌∷◌, text, arith, map, any, count}
use nexus_control.Schema.{role_owner, role_admin}
use nexus_control.Store.Organization.{OrganizationCommand, Action, transfer, mutate_organization}
use nexus_control.Store.Owners.{IsGoverned}
use nexus_control.Store.Governance.{mutate_organization-IsGoverned}
use nexus_control.Tests.Fixtures.{ann, bob, office, principal}

abbrev pub command : Action → OrganizationCommand
command action = record {
  actor = principal ann role_owner;
  action = action;
  organization_id = text "org2";
  name = text "name";
  target_user_id = bob;
  token_hash = text "token";
  now = 10;
}

pub office-IsGoverned : IsGoverned office
unfolding count any
office-IsGoverned = record {
  one_current = λ user. ground arith;
  one_owner = λ o. ground arith;
  has_owner = λ o live. ground arith;
  named = ground arith;
}

mutate_organization-IsGoverned_example :
    IsGoverned (mutate_organization (command transfer) office).1
mutate_organization-IsGoverned_example =
    mutate_organization-IsGoverned (command transfer) office (λ p e. cc) office-IsGoverned

-- The organization changes hands.
transfer_roles :
    map (λ m. m.role) (mutate_organization (command transfer) office).1.organization_memberships
    ≡ role_admin ∷ role_owner ∷ []
unfolding mutate_organization
transfer_roles = refl
