-- ===== src/Tests/Setup.antt =====
-- The setup on an empty database.
use nexus_control.Base.{◌≡◌, refl, [], text, arith, dec_text, any, count, find, update}
use nexus_control.Schema.{Db}
use nexus_control.Tx.{ok, err, already_setup, transaction}
use nexus_control.Store.Memberships.{memberships_ok, write_memberships}
use nexus_control.Store.Accounts.{insert_identity, insert_credential, insert_deployment_membership}
use nexus_control.Store.Invitations.{insert_membership}
use nexus_control.Store.Plans.{upsert_plan, upsert_subscription_plan_row, insert_default_plans}
use nexus_control.Store.Registration.{setup_required}
use nexus_control.Store.Setup.{
  OwnerRecord, insert_deployment, insert_organization, insert_owner, create_owner_body,
  create_owner,
}
use nexus_control.Store.Owners.{IsGoverned}
use nexus_control.Store.Organization.{mutate_organization, rename}
use nexus_control.Store.Reachable.{
  Reachable, starts, steps, sets_up, commands, Reachable-IsGoverned,
}
use nexus_control.Tests.Organization.{command}
use nexus_control.Store.SetupLaws.{create_owner-IsGoverned, create_owner-once}

abbrev pub empty : Db
empty = record {
  deployments = [];
  users = [];
  identities = [];
  credentials = [];
  memberships = [];
  organizations = [];
  organization_memberships = [];
  invitations = [];
  agents = [];
  nodes = [];
  sessions = [];
  receipts = [];
  invalidations = [];
  plans = [];
  entitlements = [];
  next_event_id = 1;
}

empty-IsGoverned : IsGoverned empty
unfolding count any
empty-IsGoverned = record {
  one_current = λ user. ground arith;
  one_owner = λ o. ground arith;
  has_owner = λ o live. ground arith;
  named = ground arith;
}

abbrev owner : OwnerRecord
owner = record {
  deployment_id = text "dep";
  deployment_name = text "Deployment";
  organization_id = text "org";
  organization_name = text "Organization";
  user_id = text "ann";
  identity_id = text "id";
  credential_id = text "cred";
  username = text "ann";
  display_name = text "Ann";
  password_hash = text "hash";
  created_at = 10;
}

abbrev pub installed : Db
installed = (create_owner owner empty).1

owner_installs : create_owner owner empty ≡ (ok tt, installed)
unfolding create_owner transaction create_owner_body setup_required insert_deployment
    insert_organization insert_owner insert_identity insert_credential insert_deployment_membership
    insert_membership write_memberships memberships_ok insert_default_plans
    upsert_subscription_plan_row upsert_plan find any update count dec_text
owner_installs = refl

create_owner-IsGoverned_example : IsGoverned installed
create_owner-IsGoverned_example = create_owner-IsGoverned owner empty (λ e. cc) empty-IsGoverned

create_owner-once_example : create_owner owner installed ≡ (err already_setup, installed)
create_owner-once_example =
    create_owner-once owner owner empty installed (λ e. cc) empty-IsGoverned owner_installs

-- A setup, then a command of the owner.
abbrev run : Db
run = (mutate_organization (command rename) installed).1

run-Reachable : Reachable run
run-Reachable =
    steps {db = installed}
      (steps {db = empty} (starts {db = empty} (refl, refl)) (sets_up {db = empty} owner (λ e. cc)))
      (commands {db = installed} (command rename) (λ e. cc))

Reachable-IsGoverned_example : IsGoverned run
Reachable-IsGoverned_example = Reachable-IsGoverned run run-Reachable
