-- ===== src/Store/Setup.antt =====
-- `CreateOwner` of internal/storage/auth/account.go: the first deployment with its owner.
use nexus_control.Base.{ℕ, false, ◌||◌, not, [], ◌∷◌, ◌++◌, Text, ◌==◌, any}
use nexus_control.Schema.{Db, Deployment, Organization, role_owner, status_active}
use nexus_control.Tx.{
  Tx, Result, already_setup, constraint, read, write, require, transaction, ◌>>=◌, ◌>>◌,
}
use nexus_control.Store.Accounts.{
  NewMemberRecord, new_user, insert_identity, insert_credential, insert_deployment_membership,
}
use nexus_control.Store.Invitations.{insert_membership}
use nexus_control.Store.Plans.{insert_default_plans}
use nexus_control.Store.Registration.{setup_required}

-- `OwnerRecord`
pub record OwnerRecord : Type 0 where
  pub deployment_id : Text
  pub deployment_name : Text
  pub organization_id : Text
  pub organization_name : Text
  pub user_id : Text
  pub identity_id : Text
  pub credential_id : Text
  pub username : Text
  pub display_name : Text
  pub password_hash : Text
  pub created_at : ℕ

abbrev pub new_deployment : OwnerRecord → Deployment
new_deployment r = record {
  deployment_id = r.deployment_id;
  name = r.deployment_name;
  status = status_active;
  created_at = r.created_at;
  updated_at = r.created_at;
}

abbrev pub owner_organization : OwnerRecord → Organization
owner_organization r = record {
  organization_id = r.organization_id;
  deployment_id = r.deployment_id;
  name = r.organization_name;
  status = status_active;
  created_at = r.created_at;
  updated_at = r.created_at;
}

-- The account of the owner.
abbrev pub owner_account : OwnerRecord → NewMemberRecord
owner_account r = record {
  deployment_id = r.deployment_id;
  user_id = r.user_id;
  identity_id = r.identity_id;
  credential_id = r.credential_id;
  username = r.username;
  display_name = r.display_name;
  role = role_owner;
  password_hash = r.password_hash;
  created_at = r.created_at;
}

module _ {R : Type 0} where
  unfoldable pub insert_deployment : OwnerRecord → Tx R (Unit {0})
  insert_deployment r = do
    repeated ← read λ db. any (λ d. d.deployment_id == r.deployment_id) db.deployments
    require (not repeated) constraint
    write λ db. record db { deployments = db.deployments ++ new_deployment r ∷ [] }

  unfoldable pub insert_organization : OwnerRecord → Tx R (Unit {0})
  insert_organization r = do
    repeated ← read λ db. any (λ o. o.organization_id == r.organization_id) db.organizations
    require (not repeated) constraint
    write λ db. record db { organizations = db.organizations ++ owner_organization r ∷ [] }

  -- INSERT INTO users without ON CONFLICT: a username that is taken is a constraint.
  unfoldable pub insert_owner : OwnerRecord → Tx R (Unit {0})
  insert_owner r = do
    repeated ← read λ db. any (λ u. u.user_id == r.user_id || u.username == r.username) db.users
    require (not repeated) constraint
    write λ db. record db { users = db.users ++ new_user (owner_account r) ∷ [] }

unfoldable pub create_owner_body : OwnerRecord → Tx (Unit {0}) (Unit {0})
create_owner_body r = do
  required ← read setup_required
  require required already_setup
  insert_deployment r
  insert_organization r
  insert_owner r
  insert_identity (owner_account r)
  insert_credential (owner_account r)
  insert_deployment_membership r.deployment_id r.user_id role_owner false r.created_at
  insert_membership r.organization_id r.user_id role_owner r.created_at
  insert_default_plans r.deployment_id r.created_at

-- `CreateOwner`
unfoldable pub create_owner : OwnerRecord → Db → Result (Unit {0}) × Db
create_owner r = transaction (create_owner_body r)
