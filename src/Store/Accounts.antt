-- ===== src/Store/Accounts.antt =====
-- The rows of a new account: the statements that internal/storage/auth/deployment_member.go,
-- registration.go, invitation.go and account.go share, and the records of model.go for a member.
use Prim.Native.Nat.{max}
use nexus_control.Base.{
  ℕ, Bool, ◌&&◌, ◌||◌, not, Option, none, [], ◌∷◌, ◌++◌, Text, text, eqb, ◌==◌, any, update,
}
use nexus_control.Schema.{
  User, Identity, Credential, DeploymentMembership, Role, MembershipStatus, status_active,
  membership_active, same_role, same_membership,
}
use nexus_control.Tx.{
  Tx, constraint, username_conflict, not_found, state_conflict, read, write, require, ◌>>=◌, ◌>>◌,
}
use nexus_control.Store.Resolution.{or_empty}
use nexus_control.Store.Events.{append_profile_invalidations}

-- `NewMemberRecord`
pub record NewMemberRecord : Type 0 where
  pub deployment_id : Text
  pub user_id : Text
  pub identity_id : Text
  pub credential_id : Text
  pub username : Text
  pub display_name : Text
  pub role : Role
  pub password_hash : Text
  pub created_at : ℕ

-- `DeploymentMemberRecord`
pub record DeploymentMemberRecord : Type 0 where
  pub deployment_id : Text
  pub user_id : Text
  pub username : Text
  pub display_name : Text
  pub role : Role
  pub membership_status : MembershipStatus
  pub web_access_disabled : Bool
  pub avatar : Text
  pub last_login_at : Option ℕ
  pub created_at : ℕ
  pub updated_at : ℕ

-- The row of `scanDeploymentMember`: a user with a role, a status and the instant of the change of
-- the membership, the later of the two instants being the version.
unfoldable pub scan_deployment_member :
    User → DeploymentMembership → Role → MembershipStatus → ℕ → DeploymentMemberRecord
scan_deployment_member u m role status changed = record {
  deployment_id = m.deployment_id;
  user_id = u.user_id;
  username = u.username;
  display_name = u.display_name;
  role = role;
  membership_status = status;
  web_access_disabled = m.web_access_disabled;
  avatar = or_empty u.avatar;
  last_login_at = u.last_login_at;
  created_at = u.created_at;
  updated_at = max u.updated_at changed;
}

abbrev pub in_deployment : Text → Text → DeploymentMembership → Bool
in_deployment deployment user m = m.deployment_id == deployment && m.user_id == user

abbrev pub new_user : NewMemberRecord → User
new_user r = record {
  user_id = r.user_id;
  username = r.username;
  display_name = r.display_name;
  status = status_active;
  avatar = none;
  last_login_at = none;
  created_at = r.created_at;
  updated_at = r.created_at;
}

abbrev pub new_identity : NewMemberRecord → Identity
new_identity r = record {
  identity_id = r.identity_id;
  user_id = r.user_id;
  provider = text "password";
  subject = r.username;
  created_at = r.created_at;
  updated_at = r.created_at;
}

abbrev pub new_credential : NewMemberRecord → Credential
new_credential r = record {
  credential_id = r.credential_id;
  user_id = r.user_id;
  password_hash = r.password_hash;
  password_algo = text "argon2id";
  password_updated_at = r.created_at;
  created_at = r.created_at;
  updated_at = r.created_at;
}

abbrev pub new_deployment_membership : Text → Text → Role → Bool → ℕ → DeploymentMembership
new_deployment_membership deployment user role web_access_disabled now = record {
  deployment_id = deployment;
  user_id = user;
  role = role;
  status = membership_active;
  created_at = now;
  updated_at = now;
  web_access_disabled = web_access_disabled;
}

abbrev pub same_identity : NewMemberRecord → Identity → Bool
same_identity r i =
    i.identity_id == r.identity_id || i.provider == text "password" && i.subject == r.username

abbrev pub same_credential : NewMemberRecord → Credential → Bool
same_credential r c = c.credential_id == r.credential_id || c.user_id == r.user_id

module _ {R : Type 0} where
  -- INSERT INTO users … ON CONFLICT(username) DO NOTHING, and the test of the affected rows.
  unfoldable pub insert_user : NewMemberRecord → Tx R (Unit {0})
  insert_user r = do
    known ← read λ db. any (λ u. u.username == r.username) db.users
    require (not known) username_conflict
    repeated ← read λ db. any (λ u. u.user_id == r.user_id) db.users
    require (not repeated) constraint
    write λ db. record db { users = db.users ++ new_user r ∷ [] }

  unfoldable pub insert_identity : NewMemberRecord → Tx R (Unit {0})
  insert_identity r = do
    repeated ← read λ db. any (same_identity r) db.identities
    require (not repeated) constraint
    write λ db. record db { identities = db.identities ++ new_identity r ∷ [] }

  unfoldable pub insert_credential : NewMemberRecord → Tx R (Unit {0})
  insert_credential r = do
    repeated ← read λ db. any (same_credential r) db.credentials
    require (not repeated) constraint
    write λ db. record db { credentials = db.credentials ++ new_credential r ∷ [] }

  unfoldable pub insert_deployment_membership : Text → Text → Role → Bool → ℕ → Tx R (Unit {0})
  insert_deployment_membership deployment user role web_access_disabled now = do
    known ← read λ db. any (λ d. d.deployment_id == deployment) db.deployments
    require known constraint
    repeated ← read λ db. any (in_deployment deployment user) db.memberships
    require (not repeated) constraint
    write λ db. record db {
      memberships =
          db.memberships
          ++ new_deployment_membership deployment user role web_access_disabled now ∷ [];
    }

  -- The row that `lockDeployment` locks, whatever its status.
  unfoldable pub lock_deployment : Text → Tx R (Unit {0})
  lock_deployment deployment = do
    known ← read λ db. any (λ d. d.deployment_id == deployment) db.deployments
    require known not_found

  -- The change of a display name, with the test of the affected rows.
  unfoldable pub rename_user : Text → Text → Text → ℕ → Tx R (Unit {0})
  rename_user user old new now = do
    hit ← read λ db. any (λ u. u.user_id == user && u.display_name == old) db.users
    require hit state_conflict
    write λ db. record db {
      users =
          update (λ u. u.user_id == user && u.display_name == old)
            (λ u. record u { display_name = new; updated_at = now }) db.users;
    }
    append_profile_invalidations user now

-- The parameters of `UpdateDeploymentMember` and `UpdateMember`.
pub record MemberChange : Type 0 where
  pub deployment_id : Text
  pub user_id : Text
  pub actor_user_id : Text
  pub expected_role : Role
  pub expected_status : MembershipStatus
  pub expected_version : ℕ
  pub next_role : Role
  pub next_status : MembershipStatus
  pub next_name : Text
  pub now : ℕ

-- The test for a stale request.
unfoldable pub unchanged_since : MemberChange → DeploymentMemberRecord → Bool
unchanged_since c target =
    same_role target.role c.expected_role
    && (same_membership target.membership_status c.expected_status
        && eqb target.updated_at c.expected_version)

abbrev pub changed_target : MemberChange → DeploymentMemberRecord → DeploymentMemberRecord
changed_target c target = record target {
  role = c.next_role;
  membership_status = c.next_status;
  display_name = c.next_name;
  updated_at = c.now;
}
