-- ===== src/Store/Registration.antt =====
-- internal/storage/auth/registration.go and the accounts of account.go: registration and avatars.
use nexus_control.Base.{
  ℕ, Bool, false, ◌&&◌, Option, none, some, List, [], ◌∷◌, Text, leb, eqb, ◌==◌, select, update,
  if◌then◌else◌, count,
}
use nexus_control.Strings.{trim_space, nullable_string}
use nexus_control.Schema.{
  Db, Deployment, DeploymentMembership, Role, role_member, is_active, is_current,
}
use nexus_control.Tx.{Tx, Result, not_found, read, write, require, row_or, transaction, ◌>>=◌, ◌>>◌}
use nexus_control.Store.Events.{append_profile_invalidations}
use nexus_control.Store.Principals.{active_user}
use nexus_control.Store.Resolution.{earliest}
use nexus_control.Store.Accounts.{
  NewMemberRecord, insert_user, insert_identity, insert_credential, insert_deployment_membership,
}

abbrev older : Deployment → Option Deployment → Deployment
older d none = d
older d (some e) = if leb d.created_at e.created_at then d else e

-- ORDER BY created_at LIMIT 1.
unfoldable pub oldest : List Deployment → Option Deployment
oldest [] = none
oldest (d ∷ ds) = some (older d (oldest ds))

unfoldable pub register_account_body : NewMemberRecord → Tx (Unit {0}) (Unit {0})
register_account_body r = do
  found ← read λ db. oldest (select (λ d. is_active d.status) db.deployments)
  d ← row_or found not_found
  insert_user r
  insert_identity r
  insert_credential r
  insert_deployment_membership d.deployment_id r.user_id role_member false r.created_at

-- `RegisterAccount`
unfoldable pub register_account : NewMemberRecord → Db → Result (Unit {0}) × Db
register_account r = transaction (register_account_body r)

-- `SetupRequired`
unfoldable pub setup_required : Db → Bool
setup_required db = eqb (count (λ m. is_current m.status) db.memberships) 0

unfoldable pub role_of_row : Option DeploymentMembership → Option Role
role_of_row none = none
role_of_row (some m) = some m.role

-- `ActiveRole`; no row is `ErrNotFound`.
unfoldable pub active_role : Text → Db → Option Role
unfolding role_of_row
active_role user db = role_of_row (
    earliest (
      select (λ m. m.user_id == trim_space user && is_current m.status && active_user m.user_id db)
        db.memberships))

unfoldable pub update_avatar_body : Text → Text → ℕ → Tx (Unit {0}) (Unit {0})
update_avatar_body user avatar now = do
  hit ← read (active_user (trim_space user))
  require hit not_found
  write λ db. record db {
    users =
        update (λ u. u.user_id == trim_space user && is_active u.status)
          (λ u. record u { avatar = nullable_string avatar; updated_at = now }) db.users;
  }
  append_profile_invalidations user now

-- `UpdateAvatar`
unfoldable pub update_avatar : Text → Text → ℕ → Db → Result (Unit {0}) × Db
update_avatar user avatar now = transaction (update_avatar_body user avatar now)
