-- ===== src/Service/Organizations.antt =====
-- internal/service/auth/organization.go: the organization commands and the public registration.
use nexus_control.Base.{Bool, true, false, not, [], Text, text, eqb}
use nexus_control.Strings.{trim_space, len}
use nexus_control.Tx.{StoreError, username_conflict, not_found}
use nexus_control.Store.Organization.{
  Action, create, join, leave, transfer, rename, dissolve, other, mutate_organization,
}
use nexus_control.Store.Registration.{register_account}
use nexus_control.Service.Validate.{normalize_username, validate_password}
use nexus_control.Schema.{role_member}
use nexus_control.Service.Records.{Principal, principal_record, LoginInput}
use nexus_control.Service.Sessions.{Service}
use nexus_control.Service.Act.{
  Env, Act, ServiceError, err_conflict, err_forbidden, err_request_invalid, internal, ◌>>=◌, ◌>>◌,
  guard, some_or, now, command, new_id, hash_token, hash_password,
}
use nexus_control.Service.Invitations.{organization_error, long}

-- `OrganizationInput`
pub record OrganizationInput : Type 0 where
  pub name : Text
  pub target_user_id : Text

abbrev pub register_error : StoreError → ServiceError
register_error username_conflict = err_conflict
register_error not_found = err_forbidden
register_error e = internal e

-- The checks of `Service.MutateOrganization` on the trimmed input. The action comes from the path of
-- the request; joining has an operation of its own.
unfoldable pub acceptable : Action → Text → Text → Bool
acceptable create name target = not (long 128 name)
acceptable rename name target = not (long 128 name)
acceptable transfer name target = not (long 128 target)
acceptable leave name target = true
acceptable dissolve name target = true
acceptable join name target = false
acceptable (other s) name target = false

module _ (env : Env) where
  -- `Service.MutateOrganization`
  unfoldable pub organization_action : Principal → Action → OrganizationInput → Act (Unit {0})
  organization_action actor action input = do
    let name = trim_space input.name
    let target = trim_space input.target_user_id
    guard (acceptable action name target) err_request_invalid
    org ← new_id env (text "org")
    t ← now env
    command env
        (mutate_organization (record {
          actor = principal_record actor;
          action = action;
          organization_id = org;
          name = name;
          target_user_id = target;
          token_hash = [];
          now = t;
        }))
        organization_error

  -- `JoinOrganization`
  unfoldable pub join_by_token : Principal → Text → Act (Unit {0})
  join_by_token actor token = do
    guard (eqb (len token) 64) err_request_invalid
    t ← now env
    command env
        (mutate_organization (record {
          actor = principal_record actor;
          action = join;
          organization_id = [];
          name = [];
          target_user_id = [];
          token_hash = hash_token env token;
          now = t;
        }))
        organization_error

  -- `Service.RegisterAccount`; the store fills in the deployment and the role.
  unfoldable pub register : Service → LoginInput → Act (Unit {0})
  register s input = do
    guard s.registration_enabled err_forbidden
    username ← some_or (normalize_username input.username) err_request_invalid
    guard (validate_password input.password) err_request_invalid
    hash ← hash_password env input.password
    user ← new_id env (text "user")
    idn ← new_id env (text "idn")
    cred ← new_id env (text "cred")
    t ← now env
    command env
        (register_account (record {
          deployment_id = [];
          user_id = user;
          identity_id = idn;
          credential_id = cred;
          username = username;
          display_name = username;
          role = role_member;
          password_hash = hash;
          created_at = t;
        }))
        register_error
