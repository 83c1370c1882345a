-- ===== src/Service/Sessions.antt =====
-- internal/service/auth/service.go: setup, login, logout, and the principal behind a session.
use nexus_control.Base.{
  ℕ, ◌+◌, Bool, true, false, ◌&&◌, ◌||◌, not, Option, none, some, List, [], ◌∷◌, Text, text, ltb,
  ◌==◌, is_none, if◌then◌else◌, any,
}
use nexus_control.Strings.{trim_space, is_empty, len}
use nexus_control.Schema.{Role, role_owner, is_active, is_current}
use nexus_control.Tx.{StoreError, already_setup, not_found}
use nexus_control.Store.Principals.{PrincipalRecord}
use nexus_control.Store.Resolution.{
  LoginRecord, login_record, resolve_session_by_token_hash, resolve_session_by_id,
}
use nexus_control.Store.Sessions.{create_session, revoke_session, touch_session}
use nexus_control.Store.Setup.{create_owner}
use nexus_control.Store.Registration.{setup_required, active_role, update_avatar}
use nexus_control.Store.Listings.{user_by_id}
use nexus_control.Store.Entitlements.{effective_entitlement}
use nexus_control.Service.Validate.{normalize_username, validate_password}
use nexus_control.Service.PasswordHash.{verify_password}
use nexus_control.Service.Signing.{Signer, sign, platform}
use nexus_control.Service.Records.{
  Entitlement, entitlement_from_record, Principal, principal_from_record, principal_record,
  no_entitlement, UserView, user_from_record, SetupState, LoginResult, SetupOwnerInput, LoginInput,
}
use nexus_control.Service.Act.{
  Env, Act, ServiceError, err_already_setup, err_invalid_credentials, err_forbidden, err_not_found,
  err_request_invalid, err_other, internal, ◌>>=◌, ◌>>◌, pure, guard, some_or, now, ask, change,
  command, new_id, new_token, hash_token, hash_password,
}

-- What `NewService` takes from `config.Config`.
pub record Config : Type 0 where
  pub session_ttl : ℕ
  pub principal_ttl : ℕ
  pub principal_audience : Text
  pub setup_token : Text
  pub registration_enabled : Bool

-- `Service`; the repository is the database of the world, and the clock is in the surroundings.
pub record Service : Type 0 where
  pub signer : Signer
  pub session_ttl : ℕ
  pub principal_ttl : ℕ
  pub audiences : List Text
  pub setup_enabled : Bool
  pub registration_enabled : Bool

abbrev pub relay_user_audience : Text
relay_user_audience = text "nexus-relay-user"

-- `NewService`
unfoldable pub new_service : Config → Signer → Service
new_service cfg signer = record {
  signer = signer;
  session_ttl = cfg.session_ttl;
  principal_ttl = cfg.principal_ttl;
  audiences = trim_space cfg.principal_audience ∷ relay_user_audience ∷ [];
  setup_enabled = not (is_empty (trim_space cfg.setup_token));
  registration_enabled = cfg.registration_enabled;
}

abbrev pub or_default : Text → Text → Text
or_default s fallback = if is_empty s then fallback else s

abbrev pub setup_error : StoreError → ServiceError
setup_error already_setup = err_already_setup
setup_error e = internal e

abbrev pub missing_error : StoreError → ServiceError
missing_error not_found = err_not_found
missing_error e = internal e

abbrev pub is_true : Option Bool → Bool
is_true (some b) = b
is_true none = false

-- The test of a login: the password matches and the account and the membership are active.
unfoldable pub admits : Env → Text → LoginRecord → Bool
admits env password r =
    is_true (verify_password env.argon password r.password_hash)
    && (is_active r.user_status && is_current r.membership_state)

module _ (env : Env) where
  -- `Service.EffectiveEntitlement`
  unfoldable pub entitlement_for : Text → Text → Act Entitlement
  entitlement_for deployment user = do
    guard (not (is_empty (trim_space deployment) || is_empty (trim_space user))) err_request_invalid
    found ← ask env (effective_entitlement (trim_space deployment) (trim_space user))
    r ← some_or found err_not_found
    pure (entitlement_from_record r)

  -- `attachEntitlement`
  unfoldable pub attach_entitlement : Principal → Act Principal
  attach_entitlement p = do
    e ← entitlement_for p.deployment_id p.user_id
    pure (record p { entitlement = e })

  -- `State`
  unfoldable pub state : Service → Act SetupState
  state s = do
    required ← ask env setup_required
    pure (record {
      registration_enabled = s.registration_enabled && not required;
      setup_required = required;
      setup_enabled = s.setup_enabled;
      auth_required = true;
      password_login_enabled = not required;
    })

  -- `SetupOwner`
  unfoldable pub setup_owner : SetupOwnerInput → Act Principal
  setup_owner input = do
    username ← some_or (normalize_username input.username) err_request_invalid
    guard (validate_password input.password) err_request_invalid
    let display_name = or_default (trim_space input.display_name) username
    guard (not (ltb 128 (len display_name))) err_request_invalid
    let deployment_name = or_default (trim_space input.deployment_name) (text "Nexus")
    guard (not (ltb 128 (len deployment_name))) err_request_invalid
    let organization_name = or_default (trim_space input.organization_name) deployment_name
    guard (not (ltb 128 (len organization_name))) err_request_invalid
    hash ← hash_password env input.password
    dep ← new_id env (text "dep")
    org ← new_id env (text "org")
    user ← new_id env (text "user")
    idn ← new_id env (text "idn")
    cred ← new_id env (text "cred")
    t ← now env
    command env
        (create_owner (record {
          deployment_id = dep;
          deployment_name = deployment_name;
          organization_id = org;
          organization_name = organization_name;
          user_id = user;
          identity_id = idn;
          credential_id = cred;
          username = username;
          display_name = display_name;
          password_hash = hash;
          created_at = t;
        }))
        setup_error
    attach_entitlement (record {
      web_access_disabled = false;
      organization_role = some role_owner;
      node_id = [];
      parent_session_id = [];
      agent_ids = [];
      deployment_id = dep;
      organization_id = org;
      organization_name = organization_name;
      user_id = user;
      username = username;
      display_name = display_name;
      role = role_owner;
      avatar = [];
      auth_method = text "password";
      session_id = [];
      entitlement = no_entitlement;
    })

  -- `Login`
  unfoldable pub login : Service → LoginInput → Act LoginResult
  login s input = do
    username ← some_or (normalize_username input.username) err_invalid_credentials
    guard (not (is_empty (trim_space input.password) || ltb 1024 (len input.password)))
        err_invalid_credentials
    found ← ask env (login_record username)
    r ← some_or found err_invalid_credentials
    guard (admits env input.password r) err_invalid_credentials
    id ← new_id env (text "sess")
    p ← attach_entitlement (record (principal_from_record r.principal) {
      auth_method = text "password";
      session_id = id;
    })
    token ← new_token env
    t ← now env
    command env
        (create_session (record {
          session_id = id;
          token_hash = hash_token env token;
          principal = principal_record p;
          expires_at = t + s.session_ttl;
          client_ip = input.client_ip;
          user_agent = input.user_agent;
          created_at = t;
        }))
        internal
    pure (record { session_token = token; principal = p })

  -- `Logout`
  unfoldable pub logout : Text → Act (Unit {0})
  logout token = if is_empty (trim_space token) then pure tt else revoked
    where
      revoked : Act (Unit {0})
      revoked = do
        t ← now env
        r ← command env (revoke_session (hash_token env token) t) internal
        pure tt

  -- The end of a resolution: the session is touched and the entitlement attached.
  unfoldable pub resolved_principal : ℕ → PrincipalRecord → Act Principal
  resolved_principal t r = do
    change env (touch_session r.session_id t)
    attach_entitlement (principal_from_record r)

  unfoldable pub principal_if_found : ℕ → Option PrincipalRecord → Act (Option Principal)
  principal_if_found t none = pure none
  principal_if_found t (some r) = resolved_principal t r >>= λ p. pure (some p)

  -- `ResolveSession`
  unfoldable pub resolve_token : Text → Act (Option Principal)
  resolve_token token = if is_empty (trim_space token) then pure none else known
    where
      known : Act (Option Principal)
      known = do
        t ← now env
        found ← ask env (resolve_session_by_token_hash (hash_token env token) t)
        principal_if_found t found

  -- `VerifyBoundHuman`
  unfoldable pub verify_bound_human : Text → Text → Act Principal
  verify_bound_human user session = do
    t ← now env
    found ← ask env (resolve_session_by_id (trim_space session) t)
    r ← some_or found err_invalid_credentials
    guard (r.user_id == trim_space user) err_invalid_credentials
    resolved_principal t r

  -- `signPrincipal`
  unfoldable pub sign_principal : Service → Principal → Text → Act Text
  sign_principal s p audience = do
    let to = trim_space audience
    guard
        (not (
          to == relay_user_audience && (is_empty p.organization_id || is_none p.organization_role)))
        err_forbidden
    guard (not (is_empty to) && any (λ a. a == to) s.audiences) err_request_invalid
    t ← now env
    some_or (sign s.signer p (platform p.role) to t s.principal_ttl) err_other

  -- `ExchangeBoundHuman`
  unfoldable pub exchange_bound_human : Service → Text → Text → Text → Act Text
  exchange_bound_human s user session audience = do
    p ← verify_bound_human user session
    sign_principal s p audience

  unfoldable pub token_if_found : Service → Text → Option Principal → Act (Text × Option Principal)
  token_if_found s audience none = pure ([], none)
  token_if_found s audience (some p) = sign_principal s p audience >>= λ token. pure (token, some p)

  -- `ExchangePrincipal`; the principal that it returns beside an error is left out.
  unfoldable pub exchange_principal : Service → Text → Text → Act (Text × Option Principal)
  exchange_principal s token audience = do
    found ← resolve_token token
    token_if_found s audience found

  -- `Service.ActiveRole`
  unfoldable pub role_for : Text → Act Role
  role_for user = do found ← ask env (active_role user); some_or found err_not_found

  -- `Service.UserByID`
  unfoldable pub user_for : Text → Act UserView
  user_for user = do
    found ← ask env (user_by_id user)
    u ← some_or found err_not_found
    pure (user_from_record u)

  -- `Service.UpdateAvatar`
  unfoldable pub set_avatar : Text → Text → Act UserView
  set_avatar user avatar = do
    guard (not (ltb 255 (len (trim_space avatar)))) err_request_invalid
    t ← now env
    command env (update_avatar user (trim_space avatar) t) missing_error
    user_for user
