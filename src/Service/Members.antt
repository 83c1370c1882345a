-- ===== src/Service/Members.antt =====
-- internal/service/auth/member.go and deployment_member.go: the members of an organization and of a
-- deployment.
use nexus_control.Base.{
  ℕ, ℤ, pos, same_int, Bool, true, ◌&&◌, ◌||◌, not, Option, none, some, List, [], ◌∷◌, Text, text,
  ltb, ◌==◌, map, any, length, is_none, if◌then◌else◌,
}
use nexus_control.Strings.{trim_space, is_empty, len}
use nexus_control.Schema.{
  Role, is_owner, is_admin, is_member, MembershipStatus, membership_active, membership_revoked,
  is_current,
}
use nexus_control.Tx.{StoreError, username_conflict, not_found, last_owner, state_conflict}
use nexus_control.Store.Accounts.{DeploymentMemberRecord, MemberChange}
use nexus_control.Store.DeploymentMembers.{
  create_deployment_member, query_deployment_member, update_deployment_member,
}
use nexus_control.Store.Members.{query_organization_member, update_member}
use nexus_control.Store.Listings.{list_members, list_active_members, list_deployment_members}
use nexus_control.Service.Validate.{normalize_username, normalize_role, validate_password}
use nexus_control.Service.Records.{
  Principal, DeploymentMember, member_from_record, MemberDirectoryEntry, CreateMemberInput,
  UpdateMemberInput, manages, manages_organization,
}
use nexus_control.Service.Sessions.{or_default}
use nexus_control.Service.Act.{
  Env, Act, ServiceError, err_conflict, err_forbidden, err_not_found, err_request_invalid, internal,
  ◌>>=◌, ◌>>◌, pure, guard, some_or, now, ask, command, new_id, hash_password,
}

-- The status of a request.
unfoldable pub membership_status_of : Text → Option MembershipStatus
membership_status_of s =
    if trim_space s == text "active"
    then some membership_active
    else if trim_space s == text "revoked"
    then some membership_revoked
    else none

abbrev pub optional : {A : Type 0} → (Text → Option A) → A → Option Text → Option A
optional parse current none = some current
optional parse current (some s) = parse s

abbrev pub new_name : Text → Option Text
new_name s =
    if is_empty (trim_space s) || ltb 128 (len (trim_space s)) then none else some (trim_space s)

abbrev pub nothing_asked : UpdateMemberInput → Bool
nothing_asked input = is_none input.role && (is_none input.status && is_none input.display_name)

abbrev pub current_version : Option ℤ → ℕ → Bool
current_version none v = true
current_version (some z) v = same_int z (pos v)

-- The errors of both updates.
abbrev pub change_error : StoreError → ServiceError
change_error not_found = err_not_found
change_error last_owner = err_conflict
change_error state_conflict = err_conflict
change_error e = internal e

-- The error of a creation; any other error of the store is passed on.
abbrev pub create_error : StoreError → ServiceError
create_error username_conflict = err_conflict
create_error e = internal e

-- An administrator changes plain members only, and into plain members only.
unfoldable pub admin_limited : Option Role → Role → Role → Bool
admin_limited none target next = true
admin_limited (some r) target next = not (is_admin r) || is_member target && is_member next

-- The store's command for a checked change.
abbrev pub member_change :
    Principal → DeploymentMemberRecord → Text → Role → MembershipStatus → Text → ℕ → MemberChange
member_change actor target user role status name t = record {
  deployment_id = actor.deployment_id;
  user_id = user;
  actor_user_id = actor.user_id;
  expected_role = target.role;
  expected_status = target.membership_status;
  expected_version = target.updated_at;
  next_role = role;
  next_status = status;
  next_name = name;
  now = t;
}

module _ (env : Env) where
  -- `Service.ListMembers`
  unfoldable pub members_for : Principal → Act (List DeploymentMember)
  members_for actor = do
    guard (not (is_empty actor.organization_id)) err_forbidden
    records ← ask env (list_members actor.deployment_id actor.organization_id)
    pure (map member_from_record records)

  abbrev member_entry : DeploymentMemberRecord → MemberDirectoryEntry
  member_entry r = record {
    user_id = r.user_id;
    username = r.username;
    display_name = r.display_name;
    avatar = r.avatar;
  }

  -- `ListMemberDirectory`
  unfoldable pub list_member_directory : Principal → Act (List MemberDirectoryEntry)
  list_member_directory actor = do
    records ← ask env (list_active_members actor.deployment_id actor.organization_id)
    pure (map member_entry records)

  -- The loop of `VerifyOrganizationMembers` over the texts that it is given.
  unfoldable pub verify_each : List DeploymentMemberRecord → List Text → Act (Unit {0})
  verify_each active [] = pure tt
  verify_each active (id ∷ ids) = do
    guard (not (is_empty (trim_space id) || ltb 128 (len (trim_space id)))) err_request_invalid
    guard (any (λ r. r.user_id == trim_space id) active) err_forbidden
    verify_each active ids

  -- `VerifyOrganizationMembers`
  unfoldable pub verify_organization_members : Text → Text → List Text → Act (Unit {0})
  verify_organization_members deployment org ids = do
    guard
        (not
          (is_empty (trim_space deployment) || (is_empty (trim_space org) || ltb 100 (length ids))))
        err_request_invalid
    active ← ask env (list_active_members (trim_space deployment) (trim_space org))
    verify_each active ids

  -- `Service.UpdateMember`
  unfoldable pub change_member : Principal → Text → UpdateMemberInput → Act DeploymentMember
  change_member actor id input = do
    guard (manages_organization actor.organization_role) err_forbidden
    let user = trim_space id
    guard (not (is_empty user || nothing_asked input)) err_request_invalid
    found ← ask env (query_organization_member actor.deployment_id actor.organization_id user)
    target ← some_or found err_not_found
    guard (current_version input.expected_version target.updated_at) err_conflict
    name ← some_or (optional new_name target.display_name input.display_name) err_request_invalid
    guard (is_current target.membership_status && not (is_owner target.role)) err_forbidden
    role ← some_or (optional normalize_role target.role input.role) err_request_invalid
    guard (not (is_owner role)) err_forbidden
    status ←
        some_or (optional membership_status_of target.membership_status input.status)
          err_request_invalid
    guard (admin_limited actor.organization_role target.role role) err_forbidden
    guard (not (actor.user_id == target.user_id && not (is_current status))) err_conflict
    t ← now env
    r ←
        command env
          (update_member (member_change actor target user role status name t) actor.organization_id)
          change_error
    pure (member_from_record r)

  -- `Service.ListDeploymentMembers`
  unfoldable pub deployment_members_for : Principal → Act (List DeploymentMember)
  deployment_members_for actor = do
    guard (manages actor.role) err_forbidden
    records ← ask env (list_deployment_members actor.deployment_id)
    pure (map member_from_record records)

  -- `Service.CreateDeploymentMember`
  unfoldable pub add_deployment_member : Principal → CreateMemberInput → Act DeploymentMember
  add_deployment_member actor input = do
    guard (manages actor.role) err_forbidden
    username ← some_or (normalize_username input.username) err_request_invalid
    guard (validate_password input.password) err_request_invalid
    role ← some_or (normalize_role input.role) err_request_invalid
    guard (not (is_owner role)) err_request_invalid
    guard (not (is_admin actor.role && not (is_member role))) err_forbidden
    let display_name = or_default (trim_space input.display_name) username
    guard (not (ltb 128 (len display_name))) err_request_invalid
    hash ← hash_password env input.password
    user ← new_id env (text "user")
    idn ← new_id env (text "idn")
    cred ← new_id env (text "cred")
    t ← now env
    r ←
        command env
          (create_deployment_member actor.user_id (record {
            deployment_id = actor.deployment_id;
            user_id = user;
            identity_id = idn;
            credential_id = cred;
            username = username;
            display_name = display_name;
            role = role;
            password_hash = hash;
            created_at = t;
          }))
          create_error
    pure (member_from_record r)

  -- `Service.UpdateDeploymentMember`
  unfoldable pub change_deployment_member :
      Principal → Text → UpdateMemberInput → Act DeploymentMember
  change_deployment_member actor id input = do
    guard (manages actor.role) err_forbidden
    let user = trim_space id
    guard (not (is_empty user || nothing_asked input)) err_request_invalid
    found ← ask env (query_deployment_member actor.deployment_id user)
    target ← some_or found err_not_found
    guard (current_version input.expected_version target.updated_at) err_conflict
    name ← some_or (optional new_name target.display_name input.display_name) err_request_invalid
    guard (not (is_owner target.role)) err_forbidden
    role ← some_or (optional normalize_role target.role input.role) err_request_invalid
    guard (not (is_owner role)) err_request_invalid
    status ←
        some_or (optional membership_status_of target.membership_status input.status)
          err_request_invalid
    guard (admin_limited (some actor.role) target.role role) err_forbidden
    guard (not (actor.user_id == target.user_id && not (is_current status))) err_conflict
    t ← now env
    r ←
        command env (update_deployment_member (member_change actor target user role status name t))
          change_error
    pure (member_from_record r)
