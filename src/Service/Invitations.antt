-- ===== src/Service/Invitations.antt =====
-- internal/service/auth/invitation.go: invitations. Instants are counted in microseconds.
use nexus_control.Base.{
  ℕ, zero, suc, ◌+◌, ◌*◌, Bool, false, ◌&&◌, ◌||◌, not, Option, none, some, List, [], Text, text,
  ltb, eqb, map, is_none, ℤ, pos, negsuc, if◌then◌else◌,
}
use nexus_control.Strings.{trim_space, is_empty, len}
use nexus_control.Schema.{Role, is_owner, is_admin, is_member, Db}
use nexus_control.Tx.{
  StoreError, Result, username_conflict, last_owner, state_conflict, invitation_invalid,
}
use nexus_control.Store.Invitations.{
  InvitationRecord, create_organization_invitation, organization_invitation_by_id,
  organization_invitation_by_token, revoke_organization_invitation, delete_organization_invitation,
  accept_organization_invitation,
}
use nexus_control.Store.Listings.{list_organization_invitations}
use nexus_control.Service.Validate.{normalize_username, normalize_role, validate_password}
use nexus_control.Service.Records.{
  Principal, DeploymentMember, member_from_record, manages_organization,
}
use nexus_control.Service.Sessions.{or_default}
use nexus_control.Service.Act.{
  Env, Act, ServiceError, err_conflict, err_forbidden, err_request_invalid, err_invitation_invalid,
  internal, ◌>>=◌, ◌>>◌, pure, guard, some_or, now, ask, command, new_id, new_token, hash_token,
  hash_password,
}

-- `OrganizationInvitation`
pub record OrganizationInvitation : Type 0 where
  pub invitation_id : Text
  pub organization_id : Text
  pub organization_name : Text
  pub role : Role
  pub created_by_user_id : Text
  pub accepted_by_user_id : Option Text
  pub expires_at : ℕ
  pub accepted_at : Option ℕ
  pub revoked_at : Option ℕ
  pub created_at : ℕ
  pub updated_at : ℕ

-- `invitationFromRecord`
unfoldable pub invitation_from_record : InvitationRecord → OrganizationInvitation
invitation_from_record r = record {
  invitation_id = r.row.invitation_id;
  organization_id = r.row.organization_id;
  organization_name = r.organization_name;
  role = r.row.role;
  created_by_user_id = r.row.created_by_user_id;
  accepted_by_user_id = r.row.accepted_by_user_id;
  expires_at = r.row.expires_at;
  accepted_at = r.row.accepted_at;
  revoked_at = r.row.revoked_at;
  created_at = r.row.created_at;
  updated_at = r.row.updated_at;
}

-- `CreateOrganizationInvitationInput`
pub record CreateOrganizationInvitationInput : Type 0 where
  pub role : Text
  pub expires_in_hours : ℤ

-- `CreatedOrganizationInvitation`
pub record CreatedOrganizationInvitation : Type 0 where
  pub invitation : OrganizationInvitation
  pub token : Text

-- `OrganizationInvitationPreview`
pub record OrganizationInvitationPreview : Type 0 where
  pub organization_name : Text
  pub role : Role
  pub expires_at : ℕ

-- `AcceptOrganizationInvitationInput`
pub record AcceptOrganizationInvitationInput : Type 0 where
  pub token : Text
  pub username : Text
  pub display_name : Text
  pub password : Text

-- The hours that an invitation is open: none asked for are `defaultInvitationHours`, more than
-- `maxInvitationHours` or fewer than one are refused.
unfoldable pub invitation_hours : ℤ → Option ℕ
invitation_hours (pos zero) = some 168
invitation_hours (pos (suc n)) = if ltb 720 (suc n) then none else some (suc n)
invitation_hours (negsuc n) = none

abbrev pub hour : ℕ
hour = 3_600_000_000

-- `organizationError`
unfoldable pub organization_error : StoreError → ServiceError
organization_error state_conflict = err_conflict
organization_error last_owner = err_conflict
organization_error invitation_invalid = err_invitation_invalid
organization_error e = internal e

abbrev pub accept_error : StoreError → ServiceError
accept_error username_conflict = err_conflict
accept_error invitation_invalid = err_invitation_invalid
accept_error e = internal e

abbrev pub long : ℕ → Text → Bool
long n s = is_empty s || ltb n (len s)

abbrev pub by_admin : Option Role → Bool
by_admin none = false
by_admin (some r) = is_admin r

module _ (env : Env) where
  -- `Service.CreateOrganizationInvitation`
  unfoldable pub invite :
      Principal → CreateOrganizationInvitationInput → Act CreatedOrganizationInvitation
  invite actor input = do
    guard (manages_organization actor.organization_role) err_forbidden
    role ← some_or (normalize_role input.role) err_request_invalid
    guard (not (is_owner role)) err_request_invalid
    guard (not (by_admin actor.organization_role && not (is_member role))) err_forbidden
    hours ← some_or (invitation_hours input.expires_in_hours) err_request_invalid
    token ← new_token env
    t ← now env
    id ← new_id env (text "invite")
    r ←
        command env
          (create_organization_invitation (record {
            row = record {
              invitation_id = id;
              organization_id = actor.organization_id;
              token_hash = hash_token env token;
              role = role;
              created_by_user_id = actor.user_id;
              accepted_by_user_id = none;
              expires_at = t + hours * hour;
              accepted_at = none;
              revoked_at = none;
              created_at = t;
              updated_at = t;
            };
            deployment_id = [];
            organization_name = actor.organization_name;
          }))
          organization_error
    pure (record { invitation = invitation_from_record r; token = token })

  -- `Service.ListOrganizationInvitations`
  unfoldable pub invitations_for : Principal → Act (List OrganizationInvitation)
  invitations_for actor = do
    guard (manages_organization actor.organization_role) err_forbidden
    records ← ask env (list_organization_invitations actor.organization_id)
    pure (map invitation_from_record records)

  -- What an administrator is asked before a change of an invitation: it is one for a member.
  unfoldable pub check_invitation : Principal → Option Role → Text → Act (Unit {0})
  check_invitation actor none id = pure tt
  check_invitation actor (some r) id =
      if is_admin r
      then (ask env (organization_invitation_by_id actor.organization_id id) >>= for_member)
      else pure tt
    where
      for_member : Option InvitationRecord → Act (Unit {0})
      for_member found = do
        i ← some_or found err_invitation_invalid
        guard (is_member i.row.role) err_forbidden

  -- `mutateOrganizationInvitation` with the store's operation.
  unfoldable pub mutate_invitation :
      (Text → Text → Text → ℕ → Db → Result (Unit {0}) × Db) → Principal → Text → Act (Unit {0})
  mutate_invitation mutate actor id = do
    guard (manages_organization actor.organization_role) err_forbidden
    let invitation = trim_space id
    guard (not (long 128 invitation)) err_request_invalid
    check_invitation actor actor.organization_role invitation
    t ← now env
    command env (mutate actor.organization_id invitation actor.user_id t) organization_error

  -- `Service.RevokeOrganizationInvitation`
  unfoldable pub revoke_invitation : Principal → Text → Act (Unit {0})
  revoke_invitation = mutate_invitation revoke_organization_invitation

  -- `Service.DeleteOrganizationInvitation`
  unfoldable pub delete_invitation : Principal → Text → Act (Unit {0})
  delete_invitation = mutate_invitation delete_organization_invitation

  -- `activeInvitation`; the clock is read only for an invitation that is neither used nor revoked,
  -- which nothing depends on.
  unfoldable pub active_invitation : Text → Act InvitationRecord
  active_invitation token = do
    guard (eqb (len token) 64) err_invitation_invalid
    found ← ask env (organization_invitation_by_token (hash_token env token))
    i ← some_or found err_invitation_invalid
    t ← now env
    guard (is_none i.row.accepted_at && (is_none i.row.revoked_at && ltb t i.row.expires_at))
        err_invitation_invalid
    pure i

  -- `PreviewOrganizationInvitation`
  unfoldable pub preview_invitation : Text → Act OrganizationInvitationPreview
  preview_invitation token = do
    i ← active_invitation token
    pure (record {
      organization_name = i.organization_name;
      role = i.row.role;
      expires_at = i.row.expires_at;
    })

  -- `Service.AcceptOrganizationInvitation`
  unfoldable pub accept_invitation : AcceptOrganizationInvitationInput → Act DeploymentMember
  accept_invitation input = do
    let token = trim_space input.token
    i ← active_invitation token
    username ← some_or (normalize_username input.username) err_request_invalid
    guard (validate_password input.password) err_request_invalid
    let display_name = or_default (trim_space input.display_name) username
    guard (not (ltb 128 (len display_name))) err_request_invalid
    hash ← hash_password env input.password
    user ← new_id env (text "user")
    idn ← new_id env (text "idn")
    cred ← new_id env (text "cred")
    t ← now env
    r ←
        command env
          (accept_organization_invitation (record {
            token_hash = hash_token env token;
            user_id = user;
            identity_id = idn;
            credential_id = cred;
            username = username;
            display_name = display_name;
            password_hash = hash;
            accepted_at = t;
          }))
          accept_error
    pure (member_from_record r)
