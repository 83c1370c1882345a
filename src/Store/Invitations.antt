-- ===== src/Store/Invitations.antt =====
-- internal/storage/auth/invitation.go: the life of an organization invitation.
use nexus_control.Base.{
  ℕ, Bool, true, ◌&&◌, ◌||◌, not, Option, none, some, [], ◌∷◌, ◌++◌, Text, ◌==◌, any, find, update,
  delete,
}
use nexus_control.Schema.{Db, Invitation, Organization, Role, role_member, is_active}
use nexus_control.Tx.{
  Tx, Result, constraint, invitation_invalid, pure, read, write, require, row_or, transaction,
  ◌>>=◌, ◌>>◌,
}
use nexus_control.Store.Principals.{active_deployment, require_organization_manager}
use nexus_control.Store.Memberships.{
  membership_of, new_membership, open_invitation, write_memberships,
}
use nexus_control.Store.Accounts.{
  NewMemberRecord, DeploymentMemberRecord, insert_user, insert_identity, insert_credential,
  insert_deployment_membership, lock_deployment,
}
use nexus_control.Store.DeploymentMembers.{new_member}

-- `OrganizationInvitationRecord`: the row with its organization's deployment and name.
pub record InvitationRecord : Type 0 where
  pub row : Invitation
  pub deployment_id : Text
  pub organization_name : Text

-- `AcceptOrganizationInvitationRecord`
pub record AcceptInvitationRecord : Type 0 where
  pub token_hash : Text
  pub user_id : Text
  pub identity_id : Text
  pub credential_id : Text
  pub username : Text
  pub display_name : Text
  pub password_hash : Text
  pub accepted_at : ℕ

abbrev pub of_invitation : Invitation → Organization → InvitationRecord
of_invitation i o = record { row = i; deployment_id = o.deployment_id; organization_name = o.name }

unfoldable pub with_organization : Invitation → Option Organization → Option InvitationRecord
with_organization i none = none
with_organization i (some o) = some (of_invitation i o)

-- `invitationSelect`: the organization and its deployment are active.
unfoldable pub select_invitation : Option Invitation → Db → Option InvitationRecord
select_invitation none db = none
select_invitation (some i) db = with_organization i (
    find
      (λ o.
        o.organization_id == i.organization_id
        && (is_active o.status && active_deployment o.deployment_id db))
      db.organizations)

abbrev pub invitation_of : Text → Text → Invitation → Bool
invitation_of org invitation i = i.organization_id == org && i.invitation_id == invitation

-- `OrganizationInvitationByToken`; no row is `ErrInvitationInvalid`.
unfoldable pub organization_invitation_by_token : Text → Db → Option InvitationRecord
unfolding select_invitation with_organization
organization_invitation_by_token hash db =
    select_invitation (find (λ i. i.token_hash == hash) db.invitations) db

-- `OrganizationInvitationByID`
unfoldable pub organization_invitation_by_id : Text → Text → Db → Option InvitationRecord
unfolding select_invitation with_organization
organization_invitation_by_id org invitation db =
    select_invitation (find (invitation_of org invitation) db.invitations) db

-- The row that `CreateOrganizationInvitation` inserts: neither accepted nor revoked.
abbrev pub open_row : Invitation → Invitation
open_row i = record i { accepted_by_user_id = none; accepted_at = none; revoked_at = none }

unfoldable pub create_invitation_body : InvitationRecord → Tx InvitationRecord InvitationRecord
create_invitation_body r = do
  require_organization_manager r.row.organization_id r.row.created_by_user_id r.row.role
  repeated ← read λ db.
      any (λ i. i.invitation_id == r.row.invitation_id || i.token_hash == r.row.token_hash)
        db.invitations
  require (not repeated) constraint
  write λ db. record db { invitations = db.invitations ++ open_row r.row ∷ [] }
  pure r

-- `CreateOrganizationInvitation`
unfoldable pub create_organization_invitation : InvitationRecord → Db → Result InvitationRecord × Db
create_organization_invitation r = transaction (create_invitation_body r)

module _ {R : Type 0} where
  -- `requireInvitationManager`
  unfoldable pub require_invitation_manager : Text → Text → Text → Tx R (Unit {0})
  require_invitation_manager org invitation actor = do
    found ← read λ db. find (invitation_of org invitation) db.invitations
    i ← row_or found invitation_invalid
    require_organization_manager org actor i.role

  -- The end of `AcceptOrganizationInvitation`: the invitation is used up.
  unfoldable pub use_invitation : Text → Text → ℕ → Tx R (Unit {0})
  use_invitation invitation user now = do
    hit ←
        read λ db. any (λ i. i.invitation_id == invitation && open_invitation now i) db.invitations
    require hit invitation_invalid
    write λ db. record db {
      invitations =
          update (λ i. i.invitation_id == invitation && open_invitation now i)
            (λ i. record i {
              accepted_by_user_id = some user;
              accepted_at = some now;
              updated_at = now;
            })
            db.invitations;
    }

  -- INSERT INTO organization_memberships.
  unfoldable pub insert_membership : Text → Text → Role → ℕ → Tx R (Unit {0})
  insert_membership org user role now = do
    ms ← read λ db. db.organization_memberships
    require (not (any (membership_of org user) ms)) constraint
    write_memberships org user (ms ++ new_membership org user role now ∷ [])

unfoldable pub revoke_invitation_body : Text → Text → Text → ℕ → Tx (Unit {0}) (Unit {0})
revoke_invitation_body org invitation actor now = do
  require_invitation_manager org invitation actor
  hit ← read λ db. any (λ i. invitation_of org invitation i && open_invitation now i) db.invitations
  require hit invitation_invalid
  write λ db. record db {
    invitations =
        update (λ i. invitation_of org invitation i && open_invitation now i)
          (λ i. record i { revoked_at = some now; updated_at = now }) db.invitations;
  }

-- `RevokeOrganizationInvitation`
unfoldable pub revoke_organization_invitation : Text → Text → Text → ℕ → Db → Result (Unit {0}) × Db
revoke_organization_invitation org invitation actor now =
    transaction (revoke_invitation_body org invitation actor now)

unfoldable pub delete_invitation_body : Text → Text → Text → ℕ → Tx (Unit {0}) (Unit {0})
delete_invitation_body org invitation actor now = do
  require_invitation_manager org invitation actor
  hit ←
      read λ db.
        any (λ i. invitation_of org invitation i && not (open_invitation now i)) db.invitations
  require hit invitation_invalid
  write λ db. record db {
    invitations =
        delete (λ i. invitation_of org invitation i && not (open_invitation now i)) db.invitations;
  }

-- `DeleteOrganizationInvitation`
unfoldable pub delete_organization_invitation : Text → Text → Text → ℕ → Db → Result (Unit {0}) × Db
delete_organization_invitation org invitation actor now =
    transaction (delete_invitation_body org invitation actor now)

abbrev pub invited : AcceptInvitationRecord → InvitationRecord → NewMemberRecord
invited a r = record {
  deployment_id = r.deployment_id;
  user_id = a.user_id;
  identity_id = a.identity_id;
  credential_id = a.credential_id;
  username = a.username;
  display_name = a.display_name;
  role = r.row.role;
  password_hash = a.password_hash;
  created_at = a.accepted_at;
}

unfoldable pub accept_invitation_body :
    AcceptInvitationRecord → Tx DeploymentMemberRecord DeploymentMemberRecord
accept_invitation_body a = do
  found ← read (organization_invitation_by_token a.token_hash)
  r ← row_or found invitation_invalid
  require (open_invitation a.accepted_at r.row) invitation_invalid
  lock_deployment r.deployment_id
  insert_user (invited a r)
  insert_identity (invited a r)
  insert_credential (invited a r)
  insert_deployment_membership r.deployment_id a.user_id role_member true a.accepted_at
  insert_membership r.row.organization_id a.user_id r.row.role a.accepted_at
  use_invitation r.row.invitation_id a.user_id a.accepted_at
  pure (new_member (invited a r))

-- `AcceptOrganizationInvitation`
unfoldable pub accept_organization_invitation :
    AcceptInvitationRecord → Db → Result DeploymentMemberRecord × Db
accept_organization_invitation a = transaction (accept_invitation_body a)
