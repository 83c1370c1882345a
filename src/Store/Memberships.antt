-- ===== src/Store/Memberships.antt =====
-- The statements on organization_memberships and organization_invitations that the transactions of
-- internal/storage/auth/organization.go, member.go and invitation.go share.
use nexus_control.Base.{
  ℕ, Bool, true, ◌&&◌, some, List, [], ◌∷◌, ◌++◌, Text, ltb, ◌==◌, is_none, any, count, update,
  if◌then◌else◌,
}
use nexus_control.Schema.{
  Role, membership_active, membership_revoked, OrganizationMembership, Invitation, is_owner,
  is_current,
}
use nexus_control.Tx.{Tx, constraint, read, write, require, ◌>>=◌, ◌>>◌}
use nexus_control.Store.Events.{append_organization_invalidation}

-- WHERE organization_id = … AND user_id = ….
abbrev pub membership_of : Text → Text → OrganizationMembership → Bool
membership_of org user m = m.organization_id == org && m.user_id == user

abbrev pub current_of : Text → OrganizationMembership → Bool
current_of user m = m.user_id == user && is_current m.status

abbrev pub owner_of : Text → OrganizationMembership → Bool
owner_of org m = m.organization_id == org && (is_current m.status && is_owner m.role)

-- The unique indexes of the table at the row that a statement wrote: one active membership of a
-- user, and one active owner of an organization.
unfoldable pub memberships_ok : Text → Text → List OrganizationMembership → Bool
memberships_ok org user ms = ltb (count (current_of user) ms) 2 && ltb (count (owner_of org) ms) 2

abbrev pub new_membership : Text → Text → Role → ℕ → OrganizationMembership
new_membership org user role now = record {
  organization_id = org;
  user_id = user;
  role = role;
  status = membership_active;
  created_at = now;
  updated_at = now;
}

abbrev pub rejoin : Role → ℕ → OrganizationMembership → OrganizationMembership
rejoin role now m = record m { role = role; status = membership_active; updated_at = now }

abbrev pub with_role : Role → ℕ → OrganizationMembership → OrganizationMembership
with_role role now m = record m { role = role; updated_at = now }

abbrev pub revoke_membership : ℕ → OrganizationMembership → OrganizationMembership
revoke_membership now m = record m { status = membership_revoked; updated_at = now }

-- INSERT … ON CONFLICT (organization_id, user_id) DO UPDATE.
unfoldable pub upsert_membership :
    Text → Text → Role → ℕ → List OrganizationMembership → List OrganizationMembership
upsert_membership org user role now ms =
    if any (membership_of org user) ms
    then update (membership_of org user) (rejoin role now) ms
    else ms ++ new_membership org user role now ∷ []

-- `open_invitation` is the WHERE clause of a join: unused, not revoked, not expired.
abbrev pub open_invitation : ℕ → Invitation → Bool
open_invitation now i = is_none i.accepted_at && (is_none i.revoked_at && ltb now i.expires_at)

module _ {R : Type 0} where
  unfoldable pub write_memberships : Text → Text → List OrganizationMembership → Tx R (Unit {0})
  write_memberships org user ms = do
    require (memberships_ok org user ms) constraint
    write λ db. record db { organization_memberships = ms }

  -- `joinOrganization`
  unfoldable pub join_organization : Text → Text → Role → ℕ → Tx R (Unit {0})
  join_organization org user role now = do
    ms ← read λ db. db.organization_memberships
    write_memberships org user (upsert_membership org user role now ms)

  unfoldable pub set_role : Text → Text → Role → ℕ → Tx R (Unit {0})
  set_role org user role now = do
    ms ← read λ db. db.organization_memberships
    write_memberships org user (update (membership_of org user) (with_role role now) ms)

  unfoldable pub accept_invitation_row : Text → Text → ℕ → Tx R (Unit {0})
  accept_invitation_row invitation user now = write λ db. record db {
    invitations =
        update (λ i. i.invitation_id == invitation)
          (λ i. record i {
            accepted_by_user_id = some user;
            accepted_at = some now;
            updated_at = now;
          })
          db.invitations;
  }

  -- `revokeOrganizationMember`: the membership, the agents and the nodes of the member in the
  -- organization, and one event.
  unfoldable pub revoke_organization_member : Text → Text → Text → ℕ → Tx R (Unit {0})
  revoke_organization_member deployment org user now = do
    write λ db. record db {
      organization_memberships =
          update (membership_of org user) (revoke_membership now) db.organization_memberships;
    }
    write λ db. record db {
      agents =
          update (λ a. a.organization_id == org && a.owner_user_id == user)
            (λ a. record a { status = membership_revoked; updated_at = now }) db.agents;
    }
    write λ db. record db {
      nodes =
          update
            (λ n. n.organization_id == org && (n.owner_user_id == user && is_none n.revoked_at))
            (λ n. record n { revoked_at = some now }) db.nodes;
    }
    append_organization_invalidation deployment org user true now
