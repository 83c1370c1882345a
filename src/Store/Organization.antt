-- ===== src/Store/Organization.antt =====
-- `MutateOrganization` of internal/storage/auth/organization.go: one transaction for each
-- organization command.
use nexus_control.Base.{
  ℕ, Bool, true, false, ◌&&◌, ◌||◌, not, Option, none, some, List, [], ◌∷◌, ◌++◌, Text, eqb, ◌==◌,
  dec_text, is_none, any, find, select, count, update,
}
use nexus_control.Schema.{
  Db, Role, role_owner, role_admin, status_active, status_disabled, Organization,
  OrganizationMembership, organization_changed, is_owner, is_admin, is_current,
}
use nexus_control.Tx.{
  Tx, Result, last_owner, state_conflict, invitation_invalid, constraint, pure, read, write,
  require, row_or, when, return_early, err, transaction, ◌>>=◌, ◌>>◌,
}
use nexus_control.Store.Events.{append_event, append_organization_invalidation}
use nexus_control.Store.Principals.{
  PrincipalRecord, active_user, active_deployment, active_organization, active_member,
}
use nexus_control.Store.Memberships.{
  membership_of, current_of, open_invitation, write_memberships, join_organization, set_role,
  accept_invitation_row, write_memberships, memberships_ok, upsert_membership,
  revoke_organization_member,
}

-- The texts that `MutateOrganization` switches on; `other` is the default case.
pub data Action : Type 0 where
  create join leave transfer rename dissolve : Action
  other : Text → Action

-- `OrganizationCommand`
pub record OrganizationCommand : Type 0 where
  pub actor : PrincipalRecord
  pub action : Action
  pub organization_id : Text
  pub name : Text
  pub target_user_id : Text
  pub token_hash : Text
  pub now : ℕ

-- What the commands read first: the actor's active organization and role, empty if there is none.
pub record Current : Type 0 where
  pub org : Text
  pub role : Option Role

abbrev current_from : Option OrganizationMembership → Current
current_from none = record { org = []; role = none }
current_from (some m) = record { org = m.organization_id; role = some m.role }

abbrev pub has_role : (Role → Bool) → Option Role → Bool
has_role p none = false
has_role p (some r) = p r

unfoldable pub read_current : OrganizationCommand → Db → Current
read_current c db = current_from (
    find
      (λ m.
        current_of c.actor.user_id m
        && active_organization c.actor.deployment_id m.organization_id db)
      db.organization_memberships)

-- The membership test of each action: joining wants no organization, the rest the actor's own.
unfoldable pub in_place : Action → Text → Text → Bool
in_place create org own = org == []
in_place join org own = org == []
in_place _ org own = not (org == []) && org == own

-- INSERT INTO identity_invalidations … SELECT …: an event for each membership read.
unfoldable pub append_renamed : Text → ℕ → List OrganizationMembership → Db → Db
append_renamed deployment now [] db = db
append_renamed deployment now (m ∷ ms) db =
    append_renamed deployment now ms
      (append_event deployment m.user_id none organization_changed now m.organization_id false db)

-- The loop of a dissolution over the members that it has read.
unfoldable pub revoke_all :
    {R : Type 0} → Text → Text → List OrganizationMembership → ℕ → Tx R (Unit {0})
revoke_all deployment org [] now = pure tt
revoke_all deployment org (m ∷ ms) now = do
  revoke_organization_member deployment org m.user_id now
  revoke_all deployment org ms now

module _ (c : OrganizationCommand) where
  abbrev Cmd : Type 0
  Cmd = Tx (Unit {0}) Text

  -- Each action returns the organization for the closing event.
  unfoldable pub create_action : Cmd
  create_action = do
    taken ← read λ db. any (λ o. o.organization_id == c.organization_id) db.organizations
    require (not taken) constraint
    write λ db. record db { organizations = db.organizations ++ row ∷ [] }
    join_organization c.organization_id c.actor.user_id role_owner c.now
    pure c.organization_id
    where
      row : Organization
      row = record {
        organization_id = c.organization_id;
        deployment_id = c.actor.deployment_id;
        name = c.name;
        status = status_active;
        created_at = c.now;
        updated_at = c.now;
      }

  unfoldable pub join_action : Cmd
  join_action = do
    found ← read λ db.
        find
          (λ i.
            i.token_hash == c.token_hash
            && (active_organization c.actor.deployment_id i.organization_id db
                && open_invitation c.now i))
          db.invitations
    i ← row_or found invitation_invalid
    join_organization i.organization_id c.actor.user_id i.role c.now
    accept_invitation_row i.invitation_id c.actor.user_id c.now
    pure i.organization_id

  unfoldable pub leave_action : Current → Cmd
  leave_action at = do
    require (not (has_role is_owner at.role)) last_owner
    revoke_organization_member c.actor.deployment_id at.org c.actor.user_id c.now
    pure at.org

  unfoldable pub transfer_action : Current → Cmd
  transfer_action at = do
    require (has_role is_owner at.role && not (c.target_user_id == c.actor.user_id)) state_conflict
    target ← read λ db.
        find
          (λ m.
            membership_of at.org c.target_user_id m
            && is_current m.status
            && (active_user c.target_user_id db
                && active_member c.actor.deployment_id c.target_user_id db))
          db.organization_memberships
    require (not (is_none target)) state_conflict
    set_role at.org c.actor.user_id role_admin c.now
    set_role at.org c.target_user_id role_owner c.now
    append_organization_invalidation c.actor.deployment_id at.org c.target_user_id false c.now
    pure at.org

  unfoldable pub rename_action : Current → Cmd
  rename_action at = do
    require (has_role is_owner at.role || has_role is_admin at.role) state_conflict
    write λ db. record db {
      organizations =
          update (λ o. o.organization_id == at.org)
            (λ o. record o { name = c.name; updated_at = c.now }) db.organizations;
    }
    ms ← read λ db.
        select (λ m. m.organization_id == at.org && is_current m.status) db.organization_memberships
    write (append_renamed c.actor.deployment_id c.now ms)
    pure at.org

  unfoldable pub dissolve_action : Current → Cmd
  dissolve_action at = do
    require (has_role is_owner at.role) state_conflict
    ms ← read λ db.
        select (λ m. m.organization_id == at.org && is_current m.status) db.organization_memberships
    revoke_all c.actor.deployment_id at.org ms c.now
    write λ db. record db {
      organizations =
          update (λ o. o.organization_id == at.org)
            (λ o. record o { status = status_disabled; updated_at = c.now }) db.organizations;
    }
    pure at.org

  -- The `switch`.
  unfoldable pub dispatch : Action → Current → Cmd
  dispatch create at = create_action
  dispatch join at = join_action
  dispatch leave at = leave_action at
  dispatch transfer at = transfer_action at
  dispatch rename at = rename_action at
  dispatch dissolve at = dissolve_action at
  dispatch (other _) at = return_early (err state_conflict)

  abbrev closes_with_event : Action → Bool
  closes_with_event create = true
  closes_with_event join = true
  closes_with_event transfer = true
  closes_with_event _ = false

  unfoldable pub organization_body : Tx (Unit {0}) (Unit {0})
  organization_body = do
    active ← read λ db.
        count
          (λ m.
            m.deployment_id == c.actor.deployment_id
            && (m.user_id == c.actor.user_id && is_current m.status)
            && (active_user c.actor.user_id db && active_deployment c.actor.deployment_id db))
          db.memberships
    require (eqb active 1) state_conflict
    at ← read (read_current c)
    require (in_place c.action at.org c.actor.organization_id) state_conflict
    org ← dispatch c.action at
    when (closes_with_event c.action)
        (append_organization_invalidation c.actor.deployment_id org c.actor.user_id false c.now)

-- `MutateOrganization`
unfoldable pub mutate_organization : OrganizationCommand → Db → Result (Unit {0}) × Db
unfolding transaction organization_body read_current in_place dispatch create_action join_action
    leave_action transfer_action rename_action dissolve_action append_renamed revoke_all active_user
    active_deployment active_organization active_member join_organization set_role write_memberships
    memberships_ok upsert_membership accept_invitation_row revoke_organization_member
    append_organization_invalidation append_event find any count select update dec_text
mutate_organization c = transaction (organization_body c)
