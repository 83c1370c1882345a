-- ===== src/Store/Governance/Own.antt =====
-- The membership that an organization command starts from.
use nexus_control.Base.{
  ◌≡◌, inl, inr, Bool, true, false, ◌&&◌, not, some, [], Text, ◌==◌, any, find, Option-cases, arith,
  any_weaken, find-none-any, find_holds, find_unique,
}
use nexus_control.Schema.{Db, OrganizationMembership, is_owner}
use nexus_control.Store.Principals.{active_organization}
use nexus_control.Store.Memberships.{membership_of, current_of, owner_of}
use nexus_control.Store.Organization.{join, OrganizationCommand, read_current, in_place}
use nexus_control.Store.Owners.{IsGoverned}

abbrev pub Governed : {A : Type 0} → A → Db → Type 0
Governed _ db = IsGoverned db

module _ (c : OrganizationCommand) (db : Db) (g : IsGoverned db) where
  abbrev pub own : OrganizationMembership → Bool
  own m =
      current_of c.actor.user_id m && active_organization c.actor.deployment_id m.organization_id db

  active_organization_named : (deployment : Text) → active_organization deployment [] db ≡ false
  unfolding active_organization
  active_organization_named deployment =
      any_weaken (λ o. o.organization_id == []) _ db.organizations (λ o. ground arith) g.named

  -- Without an organization the actor has no active membership in one of the deployment.
  pub outside :
      in_place join (read_current c db).org c.actor.organization_id ≡ true
      → any own db.organization_memberships ≡ false
  unfolding read_current in_place
  outside h = elim (Option-cases (find own db.organization_memberships)) [
    | inl e ↦ find-none-any own _ e
    | inr (m, e) ↦
        ground (arith, find_holds own _ m e, active_organization_named c.actor.deployment_id)
  ]

  -- Any other command has found the membership of the actor.
  pub inside :
      not ((read_current c db).org == []) ≡ true
      → (m : OrganizationMembership) × (find own db.organization_memberships ≡ some m)
        × ((read_current c db).org ≡ m.organization_id)
        × ((read_current c db).role ≡ some m.role)
  unfolding read_current
  inside h = elim (Option-cases (find own db.organization_memberships)) [
    | inl e ↦ ground (arith, e)
    | inr (m, e) ↦ (m, e, rw (e, read_current), rw (e, read_current))
  ]

  -- A member who is not the owner can go without leaving the organization ownerless.
  pub leaves_owner :
      (m : OrganizationMembership) (o : Text)
      → find own db.organization_memberships ≡ some m
      → is_owner m.role ≡ false
      → any
          (λ x. owner_of o x && membership_of m.organization_id c.actor.user_id x)
          db.organization_memberships
        ≡ false
  leaves_owner m o e f =
      any_weaken (λ x. current_of c.actor.user_id x && is_owner x.role) _
        db.organization_memberships (λ x. ground arith)
        (find_unique (current_of c.actor.user_id) own (λ x. is_owner x.role)
          db.organization_memberships m (λ x. ground arith) (g.one_current c.actor.user_id) e f)
