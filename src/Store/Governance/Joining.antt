-- ===== src/Store/Governance/Joining.antt =====
-- Creating and joining, and the ownership of organizations.
use nexus_control.Base.{
  ◌≡◌, ◌≢◌, true, [], dec_text, ◌==◌, arith, any_weaken, any-append_row, any-append_back,
  find_holds,
}
use nexus_control.Schema.{Db, role_owner}
use nexus_control.Tx.{Post, Post-bind, Post-read, Post-pure, Post-then, Post-require, Post-row_or}
use nexus_control.Store.Memberships.{accept_invitation_row}
use nexus_control.Store.Organization.{
  join, OrganizationCommand, read_current, in_place, create_action, join_action,
}
use nexus_control.Store.Owners.{
  IsGoverned, indexed, active_id, upsert_membership-owner, upsert_membership-founder,
  join_organization-Post,
}
use nexus_control.Store.Governance.Own.{Governed, own, outside}

module _ (c : OrganizationCommand) (db : Db) (g : IsGoverned db) where
  pub create_action-Post : c.organization_id ≢ [] → Post Governed (create_action c db)
  unfolding create_action
  create_action-Post ne = Post-read _ _ db (
      Post-require _ _ _ db λ fresh. Post-then _ _ db (
        Post-bind _ _ _ _ (join_organization-Post _ _ _ _ _ (indexed g)) λ _ db' (e, v).
          Post-pure _ db' (
            rw e (record {
              one_current = v.one_current;
              one_owner = v.one_owner;
              has_owner = λ o live. elim (dec_text o c.organization_id) [
                | yes same ↦ rw same (upsert_membership-founder _ c.actor.user_id c.now _)
                | no different ↦
                    upsert_membership-owner _ c.actor.user_id o role_owner c.now _
                      (λ same. absurd (different same))
                      (g.has_owner o
                        (any-append_back (active_id o) db.organizations _ live (ground arith)))
              ];
              named =
                  rw (any-append_row (λ o. o.organization_id == []) db.organizations, g.named)
                    (ground arith);
            }))))

  pub join_action-Post :
      in_place join (read_current c db).org c.actor.organization_id ≡ true
      → Post Governed (join_action c db)
  unfolding join_action accept_invitation_row
  join_action-Post free = Post-read _ _ db (
      Post-row_or _ _ _ db λ i found.
        Post-bind _ _ _ _ (join_organization-Post _ _ _ _ db (indexed g)) λ _ db' (e, v).
          Post-then _ _ db' (
            Post-pure _ _ (
              rw e (record {
                one_current = v.one_current;
                one_owner = v.one_owner;
                has_owner = λ o live.
                    upsert_membership-owner _ c.actor.user_id o i.role c.now _
                      (λ same.
                        any_weaken (own c db g) _ db.organization_memberships
                          (λ m. ground (arith, same, find_holds _ db.invitations i found))
                          (outside c db g free))
                      (g.has_owner o live);
                named = g.named;
              }))))
