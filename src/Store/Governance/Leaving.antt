-- ===== src/Store/Governance/Leaving.antt =====
-- Leaving and transferring, and the ownership of organizations.
use nexus_control.Base.{
  ◌≡◌, true, ◌&&◌, not, [], Text, dec_text, ◌==◌, any, update, arith, any_none, any_mono,
  find-found, any-update_keep, any-update_hit,
}
use nexus_control.Schema.{Db, role_owner, role_admin, is_current}
use nexus_control.Tx.{Post, Post-bind, Post-read, Post-pure, Post-then, Post-require}
use nexus_control.Store.Events.{append_event, append_organization_invalidation}
use nexus_control.Store.Memberships.{membership_of, owner_of, with_role, revoke_membership}
use nexus_control.Store.Organization.{
  OrganizationCommand, read_current, leave_action, transfer_action,
}
use nexus_control.Store.Owners.{
  IsGoverned, indexed, update-owner, set_role-Post, revoke_membership-IsIndexed,
  revoke_organization_member-Post,
}
use nexus_control.Store.Governance.Own.{Governed, inside, leaves_owner}

module _ (c : OrganizationCommand) (db : Db) (g : IsGoverned db) where
  pub leave_action-Post :
      not ((read_current c db).org == []) ≡ true
      → Post Governed (leave_action c (read_current c db) db)
  unfolding leave_action
  leave_action-Post home =
      let (m, e, at_org, at_role) = inside c db g home in
      Post-require _ _ _ db λ free.
        Post-bind _ _ _ db (revoke_organization_member-Post _ _ _ _ db) λ _ db' (orgs, ms).
          Post-pure _ db' (record {
            one_current =
                λ u. rw ms ((revoke_membership-IsIndexed _ _ c.now _ (indexed g)).one_current u);
            one_owner =
                λ o. rw ms ((revoke_membership-IsIndexed _ _ c.now _ (indexed g)).one_owner o);
            has_owner = λ o live. rw ms (
                update-owner _ c.actor.user_id o (revoke_membership c.now) _
                  (λ same. rw at_org (leaves_owner c db g m o e (ground arith)))
                  (g.has_owner o (rw orgs at live)));
            named = rw orgs g.named;
          })

  -- The new owner's membership outlives the demotion of the old one.
  heir :
      (org : Text) (old : Text) (target : Text)
      → not (target == old) ≡ true
      → any (λ m. membership_of org target m && is_current m.status) db.organization_memberships
        ≡ true
      → any (owner_of org) (
          update (membership_of org target) (with_role role_owner c.now) (
            update
              (membership_of org old)
              (with_role role_admin c.now)
              db.organization_memberships))
        ≡ true
  heir org old target differ here =
      any-update_hit (owner_of org) _ (λ m. is_current m.status) _ _ (λ m. ground arith)
        (any-update_keep (λ m. membership_of org target m && is_current m.status)
          (membership_of org old) (with_role role_admin c.now) _
          (any_none _ db.organization_memberships (λ m. ground (arith, differ))) here)

  pub transfer_action-Post : Post Governed (transfer_action c (read_current c db) db)
  unfolding transfer_action append_organization_invalidation append_event
  transfer_action-Post =
      let org = (read_current c db).org in
      Post-require _ _ _ db λ may. Post-read _ _ db (
        Post-require _ _ _ db λ known.
          Post-bind _ _ _ db (set_role-Post _ _ _ _ db (indexed g)) λ _ db1 (e1, v1). rw e1 (
            Post-bind _ _ _ _ (set_role-Post _ _ _ _ _ v1) λ _ db2 (e2, v2). rw e2 (
              Post-then _ _ _ (
                Post-pure _ _ (record {
                  one_current = v2.one_current;
                  one_owner = v2.one_owner;
                  has_owner = λ o live. elim (dec_text o org) [
                    | yes same ↦ rw same (
                        heir org c.actor.user_id c.target_user_id (ground arith)
                          (any_mono _ _ _ (λ m. ground arith) (find-found _ _ known)))
                    | no different ↦
                        update-owner org c.target_user_id o _ _ (λ same. absurd (different same))
                          (update-owner org c.actor.user_id o _ _ (λ same. absurd (different same))
                            (g.has_owner o live))
                  ];
                  named = g.named;
                })))))
