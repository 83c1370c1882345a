-- ===== src/Store/Governance/Renaming.antt =====
-- Renaming and dissolving, and the ownership of organizations.
use mathlib.Core.Bool.{false≢true}
use nexus_control.Base.{
  ℕ, ◌≡◌, refl, sym, ◌∙◌, ◌≢◌, Bool, true, false, Option, none, List, [], ◌∷◌, Text, dec_text, ◌==◌,
  any, arith, any-update_none, any-update_back, any-update_clear,
}
use nexus_control.Schema.{Db, Reason, organization_changed, OrganizationMembership}
use nexus_control.Tx.{Post, Post-bind, Post-read, Post-pure, Post-then, Post-require}
use nexus_control.Store.Events.{append_event}
use nexus_control.Store.Memberships.{owner_of, revoke_membership}
use nexus_control.Store.Organization.{
  OrganizationCommand, read_current, rename_action, dissolve_action, append_renamed, revoke_all,
}
use nexus_control.Store.Owners.{
  IsGoverned, IsIndexed, indexed, active_id, update-owner, IsGoverned-frame,
  revoke_membership-IsIndexed, revoke_organization_member-Post,
}
use nexus_control.Store.Governance.Own.{Governed}

pub append_event-IsGoverned :
    {db : Db} (d u : Text) (s : Option Text) (r : Reason) (now : ℕ) (o : Text) (v : Bool)
    → IsGoverned db
    → IsGoverned (append_event d u s r now o v db)
unfolding append_event
append_event-IsGoverned d u s r now o v g = IsGoverned-frame refl refl g

append_renamed-IsGoverned :
    (deployment : Text) (now : ℕ) (ms : List OrganizationMembership) (db : Db)
    → IsGoverned db
    → IsGoverned (append_renamed deployment now ms db)
unfolding append_renamed
append_renamed-IsGoverned deployment now [] db g = g
append_renamed-IsGoverned deployment now (m ∷ ms) db g =
    append_renamed-IsGoverned deployment now ms _ (
      append_event-IsGoverned deployment m.user_id none organization_changed now m.organization_id
        false g)

module _ (c : OrganizationCommand) (db : Db) (g : IsGoverned db) where
  pub rename_action-Post : Post Governed (rename_action c (read_current c db) db)
  unfolding rename_action
  rename_action-Post = Post-require _ _ _ db λ may. Post-then _ _ db (
      Post-read _ _ _ (
        Post-then _ _ _ (
          Post-pure _ _ (
            append_renamed-IsGoverned _ c.now _ _ (record {
              one_current = g.one_current;
              one_owner = g.one_owner;
              has_owner = λ o live.
                  g.has_owner o
                    (any-update_back (active_id o) _ _ db.organizations (λ x. ground arith) live);
              named = any-update_none _ _ _ db.organizations (λ x. ground arith) g.named;
            })))))

-- While the members of `org` are revoked one by one, the other organizations keep their owners.
record IsDissolving (org : Text) (db : Db) : Type 0 where
  indexes : IsIndexed db.organization_memberships
  has_owner :
      (o : Text)
      → o ≢ org
      → any (active_id o) db.organizations ≡ true
      → any (owner_of o) db.organization_memberships ≡ true
  named : any (λ o. o.organization_id == []) db.organizations ≡ false

revoke_all-IsDissolving :
    {R : Type 0} (deployment org : Text) (ms : List OrganizationMembership) (now : ℕ) (db : Db)
    → IsDissolving org db
    → Post (λ _ d. IsDissolving org d) (revoke_all {R = R} deployment org ms now db)
unfolding revoke_all
revoke_all-IsDissolving deployment org [] now db h = Post-pure _ db h
revoke_all-IsDissolving deployment org (m ∷ ms) now db h =
    Post-bind _ _ _ db (revoke_organization_member-Post _ _ _ now db) λ _ db' (orgs, table).
      revoke_all-IsDissolving deployment org ms now db' (record {
        indexes = rw table (revoke_membership-IsIndexed _ _ now _ h.indexes);
        has_owner = λ o different live. rw table (
            update-owner org m.user_id o (revoke_membership now) _ (λ same. absurd (different same))
              (h.has_owner o different (rw orgs at live)));
        named = rw orgs h.named;
      })

pub dissolve_action-Post :
    (c : OrganizationCommand) (db : Db) (g : IsGoverned db)
    → Post Governed (dissolve_action c (read_current c db) db)
unfolding dissolve_action
dissolve_action-Post c db g =
    let org = (read_current c db).org in
    Post-require _ _ _ db λ may. Post-read _ _ db (
      Post-bind _ _ _ db
        (revoke_all-IsDissolving _ org _ c.now db
          (record { indexes = indexed g; has_owner = λ o _. g.has_owner o; named = g.named }))
        λ _ d h. Post-then _ _ d (
          Post-pure _ _ (record {
            one_current = h.indexes.one_current;
            one_owner = h.indexes.one_owner;
            has_owner = λ o live. elim (dec_text o org) [
              | yes same ↦ absurd (
                  false≢true (
                    sym (
                      any-update_clear (active_id o) _ _ d.organizations (λ x. ground arith)
                        (λ x. ground arith))
                    ∙ live))
              | no different ↦
                  h.has_owner o different
                    (any-update_back (active_id o) _ _ d.organizations (λ x. ground arith) live)
            ];
            named = any-update_none _ _ _ d.organizations (λ x. ground arith) h.named;
          })))
