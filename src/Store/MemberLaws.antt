-- ===== src/Store/MemberLaws.antt =====
-- `UpdateMember` of internal/storage/auth/member.go and the ownership of organizations.
use nexus_control.Base.{
  ◌≡◌, refl, sym, ap, ◌∙◌, inl, inr, true, false, ◌&&◌, some, List, Text, ◌==◌, any, find, update,
  arith, Option-cases, any_weaken, find_unique, find_narrow, any-update_clear,
}
use nexus_control.Schema.{Db, OrganizationMembership, is_owner, is_current}
use nexus_control.Tx.{
  Post, Post-bind, Post-weaken, Post-read, Post-check, Post-row_or, Post-require, Post-when,
  Post-write, Post-pure, transaction-Post,
}
use nexus_control.Store.Events.{append_event, append_organization_invalidation}
use nexus_control.Store.Memberships.{
  membership_of, current_of, owner_of, revoke_membership, revoke_organization_member,
}
use nexus_control.Store.Accounts.{
  DeploymentMemberRecord, MemberChange, in_deployment, scan_deployment_member,
}
use nexus_control.Store.Members.{
  query_organization_member, regrade_member, write_member, update_member_body, update_member,
}
use nexus_control.Store.Owners.{
  IsGoverned, indexed, update-owner, update-Touches, write_memberships-Post,
  revoke_membership-IsIndexed, revoke_organization_member-Post, IsGoverned-frame,
}
use nexus_control.Store.Frames.{
  rename_user-Post, lock_deployment-Post, require_organization_manager-Post,
}

query_member :
    (deployment org user : Text) (db : Db) (r : DeploymentMemberRecord)
    → query_organization_member deployment org user db ≡ some r
    → (m : OrganizationMembership) × (find (membership_of org user) db.organization_memberships
        ≡ some m)
      × (r.role ≡ m.role)
      × (r.membership_status ≡ m.status)
unfolding query_organization_member scan_deployment_member
query_member deployment org user db r h =
    elim (Option-cases (find (in_deployment deployment user) db.memberships)) [
      | inl e ↦ ground (arith, e, h)
      | inr (d, e) ↦ elim (Option-cases (find (λ u. u.user_id == user) db.users)) [
        | inl f ↦ ground (arith, e, f, h)
        | inr (u, f) ↦
            elim (Option-cases (find (membership_of org user) db.organization_memberships)) [
              | inl g ↦ ground (arith, e, f, g, h)
              | inr (m, g) ↦ (m, g, ground (arith, e, f, g, h), ground (arith, e, f, g, h))
            ]
      ]
    ]

module _ (c : MemberChange) (org : Text) (db : Db) (g : IsGoverned db) where
  -- The target is not the owner.
  not_owner :
      (m : OrganizationMembership)
      → find (membership_of org c.user_id) db.organization_memberships ≡ some m
      → is_current m.status ≡ true
      → is_owner m.role ≡ false
      → any (λ x. owner_of org x && membership_of org c.user_id x) db.organization_memberships
        ≡ false
  not_owner m e now low =
      any_weaken (λ x. current_of c.user_id x && is_owner x.role) _ db.organization_memberships
        (λ x. ground arith)
        (find_unique (current_of c.user_id)
          (λ x. membership_of org c.user_id x && is_current x.status) (λ x. is_owner x.role)
          db.organization_memberships m (λ x. ground arith) (g.one_current c.user_id)
          (find_narrow (membership_of org c.user_id) (λ x. is_current x.status)
            db.organization_memberships m e now)
          low)

  abbrev regraded : List OrganizationMembership
  regraded = update (membership_of org c.user_id) (regrade_member c) db.organization_memberships

  -- Neither is the member afterwards.
  regraded_low :
      is_owner c.next_role ≡ false
      → any (λ x. owner_of org x && membership_of org c.user_id x) regraded ≡ false
  regraded_low low =
      any-update_clear _ _ (regrade_member c) db.organization_memberships (λ x. ground arith)
        (λ x. ground (arith, low))

  write_member-Post :
      {R : Type 0}
      → any (λ x. owner_of org x && membership_of org c.user_id x) db.organization_memberships
        ≡ false
      → Post
          (λ _ d. IsGoverned d × (d.organization_memberships ≡ regraded))
          (write_member {R = R} c org db)
  unfolding write_member
  write_member-Post free = Post-read _ _ db (
      Post-require _ _ _ db λ hit.
        Post-weaken
          (write_memberships-Post org c.user_id _ db (indexed g)
            (update-Touches org c.user_id (regrade_member c) _ (λ m. (refl, refl))))
          λ _ d (same, v). rw same (
            record {
              one_current = v.one_current;
              one_owner = v.one_owner;
              has_owner = λ o live.
                  update-owner org c.user_id o (regrade_member c) db.organization_memberships
                    (λ at. rw at free) (g.has_owner o live);
              named = g.named;
            },
            refl,
          ))

-- A revocation of a member who is no owner.
revoke_member-Post :
    {R : Type 0} (deployment org user : Text) (now : _) (d : Db)
    → IsGoverned d
    → any (λ x. owner_of org x && membership_of org user x) d.organization_memberships ≡ false
    → Post (λ _ e. IsGoverned e) (revoke_organization_member {R = R} deployment org user now d)
revoke_member-Post deployment org user now d g free =
    Post-weaken (revoke_organization_member-Post deployment org user now d) λ _ e (orgs, ms).
      record {
        one_current =
            λ u. rw ms ((revoke_membership-IsIndexed org user now _ (indexed g)).one_current u);
        one_owner =
            λ o. rw ms ((revoke_membership-IsIndexed org user now _ (indexed g)).one_owner o);
        has_owner = λ o live. rw ms (
            update-owner org user o (revoke_membership now) _ (λ at. rw at free)
              (g.has_owner o (rw orgs at live)));
        named = rw orgs g.named;
      }

abbrev Governed : {A : Type 0} → A → Db → Type 0
Governed _ d = IsGoverned d

update_member_body-Post :
    (c : MemberChange) (org : Text) (db : Db)
    → IsGoverned db
    → Post Governed (update_member_body c org db)
unfolding update_member_body append_organization_invalidation append_event
update_member_body-Post c org db g = Post-check _ _ db (lock_deployment-Post _ db) λ locked.
    Post-read _ _ db (
      Post-row_or _ _ _ db λ target found. Post-require _ _ _ db λ fresh.
        Post-require _ _ _ db λ live.
          Post-check _ _ db (require_organization_manager-Post _ _ _ db) λ low.
            Post-check _ _ db (require_organization_manager-Post _ _ _ db) λ low_next.
              Post-require _ _ _ db λ other.
                let (m, at, role, status) = query_member _ _ _ db target found in
                Post-bind (λ _ d. IsGoverned d × (d.organization_memberships ≡ regraded c org db g))
                  _ _ db
                  (write_member-Post c org db g (
                    not_owner c org db g m at (ap is_current (sym status) ∙ live)
                      (ap is_owner (sym role) ∙ low)))
                  λ _ d (h, same).
                    Post-bind
                      (λ _ e. IsGoverned e × (e.organization_memberships ≡ regraded c org db g)) _ _
                      d
                      (Post-when _ _ d (h, same)
                        (Post-weaken (rename_user-Post _ _ _ _ d) λ _ e k. (
                          IsGoverned-frame (ap (λ t. t.organizations) k)
                              (ap (λ t. t.organization_memberships) k) h,
                          ap (λ t. t.organization_memberships) k ∙ same,
                        )))
                      λ _ e (i, same').
                        Post-bind Governed _ _ e
                          (Post-when _ _ e i (
                            revoke_member-Post _ org _ _ e i
                              (rw same' (regraded_low c org db g low_next))))
                          λ _ f j.
                            Post-bind Governed _ _ f
                              (Post-when _ _ f j (Post-write _ f (IsGoverned-frame refl refl j)))
                              λ _ h k. Post-pure _ h k)

-- A change of an organization member, whether it succeeds or not, keeps each user in at most one
-- organization and each active organization with exactly one active owner.
pub update_member-IsGoverned :
    (c : MemberChange) (org : Text) (db : Db)
    → IsGoverned db
    → IsGoverned (update_member c org db).1
unfolding update_member
update_member-IsGoverned c org db g =
    transaction-Post IsGoverned (update_member_body c org) db g (update_member_body-Post c org db g)
