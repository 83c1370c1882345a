-- ===== src/Store/SetupLaws.antt =====
-- `CreateOwner` of internal/storage/auth/account.go: the setup and the ownership of organizations.
use nexus_control.Base.{
  ℕ, ◌≡◌, refl, ap, subst, ◌∙◌, ◌≢◌, false, [], ◌∷◌, ◌++◌, Text, ◌==◌, eqb, count, arith,
  any-append_row, count-append,
}
use nexus_control.Schema.{Db, role_owner, is_current}
use nexus_control.Tx.{
  ok, err, already_setup, Post, Post-bind, Post-weaken, Post-read, Post-require, Post-write,
  transaction, transaction-Post, transaction-ok,
}
use nexus_control.Store.Memberships.{owner_of, new_membership}
use nexus_control.Store.Accounts.{insert_deployment_membership}
use nexus_control.Store.Invitations.{insert_membership}
use nexus_control.Store.Plans.{upsert_subscription_plan_row, insert_default_plans}
use nexus_control.Store.Registration.{setup_required}
use nexus_control.Store.Setup.{
  OwnerRecord, owner_organization, insert_deployment, insert_organization, insert_owner,
  create_owner_body, create_owner,
}
use nexus_control.Store.Owners.{
  IsGoverned, IsIndexed, active_id, indexed, write_memberships-Post, IsGoverned-frame,
}
use nexus_control.Store.Frames.{
  Kept, insert_identity-Post, insert_credential-Post, insert_deployment_membership-Post,
}
use nexus_control.Store.Acceptance.{append-Touches}

module _ {R : Type 0} where
  insert_deployment-Post :
      (r : OwnerRecord) (db : Db) → Post (λ _ d. Kept db d) (insert_deployment {R = R} r db)
  unfolding insert_deployment
  insert_deployment-Post r db = Post-read _ _ db (Post-require _ _ _ db λ new. Post-write _ db refl)

  insert_owner-Post :
      (r : OwnerRecord) (db : Db) → Post (λ _ d. Kept db d) (insert_owner {R = R} r db)
  unfolding insert_owner
  insert_owner-Post r db = Post-read _ _ db (Post-require _ _ _ db λ new. Post-write _ db refl)

  insert_organization-Post :
      (r : OwnerRecord) (db : Db)
      → Post
          (λ _ d. d ≡ record db { organizations = db.organizations ++ owner_organization r ∷ [] })
          (insert_organization {R = R} r db)
  unfolding insert_organization
  insert_organization-Post r db =
      Post-read _ _ db (Post-require _ _ _ db λ new. Post-write _ db refl)

  upsert_plan_row-Post :
      (p : _) (db : Db) → Post (λ _ d. Kept db d) (upsert_subscription_plan_row {R = R} p db)
  unfolding upsert_subscription_plan_row
  upsert_plan_row-Post p db = Post-read _ _ db (Post-require _ _ _ db λ known. Post-write _ db refl)

  insert_default_plans-Post :
      (deployment : Text) (now : ℕ) (db : Db)
      → Post (λ _ d. Kept db d) (insert_default_plans {R = R} deployment now db)
  unfolding insert_default_plans
  insert_default_plans-Post deployment now db =
      Post-bind (λ _ d. Kept db d) _ _ db (upsert_plan_row-Post _ db)
        λ _ d k. Post-weaken (upsert_plan_row-Post _ d) λ _ e l. l ∙ k

-- The two tables of the organizations once the organization is in.
abbrev Founding : OwnerRecord → Db → Db → Type 0
Founding r db d =
    (d.organizations ≡ db.organizations ++ owner_organization r ∷ [])
    × (d.organization_memberships ≡ db.organization_memberships)

Founding-Kept : (r : OwnerRecord) (db d e : Db) → Founding r db d → Kept d e → Founding r db e
Founding-Kept r db d e (orgs, ms) k =
    (ap (λ t. t.organizations) k ∙ orgs, ap (λ t. t.organization_memberships) k ∙ ms)

-- The owner's membership completes the organization.
founded :
    (r : OwnerRecord) (db d : Db)
    → r.organization_id ≢ []
    → IsGoverned db
    → d.organizations ≡ db.organizations ++ owner_organization r ∷ []
    → IsIndexed (
        db.organization_memberships
        ++ new_membership r.organization_id r.user_id role_owner r.created_at ∷ [])
    → d.organization_memberships
      ≡ db.organization_memberships
        ++ new_membership r.organization_id r.user_id role_owner r.created_at ∷ []
    → IsGoverned d
founded r db d ne g orgs v ms = record {
  one_current = λ u. rw ms (v.one_current u);
  one_owner = λ o. rw ms (v.one_owner o);
  has_owner = λ o live. rw ms (
      rw
        (any-append_row (owner_of o) db.organization_memberships
          (new_membership r.organization_id r.user_id role_owner r.created_at))
        (ground (
          arith,
          g.has_owner o,
          any-append_row (active_id o) db.organizations (owner_organization r),
          rw orgs at live,
        )));
  named = rw orgs (
      rw (any-append_row (λ o. o.organization_id == []) db.organizations (owner_organization r))
        (ground (arith, g.named, ne)));
}

abbrev Ready : Db → Type 0
Ready d = setup_required d ≡ false

insert_deployment_membership-Ready :
    {R : Type 0} (r : OwnerRecord) (db d : Db)
    → Founding r db d
    → Post
        (λ _ e. Founding r db e × Ready e)
        (insert_deployment_membership {R = R} r.deployment_id r.user_id role_owner false
          r.created_at d)
unfolding setup_required count
insert_deployment_membership-Ready r db d f =
    Post-weaken (insert_deployment_membership-Post _ _ _ _ _ d) λ _ e same.
      rw same (f, rw (count-append (λ m. is_current m.status) d.memberships) (ground arith))

insert_membership-Ready :
    {R : Type 0} (r : OwnerRecord) (db d : Db)
    → r.organization_id ≢ []
    → IsGoverned db
    → Founding r db d × Ready d
    → Post
        (λ _ e. IsGoverned e × Ready e)
        (insert_membership {R = R} r.organization_id r.user_id role_owner r.created_at d)
unfolding insert_membership setup_required
insert_membership-Ready r db d ne g ((orgs, ms), ready) = Post-read _ _ d (
    Post-require _ _ _ d λ new.
      Post-weaken
        (write_memberships-Post r.organization_id r.user_id _ d (rw ms (indexed g)) (
          append-Touches r.organization_id r.user_id role_owner r.created_at
            d.organization_memberships))
        λ _ e (same, v). rw same (
          founded r db _ ne g orgs
              (subst
                (λ x.
                  IsIndexed
                    (x ++ new_membership r.organization_id r.user_id role_owner r.created_at ∷ []))
                ms v)
              (rw ms refl),
          ready,
        ))

create_owner_body-Post :
    (r : OwnerRecord) (db : Db)
    → r.organization_id ≢ []
    → IsGoverned db
    → Post (λ _ d. IsGoverned d × Ready d) (create_owner_body r db)
unfolding create_owner_body setup_required
create_owner_body-Post r db ne g = Post-read _ _ db (
    Post-require _ _ _ db λ required.
      Post-bind (λ _ d. Kept db d) _ _ db (insert_deployment-Post r db)
        λ _ a k.
          Post-bind (λ _ d. Founding r db d) _ _ a
            (Post-weaken (insert_organization-Post r a) λ _ b same. rw same (
              ap (λ t. t.organizations ++ owner_organization r ∷ []) k,
              ap (λ t. t.organization_memberships) k,
            ))
            λ _ b f.
              Post-bind (λ _ d. Founding r db d) _ _ b
                (Post-weaken (insert_owner-Post r b) λ _ c. Founding-Kept r db b c f)
                λ _ b f.
                  Post-bind (λ _ d. Founding r db d) _ _ b
                    (Post-weaken (insert_identity-Post _ b) λ _ c. Founding-Kept r db b c f)
                    λ _ b f.
                      Post-bind (λ _ d. Founding r db d) _ _ b
                        (Post-weaken (insert_credential-Post _ b) λ _ c. Founding-Kept r db b c f)
                        λ _ b f.
                          Post-bind (λ _ d. Founding r db d × Ready d) _ _ b
                            (insert_deployment_membership-Ready r db b f)
                            λ _ c h.
                              Post-bind (λ _ d. IsGoverned d × Ready d) _ _ c
                                (insert_membership-Ready r db c ne g h)
                                λ _ d (i, ready).
                                  Post-weaken (insert_default_plans-Post _ _ d) λ _ e k. (
                                    IsGoverned-frame (ap (λ t. t.organizations) k)
                                        (ap (λ t. t.organization_memberships) k) i,
                                    ap (λ t. eqb (count (λ m. is_current m.status) t.memberships) 0)
                                          k
                                        ∙ ready,
                                  ))

-- Whether the setup succeeds or not, each user stays in at most one organization, and each active
-- organization has exactly one active owner. The new organization's identifier is not empty.
pub create_owner-IsGoverned :
    (r : OwnerRecord) (db : Db)
    → r.organization_id ≢ []
    → IsGoverned db
    → IsGoverned (create_owner r db).1
unfolding create_owner
create_owner-IsGoverned r db ne g =
    transaction-Post IsGoverned (create_owner_body r) db g
      (Post-weaken (create_owner_body-Post r db ne g) λ _ d (h, ready). h)

-- Where an active deployment member is there, no setup takes place.
create_owner-refused :
    (r : OwnerRecord) (db : Db) → Ready db → create_owner r db ≡ (err already_setup, db)
unfolding create_owner transaction create_owner_body
create_owner-refused r db ready = ground (arith, ready)

-- After a setup that succeeds, every other setup fails with `ErrAlreadySetup` and changes nothing.
-- The identifier of the first one's organization is not empty, and it starts from a database where
-- each user is in at most one organization and each active organization has exactly one active owner.
pub create_owner-once :
    (r s : OwnerRecord) (db db' : Db)
    → r.organization_id ≢ []
    → IsGoverned db
    → create_owner r db ≡ (ok tt, db')
    → create_owner s db' ≡ (err already_setup, db')
unfolding create_owner
create_owner-once r s db db' ne g run =
    create_owner-refused s db'
      (transaction-ok (λ _ d. IsGoverned d × Ready d) (create_owner_body r) db db' tt
        (create_owner_body-Post r db ne g) run).1
