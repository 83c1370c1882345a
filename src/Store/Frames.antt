-- ===== src/Store/Frames.antt =====
-- What the shared statements of internal/storage/auth leave alone.
use nexus_control.Base.{
  ◌≡◌, refl, ◌∙◌, Bool, true, false, List, [], ◌∷◌, ◌++◌, Text, ◌==◌, any, ℕ, arith,
}
use nexus_control.Strings.{trim_space}
use nexus_control.Schema.{
  Db, Role, DeploymentMembership, Organization, OrganizationMembership, Invitation, Session,
  is_owner,
}
use nexus_control.Tx.{
  Post, Post-bind, Post-weaken, Post-read, Post-write, Post-pure, Post-row_or, Post-require,
  Post-then, require-Post,
}
use nexus_control.Store.Events.{
  append_event, append_identity_invalidation, append_profile_events, append_profile_invalidations,
}
use nexus_control.Store.Principals.{
  may_manage, require_organization_manager, require_deployment_manager,
}
use nexus_control.Store.Accounts.{
  NewMemberRecord, insert_user, insert_identity, insert_credential, insert_deployment_membership,
  new_deployment_membership, lock_deployment, rename_user,
}

-- The tables that neither accounts nor events are kept in.
pub record Tables : Type 0 where
  pub memberships : List DeploymentMembership
  pub organizations : List Organization
  pub organization_memberships : List OrganizationMembership
  pub invitations : List Invitation
  pub sessions : List Session

abbrev pub tables : Db → Tables
tables db = record {
  memberships = db.memberships;
  organizations = db.organizations;
  organization_memberships = db.organization_memberships;
  invitations = db.invitations;
  sessions = db.sessions;
}

abbrev pub Kept : Db → Db → Type 0
Kept db db' = tables db' ≡ tables db

may_manage-owner : (role target : Role) → may_manage role target ≡ true → is_owner target ≡ false
unfolding may_manage
may_manage-owner role target h = ground (arith, h)

module _ {R : Type 0} where
  append_profile_events-Post :
      (ms : List DeploymentMembership) (user : Text) (now : ℕ) (db : Db)
      → Post (λ _ d. Kept db d) (append_profile_events {R = R} ms user now db)
  unfolding append_profile_events append_identity_invalidation append_event
  append_profile_events-Post [] user now db = Post-pure tt db refl
  append_profile_events-Post (m ∷ ms) user now db =
      Post-bind (λ _ d. Kept db d) _ _ db (Post-write _ db refl)
        λ _ d h. Post-weaken (append_profile_events-Post ms user now d) λ _ e k. k ∙ h

  pub append_profile_invalidations-Post :
      (user : Text) (now : ℕ) (db : Db)
      → Post (λ _ d. Kept db d) (append_profile_invalidations {R = R} user now db)
  unfolding append_profile_invalidations
  append_profile_invalidations-Post user now db =
      Post-read _ _ db (append_profile_events-Post _ (trim_space user) now db)

  pub rename_user-Post :
      (user old new : Text) (now : ℕ) (db : Db)
      → Post (λ _ d. Kept db d) (rename_user {R = R} user old new now db)
  unfolding rename_user
  rename_user-Post user old new now db =
      Post-read _ _ db (
        Post-require _ _ _ db
          λ hit. Post-then _ _ db (append_profile_invalidations-Post user now _))

  pub lock_deployment-Post :
      (deployment : Text) (db : Db)
      → Post
          (λ _ d. (d ≡ db) × (any (λ x. x.deployment_id == deployment) db.deployments ≡ true))
          (lock_deployment {R = R} deployment db)
  unfolding lock_deployment
  lock_deployment-Post deployment db = Post-read _ _ db (require-Post _ _ db)

  -- Neither permission check lets an owner be granted or changed.
  pub require_organization_manager-Post :
      (org user : Text) (target : Role) (db : Db)
      → Post
          (λ _ d. (d ≡ db) × (is_owner target ≡ false))
          (require_organization_manager {R = R} org user target db)
  unfolding require_organization_manager
  require_organization_manager-Post org user target db = Post-read _ _ db (
      Post-row_or _ _ _ db λ m e.
        Post-weaken (require-Post (may_manage m.role target) _ db)
          λ _ d (same, ok). (same, may_manage-owner m.role target ok))

  pub require_deployment_manager-Post :
      (deployment user : Text) (target : Role) (db : Db)
      → Post
          (λ _ d. (d ≡ db) × (is_owner target ≡ false))
          (require_deployment_manager {R = R} deployment user target db)
  unfolding require_deployment_manager
  require_deployment_manager-Post deployment user target db = Post-read _ _ db (
      Post-row_or _ _ _ db λ m e.
        Post-weaken (require-Post (may_manage m.role target) _ db)
          λ _ d (same, ok). (same, may_manage-owner m.role target ok))

  -- The three rows of an account touch none of the tables.
  pub insert_user-Post :
      (r : NewMemberRecord) (db : Db) → Post (λ _ d. Kept db d) (insert_user {R = R} r db)
  unfolding insert_user
  insert_user-Post r db = Post-read _ _ db (
      Post-require _ _ _ db
        λ fresh. Post-read _ _ db (Post-require _ _ _ db λ new. Post-write _ db refl))

  pub insert_identity-Post :
      (r : NewMemberRecord) (db : Db) → Post (λ _ d. Kept db d) (insert_identity {R = R} r db)
  unfolding insert_identity
  insert_identity-Post r db = Post-read _ _ db (Post-require _ _ _ db λ new. Post-write _ db refl)

  pub insert_credential-Post :
      (r : NewMemberRecord) (db : Db) → Post (λ _ d. Kept db d) (insert_credential {R = R} r db)
  unfolding insert_credential
  insert_credential-Post r db = Post-read _ _ db (Post-require _ _ _ db λ new. Post-write _ db refl)

  pub insert_deployment_membership-Post :
      (deployment user : Text) (role : Role) (disabled : Bool) (now : ℕ) (db : Db)
      → Post
          (λ _ d. d ≡ record db {
            memberships =
                db.memberships ++ new_deployment_membership deployment user role disabled now ∷ [];
          })
          (insert_deployment_membership {R = R} deployment user role disabled now db)
  unfolding insert_deployment_membership
  insert_deployment_membership-Post deployment user role disabled now db = Post-read _ _ db (
      Post-require _ _ _ db
        λ known. Post-read _ _ db (Post-require _ _ _ db λ new. Post-write _ db refl))
