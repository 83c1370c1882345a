-- ===== src/Store/Untouched.antt =====
-- The transactions of internal/storage/auth on other tables, and the tables of organizations.
use nexus_control.Base.{ℕ, ◌≡◌, refl, ap, Text}
use nexus_control.Schema.{Db}
use nexus_control.Tx.{
  Post, Post-bind, Post-weaken, Post-read, Post-check, Post-row_or, Post-require, Post-then,
  Post-write, Post-pure, transaction-Post,
}
use nexus_control.Store.Accounts.{NewMemberRecord}
use nexus_control.Store.DeploymentMembers.{create_deployment_member_body, create_deployment_member}
use nexus_control.Store.Invitations.{
  InvitationRecord, require_invitation_manager, create_invitation_body,
  create_organization_invitation, revoke_invitation_body, revoke_organization_invitation,
  delete_invitation_body, delete_organization_invitation,
}
use nexus_control.Store.Registration.{
  register_account_body, register_account, update_avatar_body, update_avatar,
}
use nexus_control.Store.Owners.{IsGoverned, IsGoverned-frame}
use nexus_control.Store.Frames.{
  Kept, lock_deployment-Post, require_organization_manager-Post, require_deployment_manager-Post,
  insert_user-Post, insert_identity-Post, insert_credential-Post, insert_deployment_membership-Post,
  append_profile_invalidations-Post,
}

Kept-IsGoverned : (d e : Db) → IsGoverned d → Kept d e → IsGoverned e
Kept-IsGoverned d e g k =
    IsGoverned-frame (ap (λ t. t.organizations) k) (ap (λ t. t.organization_memberships) k) g

abbrev Governed : {A : Type 0} → A → Db → Type 0
Governed _ d = IsGoverned d

register_body-Post :
    (r : NewMemberRecord) (db : Db) → IsGoverned db → Post Governed (register_account_body r db)
unfolding register_account_body
register_body-Post r db g = Post-read _ _ db (
    Post-row_or _ _ _ db λ dep found.
      Post-bind Governed _ _ db (Post-weaken (insert_user-Post r db) λ _ d. Kept-IsGoverned db d g)
        λ _ d h.
          Post-bind Governed _ _ d
            (Post-weaken (insert_identity-Post r d) λ _ e. Kept-IsGoverned d e h)
            λ _ d h.
              Post-bind Governed _ _ d
                (Post-weaken (insert_credential-Post r d) λ _ e. Kept-IsGoverned d e h)
                λ _ d h.
                  Post-weaken (insert_deployment_membership-Post _ _ _ _ _ d)
                    λ _ e k. rw k (IsGoverned-frame refl refl h))

pub register_account-IsGoverned :
    (r : NewMemberRecord) (db : Db) → IsGoverned db → IsGoverned (register_account r db).1
unfolding register_account
register_account-IsGoverned r db g =
    transaction-Post IsGoverned (register_account_body r) db g (register_body-Post r db g)

create_member_body-Post :
    (actor : Text) (r : NewMemberRecord) (db : Db)
    → IsGoverned db
    → Post Governed (create_deployment_member_body actor r db)
unfolding create_deployment_member_body
create_member_body-Post actor r db g =
    Post-check _ _ db (require_deployment_manager-Post _ _ _ db) λ low.
      Post-check _ _ db (lock_deployment-Post _ db) λ locked.
        Post-bind Governed _ _ db
          (Post-weaken (insert_user-Post r db) λ _ d. Kept-IsGoverned db d g)
          λ _ d h.
            Post-bind Governed _ _ d
              (Post-weaken (insert_identity-Post r d) λ _ e. Kept-IsGoverned d e h)
              λ _ d h.
                Post-bind Governed _ _ d
                  (Post-weaken (insert_credential-Post r d) λ _ e. Kept-IsGoverned d e h)
                  λ _ d h.
                    Post-bind Governed _ _ d
                      (Post-weaken (insert_deployment_membership-Post _ _ _ _ _ d)
                        λ _ e k. rw k (IsGoverned-frame refl refl h))
                      λ _ e i. Post-pure _ e i

pub create_deployment_member-IsGoverned :
    (actor : Text) (r : NewMemberRecord) (db : Db)
    → IsGoverned db
    → IsGoverned (create_deployment_member actor r db).1
unfolding create_deployment_member
create_deployment_member-IsGoverned actor r db g =
    transaction-Post IsGoverned (create_deployment_member_body actor r) db g
      (create_member_body-Post actor r db g)

update_avatar_body-Post :
    (user avatar : Text) (now : ℕ) (db : Db)
    → IsGoverned db
    → Post Governed (update_avatar_body user avatar now db)
unfolding update_avatar_body
update_avatar_body-Post user avatar now db g = Post-read _ _ db (
    Post-require _ _ _ db λ hit. Post-then _ _ db (
      Post-weaken (append_profile_invalidations-Post user now _) λ _ e k. Kept-IsGoverned db e g k))

pub update_avatar-IsGoverned :
    (user avatar : Text) (now : ℕ) (db : Db)
    → IsGoverned db
    → IsGoverned (update_avatar user avatar now db).1
unfolding update_avatar
update_avatar-IsGoverned user avatar now db g =
    transaction-Post IsGoverned (update_avatar_body user avatar now) db g
      (update_avatar_body-Post user avatar now db g)

create_invitation_body-Post :
    (r : InvitationRecord) (db : Db) → IsGoverned db → Post Governed (create_invitation_body r db)
unfolding create_invitation_body
create_invitation_body-Post r db g =
    Post-check _ _ db (require_organization_manager-Post _ _ _ db) λ low.
      Post-read _ _ db (
        Post-require _ _ _ db
          λ new. Post-then _ _ db (Post-pure _ _ (IsGoverned-frame refl refl g)))

pub create_organization_invitation-IsGoverned :
    (r : InvitationRecord) (db : Db)
    → IsGoverned db
    → IsGoverned (create_organization_invitation r db).1
unfolding create_organization_invitation
create_organization_invitation-IsGoverned r db g =
    transaction-Post IsGoverned (create_invitation_body r) db g (create_invitation_body-Post r db g)

require_invitation_manager-Post :
    {R : Type 0} (org invitation actor : Text) (db : Db)
    → Post (λ _ d. (d ≡ db) × Unit {0}) (require_invitation_manager {R = R} org invitation actor db)
unfolding require_invitation_manager
require_invitation_manager-Post org invitation actor db = Post-read _ _ db (
    Post-row_or _ _ _ db λ i found.
      Post-weaken (require_organization_manager-Post _ _ _ db) λ _ d (same, low). (same, tt))

revoke_invitation_body-Post :
    (org invitation actor : Text) (now : ℕ) (db : Db)
    → IsGoverned db
    → Post Governed (revoke_invitation_body org invitation actor now db)
unfolding revoke_invitation_body
revoke_invitation_body-Post org invitation actor now db g =
    Post-check _ _ db (require_invitation_manager-Post _ _ _ db) λ _.
      Post-read _ _ db (Post-require _ _ _ db λ hit. Post-write _ db (IsGoverned-frame refl refl g))

pub revoke_organization_invitation-IsGoverned :
    (org invitation actor : Text) (now : ℕ) (db : Db)
    → IsGoverned db
    → IsGoverned (revoke_organization_invitation org invitation actor now db).1
unfolding revoke_organization_invitation
revoke_organization_invitation-IsGoverned org invitation actor now db g =
    transaction-Post IsGoverned (revoke_invitation_body org invitation actor now) db g
      (revoke_invitation_body-Post org invitation actor now db g)

delete_invitation_body-Post :
    (org invitation actor : Text) (now : ℕ) (db : Db)
    → IsGoverned db
    → Post Governed (delete_invitation_body org invitation actor now db)
unfolding delete_invitation_body
delete_invitation_body-Post org invitation actor now db g =
    Post-check _ _ db (require_invitation_manager-Post _ _ _ db) λ _.
      Post-read _ _ db (Post-require _ _ _ db λ hit. Post-write _ db (IsGoverned-frame refl refl g))

pub delete_organization_invitation-IsGoverned :
    (org invitation actor : Text) (now : ℕ) (db : Db)
    → IsGoverned db
    → IsGoverned (delete_organization_invitation org invitation actor now db).1
unfolding delete_organization_invitation
delete_organization_invitation-IsGoverned org invitation actor now db g =
    transaction-Post IsGoverned (delete_invitation_body org invitation actor now) db g
      (delete_invitation_body-Post org invitation actor now db g)
