-- ===== src/Store/DeploymentMemberLaws.antt =====
-- What `UpdateDeploymentMember` of internal/storage/auth/deployment_member.go does to ownership and
-- to sessions.
use nexus_control.Base.{
  ◌<◌, ◌≡◌, refl, sym, ap, inl, inr, ◌∙◌, Bool, false, ◌&&◌, not, some, List, Text, ◌==◌, any,
  count, find, update, arith, Option-cases, find_unique, find-update_miss, any-update_clear,
  any_weaken,
}
use nexus_control.Schema.{Db, DeploymentMembership, is_owner, is_current}
use nexus_control.Tx.{
  Post, Post-bind, Post-weaken, Post-read, Post-check, Post-row_or, Post-require, Post-when,
  Post-if, when, Post-write, Post-pure, Post-then, transaction-Post, transaction-ok, ok,
}
use nexus_control.Store.Events.{append_event, append_identity_invalidation}
use nexus_control.Store.Principals.{active_member}
use nexus_control.Store.Accounts.{
  DeploymentMemberRecord, MemberChange, in_deployment, scan_deployment_member,
}
use nexus_control.Store.DeploymentMembers.{
  query_deployment_member, regrade, session_of, write_regrade, end_sessions,
  update_deployment_member_body, update_deployment_member,
}
use nexus_control.Store.Frames.{
  rename_user-Post, lock_deployment-Post, require_deployment_manager-Post,
}

-- The primary key of deployment_memberships.
abbrev pub HasKey : Db → Type 0
HasKey db = (deployment user : Text) → count (in_deployment deployment user) db.memberships < 2

abbrev pub owner_row : Text → Text → DeploymentMembership → Bool
owner_row deployment user m = in_deployment deployment user m && is_owner m.role

query_role :
    (deployment user : Text) (db : Db) (r : DeploymentMemberRecord)
    → query_deployment_member deployment user db ≡ some r
    → (m : DeploymentMembership) × (find (in_deployment deployment user) db.memberships ≡ some m)
      × (r.role ≡ m.role)
unfolding query_deployment_member scan_deployment_member
query_role deployment user db r h =
    elim (Option-cases (find (in_deployment deployment user) db.memberships)) [
      | inl e ↦ ground (arith, e, h)
      | inr (m, e) ↦ (
        m,
        e,
        elim (Option-cases (find (λ u. u.user_id == user) db.users)) [
          | inl f ↦ ground (arith, e, f, h)
          | inr (u, f) ↦ ground (arith, e, f, h)
        ],
      )
    ]

-- A row that is no owner's, of a key, leaves no owner of the key.
no_owner :
    (deployment user : Text) (db : Db) (m : DeploymentMembership)
    → HasKey db
    → find (in_deployment deployment user) db.memberships ≡ some m
    → is_owner m.role ≡ false
    → any (owner_row deployment user) db.memberships ≡ false
no_owner deployment user db m key e low =
    find_unique (in_deployment deployment user) (in_deployment deployment user)
      (λ x. is_owner x.role) db.memberships m (λ x h. h) (key deployment user) e low

module _ (c : MemberChange) (db : Db) where
  abbrev regraded : List DeploymentMembership
  regraded = update (in_deployment c.deployment_id c.user_id) (regrade c) db.memberships

  -- Every row but those of the member is as it was, and the member neither was nor is an owner.
  abbrev Regraded : Db → Type 0
  Regraded d =
      (d.memberships ≡ regraded)
      × (is_owner c.next_role ≡ false)
      × (any (owner_row c.deployment_id c.user_id) db.memberships ≡ false)

  -- A member who loses access has no session left.
  abbrev Ended : Db → Type 0
  Ended d =
      is_current c.next_status ≡ false
      → any (session_of c.deployment_id c.user_id) d.sessions ≡ false

  end_sessions-Post :
      {R : Type 0} (d : Db)
      → d.memberships ≡ regraded
      → Post
          (λ _ e. (e.memberships ≡ regraded) × Ended e)
          (when {R = R} (not (is_current c.next_status)) (end_sessions c) d)
  unfolding end_sessions
  end_sessions-Post d same =
      Post-if _ _ d (λ here. (same, λ gone. ground (arith, here, gone)))
        λ away.
          Post-write _ d
            ((same, λ gone. any-update_clear _ _ _ d.sessions (λ s h. h) (λ s. ground arith)))

  update_deployment_member_body-Post :
      HasKey db → Post (λ _ d. Regraded d × Ended d) (update_deployment_member_body c db)
  unfolding update_deployment_member_body write_regrade append_identity_invalidation append_event
  update_deployment_member_body-Post key = Post-check _ _ db (lock_deployment-Post _ db) λ locked.
      Post-read _ _ db (
        Post-row_or _ _ _ db λ target found. Post-require _ _ _ db λ fresh.
          Post-check _ _ db (require_deployment_manager-Post _ _ _ db) λ low.
            Post-check _ _ db (require_deployment_manager-Post _ _ _ db) λ low_next.
              Post-require _ _ _ db λ other. Post-then _ _ db (
                Post-bind (λ _ d. d.memberships ≡ regraded) _ _ _
                  (Post-when _ _ _ refl
                    (Post-weaken (rename_user-Post _ _ _ _ _) λ _ d k. ap (λ t. t.memberships) k))
                  λ _ d same.
                    Post-bind (λ _ e. (e.memberships ≡ regraded) × Ended e) _ _ d
                      (end_sessions-Post d same)
                      λ _ e (here, ended).
                        Post-bind (λ _ f. (f.memberships ≡ regraded) × Ended f) _ _ e
                          (Post-when _ _ e (here, ended) (Post-write _ e (here, ended)))
                          λ _ f (there, gone).
                            let (m, at, role) = query_role _ _ db target found in
                            Post-pure _ f (
                              (
                                there,
                                low_next,
                                no_owner _ _ db m key at (ap is_owner (sym role) ∙ low),
                              ),
                              gone,
                            )))

-- A change of a deployment member, whether it succeeds or not, leaves the owners of every
-- deployment as they were, their rows included: no owner is changed, and nobody becomes one. The
-- table has its primary key.
pub update_deployment_member-owner :
    (c : MemberChange) (db : Db)
    → HasKey db
    → (deployment user : Text)
    → find (owner_row deployment user) (update_deployment_member c db).1.memberships
      ≡ find (owner_row deployment user) db.memberships
unfolding update_deployment_member
update_deployment_member-owner c db key deployment user =
    transaction-Post
      (λ d.
        find (owner_row deployment user) d.memberships
        ≡ find (owner_row deployment user) db.memberships)
      (update_deployment_member_body c) db refl
      (Post-weaken (update_deployment_member_body-Post c db key)
        λ _ d ((same, low, none_owned), ended). rw same (
          find-update_miss (owner_row deployment user) _ (regrade c) db.memberships
            (λ m. ground (arith, low))
            (any_weaken _ _ db.memberships (λ m. ground arith) none_owned)))

-- Where a change that revokes a deployment member succeeds, the member has neither a live session
-- nor an active membership in the deployment. The table has its primary key.
pub update_deployment_member-revoked :
    (c : MemberChange) (db db' : Db) (r : DeploymentMemberRecord)
    → HasKey db
    → is_current c.next_status ≡ false
    → update_deployment_member c db ≡ (ok r, db')
    → (any (session_of c.deployment_id c.user_id) db'.sessions ≡ false)
      × (active_member c.deployment_id c.user_id db' ≡ false)
unfolding update_deployment_member active_member
update_deployment_member-revoked c db db' r key gone run =
    let ((same, low, none_owned), ended) =
      transaction-ok (λ _ d. Regraded c db d × Ended c db d) (update_deployment_member_body c) db
        db' r (update_deployment_member_body-Post c db key) run in
    (
      ended gone,
      rw same (
          any-update_clear _ _ (regrade c) db.memberships (λ m. ground arith)
            (λ m. ground (arith, gone))),
    )
