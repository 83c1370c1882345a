-- ===== src/Store/Acceptance.antt =====
-- The statements of the acceptance of an invitation in internal/storage/auth/invitation.go.
use nexus_control.Base.{
  ℕ, ◌<◌, ◌≡◌, refl, ap, ◌∙◌, inl, inr, true, false, ◌&&◌, not, some, List, [], ◌∷◌, ◌++◌, Text,
  ◌==◌, any, count, find, arith, Option-cases, find_unique, any-append_row, any-update_all,
  count-append_miss,
}
use nexus_control.Schema.{Db, Role, role_member, OrganizationMembership, Invitation, is_active}
use nexus_control.Tx.{
  Post, Post-bind, Post-weaken, Post-read, Post-check, Post-row_or, Post-require, Post-write,
  Post-pure,
}
use nexus_control.Store.Principals.{active_deployment}
use nexus_control.Store.Memberships.{current_of, owner_of, open_invitation, new_membership}
use nexus_control.Store.Accounts.{DeploymentMemberRecord, new_deployment_membership}
use nexus_control.Store.Invitations.{
  InvitationRecord, AcceptInvitationRecord, select_invitation, organization_invitation_by_token,
  insert_membership, use_invitation, accept_invitation_body,
}
use nexus_control.Store.Owners.{
  IsGoverned, Touches, indexed, write_memberships-Post, IsGoverned-frame,
}
use nexus_control.Store.Frames.{
  Kept, lock_deployment-Post, insert_user-Post, insert_identity-Post, insert_credential-Post,
  insert_deployment_membership-Post,
}

pub by_token_row :
    (hash : Text) (db : Db) (r : InvitationRecord)
    → organization_invitation_by_token hash db ≡ some r
    → find (λ i. i.token_hash == hash) db.invitations ≡ some r.row
unfolding organization_invitation_by_token select_invitation
by_token_row hash db r h = elim (Option-cases (find (λ i. i.token_hash == hash) db.invitations)) [
  | inl e ↦ ground (arith, e, h)
  | inr (i, e) ↦
      elim (Option-cases (
        find
          (λ o.
            o.organization_id == i.organization_id
            && (is_active o.status && active_deployment o.deployment_id db))
          db.organizations)) [
            | inl f ↦ ground (arith, e, f, h)
            | inr (o, f) ↦ ground (arith, e, f, h)
          ]
]

-- The database after the new member has joined, before the invitation is used.
pub record HasJoined (a : AcceptInvitationRecord) (r : InvitationRecord) (db d : Db) : Type 0 where
  pub governed : IsGoverned d
  pub orgs : d.organizations ≡ db.organizations
  pub invs : d.invitations ≡ db.invitations
  pub enrolled :
      d.organization_memberships
      ≡ db.organization_memberships
        ++ new_membership r.row.organization_id a.user_id r.row.role a.accepted_at ∷ []
  pub deployed :
      d.memberships
      ≡ db.memberships
        ++ new_deployment_membership r.deployment_id a.user_id role_member true a.accepted_at ∷ []

pub append-Touches :
    (org user : Text) (role : Role) (now : ℕ) (ms : List OrganizationMembership)
    → Touches org user ms (ms ++ new_membership org user role now ∷ [])
append-Touches org user role now ms = record {
  users = λ v ne. count-append_miss (current_of v) ms _ (ground arith);
  orgs = λ o ne. count-append_miss (owner_of o) ms _ (ground arith);
}

insert_membership-Post :
    {R : Type 0} (org user : Text) (role : Role) (now : ℕ) (d : Db)
    → IsGoverned d
    → Post
        (λ _ e.
          IsGoverned e
          × (e ≡ record d {
            organization_memberships =
                d.organization_memberships ++ new_membership org user role now ∷ [];
          }))
        (insert_membership {R = R} org user role now d)
unfolding insert_membership
insert_membership-Post org user role now d g = Post-read _ _ d (
    Post-require _ _ _ d λ new.
      Post-weaken
        (write_memberships-Post org user _ d (indexed g) (append-Touches org user role now _))
        λ _ e (same, v). rw same (
          record {
            one_current = v.one_current;
            one_owner = v.one_owner;
            has_owner = λ o live.
                rw
                  (any-append_row (owner_of o) d.organization_memberships
                    (new_membership org user role now))
                  (rw (g.has_owner o live) refl);
            named = g.named;
          },
          refl,
        ))

-- No invitation with the token is open, at any time.
abbrev pub IsSpent : Text → Db → Type 0
IsSpent hash db =
    (now : ℕ) → any (λ i. i.token_hash == hash && open_invitation now i) db.invitations ≡ false

use_invitation-Post :
    {R : Type 0} (hash user : Text) (now : ℕ) (i : Invitation) (d : Db)
    → count (λ x. x.token_hash == hash) d.invitations < 2
    → find (λ x. x.token_hash == hash) d.invitations ≡ some i
    → open_invitation now i ≡ true
    → Post (λ _ e. IsSpent hash e) (use_invitation {R = R} i.invitation_id user now d)
unfolding use_invitation
use_invitation-Post hash user now i d one found fresh = Post-read _ _ d (
    Post-require _ _ _ d λ hit. Post-write _ d λ later.
      any-update_all (λ x. x.token_hash == hash) _ _ _ d.invitations (λ x. ground arith)
        (λ x. ground arith)
        (find_unique (λ x. x.token_hash == hash) (λ x. x.token_hash == hash)
          (λ x. not (x.invitation_id == i.invitation_id && open_invitation now x)) d.invitations i
          (λ x h. h) one found (ground (arith, fresh))))

-- Whoever uses an invitation leaves the memberships as they are.
pub use_invitation-IsGoverned :
    {R : Type 0} (invitation user : Text) (now : ℕ) (d : Db)
    → IsGoverned d
    → Post (λ _ e. IsGoverned e) (use_invitation {R = R} invitation user now d)
unfolding use_invitation
use_invitation-IsGoverned invitation user now d g =
    Post-read _ _ d (Post-require _ _ _ d λ hit. Post-write _ d (IsGoverned-frame refl refl g))

joined :
    (a : AcceptInvitationRecord) (r : InvitationRecord) (db d e f : Db)
    → Kept db d
    → e ≡ record d {
      memberships =
          d.memberships
          ++ new_deployment_membership r.deployment_id a.user_id role_member true a.accepted_at
            ∷ [];
    }
    → f ≡ record e {
      organization_memberships =
          e.organization_memberships
          ++ new_membership r.row.organization_id a.user_id r.row.role a.accepted_at ∷ [];
    }
    → IsGoverned f
    → HasJoined a r db f
joined a r db d e f k s t g = record {
  governed = g;
  orgs = ap (λ x. x.organizations) t ∙ ap (λ x. x.organizations) s ∙ ap (λ x. x.organizations) k;
  invs = ap (λ x. x.invitations) t ∙ ap (λ x. x.invitations) s ∙ ap (λ x. x.invitations) k;
  enrolled =
      ap (λ x. x.organization_memberships) t
      ∙ ap
          (λ x.
            x.organization_memberships
            ++ new_membership r.row.organization_id a.user_id r.row.role a.accepted_at ∷ [])
          s
      ∙ ap
          (λ x.
            x.organization_memberships
            ++ new_membership r.row.organization_id a.user_id r.row.role a.accepted_at ∷ [])
          k;
  deployed =
      ap (λ x. x.memberships) t
      ∙ ap (λ x. x.memberships) s
      ∙ ap
          (λ x.
            x.memberships
            ++ new_deployment_membership r.deployment_id a.user_id role_member true a.accepted_at
              ∷ [])
          k;
}

-- An acceptance comes down to its last statement, on a database where the new member has joined.
pub accept_body-Post :
    (F : Db → Type 0) (a : AcceptInvitationRecord) (db : Db)
    → IsGoverned db
    → ((r : InvitationRecord) (e : Db)
        → HasJoined a r db e
        → organization_invitation_by_token a.token_hash db ≡ some r
        → open_invitation a.accepted_at r.row ≡ true
        → Post
            (λ _ f. F f)
            (use_invitation {R = DeploymentMemberRecord} r.row.invitation_id a.user_id a.accepted_at
              e))
    → Post (λ _ e. F e) (accept_invitation_body a db)
unfolding accept_invitation_body
accept_body-Post F a db g last = Post-read _ _ db (
    Post-row_or _ _ _ db λ r found. Post-require _ _ _ db λ fresh.
      Post-check _ _ db (lock_deployment-Post _ db) λ locked.
        Post-bind (λ _ d. Kept db d) _ _ db (insert_user-Post _ db)
          λ _ d s.
            Post-bind (λ _ d. Kept db d) _ _ d
              (Post-weaken (insert_identity-Post _ d) λ _ e k. k ∙ s)
              λ _ d s.
                Post-bind (λ _ d. Kept db d) _ _ d
                  (Post-weaken (insert_credential-Post _ d) λ _ e k. k ∙ s)
                  λ _ d s.
                    Post-bind _ _ _ d
                      (insert_deployment_membership-Post r.deployment_id a.user_id role_member true
                        a.accepted_at d)
                      λ _ e t.
                        Post-bind (λ _ f. HasJoined a r db f) _ _ e
                          (Post-weaken
                            (insert_membership-Post r.row.organization_id a.user_id r.row.role
                              a.accepted_at e
                              (IsGoverned-frame
                                (ap (λ x. x.organizations) t ∙ ap (λ x. x.organizations) s)
                                (ap (λ x. x.organization_memberships) t
                                  ∙ ap (λ x. x.organization_memberships) s)
                                g))
                            λ _ f (h, u). joined a r db d e f s t u h)
                          λ _ f j.
                            Post-bind (λ _ f. F f) _ _ f (last r f j found fresh)
                              λ _ f i. Post-pure _ f i)

pub accept_body-IsSpent :
    (a : AcceptInvitationRecord) (db : Db)
    → IsGoverned db
    → count (λ x. x.token_hash == a.token_hash) db.invitations < 2
    → Post (λ _ e. IsSpent a.token_hash e) (accept_invitation_body a db)
accept_body-IsSpent a db g one = accept_body-Post (IsSpent a.token_hash) a db g λ r e h found fresh.
    use_invitation-Post a.token_hash a.user_id a.accepted_at r.row e (rw h.invs one)
      (rw h.invs (by_token_row a.token_hash db r found)) fresh
