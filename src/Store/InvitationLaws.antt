-- ===== src/Store/InvitationLaws.antt =====
-- The acceptance of an invitation in internal/storage/auth/invitation.go.
use nexus_control.Base.{
  ◌<◌, ◌≡◌, refl, inl, inr, true, false, ◌&&◌, some, [], ◌∷◌, ◌++◌, ◌==◌, count, find, arith,
  Bool-cases, Option-cases, find_narrow, find-some-any,
}
use nexus_control.Schema.{Db, role_member}
use nexus_control.Tx.{
  ok, err, invitation_invalid, Post, Post-read, Post-require, Post-write, transaction,
  transaction-Post, transaction-ok,
}
use nexus_control.Store.Memberships.{open_invitation, new_membership}
use nexus_control.Store.Accounts.{DeploymentMemberRecord, new_deployment_membership}
use nexus_control.Store.Invitations.{
  InvitationRecord, AcceptInvitationRecord, organization_invitation_by_token, use_invitation,
  accept_invitation_body, accept_organization_invitation,
}
use nexus_control.Store.Owners.{IsGoverned, IsGoverned-frame}
use nexus_control.Store.Acceptance.{
  by_token_row, HasJoined, IsSpent, use_invitation-IsGoverned, accept_body-Post,
  accept_body-IsSpent,
}

-- Whether an invitation is accepted or not, each user stays in at most one organization, and each
-- active organization has exactly one active owner.
pub accept_organization_invitation-IsGoverned :
    (a : AcceptInvitationRecord) (db : Db)
    → IsGoverned db
    → IsGoverned (accept_organization_invitation a db).1
unfolding accept_organization_invitation
accept_organization_invitation-IsGoverned a db g =
    transaction-Post IsGoverned (accept_invitation_body a) db g (
      accept_body-Post IsGoverned a db g
        λ r e h found fresh. use_invitation-IsGoverned _ _ _ e h.governed)

-- Whom the invitation with the token made a member of what.
abbrev pub Admits : AcceptInvitationRecord → Db → Db → Type 0
Admits a db d =
    (r : InvitationRecord) × (organization_invitation_by_token a.token_hash db ≡ some r)
    × (open_invitation a.accepted_at r.row ≡ true)
    × (d.organization_memberships
        ≡ db.organization_memberships
          ++ new_membership r.row.organization_id a.user_id r.row.role a.accepted_at ∷ [])
    × (d.memberships
        ≡ db.memberships
          ++ new_deployment_membership r.deployment_id a.user_id role_member true a.accepted_at
            ∷ [])
    × (d.organizations ≡ db.organizations)
    × IsGoverned d

use_invitation-Admits :
    {R : Type 0} (a : AcceptInvitationRecord) (r : InvitationRecord) (db e : Db)
    → HasJoined a r db e
    → organization_invitation_by_token a.token_hash db ≡ some r
    → open_invitation a.accepted_at r.row ≡ true
    → Post
        (λ _ f. Admits a db f)
        (use_invitation {R = R} r.row.invitation_id a.user_id a.accepted_at e)
unfolding use_invitation
use_invitation-Admits a r db e h found fresh = Post-read _ _ e (
    Post-require _ _ _ e λ hit.
      Post-write _ e
        (r, found, fresh, h.enrolled, h.deployed, h.orgs, IsGoverned-frame refl refl h.governed))

-- Where an invitation is accepted, it was open, the new account becomes a member of its organization
-- with the invited role and a plain member of the deployment without access to the web, no other
-- membership and no organization changes, and each user is in at most one organization and each
-- active organization has exactly one active owner, as before.
pub accept_organization_invitation-joins :
    (a : AcceptInvitationRecord) (db db' : Db) (m : DeploymentMemberRecord)
    → IsGoverned db
    → accept_organization_invitation a db ≡ (ok m, db')
    → Admits a db db'
unfolding accept_organization_invitation
accept_organization_invitation-joins a db db' m g run =
    transaction-ok (λ _ d. Admits a db d) (accept_invitation_body a) db db' m
      (accept_body-Post (Admits a db) a db g
        λ r e h found fresh. use_invitation-Admits a r db e h found fresh)
      run

-- A token without an open invitation is refused.
accept_organization_invitation-spent :
    (a : AcceptInvitationRecord) (db : Db)
    → IsSpent a.token_hash db
    → accept_organization_invitation a db ≡ (err invitation_invalid, db)
unfolding accept_organization_invitation transaction accept_invitation_body
accept_organization_invitation-spent a db spent =
    elim (Option-cases (organization_invitation_by_token a.token_hash db)) [
      | inl e ↦ ground (arith, e)
      | inr (r, e) ↦ ground (arith, e, closed r (by_token_row a.token_hash db r e))
    ]
  where
    closed :
        (r : InvitationRecord)
        → find (λ i. i.token_hash == a.token_hash) db.invitations ≡ some r.row
        → open_invitation a.accepted_at r.row ≡ false
    closed r e = elim (Bool-cases (open_invitation a.accepted_at r.row)) [
      | inl fresh ↦ ground (
        arith,
        spent a.accepted_at,
        find-some-any (λ i. i.token_hash == a.token_hash && open_invitation a.accepted_at i)
            db.invitations r.row
            (find_narrow (λ i. i.token_hash == a.token_hash) (open_invitation a.accepted_at)
              db.invitations r.row e fresh),
      )
      | inr e ↦ e
    ]

-- An invitation is used once: after an acceptance that succeeds, every other acceptance with the
-- token, by anyone and at any time, fails with `ErrInvitationInvalid` and changes nothing. The token is
-- in the table at most once, and the first acceptance starts from a database where each user is in at
-- most one organization and each active organization has exactly one active owner.
pub accept_organization_invitation-once :
    (a b : AcceptInvitationRecord) (db db' : Db) (r : DeploymentMemberRecord)
    → count (λ x. x.token_hash == a.token_hash) db.invitations < 2
    → IsGoverned db
    → accept_organization_invitation a db ≡ (ok r, db')
    → b.token_hash ≡ a.token_hash
    → accept_organization_invitation b db' ≡ (err invitation_invalid, db')
unfolding accept_organization_invitation
accept_organization_invitation-once a b db db' r one g run same =
    accept_organization_invitation-spent b db' (rw same spent)
  where
    spent : IsSpent a.token_hash db'
    spent =
        transaction-ok (λ _ e. IsSpent a.token_hash e) (accept_invitation_body a) db db' r
          (accept_body-IsSpent a db g one) run
