-- ===== src/Store/Listings.antt =====
-- The sorted reads of internal/storage/auth/deployment_member.go, member.go, node.go and invitation.go.
use nexus_control.Base.{
  ℕ, Bool, ◌&&◌, Option, none, some, List, [], ◌∷◌, Text, leb, eqb, leb_text, ◌==◌, any, find,
  select, take, sort_by, if◌then◌else◌,
}
use nexus_control.Strings.{trim_space}
use nexus_control.Schema.{
  Db, User, DeploymentMembership, Node, Role, role_owner, role_admin, role_member, is_current,
}
use nexus_control.Store.Principals.{active_user, active_organization}
use nexus_control.Store.Memberships.{membership_of}
use nexus_control.Store.Accounts.{DeploymentMemberRecord}
use nexus_control.Store.DeploymentMembers.{joined_member}
use nexus_control.Store.Members.{joined_organization_member}
use nexus_control.Store.Invitations.{InvitationRecord, select_invitation}

-- The rows that scan.
abbrev pub prepend : {A : Type 0} → Option A → List A → List A
prepend none xs = xs
prepend (some x) xs = x ∷ xs

unfoldable pub collect : {A B : Type 0} → (A → Option B) → List A → List B
collect f [] = []
collect f (x ∷ xs) = prepend (f x) (collect f xs)

-- CASE role WHEN 'owner' THEN 0 WHEN 'admin' THEN 1 ELSE 2 END.
abbrev rank : Role → ℕ
rank role_owner = 0
rank role_admin = 1
rank role_member = 2

abbrev by_rank : DeploymentMemberRecord → DeploymentMemberRecord → Bool
by_rank a b =
    if eqb (rank a.role) (rank b.role)
    then leb_text a.username b.username
    else leb (rank a.role) (rank b.role)

abbrev by_display_name : DeploymentMemberRecord → DeploymentMemberRecord → Bool
by_display_name a b =
    if a.display_name == b.display_name
    then leb_text a.username b.username
    else leb_text a.display_name b.display_name

-- `ListDeploymentMembers`
unfoldable pub list_deployment_members : Text → Db → List DeploymentMemberRecord
unfolding joined_member
list_deployment_members deployment db = sort_by by_rank (
    collect (λ m. joined_member (some m) (find (λ u. u.user_id == m.user_id) db.users))
      (select (λ m. m.deployment_id == deployment) db.memberships))

-- `ListMembers`
unfoldable pub list_members : Text → Text → Db → List DeploymentMemberRecord
unfolding joined_organization_member
list_members deployment org db = sort_by by_rank (
    collect
      (λ m.
        joined_organization_member (some m) (find (λ u. u.user_id == m.user_id) db.users)
          (find (membership_of org m.user_id) db.organization_memberships))
      (select (λ m. m.deployment_id == deployment) db.memberships))

-- The WHERE clause of `ListActiveMembers`.
unfoldable pub active_in : Text → Text → Db → DeploymentMembership → Bool
active_in deployment org db m =
    m.deployment_id == deployment
    && (is_current m.status
        && (any (λ om. membership_of org m.user_id om && is_current om.status)
              db.organization_memberships
            && (active_organization deployment org db && active_user m.user_id db)))

-- `ListActiveMembers`
unfoldable pub list_active_members : Text → Text → Db → List DeploymentMemberRecord
unfolding joined_member active_in
list_active_members deployment org db = sort_by by_display_name (
    collect (λ m. joined_member (some m) (find (λ u. u.user_id == m.user_id) db.users))
      (select (active_in deployment org db) db.memberships))

-- `ListNodes`
unfoldable pub list_nodes : Text → Text → Text → Db → List Node
list_nodes deployment org owner db = take 100 (
    sort_by (λ a b. leb b.created_at a.created_at)
      (select
        (λ n.
          n.deployment_id == deployment && (n.organization_id == org && n.owner_user_id == owner))
        db.nodes))

-- `ListOrganizationInvitations`
unfoldable pub list_organization_invitations : Text → Db → List InvitationRecord
list_organization_invitations org db = take 100 (
    sort_by (λ a b. leb b.row.created_at a.row.created_at)
      (collect (λ i. select_invitation (some i) db)
        (select (λ i. i.organization_id == org) db.invitations)))

-- `UserByID`; no row is `ErrNotFound`.
unfoldable pub user_by_id : Text → Db → Option User
user_by_id user db = find (λ u. u.user_id == trim_space user) db.users
