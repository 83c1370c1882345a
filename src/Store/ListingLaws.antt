-- ===== src/Store/ListingLaws.antt =====
-- Who is in the directory of `ListActiveMembers` in internal/storage/auth/member.go.
use nexus_control.Base.{
  ◌≡◌, refl, sym, ap, ◌∙◌, inl, inr, Bool, true, false, ◌&&◌, ◌||◌, Option, none, some, List, [],
  ◌∷◌, Text, ◌==◌, any, find, arith, Option-cases, any_mono, any-sort_by, any-select, find_holds,
  find-none-any, find-some-any,
}
use nexus_control.Schema.{Db, DeploymentMembership, is_current}
use nexus_control.Store.Principals.{active_user, active_organization, active_member}
use nexus_control.Store.Memberships.{membership_of}
use nexus_control.Store.Accounts.{scan_deployment_member}
use nexus_control.Store.DeploymentMembers.{joined_member}
use nexus_control.Store.Listings.{prepend, collect, active_in, list_active_members}

abbrev holds : {A : Type 0} → (A → Bool) → Option A → Bool
holds p none = false
holds p (some x) = p x

any-prepend :
    {A : Type 0} (p : A → Bool) (o : Option A) (xs : List A)
    → any p (prepend o xs) ≡ (holds p o || any p xs)
unfolding any
any-prepend p none xs = refl
any-prepend p (some x) xs = refl

any-collect :
    {A B : Type 0} (p : B → Bool) (f : A → Option B) (xs : List A)
    → any p (collect f xs) ≡ any (λ x. holds p (f x)) xs
unfolding any collect
any-collect p f [] = refl
any-collect p f (x ∷ xs) =
    any-prepend p (f x) (collect f xs) ∙ ap (λ b. holds p (f x) || b) (any-collect p f xs)

listed_user :
    (user : Text) (db : Db) (m : DeploymentMembership)
    → holds
        (λ r. r.user_id == user)
        (joined_member (some m) (find (λ u. u.user_id == m.user_id) db.users))
      ≡ true
    → m.user_id ≡ user
unfolding joined_member scan_deployment_member
listed_user user db m h = elim (Option-cases (find (λ u. u.user_id == m.user_id) db.users)) [
  | inl e ↦ ground (arith, e, h)
  | inr (u, e) ↦ ground (arith, e, h, find_holds (λ x. x.user_id == m.user_id) db.users u e)
]

abbrev listed : Text → Text → Text → Db → DeploymentMembership → Bool
listed deployment org user db m =
    active_in deployment org db m
    && holds (λ r. r.user_id == user)
        (joined_member (some m) (find (λ u. u.user_id == m.user_id) db.users))

listed_row :
    (deployment org user : Text) (db : Db) (m : DeploymentMembership)
    → find (listed deployment org user db) db.memberships ≡ some m
    → (active_member deployment user db ≡ true)
      × (active_organization deployment org db ≡ true)
      × (any (λ x. membership_of org user x && is_current x.status) db.organization_memberships
          ≡ true)
      × (active_user user db ≡ true)
unfolding active_in active_member
listed_row deployment org user db m e =
    let row = find_holds (listed deployment org user db) db.memberships m e in
    let same = listed_user user db m (ground (arith, row)) in
    (
      any_mono (listed deployment org user db) _ db.memberships
          (λ x. ground (arith, listed_user user db x))
          (find-some-any (listed deployment org user db) db.memberships m e),
      ground (arith, row),
      rw (sym same) (ground (arith, row)),
      rw (sym same) (ground (arith, row)),
    )

-- Whoever is listed as an active member of an organization is an active member of the deployment and
-- of the organization, which is active, with an active account.
pub list_active_members_lem :
    (deployment org user : Text) (db : Db)
    → any (λ r. r.user_id == user) (list_active_members deployment org db) ≡ true
    → (active_member deployment user db ≡ true)
      × (active_organization deployment org db ≡ true)
      × (any (λ m. membership_of org user m && is_current m.status) db.organization_memberships
          ≡ true)
      × (active_user user db ≡ true)
unfolding list_active_members
list_active_members_lem deployment org user db h =
    elim (Option-cases (find (listed deployment org user db) db.memberships)) [
      | inl e ↦
          ground (arith, find-none-any (listed deployment org user db) db.memberships e, all_listed)
      | inr (m, e) ↦ listed_row deployment org user db m e
    ]
  where
    all_listed : any (listed deployment org user db) db.memberships ≡ true
    all_listed =
        sym (any-select _ _ db.memberships)
        ∙ (sym (any-collect (λ r. r.user_id == user) _ _)
            ∙ (sym (any-sort_by (λ r. r.user_id == user) _ _) ∙ h))
