-- ===== src/Store/Owners.antt =====
-- Who owns an organization: the unique indexes of organization_memberships, and what the commands
-- of internal/storage/auth/organization.go add to them.
use nexus_control.Base.{
  ℕ, ◌≤◌, ◌<◌, ◌≡◌, refl, ◌≢◌, inl, inr, Bool, true, false, ◌&&◌, List, [], Text, dec_text, ◌==◌,
  any, count, update, Bool-cases, arith, any_none, any_mono, any-append_row, any-update_keep,
  any-update_hit, count-update_le, count-append_miss,
}
use nexus_control.Schema.{Db, Role, role_owner, Organization, OrganizationMembership, is_active}
use nexus_control.Tx.{Post, goes_on, transaction, Post-write, Post-read, Post-require}
use nexus_control.Store.Events.{append_event, append_organization_invalidation}
use nexus_control.Store.Memberships.{
  membership_of, current_of, owner_of, memberships_ok, upsert_membership, rejoin, with_role,
  revoke_membership, write_memberships, join_organization, set_role, revoke_organization_member,
}

abbrev pub active_id : Text → Organization → Bool
active_id org o = o.organization_id == org && is_active o.status

-- A user is in one organization at a time, an organization has at most one active owner, and an
-- active organization has one. No identifier is empty, which the code takes for no organization.
pub record IsGoverned (db : Db) : Type 0 where
  pub one_current : (user : Text) → count (current_of user) db.organization_memberships < 2
  pub one_owner : (org : Text) → count (owner_of org) db.organization_memberships < 2
  pub has_owner :
      (org : Text)
      → any (active_id org) db.organizations ≡ true
      → any (owner_of org) db.organization_memberships ≡ true
  -- `newID` and the migrations give every organization an identifier.
  pub named : any (λ o. o.organization_id == []) db.organizations ≡ false

-- The part that the indexes give.
pub record IsIndexed (ms : List OrganizationMembership) : Type 0 where
  pub one_current : (user : Text) → count (current_of user) ms < 2
  pub one_owner : (org : Text) → count (owner_of org) ms < 2

-- Only rows of `org` and of `user` gain an active membership.
pub record Touches (org user : Text) (ms ms' : List OrganizationMembership) : Type 0 where
  pub users : (v : Text) → v ≢ user → count (current_of v) ms' ≤ count (current_of v) ms
  pub orgs : (o : Text) → o ≢ org → count (owner_of o) ms' ≤ count (owner_of o) ms

pub memberships_ok-IsIndexed :
    (org user : Text) (ms ms' : List OrganizationMembership)
    → IsIndexed ms
    → Touches org user ms ms'
    → memberships_ok org user ms' ≡ true
    → IsIndexed ms'
unfolding memberships_ok
memberships_ok-IsIndexed org user ms ms' v t ok = record {
  one_current = λ u. elim (dec_text u user) [
    | yes e ↦ rw e (ground arith)
    | no ne ↦ omega (arith, t.users u ne, v.one_current u)
  ];
  one_owner = λ o. elim (dec_text o org) [
    | yes e ↦ rw e (ground arith)
    | no ne ↦ omega (arith, t.orgs o ne, v.one_owner o)
  ];
}

-- An update of one membership that keeps its key.
pub update-Touches :
    (org user : Text) (f : OrganizationMembership → OrganizationMembership)
    (ms : List OrganizationMembership)
    → ((m : OrganizationMembership)
        → ((f m).organization_id ≡ m.organization_id) × ((f m).user_id ≡ m.user_id))
    → Touches org user ms (update (membership_of org user) f ms)
update-Touches org user f ms key = record {
  users = λ v ne. count-update_le (current_of v) _ f ms (λ m. ground (arith, key m));
  orgs = λ o ne. count-update_le (owner_of o) _ f ms (λ m. ground (arith, key m));
}

pub upsert_membership-Touches :
    (org user : Text) (role : Role) (now : ℕ) (ms : List OrganizationMembership)
    → Touches org user ms (upsert_membership org user role now ms)
unfolding upsert_membership
upsert_membership-Touches org user role now ms =
    elim (Bool-cases (any (membership_of org user) ms)) [
      | inl old ↦ rw old (update-Touches org user _ ms (λ m. (refl, refl)))
      | inr new ↦ rw new (record {
        users = λ v ne. count-append_miss (current_of v) ms _ (ground arith);
        orgs = λ o ne. count-append_miss (owner_of o) ms _ (ground arith);
      })
    ]

-- An organization keeps its owner where a membership that is not the owner's changes.
pub update-owner :
    (org user o : Text) (f : OrganizationMembership → OrganizationMembership)
    (ms : List OrganizationMembership)
    → (o ≡ org → any (λ m. owner_of o m && membership_of org user m) ms ≡ false)
    → any (owner_of o) ms ≡ true
    → any (owner_of o) (update (membership_of org user) f ms) ≡ true
update-owner org user o f ms h owned =
    any-update_keep (owner_of o) _ f ms
      (elim (dec_text o org) [ yes e ↦ h e | no ne ↦ any_none _ ms (λ m. ground arith) ]) owned

pub upsert_membership-owner :
    (org user o : Text) (role : Role) (now : ℕ) (ms : List OrganizationMembership)
    → (o ≡ org → any (λ m. owner_of o m && membership_of org user m) ms ≡ false)
    → any (owner_of o) ms ≡ true
    → any (owner_of o) (upsert_membership org user role now ms) ≡ true
unfolding upsert_membership
upsert_membership-owner org user o role now ms h owned =
    elim (Bool-cases (any (membership_of org user) ms)) [
      | inl old ↦ rw old (update-owner org user o (rejoin role now) ms h owned)
      | inr new ↦ rw (new, any-append_row (owner_of o) ms, owned)
    ]

pub upsert_membership-founder :
    (org user : Text) (now : ℕ) (ms : List OrganizationMembership)
    → any (owner_of org) (upsert_membership org user role_owner now ms) ≡ true
unfolding upsert_membership any
upsert_membership-founder org user now ms = elim (Bool-cases (any (membership_of org user) ms)) [
  | inl old ↦ rw old (
      any-update_hit (owner_of org) _ (λ _. true) (rejoin role_owner now) ms (λ m. ground arith)
        (any_mono _ _ ms (λ m. ground arith) old))
  | inr new ↦ rw (new, any-append_row (owner_of org) ms) (ground arith)
]

-- Writing a table that touches one membership: it goes through with the indexes intact.
pub write_memberships-Post :
    {R : Type 0} (org user : Text) (ms' : List OrganizationMembership) (db : Db)
    → IsIndexed db.organization_memberships
    → Touches org user db.organization_memberships ms'
    → Post
        (λ _ db'. (db' ≡ record db { organization_memberships = ms' }) × IsIndexed ms')
        (write_memberships {R = R} org user ms' db)
unfolding write_memberships
write_memberships-Post org user ms' db v t = Post-require (memberships_ok org user ms') _ _ db λ ok.
    Post-write _ _ (refl, memberships_ok-IsIndexed org user db.organization_memberships ms' v t ok)

-- What joining does: the indexes hold of the table that it writes.
abbrev pub Wrote : Db → List OrganizationMembership → Unit {0} → Db → Type 0
Wrote db ms _ db' = (db' ≡ record db { organization_memberships = ms }) × IsIndexed ms

pub join_organization-Post :
    {R : Type 0} (org user : Text) (role : Role) (now : ℕ) (db : Db)
    → IsIndexed db.organization_memberships
    → Post
        (Wrote db (upsert_membership org user role now db.organization_memberships))
        (join_organization {R = R} org user role now db)
unfolding join_organization
join_organization-Post org user role now db v =
    Post-read _ _ db
      (write_memberships-Post org user _ db v (upsert_membership-Touches org user role now _))

pub set_role-Post :
    {R : Type 0} (org user : Text) (role : Role) (now : ℕ) (db : Db)
    → IsIndexed db.organization_memberships
    → Post
        (Wrote db
          (update (membership_of org user) (with_role role now) db.organization_memberships))
        (set_role {R = R} org user role now db)
unfolding set_role
set_role-Post org user role now db v = Post-read _ _ db (
    write_memberships-Post org user _ db v
      (update-Touches org user (with_role role now) _ (λ m. (refl, refl))))

pub indexed : {db : Db} → IsGoverned db → IsIndexed db.organization_memberships
indexed g = record { one_current = g.one_current; one_owner = g.one_owner }

-- A revocation leaves at most as many active memberships.
pub revoke_membership-IsIndexed :
    (org user : Text) (now : ℕ) (ms : List OrganizationMembership)
    → IsIndexed ms
    → IsIndexed (update (membership_of org user) (revoke_membership now) ms)
revoke_membership-IsIndexed org user now ms v = record {
  one_current = λ u. omega (
    arith,
    v.one_current u,
    count-update_le (current_of u) (membership_of org user) (revoke_membership now) ms
        (λ m. ground arith),
  );
  one_owner = λ o. omega (
    arith,
    v.one_owner o,
    count-update_le (owner_of o) (membership_of org user) (revoke_membership now) ms
        (λ m. ground arith),
  );
}

-- What `revoke_organization_member` does to the two tables.
pub revoke_organization_member-Post :
    {R : Type 0} (deployment org user : Text) (now : ℕ) (db : Db)
    → Post
        (λ _ db'.
          (db'.organizations ≡ db.organizations)
          × (db'.organization_memberships
              ≡ update
                  (membership_of org user)
                  (revoke_membership now)
                  db.organization_memberships))
        (revoke_organization_member {R = R} deployment org user now db)
unfolding revoke_organization_member append_organization_invalidation append_event transaction
revoke_organization_member-Post deployment org user now db = goes_on (refl, refl)

-- The property is about two tables.
pub IsGoverned-frame :
    {db db' : Db}
    → db'.organizations ≡ db.organizations
    → db'.organization_memberships ≡ db.organization_memberships
    → IsGoverned db
    → IsGoverned db'
IsGoverned-frame e f g = record {
  one_current = λ u. rw f (g.one_current u);
  one_owner = λ o. rw f (g.one_owner o);
  has_owner = λ o. rw (e, f) (g.has_owner o);
  named = rw e g.named;
}
