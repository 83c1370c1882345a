-- ===== src/Store/EntitlementLaws.antt =====
-- What the entitlement operations of internal/storage/auth/entitlement.go bring about.
use nexus_control.Base.{
  ℕ, ◌≡◌, refl, ◌∙◌, ◌≤◌, inl, inr, Bool, true, false, ◌&&◌, ◌||◌, Option, some, List, [], ◌∷◌,
  Text, ◌==◌, leb, any, find, arith, Option-cases, find-update_hit, find-append_new, find-none-any,
  find-some-any, find_narrow, find_holds, any-select, any-sort_by, any-append_row, any_mono,
}
use nexus_control.Schema.{
  Db, DeploymentMembership, Plan, MemberEntitlement, Invalidation, Reason, session_revoked,
  principal_changed, profile_changed, organization_changed, entitlement_changed, is_current,
}
use nexus_control.Tx.{
  ok, Post, Post-bind, Post-weaken, Post-read, Post-check, Post-row_or, Post-require, Post-if,
  Post-then, Post-write, Post-pure, transaction-ok,
}
use nexus_control.Store.Events.{append_event, append_identity_invalidation}
use nexus_control.Store.Principals.{active_member}
use nexus_control.Store.Accounts.{in_deployment}
use nexus_control.Store.Plans.{
  plan_of, entitlement_of, key_or_free, plan_key_of, upsert_subscription_plan_row,
  entitlement_users, append_entitlement_events, upsert_plan, stamped, upsert_plan_body,
  upsert_subscription_plan,
}
use nexus_control.Store.Entitlements.{
  EntitlementRecord, scan_entitlement, effective_entitlement, plan_is_active, new_entitlement,
  upsert_entitlement, set_entitlement_body, set_member_entitlement,
}
use nexus_control.Store.Frames.{lock_deployment-Post}

upsert_entitlement-key :
    (deployment user key : Text) (now : ℕ) (es : List MemberEntitlement)
    → key_or_free
        (find (entitlement_of deployment user) (upsert_entitlement deployment user key now es))
      ≡ key
unfolding upsert_entitlement
upsert_entitlement-key deployment user key now es =
    elim (Option-cases (find (entitlement_of deployment user) es)) [
      | inl e ↦ rw (find-none-any (entitlement_of deployment user) es e) (
          rw
            (find-append_new (entitlement_of deployment user) es
              (new_entitlement deployment user key now)
              (find-none-any (entitlement_of deployment user) es e) (ground arith))
            refl)
      | inr (m, e) ↦ rw (find-some-any (entitlement_of deployment user) es m e) (
          rw
            (find-update_hit (entitlement_of deployment user)
              (λ x. record x { plan_key = key; updated_at = now }) es m (λ x h. h) e)
            refl)
    ]

-- What an assignment that succeeds has checked and done.
abbrev Assigned : Text → Text → Text → Db → Db → Type 0
Assigned deployment user key db d =
    ((p : Plan) × (find (plan_of deployment key) d.plans ≡ some p)
      × (plan_is_active p.status ≡ true))
    × (any (in_deployment deployment user) d.memberships ≡ true)
    × (plan_key_of deployment user d ≡ key)

set_body-Post :
    (deployment user key : Text) (now : ℕ) (db : Db)
    → Post
        (λ _ d. Assigned deployment user key db d)
        (set_entitlement_body deployment user key now db)
unfolding set_entitlement_body append_identity_invalidation append_event plan_key_of
set_body-Post deployment user key now db = Post-check _ _ db (lock_deployment-Post _ db) λ locked.
    Post-read _ _ db (
      Post-row_or _ _ _ db λ plan found. Post-require _ _ _ db λ live. Post-read _ _ db (
        Post-require _ _ _ db λ known. Post-read _ _ db (
          Post-if _ _ db (λ same. ((plan, found, live), known, ground (arith, same)))
            λ differ. Post-then _ _ db (
              Post-write _ _ (
                (plan, found, live),
                known,
                upsert_entitlement-key deployment user key now db.entitlements,
              )))))

effective_row :
    (deployment user key : Text) (d : Db) (p : Plan)
    → any (in_deployment deployment user) d.memberships ≡ true
    → plan_key_of deployment user d ≡ key
    → find (plan_of deployment key) d.plans ≡ some p
    → (r : EntitlementRecord) × (effective_entitlement deployment user d ≡ some r)
      × (r.plan_key ≡ key)
unfolding effective_entitlement scan_entitlement
effective_row deployment user key d p known at found =
    elim (Option-cases (find (in_deployment deployment user) d.memberships)) [
      | inl e ↦ ground (arith, find-none-any (in_deployment deployment user) d.memberships e, known)
      | inr (m, e) ↦
          let (r, run, same) = scan m (find (entitlement_of deployment user) d.entitlements) in
          (
            r,
            rw (at, e, found) run,
            same ∙ ground (arith, find_holds (plan_of deployment key) d.plans p found),
          )
    ]
  where
    scan :
        (m : DeploymentMembership) (e : Option MemberEntitlement)
        → (r : EntitlementRecord) × (scan_entitlement (some m) e (some p) ≡ some r)
          × (r.plan_key ≡ p.plan_key)
    scan m e = (_, refl, refl)

-- Where an assignment succeeds, the plan that holds for the member is the one assigned, and it is an
-- active plan of the deployment.
pub set_member_entitlement-effective :
    (deployment user key : Text) (now : ℕ) (db db' : Db)
    → set_member_entitlement deployment user key now db ≡ (ok tt, db')
    → ((r : EntitlementRecord) × (effective_entitlement deployment user db' ≡ some r)
        × (r.plan_key ≡ key))
      × any (λ p. plan_of deployment key p && plan_is_active p.status) db'.plans ≡ true
unfolding set_member_entitlement
set_member_entitlement-effective deployment user key now db db' run =
    let ((p, found, live), known, at) =
      transaction-ok (λ _ d. Assigned deployment user key db d)
        (set_entitlement_body deployment user key now) db db' tt
        (set_body-Post deployment user key now db) run in
    (
      effective_row deployment user key db' p known at found,
      find-some-any (λ x. plan_of deployment key x && plan_is_active x.status) db'.plans p
          (find_narrow (plan_of deployment key) (λ x. plan_is_active x.status) db'.plans p found
            live),
    )

-- Whether an event says that an entitlement has changed.
abbrev pub is_entitlement_change : Reason → Bool
is_entitlement_change entitlement_changed = true
is_entitlement_change session_revoked = false
is_entitlement_change principal_changed = false
is_entitlement_change profile_changed = false
is_entitlement_change organization_changed = false

-- An event, numbered `from` or later, that the entitlement of `user` has changed.
abbrev pub announces : Text → ℕ → Text → Invalidation → Bool
announces deployment from user e =
    e.deployment_id == deployment
    && (e.user_id == user && (leb from e.event_id && is_entitlement_change e.reason))

append_entitlement_events-Post :
    {R : Type 0} (ms : List DeploymentMembership) (deployment : Text) (now from : ℕ) (db : Db)
    → from ≤ db.next_event_id
    → Post
        (λ _ d.
          (user : Text)
          → (any (λ m. m.user_id == user) ms
              || any (announces deployment from user) db.invalidations)
            ≡ true
          → any (announces deployment from user) d.invalidations ≡ true)
        (append_entitlement_events {R = R} ms deployment now db)
unfolding append_entitlement_events any append_identity_invalidation append_event
append_entitlement_events-Post [] deployment now from db le = Post-pure tt db λ user h. h
append_entitlement_events-Post (m ∷ ms) deployment now from db le = Post-then _ _ db (
    Post-weaken (append_entitlement_events-Post ms deployment now from _ (omega (arith, le)))
      λ _ d k user h. k user (
        rw (any-append_row (announces deployment from user) db.invalidations)
          (ground (arith, le, h))))

upsert_body-Post :
    (r : Plan) (now : ℕ) (db : Db)
    → Post
        (λ _ d.
          (user : Text)
          → any (λ m. m.user_id == user) (entitlement_users r.deployment_id r.plan_key db) ≡ true
          → any (announces r.deployment_id db.next_event_id user) d.invalidations ≡ true)
        (upsert_plan_body r now db)
unfolding upsert_plan_body upsert_subscription_plan_row entitlement_users plan_key_of
upsert_body-Post r now db = Post-check _ _ db (lock_deployment-Post _ db) λ locked.
    Post-bind (λ _ d. d ≡ record db { plans = upsert_plan (stamped r now) db.plans }) _ _ db
      (Post-read _ _ db (Post-require _ _ _ db λ known. Post-write _ db refl))
      λ _ d same. Post-read _ _ d (
        Post-weaken
          (append_entitlement_events-Post _ r.deployment_id now db.next_event_id d
            (rw same (omega arith)))
          λ _ e k user h. k user (rw (same_users d same user) (ground (arith, h))))
  where
    same_users :
        (d : Db)
        → d ≡ record db { plans = upsert_plan (stamped r now) db.plans }
        → (user : Text)
        → any (λ m. m.user_id == user) (entitlement_users r.deployment_id r.plan_key d)
          ≡ any (λ m. m.user_id == user) (entitlement_users r.deployment_id r.plan_key db)
    same_users d same user = rw same refl

entitlement_users-active :
    (deployment user key : Text) (db : Db)
    → active_member deployment user db ≡ true
    → plan_key_of deployment user db ≡ key
    → any (λ m. m.user_id == user) (entitlement_users deployment key db) ≡ true
unfolding active_member entitlement_users
entitlement_users-active deployment user key db live at =
    any-sort_by (λ m. m.user_id == user) _ _
    ∙ (any-select (λ m. m.user_id == user) _ db.memberships
        ∙ any_mono
            (λ m. m.deployment_id == deployment && (m.user_id == user && is_current m.status)) _
            db.memberships (λ m. ground (arith, at)) live)

-- Where a change of a plan succeeds, every active member that the plan holds for, by assignment or
-- as the default, gets a new event that says so.
pub upsert_subscription_plan-announces :
    (r : Plan) (now : ℕ) (db db' : Db) (user : Text)
    → upsert_subscription_plan r now db ≡ (ok tt, db')
    → active_member r.deployment_id user db ≡ true
    → plan_key_of r.deployment_id user db ≡ r.plan_key
    → any (announces r.deployment_id db.next_event_id user) db'.invalidations ≡ true
unfolding upsert_subscription_plan
upsert_subscription_plan-announces r now db db' user run live at =
    transaction-ok
      (λ _ d.
        (u : Text)
        → any (λ m. m.user_id == u) (entitlement_users r.deployment_id r.plan_key db) ≡ true
        → any (announces r.deployment_id db.next_event_id u) d.invalidations ≡ true)
      (upsert_plan_body r now) db db' tt (upsert_body-Post r now db) run user
      (entitlement_users-active r.deployment_id user r.plan_key db live at)
