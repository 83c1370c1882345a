-- ===== src/Store/Plans.antt =====
-- The subscription plans of internal/storage/auth/entitlement.go.
use nexus_control.Base.{
  ℕ, Bool, ◌&&◌, Option, none, some, List, [], ◌∷◌, ◌++◌, Text, text, eqb, ◌==◌, any, find, select,
  update, sort_by, leb_text, pos, same_int, leb_int, if◌then◌else◌,
}
use nexus_control.Schema.{
  Db, DeploymentMembership, Plan, plan_active, MemberEntitlement, entitlement_changed, is_current,
}
use nexus_control.Tx.{Tx, Result, pure, read, write, require, transaction, constraint, ◌>>=◌, ◌>>◌}
use nexus_control.Store.Events.{append_identity_invalidation}
use nexus_control.Store.Accounts.{lock_deployment}

abbrev pub free : Text
free = text "free"

abbrev pub plan_of : Text → Text → Plan → Bool
plan_of deployment key p = p.deployment_id == deployment && p.plan_key == key

abbrev pub entitlement_of : Text → Text → MemberEntitlement → Bool
entitlement_of deployment user e = e.deployment_id == deployment && e.user_id == user

-- COALESCE(e.plan_key, 'free').
abbrev pub key_or_free : Option MemberEntitlement → Text
key_or_free none = free
key_or_free (some e) = e.plan_key

-- The plan of a member: LEFT JOIN member_entitlements.
unfoldable pub plan_key_of : Text → Text → Db → Text
plan_key_of deployment user db = key_or_free (find (entitlement_of deployment user) db.entitlements)

-- ORDER BY sort_order ASC, plan_key ASC.
abbrev by_order : Plan → Plan → Bool
by_order p q =
    if same_int p.sort_order q.sort_order
    then leb_text p.plan_key q.plan_key
    else leb_int p.sort_order q.sort_order

-- `ListSubscriptionPlans`
unfoldable pub list_subscription_plans : Text → Db → List Plan
list_subscription_plans deployment db =
    sort_by by_order (select (λ p. p.deployment_id == deployment) db.plans)

abbrev pub excluded_plan : Plan → Plan → Plan
excluded_plan r p = record p {
  display_name = r.display_name;
  status = r.status;
  monthly_token_limit = r.monthly_token_limit;
  notes = r.notes;
  sort_order = r.sort_order;
  updated_at = r.updated_at;
}

-- INSERT … ON CONFLICT(deployment_id, plan_key) DO UPDATE.
unfoldable pub upsert_plan : Plan → List Plan → List Plan
upsert_plan r ps =
    if any (plan_of r.deployment_id r.plan_key) ps
    then update (plan_of r.deployment_id r.plan_key) (excluded_plan r) ps
    else ps ++ r ∷ []

-- `entitlementUsers`, with the rows for their users.
unfoldable pub entitlement_users : Text → Text → Db → List DeploymentMembership
entitlement_users deployment key db =
    sort_by (λ m n. leb_text m.user_id n.user_id)
      (select
        (λ m.
          m.deployment_id == deployment
          && (is_current m.status && plan_key_of m.deployment_id m.user_id db == key))
        db.memberships)

module _ {R : Type 0} where
  -- `upsertSubscriptionPlan`
  unfoldable pub upsert_subscription_plan_row : Plan → Tx R (Unit {0})
  upsert_subscription_plan_row r = do
    known ← read λ db. any (λ d. d.deployment_id == r.deployment_id) db.deployments
    require known constraint
    write λ db. record db { plans = upsert_plan r db.plans }

  -- The loop over the users of a plan.
  unfoldable pub append_entitlement_events : List DeploymentMembership → Text → ℕ → Tx R (Unit {0})
  append_entitlement_events [] deployment now = pure tt
  append_entitlement_events (m ∷ ms) deployment now = do
    append_identity_invalidation deployment m.user_id [] entitlement_changed now
    append_entitlement_events ms deployment now

  -- `insertDefaultSubscriptionPlans`
  unfoldable pub insert_default_plans : Text → ℕ → Tx R (Unit {0})
  insert_default_plans deployment now = do
    upsert_subscription_plan_row (record {
      deployment_id = deployment;
      plan_key = free;
      display_name = text "Free";
      status = plan_active;
      monthly_token_limit = some 200000;
      notes = text "默认免费额度";
      sort_order = pos 10;
      created_at = now;
      updated_at = now;
    })
    upsert_subscription_plan_row (record {
      deployment_id = deployment;
      plan_key = text "admin";
      display_name = text "Admin";
      status = plan_active;
      monthly_token_limit = none;
      notes = text "无限额度管理套餐";
      sort_order = pos 90;
      created_at = now;
      updated_at = now;
    })

-- The record with its instants: a zero time, here 0, is replaced.
abbrev pub stamped : Plan → ℕ → Plan
stamped r now = record r {
  created_at = if eqb r.created_at 0 then now else r.created_at;
  updated_at = now;
}

unfoldable pub upsert_plan_body : Plan → ℕ → Tx (Unit {0}) (Unit {0})
upsert_plan_body r now = do
  lock_deployment r.deployment_id
  upsert_subscription_plan_row (stamped r now)
  users ← read (entitlement_users r.deployment_id r.plan_key)
  append_entitlement_events users r.deployment_id now

-- `UpsertSubscriptionPlan`
unfoldable pub upsert_subscription_plan : Plan → ℕ → Db → Result (Unit {0}) × Db
upsert_subscription_plan r now = transaction (upsert_plan_body r now)
