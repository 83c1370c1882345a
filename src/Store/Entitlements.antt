-- ===== src/Store/Entitlements.antt =====
-- The entitlements of members in internal/storage/auth/entitlement.go.
use Prim.Native.Nat.{max}
use nexus_control.Base.{
  ℕ, Bool, true, false, not, Option, none, some, List, [], ◌∷◌, ◌++◌, Text, ◌==◌, any, find, update,
  if◌then◌else◌,
}
use nexus_control.Schema.{
  Db, DeploymentMembership, Plan, PlanStatus, plan_active, plan_archived, MemberEntitlement,
  entitlement_changed,
}
use nexus_control.Tx.{
  Tx, Result, not_found, plan_not_found, read, write, require, row_or, when, transaction, ◌>>=◌,
  ◌>>◌,
}
use nexus_control.Store.Events.{append_identity_invalidation}
use nexus_control.Store.Accounts.{in_deployment, lock_deployment}
use nexus_control.Store.Plans.{plan_of, entitlement_of, plan_key_of}

-- `EntitlementRecord`
pub record EntitlementRecord : Type 0 where
  pub deployment_id : Text
  pub user_id : Text
  pub plan_key : Text
  pub plan_name : Text
  pub monthly_token_limit : Option ℕ
  pub updated_at : ℕ

abbrev pub plan_is_active : PlanStatus → Bool
plan_is_active plan_active = true
plan_is_active plan_archived = false

-- The later of the two instants of `scanEntitlement`; the second may be NULL.
abbrev pub later_of : ℕ → Option MemberEntitlement → ℕ
later_of plan_updated none = plan_updated
later_of plan_updated (some e) = max plan_updated e.updated_at

-- `scanEntitlement` on the joined rows.
unfoldable pub scan_entitlement :
    Option DeploymentMembership → Option MemberEntitlement → Option Plan → Option EntitlementRecord
scan_entitlement (some m) e (some p) = some (record {
  deployment_id = m.deployment_id;
  user_id = m.user_id;
  plan_key = p.plan_key;
  plan_name = p.display_name;
  monthly_token_limit = p.monthly_token_limit;
  updated_at = later_of p.updated_at e;
})
scan_entitlement (some m) e none = none
scan_entitlement none e p = none

-- `EffectiveEntitlement`; no row is `ErrNotFound`.
unfoldable pub effective_entitlement : Text → Text → Db → Option EntitlementRecord
unfolding scan_entitlement
effective_entitlement deployment user db =
    scan_entitlement (find (in_deployment deployment user) db.memberships)
      (find (entitlement_of deployment user) db.entitlements)
      (find (plan_of deployment (plan_key_of deployment user db)) db.plans)

abbrev pub new_entitlement : Text → Text → Text → ℕ → MemberEntitlement
new_entitlement deployment user key now = record {
  deployment_id = deployment;
  user_id = user;
  plan_key = key;
  created_at = now;
  updated_at = now;
}

-- INSERT … ON CONFLICT(deployment_id, user_id) DO UPDATE.
unfoldable pub upsert_entitlement :
    Text → Text → Text → ℕ → List MemberEntitlement → List MemberEntitlement
upsert_entitlement deployment user key now es =
    if any (entitlement_of deployment user) es
    then update (entitlement_of deployment user)
        (λ e. record e { plan_key = key; updated_at = now }) es
    else es ++ new_entitlement deployment user key now ∷ []

unfoldable pub set_entitlement_body : Text → Text → Text → ℕ → Tx (Unit {0}) (Unit {0})
set_entitlement_body deployment user key now = do
  lock_deployment deployment
  found ← read λ db. find (plan_of deployment key) db.plans
  plan ← row_or found plan_not_found
  require (plan_is_active plan.status) plan_not_found
  known ← read λ db. any (in_deployment deployment user) db.memberships
  require known not_found
  current ← read (plan_key_of deployment user)
  when (not (current == key)) do
    write λ db. record db {
      entitlements = upsert_entitlement deployment user key now db.entitlements;
    }
    append_identity_invalidation deployment user [] entitlement_changed now

-- `SetMemberEntitlement`
unfoldable pub set_member_entitlement : Text → Text → Text → ℕ → Db → Result (Unit {0}) × Db
set_member_entitlement deployment user key now =
    transaction (set_entitlement_body deployment user key now)
