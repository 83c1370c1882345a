-- ===== src/Store/SubscriptionAccounts.antt =====
-- `ListSubscriptionAccounts` of internal/storage/auth/entitlement.go.
use nexus_control.Base.{
  ℕ, Bool, Option, none, some, List, Text, leb, leb_text, eqb, ◌==◌, find, select, sort_by,
  if◌then◌else◌,
}
use nexus_control.Schema.{
  Db, Role, MembershipStatus, User, DeploymentMembership, MemberEntitlement, Plan,
}
use nexus_control.Store.Resolution.{or_empty}
use nexus_control.Store.Plans.{plan_of, plan_key_of, entitlement_of}
use nexus_control.Store.Entitlements.{later_of}
use nexus_control.Store.Listings.{collect}

-- `SubscriptionAccountRecord`
pub record SubscriptionAccountRecord : Type 0 where
  pub deployment_id : Text
  pub user_id : Text
  pub username : Text
  pub display_name : Text
  pub role : Role
  pub membership_status : MembershipStatus
  pub avatar : Text
  pub last_login_at : Option ℕ
  pub created_at : ℕ
  pub updated_at : ℕ
  pub plan_key : Text
  pub plan_name : Text
  pub monthly_token_limit : Option ℕ
  pub entitlement_updated_at : ℕ

-- The row of a member: JOIN users, JOIN subscription_plans, LEFT JOIN member_entitlements.
unfoldable pub account_row :
    DeploymentMembership
    → Option User
    → Option Plan
    → Option MemberEntitlement
    → Option SubscriptionAccountRecord
account_row m (some u) (some p) e = some (record {
  deployment_id = m.deployment_id;
  user_id = u.user_id;
  username = u.username;
  display_name = u.display_name;
  role = m.role;
  membership_status = m.status;
  avatar = or_empty u.avatar;
  last_login_at = u.last_login_at;
  created_at = u.created_at;
  updated_at = u.updated_at;
  plan_key = p.plan_key;
  plan_name = p.display_name;
  monthly_token_limit = p.monthly_token_limit;
  entitlement_updated_at = later_of p.updated_at e;
})
account_row m (some u) none e = none
account_row m none p e = none

-- ORDER BY u.created_at ASC, u.user_id ASC.
abbrev by_creation : SubscriptionAccountRecord → SubscriptionAccountRecord → Bool
by_creation a b =
    if eqb a.created_at b.created_at
    then leb_text a.user_id b.user_id
    else leb a.created_at b.created_at

-- `ListSubscriptionAccounts`
unfoldable pub list_subscription_accounts : Text → Db → List SubscriptionAccountRecord
unfolding account_row
list_subscription_accounts deployment db = sort_by by_creation (
    collect
      (λ m.
        account_row m (find (λ u. u.user_id == m.user_id) db.users)
          (find (plan_of deployment (plan_key_of deployment m.user_id db)) db.plans)
          (find (entitlement_of deployment m.user_id) db.entitlements))
      (select (λ m. m.deployment_id == deployment) db.memberships))
