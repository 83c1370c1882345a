-- ===== src/Service/Entitlements.antt =====
-- internal/service/auth/entitlement.go and identity_invalidation.go: the subscription plans, what holds
-- for a member, and the feed of identity changes.
use Prim.Native.Nat.{max}
use nexus_control.Base.{
  ℕ, zero, suc, Bool, true, false, ◌&&◌, ◌||◌, not, Option, none, some, List, [], ◌∷◌, Text, text,
  ltb, leb, eqb, ◌==◌, map, ℤ, pos, is_zero, negsuc, if◌then◌else◌,
}
use nexus_control.Strings.{trim_space, is_empty, len}
use nexus_control.Schema.{
  Role, MembershipStatus, Plan, PlanStatus, plan_active, plan_archived, Invalidation, Reason,
}
use nexus_control.Tx.{StoreError, plan_not_found, not_found}
use nexus_control.Store.Plans.{free, list_subscription_plans, upsert_subscription_plan}
use nexus_control.Store.Entitlements.{set_member_entitlement, plan_is_active}
use nexus_control.Store.SubscriptionAccounts.{SubscriptionAccountRecord, list_subscription_accounts}
use nexus_control.Store.Events.{latest_identity_invalidation_id, list_identity_invalidations}
use nexus_control.Service.Validate.{is_lower_letter, is_digit, every_char}
use nexus_control.Service.Records.{Principal, manages}
use nexus_control.Service.Act.{
  Env, Act, ServiceError, err_forbidden, err_not_found, err_plan_not_found, err_request_invalid,
  internal, ◌>>=◌, ◌>>◌, pure, guard, some_or, now, ask, command,
}

-- `SubscriptionPlan`
pub record SubscriptionPlan : Type 0 where
  pub plan_key : Text
  pub display_name : Text
  pub status : PlanStatus
  pub monthly_token_limit : Option ℕ
  pub notes : Text
  pub sort_order : ℤ

-- `subscriptionPlanFromRecord`
unfoldable pub subscription_plan_from_record : Plan → SubscriptionPlan
subscription_plan_from_record p = record {
  plan_key = p.plan_key;
  display_name = p.display_name;
  status = p.status;
  monthly_token_limit = p.monthly_token_limit;
  notes = p.notes;
  sort_order = p.sort_order;
}

-- `SubscriptionAccount`
pub record SubscriptionAccount : Type 0 where
  pub user_id : Text
  pub username : Text
  pub display_name : Text
  pub role : Role
  pub user_status : MembershipStatus
  pub plan_key : Text
  pub plan_name : Text
  pub monthly_token_limit : Option ℕ
  pub avatar : Text
  pub last_login_at : Option ℕ
  pub created_at : ℕ
  pub updated_at : ℕ

-- `subscriptionAccountFromRecord`
unfoldable pub subscription_account_from_record : SubscriptionAccountRecord → SubscriptionAccount
subscription_account_from_record r = record {
  user_id = r.user_id;
  username = r.username;
  display_name = r.display_name;
  role = r.role;
  user_status = r.membership_status;
  plan_key = r.plan_key;
  plan_name = r.plan_name;
  monthly_token_limit = r.monthly_token_limit;
  avatar = r.avatar;
  last_login_at = r.last_login_at;
  created_at = r.created_at;
  updated_at = max r.updated_at r.entitlement_updated_at;
}

-- `SubscriptionOverview`
pub record SubscriptionOverview : Type 0 where
  pub plans : List SubscriptionPlan
  pub accounts : List SubscriptionAccount
  pub updated_at : ℕ

-- `UpsertSubscriptionPlanInput`
pub record PlanInput : Type 0 where
  pub plan_key : Text
  pub display_name : Text
  pub status : Text
  pub monthly_token_limit : Option ℤ
  pub notes : Text
  pub sort_order : ℤ

abbrev pub is_alphanumeric : ℕ → Bool
is_alphanumeric c = is_lower_letter c || (leb b'A' c && leb c b'Z' || is_digit c)

abbrev pub plan_key_char : ℕ → Bool
plan_key_char c = is_alphanumeric c || (eqb c b'_' || eqb c b'-')

-- `planKeyPattern`: a letter or a digit, and up to 63 letters, digits, `_` and `-`, all of one byte.
unfoldable pub is_plan_key : Text → Bool
unfolding every_char
is_plan_key [] = false
is_plan_key (c ∷ s) = is_alphanumeric c && (every_char plan_key_char s && leb (len s) 63)

-- A status in the input; a blank one is active.
unfoldable pub plan_status_of : Text → Option PlanStatus
plan_status_of s =
    if is_empty s || s == text "active"
    then some plan_active
    else if s == text "archived"
    then some plan_archived
    else none

-- A limit that is not negative, or no limit.
unfoldable pub limit_of : Option ℤ → Option (Option ℕ)
limit_of none = some none
limit_of (some (pos n)) = some (some n)
limit_of (some (negsuc n)) = none

abbrev pub plan_if :
    Bool → Text → Text → Option PlanStatus → Option (Option ℕ) → Text → ℤ → Option SubscriptionPlan
plan_if true key name (some status) (some limit) notes order = some (record {
  plan_key = key;
  display_name = name;
  status = status;
  monthly_token_limit = limit;
  notes = notes;
  sort_order = order;
})
plan_if _ _ _ _ _ _ _ = none

abbrev is_archived : Option PlanStatus → Bool
is_archived none = false
is_archived (some s) = not (plan_is_active s)

-- `normalizeSubscriptionPlan`: every refusal is the same error to the caller.
unfoldable pub normalize_subscription_plan : PlanInput → Option SubscriptionPlan
unfolding is_plan_key plan_status_of limit_of
normalize_subscription_plan input =
    let key = trim_space input.plan_key in
    let name = trim_space input.display_name in
    let status = plan_status_of (trim_space input.status) in
    let notes = trim_space input.notes in
    plan_if
      (is_plan_key key
        && (not (is_empty name || ltb 128 (len name))
            && (not (key == free && is_archived status) && not (ltb 4096 (len notes)))))
      key name status (limit_of input.monthly_token_limit) notes
      (if is_zero input.sort_order then pos 100 else input.sort_order)

-- The store's row for a plan; the store stamps its instants.
abbrev pub plan_row : Text → SubscriptionPlan → Plan
plan_row deployment p = record {
  deployment_id = deployment;
  plan_key = p.plan_key;
  display_name = p.display_name;
  status = p.status;
  monthly_token_limit = p.monthly_token_limit;
  notes = p.notes;
  sort_order = p.sort_order;
  created_at = 0;
  updated_at = 0;
}

abbrev pub entitlement_error : StoreError → ServiceError
entitlement_error plan_not_found = err_plan_not_found
entitlement_error not_found = err_not_found
entitlement_error e = internal e

-- `IdentityInvalidation`
pub record IdentityInvalidation : Type 0 where
  pub organization_id : Text
  pub membership_revoked : Bool
  pub event_id : ℕ
  pub deployment_id : Text
  pub user_id : Text
  pub session_id : Option Text
  pub reason : Reason
  pub created_at : ℕ

abbrev invalidation_view : Invalidation → IdentityInvalidation
invalidation_view e = record {
  organization_id = e.organization_id;
  membership_revoked = e.membership_revoked;
  event_id = e.event_id;
  deployment_id = e.deployment_id;
  user_id = e.user_id;
  session_id = e.session_id;
  reason = e.reason;
  created_at = e.created_at;
}

-- `maxIdentityInvalidationBatch`
abbrev pub max_batch : ℕ
max_batch = 256

-- A cursor below zero starts at the beginning.
unfoldable pub cursor_of : ℤ → ℕ
cursor_of (pos n) = n
cursor_of (negsuc n) = 0

-- A limit outside 1 to 256 is 256.
unfoldable pub batch_of : ℤ → ℕ
batch_of (pos zero) = max_batch
batch_of (pos (suc n)) = if ltb max_batch (suc n) then max_batch else suc n
batch_of (negsuc n) = max_batch

module _ (env : Env) where
  -- `Service.SubscriptionOverview`
  unfoldable pub subscription_overview : Principal → Act SubscriptionOverview
  subscription_overview actor = do
    guard (manages actor.role) err_forbidden
    plans ← ask env (list_subscription_plans actor.deployment_id)
    accounts ← ask env (list_subscription_accounts actor.deployment_id)
    t ← now env
    pure (record {
      plans = map subscription_plan_from_record plans;
      accounts = map subscription_account_from_record accounts;
      updated_at = t;
    })

  -- `Service.UpsertSubscriptionPlan`
  unfoldable pub save_plan : Principal → PlanInput → Act SubscriptionOverview
  save_plan actor input = do
    guard (manages actor.role) err_forbidden
    p ← some_or (normalize_subscription_plan input) err_request_invalid
    t ← now env
    command env (upsert_subscription_plan (plan_row actor.deployment_id p) t) internal
    subscription_overview actor

  -- `UpdateMemberEntitlement`
  unfoldable pub assign_plan : Principal → Text → Text → Act SubscriptionOverview
  assign_plan actor id plan = do
    guard (manages actor.role) err_forbidden
    let user = trim_space id
    let key = trim_space plan
    guard (not (is_empty user) && is_plan_key key) err_request_invalid
    t ← now env
    command env (set_member_entitlement actor.deployment_id user key t) entitlement_error
    subscription_overview actor

  -- `Service.LatestIdentityInvalidationID`
  unfoldable pub latest_invalidation : Act ℕ
  latest_invalidation = ask env latest_identity_invalidation_id

  -- `Service.ListIdentityInvalidations`
  unfoldable pub invalidations_after : ℤ → ℤ → Act (List IdentityInvalidation)
  invalidations_after after limit = do
    records ← ask env (list_identity_invalidations (cursor_of after) (batch_of limit))
    pure (map invalidation_view records)
