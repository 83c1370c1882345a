-- ===== src/Tests/Entitlements.antt =====
-- Subscription plans on the fixture.
use nexus_control.Base.{
  pos, ◌≡◌, refl, true, some, [], ◌∷◌, Text, text, dec_text, any, find, update, ◌&&◌, select,
  sort_by, insert_by,
}
use nexus_control.Schema.{Db, Plan, plan_active}
use nexus_control.Tx.{ok, transaction}
use nexus_control.Store.Events.{append_event, append_identity_invalidation}
use nexus_control.Store.Principals.{active_member}
use nexus_control.Store.Accounts.{lock_deployment}
use nexus_control.Store.Plans.{
  free, plan_of, plan_key_of, upsert_plan, upsert_subscription_plan_row, entitlement_users,
  append_entitlement_events, upsert_plan_body, upsert_subscription_plan,
}
use nexus_control.Store.Entitlements.{
  EntitlementRecord, effective_entitlement, plan_is_active, upsert_entitlement,
  set_entitlement_body, set_member_entitlement,
}
use nexus_control.Store.EntitlementLaws.{
  announces, set_member_entitlement-effective, upsert_subscription_plan-announces,
}
use nexus_control.Tests.Fixtures.{bob, dep, office}

abbrev plan : Text → Plan
plan key = record {
  deployment_id = dep;
  plan_key = key;
  display_name = key;
  status = plan_active;
  monthly_token_limit = some 100;
  notes = [];
  sort_order = pos 10;
  created_at = 1;
  updated_at = 1;
}

abbrev pro : Text
pro = text "pro"

abbrev shop : Db
shop = record office { plans = plan free ∷ plan pro ∷ [] }

abbrev assigned : Db
assigned = (set_member_entitlement dep bob pro 10 shop).1

bob_subscribes : set_member_entitlement dep bob pro 10 shop ≡ (ok tt, assigned)
unfolding set_member_entitlement transaction set_entitlement_body lock_deployment plan_key_of
    append_identity_invalidation append_event upsert_entitlement any find update dec_text
bob_subscribes = refl

set_member_entitlement-effective_example :
    ((r : EntitlementRecord) × (effective_entitlement dep bob assigned ≡ some r)
      × (r.plan_key ≡ pro))
    × any (λ p. plan_of dep pro p && plan_is_active p.status) assigned.plans ≡ true
set_member_entitlement-effective_example =
    set_member_entitlement-effective dep bob pro 10 shop assigned bob_subscribes

abbrev repriced : Db
repriced = (upsert_subscription_plan (plan free) 20 shop).1

free_changes : upsert_subscription_plan (plan free) 20 shop ≡ (ok tt, repriced)
unfolding upsert_subscription_plan transaction upsert_plan_body lock_deployment
    upsert_subscription_plan_row upsert_plan entitlement_users append_entitlement_events plan_key_of
    append_identity_invalidation append_event any find update select sort_by insert_by dec_text
free_changes = refl

bob_works : active_member dep bob shop ≡ true
unfolding active_member any dec_text
bob_works = refl

bob_default_plan : plan_key_of dep bob shop ≡ free
unfolding plan_key_of find
bob_default_plan = refl

upsert_subscription_plan-announces_example : any (announces dep 1 bob) repriced.invalidations ≡ true
upsert_subscription_plan-announces_example =
    upsert_subscription_plan-announces (plan free) 20 shop repriced bob free_changes bob_works
      bob_default_plan
