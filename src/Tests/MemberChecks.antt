-- ===== src/Tests/MemberChecks.antt =====
-- A list of agents with a repetition, and a plan in the form that a client sends.
use nexus_control.Base.{
  dec_text, ◌≡◌, ◌==◌, refl, some, [], ◌∷◌, List, Text, text, count, any, if◌then◌else◌, ◌&&◌, ◌||◌,
  not, ltb, length, pos,
}
use nexus_control.Service.Agents.{distinct_ids}
use nexus_control.Service.Entitlements.{
  PlanInput, SubscriptionPlan, normalize_subscription_plan, is_plan_key, plan_status_of, limit_of,
}
use nexus_control.Service.MemberChecks.{
  verify_organization_members-done, distinct_ids_lem, is_done, accepted_by,
}
use nexus_control.Service.PlanLaws.{IsPlan, input_of, normalize_subscription_plan_idem}
use nexus_control.Strings.{trim_space, trim_left, trim_right, keep_before, is_space, is_empty, len}
use nexus_control.Store.Listings.{list_active_members}
use nexus_control.Service.Act.{met}
use nexus_control.Tests.Fixtures.{dep, org}
use nexus_control.Service.Members.{verify_organization_members}
use nexus_control.Tests.Surroundings.{alone, at_office}
use nexus_control.Schema.{plan_active}

abbrev wanted : List Text
wanted = text "b" ∷ text " a " ∷ text "b " ∷ []

distinct_wanted : distinct_ids [] wanted ≡ some (text "b" ∷ text "a" ∷ [])
unfolding distinct_ids any trim_space trim_left trim_right keep_before is_space is_empty len
    dec_text
distinct_wanted = refl

distinct_ids_lem_example :
    count (λ id. id == text "b") (text "b" ∷ text "a" ∷ [])
    ≡ (if any (λ id. trim_space id == text "b") wanted then 1 else 0)
distinct_ids_lem_example =
    distinct_ids_lem wanted (text "b" ∷ text "a" ∷ []) (text "b") distinct_wanted

verify_organization_members-done_example :
    is_done (verify_organization_members alone dep org (text " bob " ∷ []) at_office).0
    ≡ not (
        is_empty (trim_space dep)
        || (is_empty (trim_space org) || ltb 100 (length (text " bob " ∷ []))))
      && accepted_by
          (list_active_members (trim_space dep) (trim_space org) (met alone at_office))
          (text " bob " ∷ [])
verify_organization_members-done_example =
    verify_organization_members-done alone dep org (text " bob " ∷ []) at_office

abbrev basic : PlanInput
basic = record {
  plan_key = text " basic-1 ";
  display_name = text "Basic ";
  status = [];
  monthly_token_limit = some (pos 5000);
  notes = [];
  sort_order = pos 0;
}

abbrev basic_plan : SubscriptionPlan
basic_plan = record {
  plan_key = text "basic-1";
  display_name = text "Basic";
  status = plan_active;
  monthly_token_limit = some 5000;
  notes = [];
  sort_order = pos 100;
}

normalize_basic : normalize_subscription_plan basic ≡ some basic_plan
unfolding normalize_subscription_plan trim_space trim_left trim_right keep_before is_space is_empty
    len dec_text is_plan_key plan_status_of limit_of
normalize_basic = refl

normalize_subscription_plan_idem_example :
    IsPlan basic_plan × (normalize_subscription_plan (input_of basic_plan) ≡ some basic_plan)
normalize_subscription_plan_idem_example =
    normalize_subscription_plan_idem basic basic_plan normalize_basic
