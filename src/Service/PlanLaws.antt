-- ===== src/Service/PlanLaws.antt =====
-- The normalization of a subscription plan.
use nexus_control.Base.{
  ℕ, ◌≤◌, ◌≡◌, refl, sym, ap, ◌∙◌, Bool, true, false, Option, none, some, Text, text, arith, ℤ,
  is_zero, pos, dec_text, inl, inr, Bool-cases, if◌then◌else◌,
}
use nexus_control.Strings.{
  trim_space, trim_space_idem, is_empty, len, trim_left, trim_right, keep_before, is_space,
}
use nexus_control.Schema.{PlanStatus, plan_active, plan_archived}
use nexus_control.Store.Plans.{free}
use nexus_control.Service.Entitlements.{
  SubscriptionPlan, PlanInput, is_plan_key, plan_status_of, limit_of, plan_if,
  normalize_subscription_plan,
}

abbrev status_text : PlanStatus → Text
status_text plan_active = text "active"
status_text plan_archived = text "archived"

abbrev limit_input : Option ℕ → Option ℤ
limit_input none = none
limit_input (some n) = some (pos n)

-- An accepted plan as an input.
abbrev pub input_of : SubscriptionPlan → PlanInput
input_of p = record {
  plan_key = p.plan_key;
  display_name = p.display_name;
  status = status_text p.status;
  monthly_token_limit = limit_input p.monthly_token_limit;
  notes = p.notes;
  sort_order = p.sort_order;
}

-- What holds of an accepted plan.
pub record IsPlan (p : SubscriptionPlan) : Type 0 where
  pub key : is_plan_key p.plan_key ≡ true
  pub named : is_empty p.display_name ≡ false
  pub short : len p.display_name ≤ 128
  pub noted : len p.notes ≤ 4096
  pub ordered : is_zero p.sort_order ≡ false
  pub free_is_active : p.plan_key ≡ free → p.status ≡ plan_active

plan_if-some :
    (b : Bool) (key name : Text) (status : Option PlanStatus) (limit : Option (Option ℕ))
    (notes : Text) (order : ℤ) (p : SubscriptionPlan)
    → plan_if b key name status limit notes order ≡ some p
    → (b ≡ true)
      × (status ≡ some p.status)
      × (limit ≡ some p.monthly_token_limit)
      × (p.plan_key ≡ key)
      × (p.display_name ≡ name)
      × (p.notes ≡ notes)
      × (p.sort_order ≡ order)
plan_if-some true key name (some s) (some l) notes order p e = (
  refl,
  ground (arith, e),
  ground (arith, e),
  ground (arith, e),
  ground (arith, e),
  ground (arith, e),
  ground (arith, e),
)
plan_if-some true key name (some s) none notes order p e = cc
plan_if-some true key name none limit notes order p e = cc
plan_if-some false key name status limit notes order p e = cc

status_read : (s : PlanStatus) → plan_status_of (trim_space (status_text s)) ≡ some s
unfolding plan_status_of trim_space trim_left trim_right keep_before is_space is_empty dec_text
status_read plan_active = refl
status_read plan_archived = refl

limit_read : (l : Option ℕ) → limit_of (limit_input l) ≡ some l
unfolding limit_of
limit_read none = refl
limit_read (some n) = refl

plan_if-of :
    (p : SubscriptionPlan) (b : Bool) (key name : Text) (status : Option PlanStatus)
    (limit : Option (Option ℕ)) (notes : Text) (order : ℤ)
    → b ≡ true
    → key ≡ p.plan_key
    → name ≡ p.display_name
    → status ≡ some p.status
    → limit ≡ some p.monthly_token_limit
    → notes ≡ p.notes
    → order ≡ p.sort_order
    → plan_if b key name status limit notes order ≡ some p
plan_if-of p b key name status limit notes order t k n s l no_notes o = cc

trimmed : (s t : Text) → s ≡ trim_space t → trim_space s ≡ s
trimmed s t e = ap trim_space e ∙ trim_space_idem t ∙ sym e

abbrev order_or_default : ℤ → ℤ
order_or_default z = if is_zero z then pos 100 else z

ordered_lem : (z n : ℤ) → n ≡ order_or_default z → is_zero n ≡ false
ordered_lem z n e = elim (Bool-cases (is_zero z)) [
  | inl f ↦ ground (arith, e, f)
  | inr f ↦ ground (arith, e, f)
]

order_again : (z n : ℤ) → n ≡ order_or_default z → n ≡ order_or_default n
order_again z n e = ground (arith, ordered_lem z n e)

-- A plan that is accepted has a valid key, a name of 1 to 128 bytes, notes of at most 4096 bytes and a
-- sort order other than 0, the free plan is active, and the plan is accepted again as it is.
pub normalize_subscription_plan_idem :
    (input : PlanInput) (p : SubscriptionPlan)
    → normalize_subscription_plan input ≡ some p
    → IsPlan p × (normalize_subscription_plan (input_of p) ≡ some p)
unfolding normalize_subscription_plan
normalize_subscription_plan_idem input p e =
    let (test, status, limit, key, name, notes, order) = plan_if-some _ _ _ _ _ _ _ p e in
    (
      record {
        key = ground (arith, test, key);
        named = ground (arith, test, name);
        short = ground (arith, test, name);
        noted = ground (arith, test, notes);
        ordered = ordered_lem input.sort_order p.sort_order order;
        free_is_active = λ f. ground (arith, test, key, f, status);
      },
      plan_if-of p _ _ _ _ _ _ _
          (ground (
            arith,
            test,
            key,
            name,
            notes,
            status,
            trimmed _ _ key,
            trimmed _ _ name,
            trimmed _ _ notes,
            status_read p.status,
          ))
          (trimmed _ _ key) (trimmed _ _ name) (status_read p.status)
          (limit_read p.monthly_token_limit) (trimmed _ _ notes)
          (sym (order_again input.sort_order p.sort_order order)),
    )
