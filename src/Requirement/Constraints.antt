-- ===== src/Requirement/Constraints.antt =====
-- The constraints of a requirement graph and its approval intents.
use eoduksini.Base.Sort.{sort_by}
use eoduksini.Requirement.Facts.{normalize_string_set, code_points_le}
use eoduksini.Base.Result.{◌>>=◌, ok, ◌>>◌, err, check, traverse}
use eoduksini.Requirement.Check.{
  Checked, require_array, get, assert_closed_object, not_an_object, invalid_target_kind,
  require_identifier, max_short_text, require_choice, max_facts, invalid_stage, max_nodes,
  invalid_billing_period, require_text, invalid_effect, missing_node, currency_mismatch,
  max_long_text, too_many_items, require_non_negative, period_mismatch, currency_required,
  require_positive, duplicate_intent, age_too_large, require_boolean,
}
use eoduksini.Base.Json.{Value, obj, str}
use eoduksini.Requirement.Nodes.{Node, ids}
use eoduksini.Base.{
  ℕ, String, Bool, true, false, not, ◌||◌, Option, none, some, List, [], ◌∷◌, map, leb, length,
  distinct, str_eq, if◌then◌else◌, includes,
}

abbrev pub billing_periods : List String
billing_periods = "one-time" ∷ "monthly" ∷ []

abbrev pub constraint_fields : List String
constraint_fields =
    "allowedLicenses" ∷ "deniedPermissions" ∷ "maximumTotalCostMicros" ∷ "costCurrency"
    ∷ "billingPeriod" ∷ "pricingMaxAgeDays" ∷ "requireKnownCost" ∷ []

pub record Constraints : Type 0 where
  pub allowed_licenses : List String
  pub denied_permissions : List String
  pub maximum_total_cost_micros : Option ℕ
  pub cost_currency : Option String
  pub billing_period : String
  pub pricing_max_age_days : ℕ
  pub require_known_cost : Bool

-- A property that may be missing.
abbrev pub when_given :
    {A : Type 0} → (Option Value → Checked A) → Option Value → Checked (Option A)
when_given f none = ok none
when_given f (some v) = f (some v) >>= λ a. ok (some a)

is_given : {A : Type 0} → Option A → Bool
is_given none = false
is_given (some _) = true

unfoldable pub normalize_constraints : Option Value → Checked Constraints
unfolding is_given
normalize_constraints none = err not_an_object
normalize_constraints (some v) = do
  assert_closed_object constraint_fields v
  licenses ← normalize_string_set max_facts (get "allowedLicenses" v)
  permissions ← normalize_string_set max_facts (get "deniedPermissions" v)
  maximum ← when_given require_non_negative (get "maximumTotalCostMicros" v)
  currency ← when_given (require_identifier 16) (get "costCurrency" v)
  check (not (is_given maximum) || is_given currency) currency_required
  period ← require_choice billing_periods invalid_billing_period (get "billingPeriod" v)
  days ← require_positive (get "pricingMaxAgeDays" v)
  check (leb days 3650) age_too_large
  known ← require_boolean (get "requireKnownCost" v)
  ok (record {
    allowed_licenses = licenses;
    denied_permissions = permissions;
    maximum_total_cost_micros = maximum;
    cost_currency = currency;
    billing_period = period;
    pricing_max_age_days = days;
    require_known_cost = known;
  })

abbrev pub permission_effects : List String
permission_effects =
    "fs-read" ∷ "fs-write" ∷ "network-egress" ∷ "process-execute" ∷ "secret-use" ∷ "host-activate"
    ∷ []

abbrev pub approval_stages : List String
approval_stages = "planning" ∷ "execution" ∷ "promotion" ∷ []

pub data Target : Type 0 where
  rule_waiver : (node_id rule_id : String) → Target
  cost : (currency billing_period : String) → (threshold_micros : ℕ) → Target
  permission : (node_id effect selector : String) → Target
  data_sharing : (node_id data_class destination : String) → Target
  production : (node_id : String) → Target

pub record Intent : Type 0 where
  pub id : String
  pub target : Target
  pub required_before : String
  pub reason : String

unfoldable pub assert_node_target : List String → Option Value → Checked String
assert_node_target nodes v = do
  id ← require_identifier max_short_text v
  check (includes nodes id) missing_node
  ok id

waiver_of : List String → Value → Checked Target
waiver_of nodes v = do
  assert_closed_object ("kind" ∷ "requirementNodeId" ∷ "ruleId" ∷ []) v
  id ← assert_node_target nodes (get "requirementNodeId" v)
  rule ← require_identifier max_short_text (get "ruleId" v)
  ok (rule_waiver id rule)

-- The currency of the graph, if it has one, is the currency of the approval.
same_currency : Option String → String → Bool
same_currency none currency = true
same_currency (some c) currency = str_eq currency c

cost_of : Constraints → Value → Checked Target
unfolding same_currency
cost_of c v = do
  assert_closed_object ("kind" ∷ "currency" ∷ "billingPeriod" ∷ "thresholdMicros" ∷ []) v
  currency ← require_identifier 16 (get "currency" v)
  period ← require_choice billing_periods invalid_billing_period (get "billingPeriod" v)
  check (same_currency c.cost_currency currency) currency_mismatch
  check (str_eq period c.billing_period) period_mismatch
  threshold ← require_non_negative (get "thresholdMicros" v)
  ok (cost currency period threshold)

permission_of : List String → Value → Checked Target
permission_of nodes v = do
  assert_closed_object ("kind" ∷ "requirementNodeId" ∷ "effect" ∷ "selector" ∷ []) v
  effect ← require_choice permission_effects invalid_effect (get "effect" v)
  id ← assert_node_target nodes (get "requirementNodeId" v)
  selector ← require_text max_long_text (get "selector" v)
  ok (permission id effect selector)

sharing_of : List String → Value → Checked Target
sharing_of nodes v = do
  assert_closed_object ("kind" ∷ "requirementNodeId" ∷ "dataClass" ∷ "destination" ∷ []) v
  id ← assert_node_target nodes (get "requirementNodeId" v)
  data_class ← require_identifier max_short_text (get "dataClass" v)
  destination ← require_text max_long_text (get "destination" v)
  ok (data_sharing id data_class destination)

production_of : List String → Value → Checked Target
production_of nodes v = do
  assert_closed_object ("kind" ∷ "requirementNodeId" ∷ []) v
  id ← assert_node_target nodes (get "requirementNodeId" v)
  ok (production id)

target_by : String → List String → Constraints → Value → Checked Target
unfolding waiver_of cost_of permission_of sharing_of production_of
target_by kind nodes c v =
    if str_eq kind "rule-waiver"
    then waiver_of nodes v
    else if str_eq kind "cost"
    then cost_of c v
    else if str_eq kind "permission"
    then permission_of nodes v
    else if str_eq kind "data-sharing"
    then sharing_of nodes v
    else if str_eq kind "production"
    then production_of nodes v
    else err invalid_target_kind

-- A kind that is not a text is none of the kinds.
unfoldable pub normalize_approval_target : List String → Constraints → Option Value → Checked Target
unfolding target_by
normalize_approval_target nodes c (some (obj f)) = elim (get "kind" (obj f)) [
  | some (str kind) ↦ target_by kind nodes c (obj f)
  | _ ↦ err invalid_target_kind
]
normalize_approval_target nodes c none = err not_an_object
normalize_approval_target nodes c _ = err not_an_object

unfoldable pub intent_of : List String → Constraints → Value → Checked Intent
intent_of nodes c v = do
  assert_closed_object ("id" ∷ "target" ∷ "requiredBefore" ∷ "reason" ∷ []) v
  id ← require_identifier max_short_text (get "id" v)
  stage ← require_choice approval_stages invalid_stage (get "requiredBefore" v)
  target ← normalize_approval_target nodes c (get "target" v)
  reason ← require_text max_long_text (get "reason" v)
  ok (record { id = id; target = target; required_before = stage; reason = reason })

unfoldable pub normalize_approval_intents :
    List Node → Constraints → Option Value → Checked (List Intent)
normalize_approval_intents nodes c v = do
  l ← require_array v
  check (leb (length l) max_nodes) too_many_items
  intents ← traverse (intent_of (ids nodes) c) l
  check (distinct (map (λ i. i.id) intents)) duplicate_intent
  ok (sort_by (λ i j. code_points_le i.id j.id) intents)
