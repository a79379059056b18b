-- ===== src/Requirement/Nodes.antt =====
-- The nodes of a requirement graph, before they are ordered.
use eoduksini.Base.Sort.{sort_by}
use eoduksini.Base.Result.{ok, ◌>>◌, ◌>>=◌, check, traverse}
use eoduksini.Requirement.Check.{
  Checked, require_array, assert_closed_object, require_identifier, max_short_text,
  criteria_required, get, require_choice, require_text, invalid_kind, max_long_text,
  invalid_priority, duplicate_criteria, max_dependencies, max_facts,
}
use eoduksini.Requirement.Facts.{Selector, normalize_selector, normalize_string_set, code_points_le}
use eoduksini.Base.Json.{Value}
use eoduksini.Base.{
  String, Bool, true, false, not, ◌&&◌, Option, none, some, List, [], ◌∷◌, map, length, distinct,
  if◌then◌else◌, str_eq, ◌==◌,
}

abbrev pub requirement_kinds : List String
requirement_kinds =
    "business" ∷ "functional" ∷ "data" ∷ "security" ∷ "operational" ∷ "approval" ∷ []

abbrev pub requirement_priorities : List String
requirement_priorities = "mandatory" ∷ "preferred" ∷ "optional" ∷ []

abbrev pub node_fields : List String
node_fields =
    "id" ∷ "kind" ∷ "priority" ∷ "dependsOn" ∷ "capabilitySelector" ∷ "requiredRuleIds"
    ∷ "acceptanceCriteria" ∷ []

pub record Node : Type 0 where
  pub id : String
  pub kind : String
  pub priority : String
  pub depends_on : List String
  pub capability_selector : Option Selector
  pub required_rule_ids : List String
  pub acceptance_criteria : List String

unfoldable pub criteria_of : Option Value → Checked (List String)
criteria_of v = do
  l ← require_array v
  check (not (length l == 0)) criteria_required
  xs ← traverse (λ x. require_text max_long_text (some x)) l
  check (distinct xs) duplicate_criteria
  ok (sort_by code_points_le xs)

-- A property that is missing is `undefined`.
selector_of : Option Value → Checked (Option Selector)
selector_of none = ok none
selector_of (some v) = normalize_selector v >>= λ s. ok (some s)

unfoldable pub node_of : Value → Checked Node
unfolding selector_of
node_of v = do
  assert_closed_object node_fields v
  id ← require_identifier max_short_text (get "id" v)
  kind ← require_choice requirement_kinds invalid_kind (get "kind" v)
  priority ← require_choice requirement_priorities invalid_priority (get "priority" v)
  depends_on ← normalize_string_set max_dependencies (get "dependsOn" v)
  rules ← normalize_string_set max_facts (get "requiredRuleIds" v)
  criteria ← criteria_of (get "acceptanceCriteria" v)
  selector ← selector_of (get "capabilitySelector" v)
  ok (record {
    id = id;
    kind = kind;
    priority = priority;
    depends_on = depends_on;
    capability_selector = selector;
    required_rule_ids = rules;
    acceptance_criteria = criteria;
  })

abbrev pub ids : List Node → List String
ids l = map (λ n. n.id) l

-- byId.get(id)
unfoldable pub find_node : String → List Node → Option Node
find_node id [] = none
find_node id (n ∷ l) = if str_eq n.id id then some n else find_node id l

unfoldable pub is_broker_bound : Node → Bool
is_broker_bound n =
    str_eq n.priority "mandatory" && elim n.capability_selector [ none ↦ false | some _ ↦ true ]
