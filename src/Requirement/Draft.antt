-- ===== src/Requirement/Draft.antt =====
-- A draft of a requirement graph, normalized, and its validation against a Canon vocabulary.
pub mod Rules
use eoduksini.Requirement.Order.{normalize_nodes}
use eoduksini.Base.Result.{◌>>=◌, ok, ◌>>◌, check}
use eoduksini.Requirement.Constraints.{
  Constraints, Target, Intent, rule_waiver, normalize_constraints, normalize_approval_intents,
}
use eoduksini.Requirement.Nodes.{Node, find_node}
use eoduksini.Requirement.Check.{
  Done, Checked, require_digest, assert_safe_data_tree, assert_closed_object, vocabulary_mismatch,
  rule_not_active, require_identifier, rule_not_applicable, max_short_text, max_facts, get,
  unknown_fact_key, require_positive, require_text, unknown_class, max_long_text, require_choice,
  invalid_lane,
}
use eoduksini.Base.Json.{Value}
use eoduksini.Requirement.Facts.{Fact, normalize_string_set, normalize_facts}
use eoduksini.Base.{
  ℕ, String, Bool, true, false, Option, none, some, List, [], ◌∷◌, ◌++◌, map, all, str_eq, includes,
}

pub record Graph : Type 0 where
  pub tenant_id : String
  pub project_id : String
  pub revision : ℕ
  pub objective : String
  pub selector_vocabulary_digest : String
  pub evidence_lane : String
  pub facts : List Fact
  pub nodes : List Node
  pub constraints : Constraints
  pub approval_intents : List Intent

-- The Canon that a graph is validated against; `applies` is the caller's function.
pub record Canon : Type 0 where
  pub vocabulary_digest : Option Value
  pub classes : Option Value
  pub fact_keys : Option Value
  pub active_rule_ids : Option Value
  pub applies : String → Option Node → List Fact → Bool

abbrev pub classes_of : Node → List String
classes_of n = elim n.capability_selector [ none ↦ [] | some s ↦ s.classes ]

-- A rule that the graph relies on, and for which node.
pub record Assertion : Type 0 where
  pub rule_id : String
  pub node : Option Node

unfoldable pub node_assertions : List Node → List Assertion
node_assertions [] = []
node_assertions (n ∷ l) =
    map (λ r. record { rule_id = r; node = some n }) n.required_rule_ids ++ node_assertions l

waiver_assertion : List Node → Target → List Assertion
waiver_assertion nodes (rule_waiver id rule) =
    (record { rule_id = rule; node = find_node id nodes }) ∷ []
waiver_assertion nodes _ = []

unfoldable pub waiver_assertions : List Node → List Intent → List Assertion
unfolding waiver_assertion
waiver_assertions nodes [] = []
waiver_assertions nodes (i ∷ l) = waiver_assertion nodes i.target ++ waiver_assertions nodes l

-- The loop over the assertions.
unfoldable pub validate_assertions : Canon → List String → List Fact → List Assertion → Done
validate_assertions c active facts [] = ok tt
validate_assertions c active facts (a ∷ l) = do
  check (includes active a.rule_id) rule_not_active
  check (c.applies a.rule_id a.node facts) rule_not_applicable
  validate_assertions c active facts l

unfoldable pub validate_context : Canon → Graph → Done
validate_context c g = do
  digest ← require_digest c.vocabulary_digest
  check (str_eq g.selector_vocabulary_digest digest) vocabulary_mismatch
  classes ← normalize_string_set max_facts c.classes
  keys ← normalize_string_set max_facts c.fact_keys
  check (all (λ f. includes keys f.key) g.facts) unknown_fact_key
  check (all (λ n. all (includes classes) (classes_of n)) g.nodes) unknown_class
  active ← normalize_string_set 1024 c.active_rule_ids
  validate_assertions c active g.facts
      (node_assertions g.nodes ++ waiver_assertions g.nodes g.approval_intents)

abbrev pub graph_draft_fields : List String
graph_draft_fields =
    "tenantId" ∷ "projectId" ∷ "revision" ∷ "objective" ∷ "selectorVocabularyDigest"
    ∷ "evidenceLane" ∷ "facts" ∷ "nodes" ∷ "constraints" ∷ "approvalIntents" ∷ []

-- The context is optional.
in_context : Option Canon → Graph → Done
in_context none g = ok tt
in_context (some c) g = validate_context c g

unfoldable pub normalize_graph_draft : Value → Option Canon → Checked Graph
unfolding in_context
normalize_graph_draft v context = do
  assert_safe_data_tree v
  assert_closed_object graph_draft_fields v
  tenant ← require_identifier max_short_text (get "tenantId" v)
  project ← require_identifier max_short_text (get "projectId" v)
  revision ← require_positive (get "revision" v)
  objective ← require_text max_long_text (get "objective" v)
  digest ← require_digest (get "selectorVocabularyDigest" v)
  lane ←
      require_choice ("operational" ∷ "contract-fixture" ∷ []) invalid_lane (get "evidenceLane" v)
  facts ← normalize_facts (get "facts" v)
  nodes ← normalize_nodes (get "nodes" v)
  constraints ← normalize_constraints (get "constraints" v)
  intents ← normalize_approval_intents nodes constraints (get "approvalIntents" v)
  let g : Graph = record {
    tenant_id = tenant;
    project_id = project;
    revision = revision;
    objective = objective;
    selector_vocabulary_digest = digest;
    evidence_lane = lane;
    facts = facts;
    nodes = nodes;
    constraints = constraints;
    approval_intents = intents;
  }
  in_context context g
  ok g
