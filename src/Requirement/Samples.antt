-- ===== src/Requirement/Samples.antt =====
-- A small graph of requirements, and the theorems about graphs at it.
use eoduksini.Base.Dict.{lookup, insert}
use eoduksini.Base.Text.{matches_hex}
use eoduksini.Base.Sort.{sort_by, insert_by}
use eoduksini.Requirement.Check.{
  require_array, assert_safe_data_tree, require_identifier, visit, require_text,
  assert_closed_object, get, require_choice, require_digest, is_digest, require_positive,
  require_boolean, trim,
}
use eoduksini.Base.Result.{ok}
use eoduksini.Requirement.Draft.Rules.{rules_apply, waiver_applies, normalize_graph_draft-rules}
use eoduksini.Requirement.Order.Fuel.{ordered_ids-total}
use eoduksini.Requirement.Constraints.{
  rule_waiver, normalize_constraints, normalize_approval_intents, intent_of,
  normalize_approval_target, assert_node_target,
}
use eoduksini.Requirement.Nodes.{Node, node_of, criteria_of, find_node, is_broker_bound}
use eoduksini.Requirement.Sets.{sorted, normalize_string_set-sorted}
use eoduksini.Base.Json.{
  Value, str, Items, arr, cons, obj, field, nil, end, num, whole, bool, Fields,
}
use eoduksini.Requirement.Order.{
  ordered_ids, normalize_nodes, order_nodes, take_ready, first_ready, dependents_of, indegrees,
  indegree_at, release_all, release, dependents_at, collect,
}
use eoduksini.Requirement.Facts.{
  normalize_string_set, normalize_facts, codes_le, normalize_selector,
}
use eoduksini.Requirement.Draft.{
  Canon, Graph, normalize_graph_draft, validate_context, node_assertions, waiver_assertions,
  validate_assertions,
}
use eoduksini.Base.{String, ◌≡◌, refl, none, some, List, [], ◌∷◌, true, all, length, ◌≤◌, distinct}

two_texts_sorted :
    normalize_string_set 4 (some (arr (cons (str "b") (cons (str " a") nil)))) ≡ ok ("a" ∷ "b" ∷ [])
unfolding normalize_string_set require_array require_identifier require_text sort_by codes_le
two_texts_sorted = refl

normalize_string_set-sorted_example :
    (sorted ("a" ∷ "b" ∷ []) ≡ true)
    × (distinct ("a" ∷ "b" ∷ []) ≡ true)
    × (length {A = String} ("a" ∷ "b" ∷ []) ≤ 4)
normalize_string_set-sorted_example =
    normalize_string_set-sorted 4 (some (arr (cons (str "b") (cons (str " a") nil))))
      two_texts_sorted

abbrev node : String → List String → Node
node id after = record {
  id = id;
  kind = "functional";
  priority = "mandatory";
  depends_on = after;
  capability_selector = none;
  required_rule_ids = [];
  acceptance_criteria = "works" ∷ [];
}

-- b and c wait for each other.
abbrev circular : List Node
circular = node "a" [] ∷ node "b" ("a" ∷ "c" ∷ []) ∷ node "c" ("b" ∷ []) ∷ []

ordered_ids-total_example :
    (xs : List String) × (ordered_ids circular ≡ some xs) × (length xs ≤ length circular)
ordered_ids-total_example = ordered_ids-total circular

abbrev pub vocabulary : String
vocabulary = "sha256:0000000000000000000000000000000000000000000000000000000000000000"

abbrev one : String → Items
one s = cons (str s) nil

abbrev draft_node : Value
draft_node = obj (
    field "id" (str "n1") (
      field "kind" (str "functional") (
        field "priority" (str "mandatory") (
          field "dependsOn" (arr nil) (
            field "capabilitySelector"
              (obj (
                field "classes" (arr (one "search")) (
                  field "interfaceKinds" (arr (one "cli")) (
                    field "requiredProtocols" (arr nil) (field "requiredRuntimes" (arr nil) end)))))
              (field "requiredRuleIds" (arr (one "r1"))
                (field "acceptanceCriteria" (arr (one "works")) end)))))))

abbrev draft_constraints : Value
draft_constraints = obj (
    field "allowedLicenses" (arr nil) (
      field "deniedPermissions" (arr nil) (
        field "billingPeriod" (str "monthly")
          (field "pricingMaxAgeDays" (num (whole 30)) (field "requireKnownCost" (bool true) end)))))

abbrev draft_intent : Value
draft_intent = obj (
    field "id" (str "i1") (
      field "target"
        (obj (
          field "kind" (str "rule-waiver")
            (field "requirementNodeId" (str "n1") (field "ruleId" (str "r1") end))))
        (field "requiredBefore" (str "planning") (field "reason" (str "known") end))))

abbrev pub draft_properties : Fields
draft_properties = field "tenantId" (str "t") (
    field "projectId" (str "p") (
      field "revision" (num (whole 1)) (
        field "objective" (str "o") (
          field "selectorVocabularyDigest" (str vocabulary) (
            field "evidenceLane" (str "operational") (
              field "facts" (arr nil) (
                field "nodes" (arr (cons draft_node nil)) (
                  field "constraints" draft_constraints
                    (field "approvalIntents" (arr (cons draft_intent nil)) end)))))))))

abbrev draft : Value
draft = obj draft_properties

abbrev canon : Canon
canon = record {
  vocabulary_digest = some (str vocabulary);
  classes = some (arr (one "search"));
  fact_keys = some (arr nil);
  active_rule_ids = some (arr (one "r1"));
  applies = λ rule node facts. true;
}

abbrev graph : Graph
graph = record {
  tenant_id = "t";
  project_id = "p";
  revision = 1;
  objective = "o";
  selector_vocabulary_digest = vocabulary;
  evidence_lane = "operational";
  facts = [];
  nodes =
      (record (node "n1" []) {
        capability_selector = some (record {
          classes = "search" ∷ [];
          kinds = "cli" ∷ [];
          required_protocols = [];
          required_runtimes = [];
        });
        required_rule_ids = "r1" ∷ [];
      })
      ∷ [];
  constraints = record {
    allowed_licenses = [];
    denied_permissions = [];
    maximum_total_cost_micros = none;
    cost_currency = none;
    billing_period = "monthly";
    pricing_max_age_days = 30;
    require_known_cost = true;
  };
  approval_intents =
      (record {
        id = "i1";
        target = rule_waiver "n1" "r1";
        required_before = "planning";
        reason = "known";
      })
      ∷ [];
}

accepted : normalize_graph_draft draft (some canon) ≡ ok graph
unfolding normalize_graph_draft validate_context normalize_nodes normalize_constraints
    normalize_approval_intents normalize_facts assert_safe_data_tree visit assert_closed_object get
    require_array require_identifier require_text require_choice require_digest is_digest
    require_positive require_boolean normalize_string_set sort_by codes_le node_of criteria_of
    normalize_selector order_nodes ordered_ids take_ready first_ready dependents_of indegrees
    find_node is_broker_bound intent_of normalize_approval_target assert_node_target node_assertions
    waiver_assertions validate_assertions matches_hex trim insert_by lookup insert indegree_at
    release_all release dependents_at collect
accepted = refl

normalize_graph_draft-rules_example :
    (canon.vocabulary_digest ≡ some (str graph.selector_vocabulary_digest))
    × (all (rules_apply canon graph.facts) graph.nodes ≡ true)
    × (all (λ i. waiver_applies canon graph i.target) graph.approval_intents ≡ true)
normalize_graph_draft-rules_example = normalize_graph_draft-rules draft canon accepted
