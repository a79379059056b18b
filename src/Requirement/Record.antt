-- ===== src/Requirement/Record.antt =====
-- A requirement graph as a record with its digests (`finalizeRequirementGraph`,
-- `assertRequirementGraphIntegrity`).
use eoduksini.Base.Sort.{sort_by}
use eoduksini.Base.Result.{◌>>=◌, traverse, ◌>>◌, ok, err, check}
use eoduksini.Requirement.Check.{
  get, Checked, Done, assert_safe_data_tree, assert_closed_object, invalid_schema_version,
  require_digest, integrity_mismatch, not_canonical,
}
use eoduksini.Requirement.Nodes.{Node}
use eoduksini.Requirement.Canonical.{Engine, canonical_stringify, digest_canonical}
use eoduksini.Requirement.Constraints.{
  Constraints, Target, Intent, rule_waiver, cost, permission, data_sharing, production,
}
use eoduksini.Requirement.Draft.{Graph, Canon, normalize_graph_draft, graph_draft_fields}
use eoduksini.Requirement.Facts.{Selector, Fact, FactValue, text, number, truth, code_points_le}
use eoduksini.Base.{String, Bool, Option, none, some, List, [], ◌∷◌, str_eq, false}
use eoduksini.Base.Json.{
  Value, bool, num, str, arr, obj, Items, nil, cons, Fields, end, field, whole,
}

unfoldable pub items_of {ℓ} : {A : Type ℓ} → (A → Value) → List A → Items
items_of f [] = nil
items_of f (x ∷ l) = cons (f x) (items_of f l)

unfoldable pub texts : List String → Value
unfolding items_of
texts l = arr (items_of str l)

-- A property that may be absent.
optional_field : String → Option Value → Fields → Fields
optional_field k none f = f
optional_field k (some v) f = field k v f

value_of : FactValue → Value
value_of (text s) = str s
value_of (number n) = num n
value_of (truth b) = bool b

unfoldable pub fact_record : Fact → Value
unfolding value_of
fact_record f = obj (field "key" (str f.key) (field "value" (value_of f.value) end))

selector_record : Selector → Value
selector_record s = obj (
    field "classes" (texts s.classes) (
      field "interfaceKinds" (texts s.kinds) (
        field "requiredProtocols" (texts s.required_protocols)
          (field "requiredRuntimes" (texts s.required_runtimes) end))))

selector_field : Node → Fields → Fields
unfolding optional_field selector_record
selector_field n f = elim n.capability_selector [
  | none ↦ f
  | some s ↦ field "capabilitySelector" (selector_record s) f
]

unfoldable pub node_record : Node → Value
unfolding selector_field
node_record n = obj (
    field "id" (str n.id) (
      field "kind" (str n.kind) (
        field "priority" (str n.priority) (
          field "dependsOn" (texts n.depends_on) (
            selector_field n (
              field "requiredRuleIds" (texts n.required_rule_ids)
                (field "acceptanceCriteria" (texts n.acceptance_criteria) end)))))))

unfoldable pub constraints_record : Constraints → Value
unfolding optional_field
constraints_record c = obj (
    field "allowedLicenses" (texts c.allowed_licenses) (
      field "deniedPermissions" (texts c.denied_permissions) (
        optional_field "maximumTotalCostMicros"
          (elim c.maximum_total_cost_micros [ none ↦ none | some n ↦ some (num (whole n)) ])
          (optional_field "costCurrency"
            (elim c.cost_currency [ none ↦ none | some s ↦ some (str s) ])
            (field "billingPeriod" (str c.billing_period) (
              field "pricingMaxAgeDays" (num (whole c.pricing_max_age_days))
                (field "requireKnownCost" (bool c.require_known_cost) end)))))))

target_record : Target → Value
target_record (rule_waiver id rule) = obj (
    field "kind" (str "rule-waiver")
      (field "requirementNodeId" (str id) (field "ruleId" (str rule) end)))
target_record (cost currency period threshold) = obj (
    field "kind" (str "cost") (
      field "currency" (str currency)
        (field "billingPeriod" (str period) (field "thresholdMicros" (num (whole threshold)) end))))
target_record (permission id effect selector) = obj (
    field "kind" (str "permission") (
      field "requirementNodeId" (str id)
        (field "effect" (str effect) (field "selector" (str selector) end))))
target_record (data_sharing id data_class destination) = obj (
    field "kind" (str "data-sharing") (
      field "requirementNodeId" (str id)
        (field "dataClass" (str data_class) (field "destination" (str destination) end))))
target_record (production id) =
    obj (field "kind" (str "production") (field "requirementNodeId" (str id) end))

unfoldable pub intent_record : Intent → Value
unfolding target_record
intent_record i = obj (
    field "id" (str i.id) (
      field "target" (target_record i.target)
        (field "requiredBefore" (str i.required_before) (field "reason" (str i.reason) end))))

-- The properties of a normalized graph, before some others.
unfoldable pub graph_fields : Graph → Fields → Fields
unfolding items_of
graph_fields g f = field "tenantId" (str g.tenant_id) (
    field "projectId" (str g.project_id) (
      field "revision" (num (whole g.revision)) (
        field "objective" (str g.objective) (
          field "selectorVocabularyDigest" (str g.selector_vocabulary_digest) (
            field "evidenceLane" (str g.evidence_lane) (
              field "facts" (arr (items_of fact_record g.facts)) (
                field "nodes" (arr (items_of node_record g.nodes)) (
                  field "constraints" (constraints_record g.constraints) (
                    field "approvalIntents" (arr (items_of intent_record g.approval_intents))
                      f)))))))))

-- What the scope digest says of a node.
scope_node : Node → Value
unfolding selector_field
scope_node n = obj (
    field "kind" (str n.kind) (
      field "priority" (str n.priority)
        (selector_field n (field "requiredRuleIds" (texts n.required_rule_ids) end))))

-- A value with its canonical text, by which it is sorted.
abbrev Keyed : Type 0
Keyed = String × Value

-- The draft in a record: the properties of a draft that the record has. One that is missing is
-- `undefined` in the source, which refuses it too, with another message.
unfoldable pub draft_fields : List String → Value → Fields
draft_fields [] v = end
draft_fields (k ∷ l) v =
    let rest = draft_fields l v in elim (get k v) [ none ↦ rest | some x ↦ field k x rest ]

unfoldable pub is_text : Option Value → String → Bool
is_text (some (str s)) t = str_eq s t
is_text none t = false
is_text _ t = false

module _ (e : Engine) where
  -- What `canonicalStringify` throws is the reason of the digest.
  unfoldable pub canon : Value → Checked String
  canon v = elim (canonical_stringify e v) [ ok t ↦ ok t | err _ ↦ err not_canonical ]

  unfoldable pub digest_of : Value → (domain : String) → Checked String
  digest_of v domain = elim (digest_canonical e v domain) [
    | ok t ↦ ok t
    | err _ ↦ err not_canonical
  ]

  keyed : Value → Checked Keyed
  unfolding canon
  keyed v = canon v >>= λ t. ok (t, v)

  unfoldable pub scope_payload : Graph → Checked Value
  unfolding items_of keyed scope_node
  scope_payload g = do
    nodes ← traverse (λ n. keyed (scope_node n)) g.nodes
    ok (
        obj (
          field "selectorVocabularyDigest" (str g.selector_vocabulary_digest) (
            field "evidenceLane" (str g.evidence_lane) (
              field "facts" (arr (items_of fact_record g.facts)) (
                field "nodes"
                  (arr
                    (items_of (λ (_, v). v) (sort_by (λ (s, _) (t, _). code_points_le s t) nodes)))
                  end)))))

  unfoldable pub finalize_requirement_graph : Value → Option Canon → Checked (Graph × Value)
  unfolding digest_of
  finalize_requirement_graph v context = do
    g ← normalize_graph_draft v context
    payload ← scope_payload g
    scope ← digest_of payload "requirement-scope-v1"
    let scoped = field "requirementScopeDigest" (str scope) end
    let payload = field "schemaVersion" (str "1") (graph_fields g scoped)
    digest ← digest_of (obj payload) "requirement-graph-v1"
    ok (g, obj (field "requirementGraphDigest" (str digest) payload))

  unfoldable pub assert_requirement_graph_integrity : Value → Option Canon → Done
  unfolding canon draft_fields is_text
  assert_requirement_graph_integrity v context = do
    assert_safe_data_tree v
    assert_closed_object
        ("schemaVersion" ∷ "requirementScopeDigest" ∷ "requirementGraphDigest" ∷ graph_draft_fields)
        v
    check (is_text (get "schemaVersion" v) "1") invalid_schema_version
    _ ← require_digest (get "requirementScopeDigest" v)
    _ ← require_digest (get "requirementGraphDigest" v)
    (_, normal) ← finalize_requirement_graph (obj (draft_fields graph_draft_fields v)) context
    left ← canon normal
    right ← canon v
    check (str_eq left right) integrity_mismatch
