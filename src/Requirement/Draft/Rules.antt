-- ===== src/Requirement/Draft/Rules.antt =====
-- What a graph that a Canon accepts relies on.
use eoduksini.Requirement.Check.{
  require_digest, max_facts, vocabulary_mismatch, unknown_fact_key, unknown_class,
}
use eoduksini.Requirement.Nodes.{Node, find_node}
use eoduksini.Base.Result.{ok, >>=-eq-ok, check}
use eoduksini.Requirement.Constraints.{
  Target, Intent, rule_waiver, cost, permission, data_sharing, production,
}
use eoduksini.Base.Json.{Value, str, num, bool, arr, obj, null}
use eoduksini.Requirement.Facts.{Fact, normalize_string_set}
use eoduksini.Requirement.Draft.{
  node_assertions, normalize_graph_draft, waiver_assertions, Canon, validate_assertions, Graph,
  Assertion, validate_context, waiver_assertion, in_context, classes_of,
}
use eoduksini.Base.{
  String, Bool, true, ◌&&◌, Option, none, some, List, [], ◌∷◌, ◌++◌, map, all, ◌≡◌, includes, refl,
  arith, all-append, eq_iff, str_eq,
}

-- An assertion that holds.
abbrev pub holds : Canon → List String → List Fact → Assertion → Bool
holds c active facts a = includes active a.rule_id && c.applies a.rule_id a.node facts

validate_assertions-all :
    (c : Canon) (active : List String) (facts : List Fact) (l : List Assertion)
    → validate_assertions c active facts l ≡ ok tt
    → all (holds c active facts) l ≡ true
unfolding validate_assertions
validate_assertions-all c active facts [] h = refl
validate_assertions-all c active facts (a ∷ l) h =
    ground (arith, validate_assertions-all c active facts l)

-- Each rule that a node requires applies to it.
abbrev pub rules_apply : Canon → List Fact → Node → Bool
rules_apply c facts n = all (λ r. c.applies r (some n) facts) n.required_rule_ids

rules_apply-holds :
    (c : Canon) (active : List String) (facts : List Fact) (n : Node) (l : List String)
    → all (holds c active facts) (map (λ r. record { rule_id = r; node = some n }) l) ≡ true
    → all (λ r. c.applies r (some n) facts) l ≡ true
rules_apply-holds c active facts n [] h = refl
rules_apply-holds c active facts n (r ∷ l) h = ground (arith, rules_apply-holds c active facts n l)

node_assertions-rules_apply :
    (c : Canon) (active : List String) (facts : List Fact) (l : List Node)
    → all (holds c active facts) (node_assertions l) ≡ true
    → all (rules_apply c facts) l ≡ true
unfolding node_assertions
node_assertions-rules_apply c active facts [] h = refl
node_assertions-rules_apply c active facts (n ∷ l) h =
    let own : List Assertion =
      map (λ r. record { rule_id = r; node = some n }) n.required_rule_ids in
    ground (
      arith,
      all-append (holds c active facts) own (node_assertions l),
      rules_apply-holds c active facts n n.required_rule_ids,
      node_assertions-rules_apply c active facts l,
    )

-- The rule that an approval waives applies to the node that it names.
abbrev pub waiver_applies : Canon → Graph → Target → Bool
waiver_applies c g (rule_waiver id rule) = c.applies rule (find_node id g.nodes) g.facts
waiver_applies c g (cost _ _ _) = true
waiver_applies c g (permission _ _ _) = true
waiver_applies c g (data_sharing _ _ _) = true
waiver_applies c g (production _) = true

waiver_assertion-waiver_applies :
    (c : Canon) (active : List String) (g : Graph) (t : Target)
    → all (holds c active g.facts) (waiver_assertion g.nodes t) ≡ true
    → waiver_applies c g t ≡ true
unfolding waiver_assertion
waiver_assertion-waiver_applies c active g (rule_waiver id rule) h = ground arith
waiver_assertion-waiver_applies c active g (cost _ _ _) h = refl
waiver_assertion-waiver_applies c active g (permission _ _ _) h = refl
waiver_assertion-waiver_applies c active g (data_sharing _ _ _) h = refl
waiver_assertion-waiver_applies c active g (production _) h = refl

waiver_assertions-waiver_applies :
    (c : Canon) (active : List String) (g : Graph) (l : List Intent)
    → all (holds c active g.facts) (waiver_assertions g.nodes l) ≡ true
    → all (λ i. waiver_applies c g i.target) l ≡ true
unfolding waiver_assertions
waiver_assertions-waiver_applies c active g [] h = refl
waiver_assertions-waiver_applies c active g (i ∷ l) h = ground (
  arith,
  all-append (holds c active g.facts) (waiver_assertion g.nodes i.target)
      (waiver_assertions g.nodes l),
  waiver_assertion-waiver_applies c active g i.target,
  waiver_assertions-waiver_applies c active g l,
)

normalize_graph_draft-context :
    (v : Value) (c : Canon) {g : Graph}
    → normalize_graph_draft v (some c) ≡ ok g
    → validate_context c g ≡ ok tt
unfolding normalize_graph_draft in_context
normalize_graph_draft-context v c h = ground arith

validate_context-assertions :
    (c : Canon) (g : Graph)
    → validate_context c g ≡ ok tt
    → (active : List String) × (validate_assertions c active g.facts
          (node_assertions g.nodes ++ waiver_assertions g.nodes g.approval_intents)
        ≡ ok tt)
unfolding validate_context
validate_context-assertions c g h =
    let (d, _, h) = >>=-eq-ok (require_digest c.vocabulary_digest) _ h in
    let same = check (str_eq g.selector_vocabulary_digest d) vocabulary_mismatch in
    let (_, _, h) = >>=-eq-ok same _ h in
    let (classes, _, h) = >>=-eq-ok (normalize_string_set max_facts c.classes) _ h in
    let (keys, _, h) = >>=-eq-ok (normalize_string_set max_facts c.fact_keys) _ h in
    let known_facts = check (all (λ f. includes keys f.key) g.facts) unknown_fact_key in
    let (_, _, h) = >>=-eq-ok known_facts _ h in
    let known_classes =
      check (all (λ n. all (includes classes) (classes_of n)) g.nodes) unknown_class in
    let (_, _, h) = >>=-eq-ok known_classes _ h in
    let (active, _, h) = >>=-eq-ok (normalize_string_set 1024 c.active_rule_ids) _ h in (active, h)

require_digest-text : (v : Option Value) {s : String} → require_digest v ≡ ok s → v ≡ some (str s)
unfolding require_digest
require_digest-text (some (str t)) h = ground arith
require_digest-text none h = cc
require_digest-text (some (num _)) h = cc
require_digest-text (some (bool _)) h = cc
require_digest-text (some (arr _)) h = cc
require_digest-text (some (obj _)) h = cc
require_digest-text (some null) h = cc

validate_context-digest :
    (c : Canon) (g : Graph)
    → validate_context c g ≡ ok tt
    → c.vocabulary_digest ≡ some (str g.selector_vocabulary_digest)
unfolding validate_context
validate_context-digest c g h =
    let (d, read, h') = >>=-eq-ok (require_digest c.vocabulary_digest) _ h in
    ground
      (arith, require_digest-text c.vocabulary_digest read, eq_iff g.selector_vocabulary_digest d)

-- A draft that is accepted against a Canon is bound to the vocabulary of that Canon, and every rule
-- that a node requires or that an approval waives applies to its node under the facts of the graph.
pub normalize_graph_draft-rules :
    (v : Value) (c : Canon) {g : Graph}
    → normalize_graph_draft v (some c) ≡ ok g
    → (c.vocabulary_digest ≡ some (str g.selector_vocabulary_digest))
      × (all (rules_apply c g.facts) g.nodes ≡ true)
      × (all (λ i. waiver_applies c g i.target) g.approval_intents ≡ true)
normalize_graph_draft-rules v c {g} h =
    let valid = normalize_graph_draft-context v c h in
    let (active, asserted) = validate_context-assertions c g valid in
    let waivers = waiver_assertions g.nodes g.approval_intents in
    let all_hold = validate_assertions-all c active g.facts _ asserted in
    let both = all-append (holds c active g.facts) (node_assertions g.nodes) waivers in
    (
      validate_context-digest c g valid,
      node_assertions-rules_apply c active g.facts g.nodes (ground (arith, all_hold, both)),
      waiver_assertions-waiver_applies c active g g.approval_intents
          (ground (arith, all_hold, both)),
    )
