-- ===== src/Requirement/Approved.antt =====
-- A graph record with its authorization, and the theorem about authorizations at them.
use eoduksini.Base.Dict.{lookup, insert}
use eoduksini.Base.Text.{matches_hex}
use eoduksini.Requirement.Nodes.{node_of, criteria_of, find_node, is_broker_bound}
use eoduksini.Base.Sort.{sort_by, insert_by}
use eoduksini.Requirement.Facts.{
  normalize_facts, normalize_string_set, codes_le, normalize_selector,
}
use eoduksini.Requirement.Constraints.{
  normalize_constraints, normalize_approval_intents, intent_of, normalize_approval_target,
  assert_node_target,
}
use eoduksini.Requirement.Order.{
  normalize_nodes, order_nodes, ordered_ids, take_ready, first_ready, dependents_of, indegrees,
  indegree_at, release_all, release, dependents_at, collect,
}
use eoduksini.Requirement.Draft.{
  normalize_graph_draft, validate_context, node_assertions, waiver_assertions, validate_assertions,
}
use eoduksini.Requirement.Authorization.Accepted.{authorization_accepted}
use eoduksini.Requirement.Check.{
  get, assert_safe_data_tree, visit, assert_closed_object, require_array, require_identifier,
  require_text, require_choice, require_digest, is_digest, require_positive, require_boolean, trim,
}
use eoduksini.Requirement.Samples.{vocabulary, draft_properties}
use eoduksini.Base.Result.{ok}
use eoduksini.Requirement.Record.{
  assert_requirement_graph_integrity, finalize_requirement_graph, digest_of, canon, draft_fields,
  is_text, graph_fields, scope_payload, items_of, texts, fact_record, node_record,
  constraints_record, intent_record,
}
use eoduksini.Requirement.Stamp.{Clock, normalize_timestamp, before, at_or_after}
use eoduksini.Requirement.Canonical.{
  Engine, canonical_stringify, canonicalize, stringify, sha256_digest, digest_canonical,
}
use eoduksini.Base.Json.{Value, str, obj, field, end}
use eoduksini.Requirement.Authorization.{
  assert_requirement_graph_authorization_integrity, Verification, Authorization,
  assert_authorization_record_integrity, finalize_requirement_graph_authorization,
  normalize_authorization_draft, authorization_record,
}
use eoduksini.Base.{String, ◌≡◌, refl, none, some, true, false, if◌then◌else◌, str_eq, ◌==◌}

abbrev first_day : String
first_day = "2026-01-01T00:00:00.000Z"

abbrev second_day : String
second_day = "2026-01-02T00:00:00.000Z"

abbrev third_day : String
third_day = "2026-01-03T00:00:00.000Z"

-- A clock of three days.
abbrev clock : Clock
clock = record {
  read = λ s. if str_eq s first_day then some 1 else if str_eq s second_day then some 2 else some 3;
  print = λ n. if n == 1 then first_day else if n == 2 then second_day else third_day;
}

abbrev zeros : String
zeros = "0000000000000000000000000000000000000000000000000000000000000000"

abbrev engine : Engine
engine = record {
  printer = record { print_text = λ s. s; print_number = λ n. "0" };
  sha256 = λ s. zeros;
}

abbrev graph_record : Value
graph_record = obj (
    field "schemaVersion" (str "1") (
      field "requirementScopeDigest" (str vocabulary)
        (field "requirementGraphDigest" (str vocabulary) draft_properties)))

abbrev authorization : Value
authorization = obj (
    field "schemaVersion" (str "1") (
      field "authorizationDigest" (str vocabulary) (
        field "tenantId" (str "t") (
          field "projectId" (str "p") (
            field "requirementGraphDigest" (str vocabulary) (
              field "authorizerAuthorityId" (str "owner") (
                field "authorizedAt" (str first_day) (
                  field "expiresAt" (str third_day)
                    (field "authorityReceiptRef" (str vocabulary) end)))))))))

abbrev asks : Verification
asks = record { evaluated_at = some (str second_day); verify_authority_receipt = λ a. true }

holds_now :
    assert_requirement_graph_authorization_integrity engine clock authorization graph_record asks
    ≡ ok tt
unfolding assert_requirement_graph_authorization_integrity assert_requirement_graph_integrity
    assert_authorization_record_integrity finalize_requirement_graph
    finalize_requirement_graph_authorization normalize_authorization_draft authorization_record
    normalize_timestamp before at_or_after canonical_stringify canonicalize stringify sha256_digest
    digest_canonical digest_of canon draft_fields is_text graph_fields scope_payload items_of texts
    fact_record node_record constraints_record intent_record normalize_graph_draft validate_context
    normalize_nodes normalize_constraints normalize_approval_intents normalize_facts
    assert_safe_data_tree visit assert_closed_object get require_array require_identifier
    require_text require_choice require_digest is_digest require_positive require_boolean
    normalize_string_set sort_by codes_le node_of criteria_of normalize_selector order_nodes
    ordered_ids take_ready first_ready dependents_of indegrees find_node is_broker_bound intent_of
    normalize_approval_target assert_node_target node_assertions waiver_assertions
    validate_assertions matches_hex trim insert_by lookup insert indegree_at release_all release
    dependents_at collect
holds_now = refl

authorization_accepted_example :
    (a : Authorization) × (now : String) × (assert_authorization_record_integrity engine clock
        authorization
      ≡ ok a)
    × (assert_requirement_graph_integrity engine graph_record none ≡ ok tt)
    × (get "tenantId" graph_record ≡ some (str a.tenant_id))
    × (get "projectId" graph_record ≡ some (str a.project_id))
    × (get "requirementGraphDigest" graph_record ≡ some (str a.requirement_graph_digest))
    × (normalize_timestamp clock asks.evaluated_at ≡ ok now)
    × (before clock now a.authorized_at ≡ false)
    × ((t : String) → a.expires_at ≡ some t → at_or_after clock now t ≡ false)
    × (asks.verify_authority_receipt a ≡ true)
authorization_accepted_example =
    authorization_accepted engine clock authorization graph_record asks holds_now
