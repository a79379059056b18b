-- ===== src/Requirement/Authorization.antt =====
-- Authorizations of a requirement graph, and when one holds.
pub mod Accepted
use eoduksini.Requirement.Constraints.{when_given}
use eoduksini.Requirement.Record.{
  digest_of, assert_requirement_graph_integrity, is_text, draft_fields, canon,
}
use eoduksini.Base.Result.{◌>>◌, ◌>>=◌, ok, check}
use eoduksini.Requirement.Check.{
  Done, Checked, assert_safe_data_tree, assert_closed_object, get, tenant_mismatch,
  invalid_schema_version, expiry_not_after, require_digest, project_mismatch, graph_digest_mismatch,
  require_identifier, max_short_text, integrity_mismatch, not_yet_authorized, authorization_expired,
  receipt_rejected,
}
use eoduksini.Requirement.Stamp.{Clock, at_or_after, normalize_timestamp, before}
use eoduksini.Requirement.Canonical.{Engine}
use eoduksini.Base.{
  ℕ, String, Bool, true, false, not, ◌&&◌, Option, none, some, List, [], ◌∷◌, str_eq,
}
use eoduksini.Base.Json.{Value, null, str, obj, Fields, end, field}

pub record Authorization : Type 0 where
  pub tenant_id : String
  pub project_id : String
  pub requirement_graph_digest : String
  pub authorizer_authority_id : String
  pub authorized_at : String
  pub expires_at : Option String
  pub authority_receipt_ref : String

abbrev pub authorization_draft_fields : List String
authorization_draft_fields =
    "tenantId" ∷ "projectId" ∷ "requirementGraphDigest" ∷ "authorizerAuthorityId" ∷ "authorizedAt"
    ∷ "expiresAt" ∷ "authorityReceiptRef" ∷ []

-- Who asks whether a graph is authorized, when, and the caller's check of the receipt.
pub record Verification : Type 0 where
  pub evaluated_at : Option Value
  pub verify_authority_receipt : Authorization → Bool

unfoldable pub authorization_record : Authorization → Fields
authorization_record a = field "tenantId" (str a.tenant_id) (
    field "projectId" (str a.project_id) (
      field "requirementGraphDigest" (str a.requirement_graph_digest) (
        field "authorizerAuthorityId" (str a.authorizer_authority_id) (
          field "authorizedAt" (str a.authorized_at) (elim a.expires_at [
            | none ↦ field "authorityReceiptRef" (str a.authority_receipt_ref) end
            | some t ↦
                field "expiresAt" (str t)
                  (field "authorityReceiptRef" (str a.authority_receipt_ref) end)
          ])))))

-- `expiresAt <= authorizedAt` is refused.
ends_after : Clock → String → Option String → Bool
ends_after c start none = true
ends_after c start (some t) = not (at_or_after c start t)

unfoldable pub normalize_authorization_draft : Clock → Value → Checked Authorization
unfolding ends_after
normalize_authorization_draft c v = do
  assert_safe_data_tree v
  assert_closed_object authorization_draft_fields v
  authorized ← normalize_timestamp c (get "authorizedAt" v)
  expires ← when_given (normalize_timestamp c) (get "expiresAt" v)
  check (ends_after c authorized expires) expiry_not_after
  tenant ← require_identifier max_short_text (get "tenantId" v)
  project ← require_identifier max_short_text (get "projectId" v)
  digest ← require_digest (get "requirementGraphDigest" v)
  authority ← require_identifier max_short_text (get "authorizerAuthorityId" v)
  receipt ← require_digest (get "authorityReceiptRef" v)
  ok (record {
    tenant_id = tenant;
    project_id = project;
    requirement_graph_digest = digest;
    authorizer_authority_id = authority;
    authorized_at = authorized;
    expires_at = expires;
    authority_receipt_ref = receipt;
  })

-- An authorization is over at its expiry.
is_over : Clock → String → Option String → Bool
is_over c now none = false
is_over c now (some t) = at_or_after c now t

module _ (e : Engine) (c : Clock) where
  unfoldable pub finalize_requirement_graph_authorization : Value → Checked (Authorization × Value)
  finalize_requirement_graph_authorization v = do
    a ← normalize_authorization_draft c v
    let payload = field "schemaVersion" (str "1") (authorization_record a)
    digest ← digest_of e (obj payload) "requirement-graph-authorization-v1"
    ok (a, obj (field "authorizationDigest" (str digest) payload))

  unfoldable pub assert_authorization_record_integrity : Value → Checked Authorization
  unfolding finalize_requirement_graph_authorization
  assert_authorization_record_integrity v = do
    assert_safe_data_tree v
    assert_closed_object ("schemaVersion" ∷ "authorizationDigest" ∷ authorization_draft_fields) v
    check (is_text (get "schemaVersion" v) "1") invalid_schema_version
    _ ← require_digest (get "authorizationDigest" v)
    (a, normal) ←
        finalize_requirement_graph_authorization (obj (draft_fields authorization_draft_fields v))
    left ← canon e normal
    right ← canon e v
    check (str_eq left right) integrity_mismatch
    ok a

  unfoldable pub assert_requirement_graph_authorization_integrity :
      (authorization graph : Value) → Verification → Done
  unfolding is_over
  assert_requirement_graph_authorization_integrity authorization graph v = do
    a ← assert_authorization_record_integrity authorization
    assert_requirement_graph_integrity e graph none
    check (is_text (get "tenantId" graph) a.tenant_id) tenant_mismatch
    check (is_text (get "projectId" graph) a.project_id) project_mismatch
    check (is_text (get "requirementGraphDigest" graph) a.requirement_graph_digest)
        graph_digest_mismatch
    now ← normalize_timestamp c v.evaluated_at
    check (not (before c now a.authorized_at)) not_yet_authorized
    check (not (is_over c now a.expires_at)) authorization_expired
    check (v.verify_authority_receipt a) receipt_rejected
