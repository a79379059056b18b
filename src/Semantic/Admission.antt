-- ===== src/Semantic/Admission.antt =====
-- `requestSemanticFootprint`, `semanticAssessmentContract` and `assessSemanticAdmission` of
-- core/semantic.mjs.
use eoduksini.Base.Sort.{sort_by}
use eoduksini.Base.Path.{is_empty}
use eoduksini.Base.Result.{◌>>=◌, ok, ◌>>◌, check, traverse}
use eoduksini.Base.Dict.{Dict}
use eoduksini.Controller.Types.{
  AssessmentStatus, semantic_conflict, manual_decision_required, non_overlapping,
}
use eoduksini.Semantic.Compare.{Conflict, status_of, compare_semantic_footprints}
use eoduksini.Governor.Scope.{Scope, values_of}
use eoduksini.Base.Json.{field as property, canonical, obj, str, end, whole}
use Prim.Native.String.{◌++◌ as append_text}
use eoduksini.Base.{
  String, Bool, true, false, not, ◌&&◌, ◌||◌, List, [], ◌∷◌, ◌++◌, if◌then◌else◌, Option, some,
  str_eq, includes, map, none, all,
}
use eoduksini.Semantic.{
  Checked, Uncertainty, Footprint, Checks, text, semantic_footprint_contract, canonical_texts,
  conflict_fields, sorted, uncertainty_contract, unique_by, uncertainty_text, by_text,
  invalid_semantic_assessment, same_texts,
}

pub record PeerConflict : Type 0 where
  pub field : String
  pub left : String
  pub right : String
  pub other_attempt_id : String

pub record Assessment : Type 0 where
  pub status : AssessmentStatus
  pub compared_attempt_ids : List String
  pub conflicts : List PeerConflict
  pub uncertainty : List Uncertainty

pub record Peer : Type 0 where
  pub attempt_id : String
  pub semantic_footprint : Footprint

-- What the assessment reads of a request.
pub record Subject : Type 0 where
  pub attempt_id : String
  pub scope : Scope
  pub semantic_footprint : Option Footprint

-- The fields of a footprint that a scope has.
scope_facts : Scope → List String → Dict (List String)
unfolding values_of
scope_facts s [] = []
scope_facts s (f ∷ fs) =
    (f, if str_eq f "dependencies" then [] else values_of f s) ∷ scope_facts s fs

missing_footprint : String → Uncertainty
missing_footprint id = record {
  subject = append_text "attempt:" id;
  reason = "LEGACY_SEMANTIC_FOOTPRINT_MISSING";
  confidence = whole 0;
}

-- A request without a footprint has that of its scope, which is uncertain.
unfoldable pub declared_footprint : Subject → Footprint
unfolding scope_facts missing_footprint
declared_footprint r = elim r.semantic_footprint [
  | some v ↦ v
  | none ↦ record {
    facts = ("read_paths", []) ∷ scope_facts r.scope conflict_fields;
    uncertainty = missing_footprint r.attempt_id ∷ [];
  }
]

unfoldable pub with_peer : String → List Conflict → List PeerConflict
with_peer id [] = []
with_peer id (c ∷ cs) =
    record { field = c.field; left = c.left; right = c.right; other_attempt_id = id }
    ∷ with_peer id cs

is_conflicting : AssessmentStatus → Bool
is_conflicting semantic_conflict = true
is_conflicting _ = false

is_manual : AssessmentStatus → Bool
is_manual manual_decision_required = true
is_manual _ = false

is_non_overlapping : AssessmentStatus → Bool
is_non_overlapping non_overlapping = true
is_non_overlapping _ = false

same_truth : Bool → Bool → Bool
same_truth true b = b
same_truth false b = not b

module _ (k : Checks) where
  pub peer_conflict_text : PeerConflict → String
  unfolding canonical
  peer_conflict_text c = canonical k.printer (
      obj (
        property "field" (str c.field) (
          property "left" (str c.left) (
            property "right" (str c.right)
              (property "other_attempt_id" (str c.other_attempt_id) end)))))

  unfoldable pub request_semantic_footprint : Subject → Checked Footprint
  unfolding declared_footprint semantic_footprint_contract
  request_semantic_footprint r = semantic_footprint_contract k (declared_footprint r)

  pub valid_conflict : PeerConflict → Bool
  unfolding text
  valid_conflict c =
      includes conflict_fields c.field && text c.left && text c.right && text c.other_attempt_id

  pub consistent : Assessment → Bool
  unfolding is_conflicting is_manual is_non_overlapping same_truth
  consistent a =
      same_truth (is_non_overlapping a.status) (is_empty a.conflicts && is_empty a.uncertainty)
      && (not (is_conflicting a.status) || not (is_empty a.conflicts))
      && (not (is_manual a.status) || not (is_empty a.uncertainty))

  -- Both lists stand in their order, each item once.
  pub normal_lists : Assessment → List Uncertainty → Bool
  unfolding sort_by unique_by peer_conflict_text uncertainty_text
  normal_lists a items =
      same_texts
        (map peer_conflict_text
          (sort_by (by_text peer_conflict_text) (unique_by peer_conflict_text a.conflicts)))
        (map peer_conflict_text a.conflicts)
      && same_texts
          (map (uncertainty_text k)
            (sort_by (by_text (uncertainty_text k)) (unique_by (uncertainty_text k) items)))
          (map (uncertainty_text k) a.uncertainty)

  unfoldable pub semantic_assessment_contract : Assessment → Checked Assessment
  unfolding text canonical_texts sorted valid_conflict uncertainty_contract normal_lists consistent
  semantic_assessment_contract a = do
    check
        (all text a.compared_attempt_ids
          && str_eq (canonical_texts k (sorted a.compared_attempt_ids))
              (canonical_texts k a.compared_attempt_ids))
        invalid_semantic_assessment
    check (all valid_conflict a.conflicts) invalid_semantic_assessment
    items ← traverse (uncertainty_contract k) a.uncertainty
    check (normal_lists a items) invalid_semantic_assessment
    check (consistent a) invalid_semantic_assessment
    ok a

  -- The conflicts and the uncertainty with every peer.
  unfoldable pub compare_peers :
      Footprint → List Peer → Checked (List PeerConflict × List Uncertainty)
  unfolding compare_semantic_footprints with_peer
  compare_peers v [] = ok ([], [])
  compare_peers v (p ∷ ps) = do
    compared ← compare_semantic_footprints k v p.semantic_footprint
    (conflicts, uncertainty) ← compare_peers v ps
    ok (with_peer p.attempt_id compared.conflicts ++ conflicts, compared.uncertainty ++ uncertainty)

  unfoldable pub assessment_of : List String → List PeerConflict → List Uncertainty → Assessment
  unfolding status_of sorted sort_by unique_by peer_conflict_text uncertainty_text
  assessment_of ids conflicts uncertainty =
      let items =
        sort_by (by_text (uncertainty_text k)) (unique_by (uncertainty_text k) uncertainty) in
      let found = sort_by (by_text peer_conflict_text) (unique_by peer_conflict_text conflicts) in
      record {
        status = status_of items found;
        compared_attempt_ids = sorted ids;
        conflicts = found;
        uncertainty = items;
      }

  unfoldable pub assess_semantic_admission : Subject → List Peer → Checked Assessment
  unfolding request_semantic_footprint compare_peers assessment_of semantic_assessment_contract
  assess_semantic_admission r peers = do
    v ← request_semantic_footprint r
    (conflicts, uncertainty) ← compare_peers v peers
    semantic_assessment_contract
        (assessment_of (map (λ p. p.attempt_id) peers) conflicts (v.uncertainty ++ uncertainty))
