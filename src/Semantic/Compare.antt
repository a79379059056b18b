-- ===== src/Semantic/Compare.antt =====
-- `compareSemanticFootprints` of core/semantic.mjs.
use eoduksini.Base.Result.{◌>>=◌, ok}
use eoduksini.Base.Sort.{sort_by}
use eoduksini.Base.Text.{codes}
use eoduksini.Controller.Types.{
  AssessmentStatus, manual_decision_required, semantic_conflict, non_overlapping,
}
use eoduksini.Base.Path.{paths_overlap}
use eoduksini.Governor.Scope.{values_of}
use eoduksini.Base.Json.{field as property, canonical, obj, str, end}
use eoduksini.Base.{String, Bool, List, [], ◌∷◌, ◌++◌, if◌then◌else◌, str_eq}
use eoduksini.Semantic.{
  Checked, Checks, Footprint, Uncertainty, semantic_footprint_contract, unique_by, uncertainty_text,
  conflict_fields, by_text,
}

pub record Conflict : Type 0 where
  pub field : String
  pub left : String
  pub right : String

-- The status of an assessment, as it follows from the two lists.
unfoldable pub status_of {ℓ κ} :
    {A : Type ℓ} {B : Type κ} → (uncertainty : List A) → (conflicts : List B) → AssessmentStatus
status_of (_ ∷ _) _ = manual_decision_required
status_of [] (_ ∷ _) = semantic_conflict
status_of [] [] = non_overlapping

unfoldable pub clash : String → String → String → Bool
unfolding paths_overlap
clash f a b = if str_eq f "write_paths" then paths_overlap (codes a) (codes b) else str_eq a b

unfoldable pub right_conflicts : String → String → List String → List Conflict
unfolding clash
right_conflicts f a [] = []
right_conflicts f a (b ∷ bs) =
    let rest = right_conflicts f a bs in
    if clash f a b then record { field = f; left = a; right = b } ∷ rest else rest

unfoldable pub left_conflicts : String → List String → List String → List Conflict
unfolding right_conflicts
left_conflicts f [] bs = []
left_conflicts f (a ∷ ls) bs = right_conflicts f a bs ++ left_conflicts f ls bs

unfoldable pub field_conflicts : Footprint → Footprint → List String → List Conflict
unfolding left_conflicts values_of
field_conflicts l r [] = []
field_conflicts l r (f ∷ fs) =
    left_conflicts f (values_of f l.facts) (values_of f r.facts) ++ field_conflicts l r fs

pub record Comparison : Type 0 where
  pub status : AssessmentStatus
  pub conflicts : List Conflict
  pub uncertainty : List Uncertainty

module _ (k : Checks) where
  pub conflict_text : Conflict → String
  unfolding canonical
  conflict_text c = canonical k.printer (
      obj (
        property "field" (str c.field)
          (property "left" (str c.left) (property "right" (str c.right) end))))

  unfoldable pub comparison_of : Footprint → Footprint → Comparison
  unfolding field_conflicts status_of unique_by sort_by conflict_text uncertainty_text
  comparison_of l r = record {
    status = status_of (l.uncertainty ++ r.uncertainty) (field_conflicts l r conflict_fields);
    conflicts =
        sort_by (by_text conflict_text)
          (unique_by conflict_text (field_conflicts l r conflict_fields));
    uncertainty =
        sort_by (by_text (uncertainty_text k))
          (unique_by (uncertainty_text k) (l.uncertainty ++ r.uncertainty));
  }

  unfoldable pub compare_semantic_footprints : Footprint → Footprint → Checked Comparison
  unfolding semantic_footprint_contract
  compare_semantic_footprints left right = do
    l ← semantic_footprint_contract k left
    r ← semantic_footprint_contract k right
    ok (comparison_of l r)
