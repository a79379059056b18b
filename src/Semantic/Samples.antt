-- ===== src/Semantic/Samples.antt =====
-- Two requests beside each other, and the theorems about admission at them.
use eoduksini.Base.Result.{ok}
use eoduksini.Base.Sort.{sort_by}
use eoduksini.Base.Split.{split_on}
use eoduksini.Base.Path.{
  paths_overlap, is_prefix, equal_codes, literal, strip_slash, parts, is_safe_path,
}
use eoduksini.Semantic.Clear.{admission-clear, admission-files, Peaceful}
use eoduksini.Semantic.Compare.{
  clash, compare_semantic_footprints, comparison_of, field_conflicts, left_conflicts,
  right_conflicts, status_of,
}
use eoduksini.Base.Text.{codes}
use eoduksini.Governor.Scope.{values_of}
use eoduksini.Controller.Types.{non_overlapping, semantic_conflict}
use eoduksini.Pattern.{fits, matches, items}
use eoduksini.Semantic.{
  Footprint, Checks, semantic_footprint_contract, text, canonical_texts, unique_by,
}
use eoduksini.Semantic.Admission.{
  Subject, Peer, assess_semantic_admission, Assessment, declared_footprint,
  request_semantic_footprint, compare_peers, assessment_of, semantic_assessment_contract, with_peer,
}
use eoduksini.Base.{String, true, [], ◌∷◌, ◌≡◌, refl, some, ◌≢◌, All}

abbrev lax_checks : Checks
lax_checks = record {
  printer = record { print_text = λ s. s; print_number = λ n. "0" };
  valid_schema = λ v. true;
  in_unit = λ t. true;
}

abbrev writes : String → Footprint
writes path = record {
  facts =
      ("read_paths", [])
      ∷ ("write_paths", path ∷ [])
      ∷ ("symbols", "run" ∷ [])
      ∷ ("api_routes", [])
      ∷ ("request_contracts", [])
      ∷ ("response_contracts", [])
      ∷ ("database_objects", [])
      ∷ ("migration_objects", [])
      ∷ ("environment_keys", [])
      ∷ ("generated_types", [])
      ∷ ("runtime_services", [])
      ∷ ("dependencies", [])
      ∷ [];
  uncertainty = [];
}

abbrev core_writer : Subject
core_writer = record {
  attempt_id = "a1";
  scope = [];
  semantic_footprint = some (writes "src/core/**");
}

abbrev studio_writer : Peer
studio_writer = record {
  attempt_id = "a2";
  semantic_footprint = record (writes "src/studio/*.mjs") {
    facts =
        ("read_paths", [])
        ∷ ("write_paths", "src/studio/*.mjs" ∷ [])
        ∷ ("symbols", "start" ∷ [])
        ∷ ("api_routes", [])
        ∷ ("request_contracts", [])
        ∷ ("response_contracts", [])
        ∷ ("database_objects", [])
        ∷ ("migration_objects", [])
        ∷ ("environment_keys", [])
        ∷ ("generated_types", [])
        ∷ ("runtime_services", [])
        ∷ ("dependencies", [])
        ∷ [];
  };
}

abbrev assessment : Assessment
assessment = record {
  status = non_overlapping;
  compared_attempt_ids = "a2" ∷ [];
  conflicts = [];
  uncertainty = [];
}

assessed : assess_semantic_admission lax_checks core_writer (studio_writer ∷ []) ≡ ok assessment
unfolding assess_semantic_admission request_semantic_footprint declared_footprint compare_peers
    assessment_of semantic_assessment_contract compare_semantic_footprints
    semantic_footprint_contract text canonical_texts values_of comparison_of field_conflicts
    left_conflicts right_conflicts clash paths_overlap status_of with_peer unique_by is_prefix
    equal_codes literal strip_slash split_on parts is_safe_path sort_by
assessed = refl

-- The same symbol in both footprints is a conflict.
conflicting :
    assess_semantic_admission lax_checks core_writer
      (record studio_writer { semantic_footprint = writes "src/studio" } ∷ [])
    ≡ ok (record assessment {
      status = semantic_conflict;
      conflicts =
          record { field = "symbols"; left = "run"; right = "run"; other_attempt_id = "a2" } ∷ [];
    })
unfolding assess_semantic_admission request_semantic_footprint declared_footprint compare_peers
    assessment_of semantic_assessment_contract compare_semantic_footprints
    semantic_footprint_contract text canonical_texts values_of comparison_of field_conflicts
    left_conflicts right_conflicts clash paths_overlap status_of with_peer unique_by is_prefix
    equal_codes literal strip_slash split_on parts is_safe_path sort_by
conflicting = refl

admission-clear_example :
    ((declared_footprint core_writer).uncertainty ≡ [])
    × All (Peaceful (declared_footprint core_writer)) (studio_writer ∷ [])
admission-clear_example = admission-clear lax_checks core_writer (studio_writer ∷ []) assessed refl

core_file : matches (λ l. l) (codes "src/core/a.mjs") (codes "src/core/**") ≡ some true
unfolding matches items fits is_safe_path is_prefix equal_codes parts split_on
core_file = refl

admission-files_example :
    matches (λ l. l) (codes "src/core/a.mjs") (codes "src/studio/*.mjs") ≢ some true
unfolding declared_footprint values_of
admission-files_example =
    admission-files lax_checks (λ l. l) core_writer [] [] studio_writer (codes "src/core/a.mjs")
      "src/core/**" "src/studio/*.mjs" assessed refl refl refl refl refl core_file
