-- ===== src/Governor/Scope.antt =====
-- The semantic scope of a lock or a request (core/governor.mjs: `scope`, `scopeOverlap`).
use Prim.Native.String.{◌++◌ as append_text}
use eoduksini.Base.{
  some, none, String, true, not, ◌||◌, List, [], ◌∷◌, ◌++◌, str_eq, any, all, includes,
  if◌then◌else◌, keep,
}
use eoduksini.Base.Dict.{Dict, lookup}
use eoduksini.Base.Json.{text_le}
use eoduksini.Base.Path.{is_safe_path, paths_overlap, is_empty}
use eoduksini.Base.Result.{Result, ok, check, ◌>>◌, ◌>>=◌}
use eoduksini.Base.Sort.{sort_by}
use eoduksini.Base.Text.{codes, is_plain_text}

pub data Reason : Type 0 where
  invalid_contract invalid_scope unsafe_path empty_scope invalid_baseline : Reason
  invalid_lock_identity governor_provider_not_approved invalid_lease lock_id_reused : Reason
  scope_already_locked invalid_time invalid_writer_request lock_recovery_required : Reason
  provider_locked stale_control_epoch decision_lock_mismatch stale_governor_decision : Reason
  baseline_drift invalid_action duplicate_task_action evidence_required : Reason
  independent_verification_required reverification_required : Reason

abbrev pub Checked : Type 0 → Type 0
Checked A = Result Reason A

abbrev pub Done : Type 0
Done = Result Reason (Unit {0})

abbrev pub scope_fields : List String
scope_fields =
    "write_paths" ∷ "symbols" ∷ "api_routes" ∷ "request_contracts" ∷ "response_contracts"
    ∷ "database_objects" ∷ "migration_objects" ∷ "rls_policies" ∷ "environment_keys"
    ∷ "generated_types" ∷ "runtime_services" ∷ []

-- The values of each field; what a field lacks reads as empty.
abbrev pub Scope : Type 0
Scope = Dict (List String)

unfoldable pub values_of : String → Scope → List String
unfolding lookup
values_of f s = elim (lookup f s) [ none ↦ [] | some l ↦ l ]

-- [...new Set(values)]
unfoldable pub unique_texts : List String → List String
unique_texts [] = []
unique_texts (x ∷ xs) = x ∷ keep (λ y. not (str_eq y x)) (unique_texts xs)

normal_values : List String → List String
unfolding unique_texts sort_by
normal_values l = sort_by text_le (unique_texts l)

valid_values : String → List String → Done
unfolding is_plain_text is_safe_path
valid_values f l = do
  check (all is_plain_text l) invalid_scope
  check (not (str_eq f "write_paths") || all (λ p. is_safe_path true (codes p)) l) unsafe_path

normal_fields : Scope → List String → Checked Scope
unfolding values_of valid_values normal_values
normal_fields s [] = ok []
normal_fields s (f ∷ fs) = do
  valid_values f (values_of f s)
  rest ← normal_fields s fs
  ok ((f, normal_values (values_of f s)) ∷ rest)

unfoldable pub scope : Scope → Checked Scope
unfolding normal_fields
scope s = do
  check (all (λ (f, _). includes scope_fields f) s) invalid_scope
  out ← normal_fields s scope_fields
  check (any (λ (_, l). not (is_empty l)) out) empty_scope
  ok out

-- What two values of a field have in common, as the reviewer reads it.
hit : String → String → String → List String
unfolding paths_overlap
hit f a b =
    if str_eq f "write_paths"
    then (if paths_overlap (codes a) (codes b)
        then append_text f (append_text ":" (append_text a (append_text " ~ " b))) ∷ []
        else [])
    else if str_eq a b
    then append_text f (append_text ":" a) ∷ []
    else []

flat_map : (String → List String) → List String → List String
flat_map g [] = []
flat_map g (x ∷ xs) = g x ++ flat_map g xs

field_hits : Scope → Scope → String → List String
unfolding hit flat_map values_of
field_hits l r f = flat_map (λ a. flat_map (hit f a) (values_of f r)) (values_of f l)

unfoldable pub scope_overlap : Scope → Scope → Checked (List String)
unfolding field_hits flat_map scope normal_values
scope_overlap left right = do
  l ← scope left
  r ← scope right
  ok (normal_values (flat_map (field_hits l r) scope_fields))
