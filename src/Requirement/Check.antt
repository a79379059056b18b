-- ===== src/Requirement/Check.antt =====
-- The guards that the parts of a requirement graph share. The value is JSON: what JSON cannot hold
-- (accessors, symbols, cycles, foreign prototypes, holes in arrays) is excluded by its type. The
-- label of a message is left out of its reason.
use Prim.Native.Char.{Char, code}
use Prim.Native.String.{slice, len}
use eoduksini.Base.{
  ℕ, String, ◌+◌, Bool, true, not, ◌&&◌, ◌||◌, Option, none, some, List, [], ◌∷◌, str_eq, ltb, leb,
  ◌==◌, length, includes, if◌then◌else◌, suc,
}
use eoduksini.Base.Json.{
  Value, null, bool, num, str, arr, obj, Items, nil, cons, Fields, end, field, whole, minus_zero,
}
use eoduksini.Base.Result.{Result, ok, err, check, ◌>>=◌, ◌>>◌}
use eoduksini.Base.Text.{codes, matches_hex, prototype_names, max_safe}

pub data Reason : Type 0 where
  too_much_data too_deep array_too_long forbidden_key not_an_object unexpected_field : Reason
  not_an_array not_text text_required text_too_long forbidden_identifier not_a_digest : Reason
  not_positive not_non_negative not_boolean too_many_items duplicate_value invalid_value : Reason
  number_out_of_range duplicate_key invalid_interface_kind no_criterion nodes_required : Reason
  invalid_kind invalid_priority criteria_required duplicate_criteria duplicate_node : Reason
  missing_dependency dependency_cycle no_mandatory_selector currency_required : Reason
  invalid_billing_period age_too_large missing_node currency_mismatch period_mismatch : Reason
  invalid_effect invalid_target_kind invalid_stage duplicate_intent invalid_context : Reason
  vocabulary_mismatch unknown_fact_key unknown_class verifier_required rule_not_active : Reason
  rule_not_applicable invalid_lane invalid_schema_version integrity_mismatch : Reason
  not_a_date_time invalid_date_time expiry_not_after tenant_mismatch project_mismatch : Reason
  graph_digest_mismatch not_yet_authorized authorization_expired receipt_rejected : Reason
  not_canonical : Reason

abbrev pub Checked {ℓ} : Type ℓ → Type ℓ
Checked A = Result Reason A

abbrev pub Done : Type 0
Done = Result Reason (Unit {0})

abbrev pub max_facts : ℕ
max_facts = 256

abbrev pub max_nodes : ℕ
max_nodes = 256

abbrev pub max_dependencies : ℕ
max_dependencies = 32

abbrev pub max_short_text : ℕ
max_short_text = 128

abbrev pub max_long_text : ℕ
max_long_text = 2000

length_items : Items → ℕ
length_items nil = 0
length_items (cons v l) = suc (length_items l)

abbrev pub max_entries : ℕ
max_entries = 100000

abbrev pub max_depth : ℕ
max_depth = 32

abbrev pub max_array : ℕ
max_array = 8192

-- `visit` of `assertSafeDataTree`: from the number of entries seen so far to the number seen.
unfoldable mutual
  unfolding length_items

  pub visit : Value → (depth seen : ℕ) → Checked ℕ
  visit (arr l) depth seen = do
    check (leb (seen + 1) max_entries) too_much_data
    check (leb depth max_depth) too_deep
    check (leb (length_items l) max_array) array_too_long
    visit_items l (depth + 1) (seen + 1)
  visit (obj f) depth seen = do
    check (leb (seen + 1) max_entries) too_much_data
    check (leb depth max_depth) too_deep
    visit_fields f (depth + 1) (seen + 1)
  visit null depth seen = do
    check (leb (seen + 1) max_entries) too_much_data
    check (leb depth max_depth) too_deep
    ok (seen + 1)
  visit (bool b) depth seen = do
    check (leb (seen + 1) max_entries) too_much_data
    check (leb depth max_depth) too_deep
    ok (seen + 1)
  visit (num n) depth seen = do
    check (leb (seen + 1) max_entries) too_much_data
    check (leb depth max_depth) too_deep
    ok (seen + 1)
  visit (str s) depth seen = do
    check (leb (seen + 1) max_entries) too_much_data
    check (leb depth max_depth) too_deep
    ok (seen + 1)

  pub visit_items : Items → (depth seen : ℕ) → Checked ℕ
  visit_items nil depth seen = ok seen
  visit_items (cons v l) depth seen = do seen' ← visit v depth seen; visit_items l depth seen'

  pub visit_fields : Fields → (depth seen : ℕ) → Checked ℕ
  visit_fields end depth seen = ok seen
  visit_fields (field k v f) depth seen = do
    check (not (includes prototype_names k)) forbidden_key
    seen' ← visit v depth seen
    visit_fields f depth seen'

unfoldable pub assert_safe_data_tree : Value → Done
unfolding visit
assert_safe_data_tree v = visit v 0 0 >>= λ seen. ok tt

-- A property of an object; what is no object has none.
lookup_field : String → Fields → Option Value
lookup_field k end = none
lookup_field k (field j v f) = if str_eq j k then some v else lookup_field k f

unfoldable pub get : String → Value → Option Value
unfolding lookup_field
get k (obj f) = lookup_field k f
get k null = none
get k _ = none

closed_fields : List String → Fields → Bool
closed_fields allowed end = true
closed_fields allowed (field k v f) = includes allowed k && closed_fields allowed f

unfoldable pub assert_closed_object : List String → Value → Done
unfolding closed_fields
assert_closed_object allowed (obj f) = check (closed_fields allowed f) unexpected_field
assert_closed_object allowed null = err not_an_object
assert_closed_object allowed _ = err not_an_object

to_list : Items → List Value
to_list nil = []
to_list (cons v l) = v ∷ to_list l

unfoldable pub require_array : Option Value → Checked (List Value)
unfolding to_list
require_array (some (arr l)) = ok (to_list l)
require_array none = err not_an_array
require_array _ = err not_an_array

-- The white space that `trim` removes.
is_space : ℕ → Bool
is_space c =
    c == 0x20
    || (leb 9 c && leb c 13)
    || c == 0xA0
    || c == 0x1680
    || (leb 0x2000 c && leb c 0x200A)
    || c == 0x2028
    || c == 0x2029
    || c == 0x202F
    || c == 0x205F
    || c == 0x3000
    || c == 0xFEFF

trim_start : String → String
unfolding is_space
trim_start String.[] = String.[]
trim_start (String.◌∷◌ c s) = if is_space (code c) then trim_start s else String.◌∷◌ c s

push_end : Char → String → String
unfolding is_space
push_end c String.[] = if is_space (code c) then String.[] else String.◌∷◌ c String.[]
push_end c (String.◌∷◌ d s) = String.◌∷◌ c (String.◌∷◌ d s)

trim_end : String → String
unfolding push_end
trim_end String.[] = String.[]
trim_end (String.◌∷◌ c s) = push_end c (trim_end s)

unfoldable pub trim : String → String
unfolding trim_start trim_end
trim s = trim_end (trim_start s)

unfoldable pub require_text : ℕ → Option Value → Checked String
unfolding trim
require_text maximum (some (str s)) = do
  check (not (str_eq (trim s) "")) text_required
  check (leb (length (codes (trim s))) maximum) text_too_long
  ok (trim s)
require_text maximum none = err not_text
require_text maximum _ = err not_text

unfoldable pub require_identifier : ℕ → Option Value → Checked String
require_identifier maximum v = do
  s ← require_text maximum v
  check (not (includes prototype_names s)) forbidden_identifier
  ok s

-- /^sha256:[a-f0-9]{64}$/
unfoldable pub is_digest : String → Bool
unfolding matches_hex
is_digest s = str_eq (slice s 0 7) "sha256:" && matches_hex 64 (slice s 7 (len s))

unfoldable pub require_digest : Option Value → Checked String
require_digest (some (str s)) = do check (is_digest s) not_a_digest; ok s
require_digest none = err not_a_digest
require_digest _ = err not_a_digest

unfoldable pub require_positive : Option Value → Checked ℕ
require_positive (some (num (whole n))) = do check (leb n max_safe && ltb 0 n) not_positive; ok n
require_positive none = err not_positive
require_positive _ = err not_positive

-- -0 passes; what is kept of it is 0, as the canonical text has it.
unfoldable pub require_non_negative : Option Value → Checked ℕ
require_non_negative (some (num (whole n))) = do check (leb n max_safe) not_non_negative; ok n
require_non_negative (some (num minus_zero)) = ok 0
require_non_negative none = err not_non_negative
require_non_negative _ = err not_non_negative

unfoldable pub require_boolean : Option Value → Checked Bool
require_boolean (some (bool b)) = ok b
require_boolean none = err not_boolean
require_boolean _ = err not_boolean

-- A text of a closed list; any other value is refused with the given reason.
unfoldable pub require_choice : List String → Reason → Option Value → Checked String
require_choice choices reason (some (str s)) = do check (includes choices s) reason; ok s
require_choice choices reason none = err reason
require_choice choices reason _ = err reason
