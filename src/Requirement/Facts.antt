-- ===== src/Requirement/Facts.antt =====
-- Sets of identifiers, facts and capability selectors of a requirement graph.
use eoduksini.Base.Sort.{sort_by}
use eoduksini.Base.Result.{◌>>◌, ◌>>=◌, check, ok, traverse, err}
use eoduksini.Requirement.Check.{
  Checked, require_array, require_text, assert_closed_object, too_many_items, require_identifier,
  max_long_text, max_facts, get, number_out_of_range, max_short_text, duplicate_key,
  duplicate_value, invalid_interface_kind, no_criterion, invalid_value,
}
use eoduksini.Base.Text.{codes, max_safe}
use eoduksini.Base.Json.{
  Number, Value, str, whole, num, minus, fraction, bool, minus_zero, not_finite,
}
use eoduksini.Base.{
  ℕ, String, Bool, true, false, not, ◌&&◌, Option, none, some, List, [], ◌∷◌, map, ltb, leb, length,
  distinct, if◌then◌else◌, ◌==◌, all, includes,
}

-- The order of `compareCodePoints`: `x` stands before `y` or is the same.
unfoldable pub codes_le : List ℕ → List ℕ → Bool
codes_le [] ys = true
codes_le (x ∷ xs) [] = false
codes_le (x ∷ xs) (y ∷ ys) = if ltb x y then true else if ltb y x then false else codes_le xs ys

abbrev pub code_points_le : String → String → Bool
code_points_le s t = codes_le (codes s) (codes t)

-- `maximum` is the bound on the number of items.
unfoldable pub normalize_string_set : (maximum : ℕ) → Option Value → Checked (List String)
normalize_string_set maximum v = do
  l ← require_array v
  check (leb (length l) maximum) too_many_items
  xs ← traverse (λ x. require_identifier max_short_text (some x)) l
  check (distinct xs) duplicate_value
  ok (sort_by code_points_le xs)

pub data FactValue : Type 0 where
  text : String → FactValue
  number : Number → FactValue
  truth : Bool → FactValue

pub record Fact : Type 0 where
  pub key : String
  pub value : FactValue

-- A number of a fact: finite, and safe if it is an integer; -0 is kept as 0.
number_value : Number → Checked FactValue
number_value (whole n) = do check (leb n max_safe) number_out_of_range; ok (number (whole n))
number_value (minus n) = do check (ltb n max_safe) number_out_of_range; ok (number (minus n))
number_value minus_zero = ok (number (whole 0))
number_value (fraction t) = ok (number (fraction t))
number_value not_finite = err number_out_of_range

fact_value : Option Value → Checked FactValue
unfolding number_value
fact_value (some (str s)) = do t ← require_text max_long_text (some (str s)); ok (text t)
fact_value (some (num n)) = number_value n
fact_value (some (bool b)) = ok (truth b)
fact_value none = err invalid_value
fact_value _ = err invalid_value

fact_of : Value → Checked Fact
unfolding fact_value
fact_of v = do
  assert_closed_object ("key" ∷ "value" ∷ []) v
  k ← require_identifier max_short_text (get "key" v)
  x ← fact_value (get "value" v)
  ok (record { key = k; value = x })

unfoldable pub normalize_facts : Option Value → Checked (List Fact)
unfolding fact_of
normalize_facts v = do
  l ← require_array v
  check (leb (length l) max_facts) too_many_items
  facts ← traverse fact_of l
  check (distinct (map (λ f. f.key) facts)) duplicate_key
  ok (sort_by (λ f g. code_points_le f.key g.key) facts)

abbrev pub interface_kinds : List String
interface_kinds = "skill" ∷ "mcp-tool" ∷ "library" ∷ "cli" ∷ "http" ∷ "workflow" ∷ []

pub record Selector : Type 0 where
  pub classes : List String
  pub kinds : List String
  pub required_protocols : List String
  pub required_runtimes : List String

-- No criterion at all.
selects_nothing : Selector → Bool
selects_nothing s =
    length s.classes == 0
    && length s.kinds == 0
    && length s.required_protocols == 0
    && length s.required_runtimes == 0

unfoldable pub normalize_selector : Value → Checked Selector
unfolding selects_nothing
normalize_selector v = do
  assert_closed_object
      ("classes" ∷ "interfaceKinds" ∷ "requiredProtocols" ∷ "requiredRuntimes" ∷ []) v
  classes ← normalize_string_set max_facts (get "classes" v)
  kinds ← normalize_string_set (length interface_kinds) (get "interfaceKinds" v)
  check (all (includes interface_kinds) kinds) invalid_interface_kind
  protocols ← normalize_string_set max_facts (get "requiredProtocols" v)
  runtimes ← normalize_string_set max_facts (get "requiredRuntimes" v)
  check
      (not (
        selects_nothing (record {
          classes = classes;
          kinds = kinds;
          required_protocols = protocols;
          required_runtimes = runtimes;
        })))
      no_criterion
  ok (record {
    classes = classes;
    kinds = kinds;
    required_protocols = protocols;
    required_runtimes = runtimes;
  })
