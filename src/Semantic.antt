-- ===== src/Semantic.antt =====
-- Semantic admission (core/semantic.mjs): the footprint of a request, the comparison of two footprints,
-- and the assessment of a request against its peers. What the code reads is modelled; the scan of a
-- repository that makes a footprint is not. A record that the JSON schema checks (`validate`) is a
-- parameter, as is the reading of a number between 0 and 1 from its text.
pub mod Compare
pub mod Admission
pub mod Clear
mod Samples
use eoduksini.Governor.Scope.{unique_texts, values_of}
use eoduksini.Base.Json.{
  field as property, Items, Printer, text_le, canonical, Number, nil, obj, arr, whole, fraction,
  cons, minus_zero, str, num, end,
}
use eoduksini.Base.Dict.{Dict, has}
use eoduksini.Base.Result.{Result, ok, ◌>>◌, check, ◌>>=◌, traverse}
use eoduksini.Base.Text.{is_plain_text, codes}
use eoduksini.Base.Path.{unsafe_part, is_safe_path, is_prefix, parts, is_empty, has_code, slash}
use eoduksini.Base.Sort.{sort_by}
use eoduksini.Base.{
  ℕ, String, Bool, true, false, not, ◌&&◌, ◌||◌, List, [], ◌∷◌, ◌++◌, ◌==◌, if◌then◌else◌, str_eq,
  ltb, keep, leb, ◌+◌, length, all, map, any,
}

pub data Reason : Type 0 where
  unsafe_tracked_path unsafe_path invalid_semantic_footprint invalid_semantic_assessment : Reason

abbrev pub Checked : Type 0 → Type 0
Checked A = Result Reason A

abbrev pub Done : Type 0
Done = Result Reason (Unit {0})

-- The fields but `read_paths`.
abbrev pub conflict_fields : List String
conflict_fields =
    "write_paths" ∷ "symbols" ∷ "api_routes" ∷ "request_contracts" ∷ "response_contracts"
    ∷ "database_objects" ∷ "migration_objects" ∷ "environment_keys" ∷ "generated_types"
    ∷ "runtime_services" ∷ "dependencies" ∷ []

abbrev pub footprint_fields : List String
footprint_fields = "read_paths" ∷ conflict_fields

pub record Uncertainty : Type 0 where
  pub subject : String
  pub reason : String
  pub confidence : Number

-- The fields with their values, and what is uncertain.
pub record Footprint : Type 0 where
  pub facts : Dict (List String)
  pub uncertainty : List Uncertainty

pub record Checks : Type 0 where
  pub printer : Printer
  -- validate('semantic-footprint', value)
  pub valid_schema : Footprint → Bool
  pub in_unit : String → Bool

-- The length of a text in UTF-16.
utf16_length : List ℕ → ℕ
utf16_length [] = 0
utf16_length (c ∷ l) = (if ltb c 0x10000 then 1 else 2) + utf16_length l

unfoldable pub text : String → Bool
unfolding utf16_length is_plain_text
text s = is_plain_text s && leb (utf16_length (codes s)) 512

-- A finite number from 0 to 1.
is_confidence : Checks → Number → Bool
is_confidence k (whole n) = leb n 1
is_confidence k minus_zero = true
is_confidence k (fraction t) = k.in_unit t
is_confidence k _ = false

tracked_path : List ℕ → Bool
unfolding utf16_length unsafe_part is_prefix parts
tracked_path p =
    not (is_empty p)
    && leb (utf16_length p) 512
    && not (has_code 92 p)
    && not (is_prefix (slash ∷ []) p)
    && not (any (λ c. c == b':' || ltb c 0x20) p)
    && not (any unsafe_part (parts p))

-- [...new Set(values)].sort()
unfoldable pub sorted : List String → List String
unfolding unique_texts sort_by
sorted l = sort_by text_le (unique_texts l)

text_items : List String → Items
text_items [] = nil
text_items (s ∷ l) = cons (str s) (text_items l)

-- canonical(values)
unfoldable pub canonical_texts : Checks → List String → String
unfolding text_items canonical
canonical_texts k l = canonical k.printer (arr (text_items l))

unfoldable pub uncertainty_text : Checks → Uncertainty → String
unfolding canonical
uncertainty_text k u = canonical k.printer (
    obj (
      property "subject" (str u.subject)
        (property "reason" (str u.reason) (property "confidence" (num u.confidence) end))))

-- [...new Map(items.map(item => [canonical(item), item])).values()]: one item of each text.
unfoldable pub unique_by {ℓ} : {A : Type ℓ} → (A → String) → List A → List A
unique_by key [] = []
unique_by key (x ∷ xs) = x ∷ keep (λ y. not (str_eq (key y) (key x))) (unique_by key xs)

-- `sort(compareCanonical)`
abbrev pub by_text {ℓ} : {A : Type ℓ} → (A → String) → A → A → Bool
by_text key x y = text_le (key x) (key y)

abbrev pub same_texts : List String → List String → Bool
same_texts [] [] = true
same_texts (x ∷ xs) (y ∷ ys) = str_eq x y && same_texts xs ys
same_texts _ _ = false

pub each : (String → Done) → List String → Done
each f [] = ok tt
each f (x ∷ xs) = do f x; each f xs

module _ (k : Checks) where
  pub uncertainty_contract : Uncertainty → Checked Uncertainty
  unfolding is_confidence text
  uncertainty_contract u = do
    check (text u.subject && text u.reason && is_confidence k u.confidence)
        invalid_semantic_footprint
    ok u

  pub check_field : Footprint → String → Done
  unfolding tracked_path is_safe_path canonical_texts sorted values_of text
  check_field v f = do
    check (all text (values_of f v.facts)) invalid_semantic_footprint
    check (not (str_eq f "read_paths") || all (λ p. tracked_path (codes p)) (values_of f v.facts))
        unsafe_tracked_path
    check
        (not (str_eq f "write_paths")
          || all (λ p. is_safe_path true (codes p)) (values_of f v.facts))
        unsafe_path
    check
        (str_eq (canonical_texts k (sorted (values_of f v.facts)))
          (canonical_texts k (values_of f v.facts)))
        invalid_semantic_footprint

  -- The output is the value, which is in its normal form.
  unfoldable pub semantic_footprint_contract : Footprint → Checked Footprint
  unfolding check_field each uncertainty_contract sort_by uncertainty_text
  semantic_footprint_contract v = do
    check (k.valid_schema v) invalid_semantic_footprint
    check (length v.facts == 12 && all (λ f. has f v.facts) footprint_fields)
        invalid_semantic_footprint
    each (check_field v) footprint_fields
    items ← traverse uncertainty_contract v.uncertainty
    check
        (same_texts (map (uncertainty_text k) (sort_by (by_text (uncertainty_text k)) items))
          (map (uncertainty_text k) v.uncertainty))
        invalid_semantic_footprint
    ok v
