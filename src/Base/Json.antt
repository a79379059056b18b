-- ===== src/Base/Json.antt =====
-- JSON values and their canonical text (core/contracts.mjs, `canonical`). Objects keep their own
-- properties in insertion order. A number is one of the classes that the code tells apart.
use Prim.Native.Nat.{ℕ}
use Prim.Native.String.{String, ◌++◌ as append_text, compare}
use Prim.Native.Nat.{Ordering}
use mathlib.Core.Bool.{Bool, true, false}
use mathlib.Core.List.{List, [], ◌∷◌}
use eoduksini.Base.Tests.{if◌then◌else◌}

-- An IEEE double: a whole number from zero on, -(n + 1), -0, another finite number (by its shortest
-- decimal text), or none of these (NaN and the infinities).
pub data Number : Type 0 where
  whole : ℕ → Number
  minus : ℕ → Number
  minus_zero : Number
  fraction : String → Number
  not_finite : Number

mutual
  pub data Value : Type 0 where
    null : Value
    bool : Bool → Value
    num : Number → Value
    str : String → Value
    arr : Items → Value
    obj : Fields → Value

  pub data Fields : Type 0 where
    end : Fields
    field : String → Value → Fields → Fields

  pub data Items : Type 0 where
    nil : Items
    cons : Value → Items → Items

-- `JSON.stringify` on a text and on a finite number: the runtime's.
pub record Printer : Type 0 where
  pub print_text : String → String
  pub print_number : Number → String

abbrev pub text_le : String → String → Bool
text_le s t = elim (compare s t) [ Ordering.gt ↦ false | _ ↦ true ]

-- Keys in the order of `sort()`, each with the text of its value.
insert_key : String → String → List (String × String) → List (String × String)
insert_key k v [] = (k, v) ∷ []
insert_key k v ((j, w) ∷ l) = if text_le k j then (k, v) ∷ (j, w) ∷ l else (j, w) ∷ insert_key k v l

sort_keys : List (String × String) → List (String × String)
unfolding insert_key
sort_keys [] = []
sort_keys ((k, v) ∷ l) = insert_key k v (sort_keys l)

infixr 66 ◌&◌
abbrev ◌&◌ : String → String → String
s & t = append_text s t

join_items : List String → String
join_items [] = ""
join_items (x ∷ []) = x
join_items (x ∷ y ∷ l) = x & "," & join_items (y ∷ l)

module _ (p : Printer) where
  join_fields : List (String × String) → String
  join_fields [] = ""
  join_fields ((k, v) ∷ []) = p.print_text k & ":" & v
  join_fields ((k, v) ∷ f ∷ l) = p.print_text k & ":" & v & "," & join_fields (f ∷ l)

  unfoldable mutual
    unfolding sort_keys join_items join_fields

    pub canonical : Value → String
    canonical null = "null"
    canonical (bool true) = "true"
    canonical (bool false) = "false"
    canonical (num n) = p.print_number n
    canonical (str s) = p.print_text s
    canonical (arr l) = "[" & join_items (canonical_items l) & "]"
    canonical (obj f) = "{" & join_fields (sort_keys (canonical_fields f)) & "}"

    pub canonical_items : Items → List String
    canonical_items nil = []
    canonical_items (cons v l) = canonical v ∷ canonical_items l

    pub canonical_fields : Fields → List (String × String)
    canonical_fields end = []
    canonical_fields (field k v f) = (k, canonical v) ∷ canonical_fields f
