-- ===== src/Requirement/Canonical.antt =====
-- The canonical text and the digests of the engine (packages/engine-primitives/canonical.mjs) on
-- JSON data. What JSON cannot hold is excluded by the type of values.
use eoduksini.Base.Text.{codes}
use eoduksini.Base.Result.{Result, ◌>>=◌, ok, err}
use eoduksini.Base.{
  ℕ, String, Bool, true, false, ◌&&◌, Option, none, some, List, [], ◌∷◌, leb, ltb, if◌then◌else◌,
  ◌+◌, ◌*◌, ◌-◌, ◌==◌,
}
use eoduksini.Base.Json.{
  Value, null, bool, num, str, arr, obj, Items, nil, cons, Fields, end, field, whole, minus,
  minus_zero, fraction, not_finite, text_le, Printer,
}
use Prim.Native.String.{◌++◌ as append_text}

pub data NotCanonical : Type 0 where
  non_finite_number : NotCanonical

is_digit : ℕ → Bool
is_digit c = leb 0x30 c && leb c 0x39

-- The number that some digits write, after the digits before them.
decimal : ℕ → List ℕ → Option ℕ
unfolding is_digit
decimal n [] = some n
decimal n (c ∷ l) = let rest = decimal (10 * n + (c - 0x30)) l in if is_digit c then rest else none

-- An integer key, which an object enumerates before its other keys: its number.
index_key : List ℕ → Option ℕ
unfolding decimal
index_key [] = none
index_key (c ∷ []) = decimal 0 (c ∷ [])
index_key (c ∷ d ∷ l) = if c == 0x30 then none else elim (decimal 0 (c ∷ d ∷ l)) [
  | none ↦ none
  | some n ↦ if ltb n 4294967295 then some n else none
]

-- The order in which the properties of a sorted object are enumerated.
property_le : String → String → Bool
unfolding index_key
property_le j k = elim (index_key (codes j)) [
  | none ↦ elim (index_key (codes k)) [ none ↦ text_le j k | some _ ↦ false ]
  | some m ↦ elim (index_key (codes k)) [ none ↦ true | some n ↦ leb m n ]
]

insert_property : String → Value → Fields → Fields
unfolding property_le
insert_property k v end = field k v end
insert_property k v (field j w f) =
    if property_le k j then field k v (field j w f) else field j w (insert_property k v f)

unfoldable mutual
  unfolding insert_property

  pub canonicalize : Value → Result NotCanonical Value
  canonicalize null = ok null
  canonicalize (bool b) = ok (bool b)
  canonicalize (str s) = ok (str s)
  canonicalize (num not_finite) = err non_finite_number
  canonicalize (num minus_zero) = ok (num (whole 0))
  canonicalize (num (whole n)) = ok (num (whole n))
  canonicalize (num (minus n)) = ok (num (minus n))
  canonicalize (num (fraction t)) = ok (num (fraction t))
  canonicalize (arr l) = canonicalize_items l >>= λ l'. ok (arr l')
  canonicalize (obj f) = canonicalize_fields f >>= λ f'. ok (obj f')

  pub canonicalize_items : Items → Result NotCanonical Items
  canonicalize_items nil = ok nil
  canonicalize_items (cons v l) =
      canonicalize v >>= λ v'. canonicalize_items l >>= λ l'. ok (cons v' l')

  pub canonicalize_fields : Fields → Result NotCanonical Fields
  canonicalize_fields end = ok end
  canonicalize_fields (field k v f) =
      canonicalize v >>= λ v'. canonicalize_fields f >>= λ f'. ok (insert_property k v' f')

-- The runtime's printing of texts and numbers, and SHA-256 in hexadecimal digits.
pub record Engine : Type 0 where
  pub printer : Printer
  pub sha256 : String → String

infixr 66 ◌&◌
abbrev ◌&◌ : String → String → String
s & t = append_text s t

module _ (e : Engine) where
  unfoldable mutual
    pub stringify : Value → String
    stringify null = "null"
    stringify (bool true) = "true"
    stringify (bool false) = "false"
    stringify (num n) = e.printer.print_number n
    stringify (str s) = e.printer.print_text s
    stringify (arr l) = "[" & stringify_items l & "]"
    stringify (obj f) = "{" & stringify_fields f & "}"

    pub stringify_items : Items → String
    stringify_items nil = ""
    stringify_items (cons v nil) = stringify v
    stringify_items (cons v (cons w l)) = stringify v & "," & stringify_items (cons w l)

    pub stringify_fields : Fields → String
    stringify_fields end = ""
    stringify_fields (field k v end) = e.printer.print_text k & ":" & stringify v
    stringify_fields (field k v (field j w f)) =
        e.printer.print_text k & ":" & stringify v & "," & stringify_fields (field j w f)

  unfoldable pub canonical_stringify : Value → Result NotCanonical String
  unfolding stringify canonicalize
  canonical_stringify v = canonicalize v >>= λ v'. ok (stringify v')

  unfoldable pub sha256_digest : (text domain : String) → String
  sha256_digest text domain = "sha256:" & e.sha256 ("eoduksini-engine:" & domain & "\0" & text)

  unfoldable pub digest_canonical : Value → (domain : String) → Result NotCanonical String
  digest_canonical v domain = canonical_stringify v >>= λ t. ok (sha256_digest t domain)
