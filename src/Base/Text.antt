-- ===== src/Base/Text.antt =====
-- The regular expressions that the contracts share, as tests on the characters of a text.
use eoduksini.Base.{◌+◌, if◌then◌else◌, ◌++◌, ◌≡◌, arith, ap, ◌∙◌}
use Prim.Native.Char.{code}
use Prim.Native.Nat.{ℕ}
use Prim.Native.String.{String, ◌++◌ as append_text}
use Prim.Native.String.append
use mathlib.Core.Bool.{Bool, false, not, ◌&&◌, ◌||◌}
use mathlib.Core.List.{List, [], ◌∷◌}
use eoduksini.Base.Tests.{ltb, leb, ◌==◌}
use eoduksini.Base.Lists.{length, all}

abbrev pub codes : String → List ℕ
codes String.[] = []
codes (String.◌∷◌ c s) = code c ∷ codes s

pub codes-append : (s t : String) → codes (append_text s t) ≡ codes s ++ codes t
codes-append String.[] t = ap codes (append.nil t)
codes-append (String.◌∷◌ c s) t =
    ap codes (append.cons c s t) ∙ ap (λ l. code c ∷ l) (codes-append s t)

-- Buffer.byteLength: the length in UTF-8.
abbrev utf8_size : ℕ → ℕ
utf8_size c = if ltb c 0x80 then 1 else if ltb c 0x800 then 2 else if ltb c 0x10000 then 3 else 4

abbrev pub byte_length : List ℕ → ℕ
byte_length [] = 0
byte_length (c ∷ l) = utf8_size c + byte_length l

pub byte_length-append : (a b : List ℕ) → byte_length (a ++ b) ≡ byte_length a + byte_length b
byte_length-append [] b = omega arith
byte_length-append (c ∷ a) b = omega (arith, byte_length-append a b)

between : ℕ → ℕ → ℕ → Bool
between lo hi c = leb lo c && leb c hi

unfoldable pub is_alphanumeric : ℕ → Bool
unfolding between
is_alphanumeric c = between b'A' b'Z' c || between b'a' b'z' c || between b'0' b'9' c

is_id_part : ℕ → Bool
unfolding is_alphanumeric
is_id_part c = is_alphanumeric c || c == b'.' || c == b'_' || c == b'-'

id_codes : List ℕ → Bool
unfolding is_id_part
id_codes [] = false
id_codes (c ∷ cs) = is_alphanumeric c && all is_id_part cs && leb (length cs) 127

-- /^[A-Za-z0-9][A-Za-z0-9._-]{0,127}$/
unfoldable pub matches_id : String → Bool
unfolding id_codes
matches_id s = id_codes (codes s)

-- /^[0-9a-f]{n}$/
is_hex : ℕ → Bool
unfolding between
is_hex c = between b'0' b'9' c || between b'a' b'f' c

unfoldable pub matches_hex : ℕ → String → Bool
unfolding is_hex
matches_hex n s = length (codes s) == n && all is_hex (codes s)

-- A text with a character that is not a control character below 0x20, and none that is.
unfoldable pub is_plain_text : String → Bool
is_plain_text s = not (length (codes s) == 0) && all (λ c. leb 0x20 c) (codes s)

abbrev pub prototype_names : List String
prototype_names = "constructor" ∷ "prototype" ∷ "__proto__" ∷ []

abbrev pub max_safe : ℕ
max_safe = 9007199254740991

-- Number.isSafeInteger(n) && n > 0
abbrev pub positive : ℕ → Bool
positive n = ltb 0 n && leb n max_safe
