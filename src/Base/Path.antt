-- ===== src/Base/Path.antt =====
-- Repository paths and path patterns: `safePath` of core/contracts.mjs, and the literal part of a
-- pattern as core/governor.mjs cuts it off. A path is its list of code points.
use Prim.Native.Nat.{ℕ, ◌+◌}
use mathlib.Core.Bool.{Bool, true, false, not, ◌&&◌, ◌||◌}
use mathlib.Core.List.{List, [], ◌∷◌, ◌++◌, map}
use eoduksini.Base.Tests.{ltb, leb, ◌==◌, if◌then◌else◌}
use eoduksini.Base.Lists.{any}
use eoduksini.Base.Split.{split_on}
use eoduksini.Base.Text.{codes}

abbrev pub slash : ℕ
slash = b'/'

abbrev pub star : ℕ
star = b'*'

-- value.includes(c)
abbrev pub has_code : ℕ → List ℕ → Bool
has_code c = any (λ d. d == c)

abbrev pub is_empty {ℓ} : {A : Type ℓ} → List A → Bool
is_empty [] = true
is_empty (_ ∷ _) = false

-- text.startsWith(prefix)
unfoldable pub is_prefix : (prefix text : List ℕ) → Bool
is_prefix [] t = true
is_prefix (c ∷ p) [] = false
is_prefix (c ∷ p) (d ∷ t) = c == d && is_prefix p t

unfoldable pub equal_codes : List ℕ → List ℕ → Bool
equal_codes [] [] = true
equal_codes [] (d ∷ t) = false
equal_codes (c ∷ s) [] = false
equal_codes (c ∷ s) (d ∷ t) = c == d && equal_codes s t

-- value.split('/')
unfoldable pub parts : List ℕ → List (List ℕ)
unfolding split_on
parts = split_on slash

-- toLowerCase, as far as it can give the letters of the two names below: the Kelvin sign is a k.
lower : ℕ → ℕ
lower c = if leb b'A' c && leb c b'Z' then c + 32 else if c == 0x212A then b'k' else c

-- /[. ]$/
ends_badly : List ℕ → Bool
ends_badly [] = false
ends_badly (c ∷ []) = c == b'.' || c == b' '
ends_badly (c ∷ d ∷ s) = ends_badly (d ∷ s)

unfoldable pub unsafe_part : List ℕ → Bool
unfolding equal_codes lower ends_badly
unsafe_part p =
    is_empty p
    || equal_codes p (codes ".")
    || equal_codes p (codes "..")
    || equal_codes (map lower p) (codes ".git")
    || equal_codes (map lower p) (codes ".eoduksini")
    || ends_badly p

-- A bracket, a brace or a question mark.
is_pattern_code : ℕ → Bool
is_pattern_code c = c == b'?' || c == b'[' || c == b']' || c == b'{' || c == b'}'

-- `safePath(value, {glob})`, without the option `dot`.
unfoldable pub is_safe_path : (glob : Bool) → List ℕ → Bool
unfolding parts unsafe_part is_pattern_code is_prefix
is_safe_path glob s =
    not (is_empty s)
    && not (has_code 92 s)
    && not (is_prefix (slash ∷ []) s)
    && not (any (λ c. c == b':' || ltb c 0x20) s)
    && not (any unsafe_part (parts s))
    && (glob || not (has_code star s))
    && not (any is_pattern_code s)

-- value.split('*')[0]
unfoldable pub literal : List ℕ → List ℕ
literal [] = []
literal (c ∷ s) = if c == star then [] else c ∷ literal s

-- value.replace(/\/$/, '')
unfoldable pub strip_slash : List ℕ → List ℕ
strip_slash [] = []
strip_slash (c ∷ []) = if c == slash then [] else c ∷ []
strip_slash (c ∷ d ∷ s) = c ∷ strip_slash (d ∷ s)

-- Two patterns of `write_paths` may meet in a file: the literal parts are compared.
abbrev pub literals_meet : (a b : List ℕ) → (starred_a starred_b : Bool) → Bool
literals_meet ap bp sa sb =
    equal_codes ap bp
    || is_empty ap
    || is_empty bp
    || is_prefix (bp ++ slash ∷ []) ap
    || is_prefix (ap ++ slash ∷ []) bp
    || (sa && is_prefix ap bp)
    || (sb && is_prefix bp ap)

unfoldable pub paths_overlap : List ℕ → List ℕ → Bool
unfolding literal strip_slash equal_codes is_prefix
paths_overlap a b =
    literals_meet (strip_slash (literal a)) (strip_slash (literal b)) (has_code star a)
      (has_code star b)
