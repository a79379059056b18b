-- ===== src/Pattern.antt =====
-- `matches` of core/contracts.mjs: whether a pattern of write paths has a file. The regular expression
-- that the code builds is the list of its items here. A path is its code points; `fold` is
-- `toLowerCase` on Windows, and leaves a path as it is elsewhere.
pub mod Sound
mod Samples
use eoduksini.Base.Path.{star, slash, is_safe_path, is_prefix, has_code}
use eoduksini.Base.{
  ℕ, Bool, true, false, not, ◌&&◌, ◌||◌, List, [], ◌∷◌, ◌++◌, ◌==◌, if◌then◌else◌, Option, some,
  none,
}

-- A character, `[^/]*` for a star, `.*` for two.
pub data Item : Type 0 where
  exactly : ℕ → Item
  within : Item
  across : Item

push_star : List Item → (after_star : Bool) → List Item
push_star l true = across ∷ l
push_star l false = within ∷ l

-- pattern.split('**') and each part's split('*'): two stars count from the left.
unfoldable pub items : List ℕ → List Item
items [] = []
items (c ∷ []) = if c == star then within ∷ [] else exactly c ∷ []
items (c ∷ d ∷ l) =
    let rest = items l in
    let later = items (d ∷ l) in
    if c == star then (if d == star then across ∷ rest else within ∷ later) else exactly c ∷ later

-- Every character but the ends of lines.
is_dot : ℕ → Bool
is_dot c = not (c == 10 || c == 13 || c == 0x2028 || c == 0x2029)

is_inside : ℕ → Bool
is_inside c = not (c == slash)

-- A run of characters of a class, and what follows it.
pub run : (ℕ → Bool) → (List ℕ → Bool) → List ℕ → Bool
run p next [] = next []
run p next (c ∷ l) = next (c ∷ l) || (p c && run p next l)

unfoldable pub fits : List Item → List ℕ → Bool
unfolding run is_dot is_inside
fits [] [] = true
fits [] (_ ∷ _) = false
fits (exactly c ∷ l) [] = false
fits (exactly c ∷ l) (d ∷ file) = c == d && fits l file
fits (within ∷ l) file = run is_inside (fits l) file
fits (across ∷ l) file = run is_dot (fits l) file

-- `none` is a path or a pattern that `safePath` refuses.
unfoldable pub matches : (fold : List ℕ → List ℕ) → (file pattern : List ℕ) → Option Bool
unfolding items fits is_safe_path is_prefix
matches fold file pattern =
    let path = fold file in
    let p = fold pattern in
    if is_safe_path false file && is_safe_path true pattern
    then some (fits (items p) path || (not (has_code star p) && is_prefix (p ++ slash ∷ []) path))
    else none
