-- ===== src/Pattern/Samples.antt =====
-- A file and two patterns that have it.
use eoduksini.Base.Split.{split_on}
use eoduksini.Pattern.Sound.{paths_overlap_sound}
use eoduksini.Base.Text.{codes}
use eoduksini.Base.Path.{paths_overlap, is_safe_path, is_prefix, equal_codes, parts}
use eoduksini.Pattern.{matches, items, fits}
use eoduksini.Base.{ℕ, ◌≡◌, some, true, refl, List, false, map, leb, ◌&&◌, ◌+◌, if◌then◌else◌}

abbrev sample_file : List ℕ
sample_file = codes "src/core/a.mjs"

tree_matches : matches (λ l. l) sample_file (codes "src/**") ≡ some true
unfolding matches items fits is_safe_path is_prefix equal_codes parts split_on
tree_matches = refl

directory_matches : matches (λ l. l) sample_file (codes "src/core") ≡ some true
unfolding matches items fits is_safe_path is_prefix equal_codes parts split_on
directory_matches = refl

star_stays_inside : matches (λ l. l) sample_file (codes "src/*.mjs") ≡ some false
unfolding matches items fits is_safe_path is_prefix equal_codes parts split_on
star_stays_inside = refl

-- A to Z in lower case.
lower : ℕ → ℕ
lower c = if leb 0x41 c && leb c 0x5A then c + 32 else c

windows_matches :
    (matches (map lower) (codes "SRC/core/a.mjs") (codes "src/**") ≡ some true)
    × (matches (map lower) (codes "SRC/core/a.mjs") (codes "Src/Core") ≡ some true)
unfolding matches items fits is_safe_path is_prefix equal_codes parts split_on lower
windows_matches = (refl, refl)

paths_overlap_sound_example :
    paths_overlap (map lower (codes "src/**")) (map lower (codes "Src/Core")) ≡ true
paths_overlap_sound_example =
    paths_overlap_sound (map lower) (codes "SRC/core/a.mjs") (codes "src/**") (codes "Src/Core")
      windows_matches.0 windows_matches.1
