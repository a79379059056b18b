-- ===== src/Store/Paths/Safe.antt =====
-- The paths that `inspectPath` lets through (core/controller/store.mjs).
use eoduksini.Base.Text.{codes}
use eoduksini.Base.Path.{parts}
use eoduksini.Base.Result.{ok}
use eoduksini.Store.Paths.{walk, kind_fits, is_last, inspect_path, absolute_path, not_empty}
use eoduksini.Store.{Runtime, Disk, regular, directory}
use eoduksini.Base.{
  ℕ, String, List, some, Bool, false, ◌≡◌, [], ◌∷◌, arith, ◌++◌, if◌then◌else◌, keep,
}

module _ (rt : Runtime) (disk : Disk) where
  -- Every place on the way is a directory, and the last one a file if one is wanted.
  abbrev pub Plain : (file : Bool) → (walked rest : List (List ℕ)) → Type 0
  Plain file walked [] = Unit
  Plain file walked (part ∷ []) =
      disk.kind_of (walked ++ part ∷ []) ≡ some (if file then regular else directory)
  Plain file walked (part ∷ next ∷ rest) =
      (disk.kind_of (walked ++ part ∷ []) ≡ some directory)
      × Plain file (walked ++ part ∷ []) (next ∷ rest)

  walk-Plain :
      (file : Bool) (walked rest : List (List ℕ)) {place : String}
      → walk rt disk false file walked rest ≡ ok place
      → Plain file walked rest
  unfolding walk kind_fits is_last
  walk-Plain file walked [] h = tt
  walk-Plain file walked (part ∷ []) h = ground arith
  walk-Plain file walked (part ∷ next ∷ rest) {place = place} h =
      let on : walk rt disk false file (walked ++ part ∷ []) (next ∷ rest) ≡ ok place =
        ground arith in
      (ground arith, walk-Plain file (walked ++ part ∷ []) (next ∷ rest) on)

  -- A path that `inspectPath` returns, not being looked for as absent, has been walked: every directory
  -- on the way, from the root, is a directory and no symbolic link, and its end is a regular file or
  -- a directory as was asked.
  pub inspect_path-Plain :
      (file : Bool) (path : String) {place : String}
      → inspect_path rt disk false file path ≡ ok place
      → Plain file [] (keep not_empty (parts (rt.resolve (codes path))))
  unfolding inspect_path absolute_path
  inspect_path-Plain file path {place = place} h =
      let walked : walk rt disk false file [] (keep not_empty (parts (rt.resolve (codes path))))
          ≡ ok place =
        ground arith in
      walk-Plain file [] (keep not_empty (parts (rt.resolve (codes path)))) walked
