-- ===== src/Store/Paths.antt =====
-- `absolutePath`, `inspectPath`, `contains`, `separate` and `samePath` of core/controller/store.mjs on
-- a POSIX system. A path is walked from the root, one component after the other.
pub mod Safe
use eoduksini.Base.Text.{codes}
use eoduksini.Base.Result.{◌>>◌, check, ◌>>=◌, ok, err}
use eoduksini.Base.Path.{is_empty, is_prefix, equal_codes, parts, slash}
use eoduksini.Store.{
  Runtime, Stored, Kind, Disk, state_exists, unsafe_path, nested_state_path, symlink, regular,
  directory,
}
use eoduksini.Base.{
  none, some, ℕ, String, List, Bool, not, true, false, Option, ◌||◌, ◌&&◌, some, [], any, ltb, keep,
  ◌∷◌, ◌==◌, ◌++◌, if◌then◌else◌,
}

-- Two slashes or backslashes in front.
starts_double : List ℕ → Bool
starts_double (a ∷ b ∷ l) = (a == slash || a == 92) && (b == slash || b == 92)
starts_double _ = false

abbrev not_empty : List ℕ → Bool
not_empty p = not (is_empty p)

is_last {ℓ} : {A : Type ℓ} → List A → Bool
is_last [] = true
is_last (_ ∷ _) = false

kind_fits : (file last : Bool) → Kind → Bool
kind_fits file last symlink = false
kind_fits file last regular = file && last
kind_fits file last directory = not (file && last)

module _ (rt : Runtime) (disk : Disk) where
  absolute_path : String → Stored (List ℕ)
  unfolding starts_double
  absolute_path path = do
    check
        (rt.is_absolute (codes path)
          && not (starts_double (codes path))
          && not (any (λ c. ltb c 0x20) (codes path)))
        unsafe_path
    ok (rt.resolve (codes path))

  -- The components behind those that were walked. A path that may be absent is refused if it is there.
  unfoldable pub walk : (absent file : Bool) → (walked rest : List (List ℕ)) → Stored String
  unfolding kind_fits is_last
  walk absent file walked [] = do check (not absent) state_exists; ok (rt.real_path walked)
  walk absent file walked (part ∷ rest) =
      let current = walked ++ part ∷ [] in
      let next = walk absent file current rest in
      elim (disk.kind_of current) [
        | none ↦
            if is_last rest && absent
            then ok (rt.join (rt.real_path walked) part)
            else err unsafe_path
        | some k ↦ check (kind_fits file (is_last rest) k) unsafe_path >> next
      ]

  is_symlink : Option Kind → Bool
  is_symlink (some symlink) = true
  is_symlink _ = false

  unfoldable pub inspect_path : (absent file : Bool) → String → Stored String
  unfolding absolute_path walk is_symlink
  inspect_path absent file path = do
    full ← absolute_path path
    check (not (is_symlink (disk.kind_of []))) unsafe_path
    walk absent file [] (keep not_empty (parts full))

-- The second path is the first or stands below it.
contains : Runtime → String → String → Bool
contains rt parent child =
    let delta = rt.relative parent child in
    is_empty delta
    || (not (is_prefix (codes "../") delta)
        && not (equal_codes delta (codes ".."))
        && not (rt.is_absolute delta))

unfoldable pub separate : Runtime → String → String → Stored (Unit {0})
unfolding contains
separate rt root repo =
    check (not (contains rt root repo) && not (contains rt repo root)) nested_state_path
