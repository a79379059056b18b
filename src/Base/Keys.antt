-- ===== src/Base/Keys.antt =====
-- The keys of the entries of a dictionary that a test keeps, sorted or not.
use mathlib.Core.Bool.{Bool, false, ◌||◌}
use mathlib.Core.List.{List, [], ◌∷◌, map}
use mathlib.Core.Logic.{inl, inr}
use mathlib.Core.Option.{some, none}
use mathlib.Core.Path.{◌≡◌, refl}
use native.Mathlib.Omega.{arith}
use Prim.Native.String.{String}
use text.Mathlib.Text.{◌==◌ as str_eq}
use text.Mathlib.TextEquality.{eq_iff}
use eoduksini.Base.Tests.{Bool-cases}
use eoduksini.Base.Lists.{any, keep, includes}
use eoduksini.Base.Dict.{Dict, lookup, Unique}
use eoduksini.Base.Sort.{insert_by, sort_by}

module _ {ℓ} {A : Type ℓ} (p : A → Bool) (le : A → A → Bool) where
  pub any-insert_by : (x : A) (xs : List A) → any p (insert_by le x xs) ≡ (p x || any p xs)
  unfolding insert_by
  any-insert_by x [] = refl
  any-insert_by x (y ∷ ys) = ground (arith, any-insert_by x ys)

  pub any-sort_by : (xs : List A) → any p (sort_by le xs) ≡ any p xs
  unfolding sort_by
  any-sort_by [] = refl
  any-sort_by (x ∷ xs) = ground (arith, any-insert_by x (sort_by le xs), any-sort_by xs)

module _ {ℓ} {V : Type ℓ} (p : String × V → Bool) (k : String) where
  abbrev pub kept_keys : Dict V → List String
  kept_keys d = map (λ x. x.0) (keep p d)

  -- A key without an entry is not among them.
  includes-kept_keys-none : (d : Dict V) → lookup k d ≡ none → includes (kept_keys d) k ≡ false
  unfolding lookup
  includes-kept_keys-none [] h = refl
  includes-kept_keys-none ((j, w) ∷ d) h =
      ground (arith, includes-kept_keys-none d, eq_iff j k, eq_iff k j)

  -- A key is among them just if its entry is kept.
  pub includes-kept_keys :
      (d : Dict V) (v : V) → Unique d → lookup k d ≡ some v → includes (kept_keys d) k ≡ p (k, v)
  unfolding lookup
  includes-kept_keys [] v u h = cc
  includes-kept_keys ((j, w) ∷ d) v u h = elim (Bool-cases (str_eq j k)) [
    | inl same ↦ ground (arith, includes-kept_keys-none d, eq_iff j k, eq_iff k j)
    | inr other ↦ ground (arith, includes-kept_keys d v u.1, eq_iff j k, eq_iff k j)
  ]
