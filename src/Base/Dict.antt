-- ===== src/Base/Dict.antt =====
-- A JavaScript object used as a dictionary with text keys: its own properties in insertion order.
use Prim.Native.String.{String}
use mathlib.Core.Path.{◌≡◌, refl}
use mathlib.Core.Bool.{Bool, true, false}
use mathlib.Core.Logic.{◌⊎◌, ◌≢◌, inl, inr}
use mathlib.Core.List.{List, [], ◌∷◌}
use mathlib.Core.Option.{Option, none, some}
use native.Mathlib.Omega.{arith}
use text.Mathlib.Text.{◌==◌ as str_eq}
use text.Mathlib.TextEquality.{eq_iff}
use eoduksini.Base.Tests.{if◌then◌else◌, Bool-cases}
use eoduksini.Base.Lists.{length, keep}

abbrev pub Dict {ℓ} : Type ℓ → Type ℓ
Dict V = List (String × V)

module _ {ℓ} {V : Type ℓ} where
  unfoldable pub lookup : String → Dict V → Option V
  lookup k [] = none
  lookup k ((j, v) ∷ d) = if str_eq j k then some v else lookup k d

  -- Object.hasOwn(d, k)
  abbrev pub has : String → Dict V → Bool
  has k d = elim (lookup k d) [ none ↦ false | some _ ↦ true ]

  -- d[k] = v
  unfoldable pub insert : String → V → Dict V → Dict V
  insert k v [] = (k, v) ∷ []
  insert k v ((j, w) ∷ d) = if str_eq j k then (j, v) ∷ d else (j, w) ∷ insert k v d

  pub lookup-insert :
      (k j : String) (v : V) (d : Dict V)
      → lookup j (insert k v d) ≡ (if str_eq k j then some v else lookup j d)
  unfolding lookup insert
  lookup-insert k j v [] = ground (arith, eq_iff k j)
  lookup-insert k j v ((i, w) ∷ d) =
      ground (arith, eq_iff k j, eq_iff i k, eq_iff i j, lookup-insert k j v d)

  -- What is found after a write is the value written or was there before.
  pub lookup-insert_cases :
      (k j : String) (v w : V) (d : Dict V)
      → lookup j (insert k v d) ≡ some w
      → ((k ≡ j) × (v ≡ w)) ⊎ ((str_eq k j ≡ false) × (lookup j d ≡ some w))
  lookup-insert_cases k j v w d h = ground (arith, lookup-insert k j v d, eq_iff k j)

  pub lookup-insert_self : (k : String) (v : V) (d : Dict V) → lookup k (insert k v d) ≡ some v
  lookup-insert_self k v d = ground (arith, lookup-insert k k v d, eq_iff k k)

  -- Every key stands once.
  abbrev pub Unique : Dict V → Type ℓ
  Unique [] = Unit
  Unique ((k, v) ∷ d) = (lookup k d ≡ none) × Unique d

  pub insert-Unique : (k : String) (v : V) (d : Dict V) → Unique d → Unique (insert k v d)
  unfolding lookup insert
  insert-Unique k v [] u = (refl, tt)
  insert-Unique k v ((j, w) ∷ d) u =
      ground (arith, eq_iff j k, eq_iff k j, lookup-insert k j v d, insert-Unique k v d u.1)

  -- An entry that a test keeps is the entry of its key.
  pub keep-lookup :
      (p : String × V → Bool) (d : Dict V)
      → Unique d
      → length (keep p d) ≢ 0
      → (k : String) × (v : V) × (lookup k d ≡ some v) × (p (k, v) ≡ true)
  unfolding lookup
  keep-lookup p [] u h = absurd (h refl)
  keep-lookup p ((j, w) ∷ d) u h = elim (Bool-cases (p (j, w))) [
    | inl here ↦ (j, w, ground (arith, eq_iff j j), here)
    | inr there ↦
        let (k, v, found, good) = keep-lookup p d u.1 (rw there at h) in
        (k, v, ground (arith, eq_iff j k), good)
  ]

  -- A write under a new key leaves every other key as it was.
  pub lookup-insert_old :
      (k j : String) (v : V) (d : Dict V) {w : V}
      → lookup k d ≡ none
      → lookup j d ≡ some w
      → lookup j (insert k v d) ≡ some w
  lookup-insert_old k j v d fresh found = ground (arith, lookup-insert k j v d, eq_iff k j)
