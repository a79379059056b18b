-- ===== src/Base/Sort.antt =====
-- `sort` of a JavaScript array by a comparison, as a stable insertion sort.
use Prim.Native.Nat.{suc}
use mathlib.Core.Path.{◌≡◌, refl, ap, ◌∙◌}
use native.Mathlib.Omega.{arith}
use mathlib.Core.Bool.{Bool}
use mathlib.Core.List.{List, [], ◌∷◌}
use eoduksini.Base.Lists.{length, All}
use eoduksini.Base.Tests.{if◌then◌else◌, Bool-cases}
use mathlib.Core.Logic.{inl, inr}

module _ {ℓ} {A : Type ℓ} (le : A → A → Bool) where
  unfoldable pub insert_by : A → List A → List A
  insert_by x [] = x ∷ []
  insert_by x (y ∷ ys) = if le x y then x ∷ y ∷ ys else y ∷ insert_by x ys

  unfoldable pub sort_by : List A → List A
  unfolding insert_by
  sort_by [] = []
  sort_by (x ∷ xs) = insert_by x (sort_by xs)

  pub length-insert_by : (x : A) (xs : List A) → length (insert_by x xs) ≡ suc (length xs)
  unfolding insert_by
  length-insert_by x [] = refl
  length-insert_by x (y ∷ ys) = ground (arith, length-insert_by x ys)

  pub length-sort_by : (xs : List A) → length (sort_by xs) ≡ length xs
  unfolding sort_by
  length-sort_by [] = refl
  length-sort_by (x ∷ xs) = length-insert_by x (sort_by xs) ∙ ap suc (length-sort_by xs)

  module _ {κ} (P : A → Type κ) where
    pub All-insert_by : (x : A) (l : List A) → P x → All P l → All P (insert_by x l)
    unfolding insert_by
    All-insert_by x [] h k = (h, tt)
    All-insert_by x (y ∷ l) h k = elim (Bool-cases (le x y)) [
      | inl holds ↦ rw holds (h, k)
      | inr fails ↦ rw fails (k.0, All-insert_by x l h k.1)
    ]

    pub All-sort_by : (l : List A) → All P l → All P (sort_by l)
    unfolding sort_by
    All-sort_by [] h = tt
    All-sort_by (x ∷ l) h = All-insert_by x (sort_by l) h.0 (All-sort_by l h.1)

    All-insert_by_inv : (x : A) (l : List A) → All P (insert_by x l) → P x × All P l
    unfolding insert_by
    All-insert_by_inv x [] h = h
    All-insert_by_inv x (y ∷ l) h = elim (Bool-cases (le x y)) [
      | inl holds ↦ rw holds at h
      | inr fails ↦
          let (here, there) = rw fails at h in
          let (first, rest) = All-insert_by_inv x l there in (first, (here, rest))
    ]

    pub All-sort_by_inv : (l : List A) → All P (sort_by l) → All P l
    unfolding sort_by
    All-sort_by_inv [] h = tt
    All-sort_by_inv (x ∷ l) h =
        let (first, rest) = All-insert_by_inv x (sort_by l) h in (first, All-sort_by_inv l rest)
