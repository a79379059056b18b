-- ===== src/Base/Split.antt =====
-- `text.split(separator)` for a separator of one character, on the code points of a text.
use Prim.Native.Nat.{ℕ}
use mathlib.Core.Path.{◌≡◌, refl}
use mathlib.Core.Bool.{false}
use mathlib.Core.List.{List, [], ◌∷◌, ◌++◌}
use native.Mathlib.Omega.{arith}
use eoduksini.Base.Tests.{◌==◌, if◌then◌else◌}
use eoduksini.Base.Lists.{any}

-- The part being read goes in front of the parts of the rest.
push_code : ℕ → List (List ℕ) → List (List ℕ)
push_code c [] = (c ∷ []) ∷ []
push_code c (p ∷ ps) = (c ∷ p) ∷ ps

unfoldable pub split_on : ℕ → List ℕ → List (List ℕ)
unfolding push_code
split_on sep [] = [] ∷ []
split_on sep (c ∷ l) = let rest = split_on sep l in if c == sep then [] ∷ rest else push_code c rest

module _ (sep : ℕ) where
  push_code-append :
      (c : ℕ) (l : List ℕ) (ps : List (List ℕ))
      → push_code c (split_on sep l ++ ps) ≡ push_code c (split_on sep l) ++ ps
  unfolding split_on push_code
  push_code-append c [] ps = refl
  push_code-append c (d ∷ l) ps = ground arith

  pub split_on-clean : (l : List ℕ) → any (λ d. d == sep) l ≡ false → split_on sep l ≡ (l ∷ [])
  unfolding split_on push_code
  split_on-clean [] h = refl
  split_on-clean (c ∷ l) h = ground (arith, split_on-clean l)

  pub split_on-append :
      (d l : List ℕ) → split_on sep (d ++ sep ∷ l) ≡ split_on sep d ++ split_on sep l
  unfolding split_on push_code
  split_on-append [] l = ground arith
  split_on-append (c ∷ d) l =
      ground (arith, split_on-append d l, push_code-append c d (split_on sep l))
