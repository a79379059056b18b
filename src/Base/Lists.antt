-- ===== src/Base/Lists.antt =====
-- Lists measured by native numbers, and the Boolean searches of JavaScript arrays.
use Prim.Native.Nat.{ℕ, zero, suc, ◌+◌}
use Prim.Native.String.{String}
use mathlib.Core.Path.{◌≡◌, refl, ap}
use mathlib.Core.Bool.{Bool, true, false, ◌&&◌, ◌||◌, not}
use mathlib.Core.List.{List, [], ◌∷◌, ◌++◌, map}
use mathlib.Core.Option.{Option, none, some}
use native.Mathlib.Omega.{arith}
use text.Mathlib.Text.{◌==◌ as str_eq}
use eoduksini.Base.Tests.{if◌then◌else◌, Bool-cases}
use mathlib.Core.Logic.{inl, inr}

module _ {ℓ} {A : Type ℓ} where
  abbrev pub length : List A → ℕ
  length [] = 0
  length (x ∷ xs) = suc (length xs)

  abbrev pub any : (A → Bool) → List A → Bool
  any p [] = false
  any p (x ∷ xs) = p x || any p xs

  abbrev pub all : (A → Bool) → List A → Bool
  all p [] = true
  all p (x ∷ xs) = p x && all p xs

  -- `filter` of a Boolean test.
  abbrev pub keep : (A → Bool) → List A → List A
  keep p [] = []
  keep p (x ∷ xs) = let rest = keep p xs in if p x then x ∷ rest else rest

  abbrev pub take : ℕ → List A → List A
  take zero xs = []
  take (suc n) [] = []
  take (suc n) (x ∷ xs) = x ∷ take n xs

  abbrev pub get_last? : List A → Option A
  get_last? [] = none
  get_last? (x ∷ []) = some x
  get_last? (x ∷ y ∷ xs) = get_last? (y ∷ xs)

  pub length-append : (xs ys : List A) → length (xs ++ ys) ≡ length xs + length ys
  length-append [] ys = omega arith
  length-append (x ∷ xs) ys = omega (arith, length-append xs ys)

  pub all-append : (p : A → Bool) (xs ys : List A) → all p (xs ++ ys) ≡ (all p xs && all p ys)
  all-append p [] ys = refl
  all-append p (x ∷ xs) ys = ground (arith, all-append p xs ys)

pub length-map {ℓ κ} :
    {A : Type ℓ} {B : Type κ} (f : A → B) (xs : List A) → length (map f xs) ≡ length xs
length-map f [] = refl
length-map f (x ∷ xs) = ap suc (length-map f xs)

-- array.includes(text)
abbrev pub includes : List String → String → Bool
includes xs a = any (str_eq a) xs

-- new Set(values).size === values.length
abbrev pub distinct : List String → Bool
distinct [] = true
distinct (x ∷ xs) = not (includes xs x) && distinct xs

-- A predicate of every member.
abbrev pub All {ℓ κ} : {A : Type ℓ} → (A → Type κ) → List A → Type κ
All P [] = Unit
All P (x ∷ xs) = P x × All P xs

-- A member, with what stands on its sides.
abbrev pub In {ℓ} : {A : Type ℓ} → A → List A → Type ℓ
In {A = A} x l = (before : List A) × (after : List A) × (l ≡ before ++ x ∷ after)

pub In-cons {ℓ} : {A : Type ℓ} (x y : A) (l : List A) → In x l → In x (y ∷ l)
In-cons x y l (before, after, same) = (y ∷ before, after, ap (λ t. y ∷ t) same)

pub All-middle {ℓ κ} :
    {A : Type ℓ} (P : A → Type κ) (before after : List A) (x : A)
    → All P (before ++ x ∷ after)
    → P x
All-middle P [] after x h = h.0
All-middle P (y ∷ before) after x h = All-middle P before after x h.1

pub All-map {ℓ κ μ} :
    {A : Type ℓ} (P : A → Type κ) (Q : A → Type μ) (f : (x : A) → P x → Q x) (l : List A)
    → All P l
    → All Q l
All-map P Q f [] h = tt
All-map P Q f (x ∷ l) h = (f x h.0, All-map P Q f l h.1)

pub All-append {ℓ κ} :
    {A : Type ℓ} (P : A → Type κ) (xs ys : List A) → All P xs → All P ys → All P (xs ++ ys)
All-append P [] ys h k = k
All-append P (x ∷ xs) ys h k = (h.0, All-append P xs ys h.1 k)

pub All-keep {ℓ κ} :
    {A : Type ℓ} (P : A → Type κ) (q : A → Bool) (l : List A)
    → All P l
    → All (λ x. P x × (q x ≡ true)) (keep q l)
All-keep P q [] h = tt
All-keep P q (x ∷ l) h = elim (Bool-cases (q x)) [
  | inl holds ↦ rw holds ((h.0, holds), All-keep P q l h.1)
  | inr fails ↦ rw fails (All-keep P q l h.1)
]

pub All-of_map {ℓ κ μ} :
    {A : Type ℓ} {B : Type μ} (P : B → Type κ) (f : A → B) (l : List A)
    → All (λ x. P (f x)) l
    → All P (map f l)
All-of_map P f [] h = tt
All-of_map P f (x ∷ l) h = (h.0, All-of_map P f l h.1)

pub All-both {ℓ κ μ} :
    {A : Type ℓ} (P : A → Type κ) (Q : A → Type μ) (l : List A)
    → All P l
    → All Q l
    → All (λ x. P x × Q x) l
All-both P Q [] h k = tt
All-both P Q (x ∷ l) h k = ((h.0, k.0), All-both P Q l h.1 k.1)
