-- ===== src/Base/Result.antt =====
-- Fallible code: `throw new Error(reason)` is the case `err`.
use mathlib.Core.Path.{◌≡◌, refl}
use mathlib.Core.Logic.{◌⊎◌, inl, inr}
use mathlib.Core.Bool.{Bool, true, false}
use mathlib.Core.List.{List, [], ◌∷◌}

pub data Result {ℓ κ} (E : Type κ) (A : Type ℓ) : Type (ℓ ⊔ κ) where
  ok : A → Result E A
  err : E → Result E A

module _ {ℓ κ μ} {E : Type μ} {A : Type ℓ} {B : Type κ} where
  infixl 5 ◌>>=◌
  abbrev pub ◌>>=◌ : Result E A → (A → Result E B) → Result E B
  err reason >>= f = err reason
  ok x >>= f = f x

  pub >>=-eq-ok :
      {y : B} (m : Result E A) (f : A → Result E B)
      → (m >>= f) ≡ ok y
      → (x : A) × (m ≡ ok x) × (f x ≡ ok y)
  >>=-eq-ok (err reason) f h = cc
  >>=-eq-ok (ok x) f h = (x, refl, h)

infixl 5 ◌>>◌
abbrev pub ◌>>◌ {ℓ μ} : {E : Type μ} {B : Type ℓ} → Result E (Unit {0}) → Result E B → Result E B
m >> next = m >>= λ _. next

pub Result-cases {ℓ μ} :
    {E : Type μ} {A : Type ℓ} (r : Result E A) → ((a : A) × (r ≡ ok a)) ⊎ ((e : E) × (r ≡ err e))
Result-cases (ok a) = inl (a, refl)
Result-cases (err e) = inr (e, refl)

-- check(condition, reason)
abbrev pub check {μ} : {E : Type μ} → Bool → E → Result E (Unit {0})
check false reason = err reason
check true reason = ok tt

-- array.map(f), where `f` may throw: the first failure is the result.
abbrev pub traverse {ℓ κ μ} :
    {E : Type μ} {A : Type ℓ} {B : Type κ} → (A → Result E B) → List A → Result E (List B)
traverse f [] = ok []
traverse f (x ∷ xs) = f x >>= λ y. traverse f xs >>= λ ys. ok (y ∷ ys)

pub ok-injective {ℓ μ} :
    {E : Type μ} {A : Type ℓ} {a b : A} → ◌≡◌ {A = Result E A} (ok a) (ok b) → a ≡ b
ok-injective h = cc
