-- ===== src/Requirement/Sets.antt =====
-- What a normalized set of identifiers is: sorted by code points, without a repetition, bounded.
use eoduksini.Requirement.Check.{require_array, too_many_items, duplicate_value}
use eoduksini.Base.Text.{codes}
use eoduksini.Base.Keys.{any-sort_by, any-insert_by}
use eoduksini.Base.Json.{Value}
use eoduksini.Base.Result.{Result, traverse, ok, >>=-eq-ok, check}
use eoduksini.Requirement.Facts.{code_points_le, normalize_string_set, codes_le}
use eoduksini.Base.Sort.{insert_by, sort_by, length-sort_by}
use eoduksini.Base.{
  ℕ, String, Bool, true, false, ◌&&◌, ◌||◌, List, [], ◌∷◌, includes, Option, ◌≡◌, distinct, str_eq,
  arith, refl, length, eq_iff, ◌≤◌, leb,
}

codes_le-total : (xs ys : List ℕ) → (codes_le xs ys || codes_le ys xs) ≡ true
unfolding codes_le
codes_le-total [] ys = refl
codes_le-total (x ∷ xs) [] = refl
codes_le-total (x ∷ xs) (y ∷ ys) = ground (arith, codes_le-total xs ys)

-- Each text stands before the next.
abbrev pub sorted : List String → Bool
sorted [] = true
sorted (x ∷ []) = true
sorted (x ∷ y ∷ l) = code_points_le x y && sorted (y ∷ l)

insert_by-sorted :
    (x : String) (l : List String) → sorted l ≡ true → sorted (insert_by code_points_le x l) ≡ true
unfolding insert_by
insert_by-sorted x [] h = refl
insert_by-sorted x (y ∷ []) h = ground (arith, codes_le-total (codes x) (codes y))
insert_by-sorted x (y ∷ z ∷ l) h =
    ground (arith, codes_le-total (codes x) (codes y), insert_by-sorted x (z ∷ l))

pub sort_by-sorted : (l : List String) → sorted (sort_by code_points_le l) ≡ true
unfolding sort_by
sort_by-sorted [] = refl
sort_by-sorted (x ∷ l) = insert_by-sorted x (sort_by code_points_le l) (sort_by-sorted l)

module _ (le : String → String → Bool) where
  includes-insert_by :
      (a x : String) (l : List String)
      → includes (insert_by le x l) a ≡ (str_eq a x || includes l a)
  includes-insert_by a x l = any-insert_by (str_eq a) le x l

  insert_by-distinct :
      (x : String) (l : List String)
      → includes l x ≡ false
      → distinct l ≡ true
      → distinct (insert_by le x l) ≡ true
  unfolding insert_by
  insert_by-distinct x [] h k = refl
  insert_by-distinct x (y ∷ l) h k =
      ground (arith, insert_by-distinct x l, includes-insert_by y x l, eq_iff x y, eq_iff y x)

  pub sort_by-distinct : (l : List String) → distinct l ≡ true → distinct (sort_by le l) ≡ true
  unfolding sort_by
  sort_by-distinct [] h = refl
  sort_by-distinct (x ∷ l) h =
      ground (
        arith,
        insert_by-distinct x (sort_by le l),
        sort_by-distinct l,
        any-sort_by (str_eq x) le l,
      )

pub length-traverse {ℓ κ μ} :
    {E : Type μ} {A : Type ℓ} {B : Type κ} (f : A → Result E B) (l : List A) {xs : List B}
    → traverse f l ≡ ok xs
    → length xs ≡ length l
length-traverse f [] h = ground arith
length-traverse f (x ∷ l) h =
    let (y, _, h') = >>=-eq-ok (f x) _ h in
    let (ys, ih, h'') = >>=-eq-ok (traverse f l) _ h' in ground (arith, length-traverse f l ih)

-- A set that is accepted is sorted by code points, has no value twice, and has no more values
-- than the bound.
pub normalize_string_set-sorted :
    (maximum : ℕ) (v : Option Value) {l : List String}
    → normalize_string_set maximum v ≡ ok l
    → (sorted l ≡ true) × (distinct l ≡ true) × (length l ≤ maximum)
unfolding normalize_string_set
normalize_string_set-sorted maximum v {l} h =
    let (items, _, h1) = >>=-eq-ok (require_array v) _ h in
    let (_, bounded, h2) = >>=-eq-ok (check (leb (length items) maximum) too_many_items) _ h1 in
    let (xs, read, h3) = >>=-eq-ok (traverse _ items) _ h2 in
    let (_, once, h4) = >>=-eq-ok (check (distinct xs) duplicate_value) _ h3 in
    ground (
      arith,
      sort_by-sorted xs,
      sort_by-distinct code_points_le xs,
      length-traverse _ items read,
      length-sort_by code_points_le xs,
    )
