-- ===== src/Pattern/Sound.antt =====
-- Patterns that do not overlap have no file in common: `scopeOverlap` of core/governor.mjs and
-- `pathOverlap` of core/semantic.mjs against `matches`.
use eoduksini.Base.Path.{
  is_prefix, equal_codes, literal, slash, strip_slash, has_code, star, paths_overlap, is_safe_path,
}
use eoduksini.Pattern.{fits, items, exactly, matches, Item}
use eoduksini.Base.{
  ℕ, Bool, true, false, not, ◌&&◌, ◌||◌, List, [], ◌∷◌, ◌++◌, ◌==◌, if◌then◌else◌, ◌≡◌, refl, arith,
  Bool-cases, ◌⊎◌, inl, inr, ap, ◌∙◌, some, none, sym,
}

is_prefix-meet :
    (a b f : List ℕ)
    → is_prefix a f ≡ true
    → is_prefix b f ≡ true
    → (is_prefix a b || is_prefix b a) ≡ true
unfolding is_prefix
is_prefix-meet [] b f h k = refl
is_prefix-meet (c ∷ a) [] f h k = refl
is_prefix-meet (c ∷ a) (d ∷ b) [] h k = cc
is_prefix-meet (c ∷ a) (d ∷ b) (x ∷ f) h k = ground (arith, h, k, is_prefix-meet a b f)

is_prefix-equal :
    (a b : List ℕ) → is_prefix a b ≡ true → is_prefix b a ≡ true → equal_codes a b ≡ true
unfolding is_prefix equal_codes
is_prefix-equal [] [] h k = refl
is_prefix-equal [] (d ∷ b) h k = cc
is_prefix-equal (c ∷ a) [] h k = cc
is_prefix-equal (c ∷ a) (d ∷ b) h k = ground (arith, h, k, is_prefix-equal a b)

is_prefix_trans :
    (a b f : List ℕ) → is_prefix a b ≡ true → is_prefix b f ≡ true → is_prefix a f ≡ true
unfolding is_prefix
is_prefix_trans [] b f h k = refl
is_prefix_trans (c ∷ a) [] f h k = cc
is_prefix_trans (c ∷ a) (d ∷ b) [] h k = cc
is_prefix_trans (c ∷ a) (d ∷ b) (x ∷ f) h k = ground (arith, h, k, is_prefix_trans a b f)

-- Between a text and the text with one more character there is nothing else.
is_prefix-between :
    (a b : List ℕ) (c : ℕ)
    → is_prefix a b ≡ true
    → is_prefix b (a ++ c ∷ []) ≡ true
    → (equal_codes a b || is_prefix (a ++ c ∷ []) b) ≡ true
unfolding is_prefix equal_codes
is_prefix-between [] [] c h k = refl
is_prefix-between [] (d ∷ b) c h k = ground (arith, k)
is_prefix-between (x ∷ a) [] c h k = cc
is_prefix-between (x ∷ a) (d ∷ b) c h k = ground (arith, h, k, is_prefix-between a b c)

strip_slash-cases : (l : List ℕ) → (strip_slash l ≡ l) ⊎ (l ≡ strip_slash l ++ slash ∷ [])
unfolding strip_slash
strip_slash-cases [] = inl refl
strip_slash-cases (c ∷ []) = elim (Bool-cases (c == slash)) [
  | inl same ↦
      inr (let is_slash : c ≡ slash = ground (arith, same) in rw same (ap (λ d. d ∷ []) is_slash))
  | inr other ↦ inl (rw other refl)
]
strip_slash-cases (c ∷ d ∷ l) = elim (strip_slash-cases (d ∷ l)) [
  | inl same ↦ inl (ap (λ t. c ∷ t) same)
  | inr more ↦ inr (ap (λ t. c ∷ t) more)
]

strip_slash-is_prefix : (l : List ℕ) → is_prefix (strip_slash l) l ≡ true
unfolding strip_slash is_prefix
strip_slash-is_prefix [] = refl
strip_slash-is_prefix (c ∷ []) = ground arith
strip_slash-is_prefix (c ∷ d ∷ l) = ground (arith, strip_slash-is_prefix (d ∷ l))

items-plain : (c : ℕ) (p : List ℕ) → (c == star) ≡ false → items (c ∷ p) ≡ exactly c ∷ items p
unfolding items
items-plain c [] plain = rw plain refl
items-plain c (d ∷ p) plain = rw plain refl

fits-exactly :
    (c : ℕ) (l : List Item) (f : List ℕ)
    → fits (exactly c ∷ l) f ≡ true
    → (g : List ℕ) × (f ≡ c ∷ g) × (fits l g ≡ true)
unfolding fits
fits-exactly c l [] h = cc
fits-exactly c l (d ∷ f) h = (f, ground (arith, h), ground (arith, h))

is_prefix-cons : (c : ℕ) (a b : List ℕ) → is_prefix a b ≡ true → is_prefix (c ∷ a) (c ∷ b) ≡ true
unfolding is_prefix
is_prefix-cons c a b h = ground arith

-- The literal part of a pattern stands in front of every file that fits it.
fits-literal : (p f : List ℕ) → fits (items p) f ≡ true → is_prefix (literal p) f ≡ true
unfolding literal is_prefix
fits-literal [] f h = refl
fits-literal (c ∷ p) f h = elim (Bool-cases (c == star)) [
  | inl starred ↦ rw starred refl
  | inr plain ↦
      let (g, same, rest) = fits-exactly c (items p) f (rw (← items-plain c p plain) h) in
      rw (plain, same) (is_prefix-cons c (literal p) g (fits-literal p g rest))
]

-- A pattern without a star fits itself alone.
fits-plain : (p f : List ℕ) → has_code star p ≡ false → fits (items p) f ≡ true → p ≡ f
unfolding fits items
fits-plain [] [] plain h = refl
fits-plain [] (x ∷ f) plain h = cc
fits-plain (c ∷ p) f plain h =
    let first : (c == star) ≡ false = ground (arith, plain) in
    let (g, same, rest) = fits-exactly c (items p) f (rw (← items-plain c p first) h) in
    rw same (ap (λ t. c ∷ t) (fits-plain p g (ground (arith, plain)) rest))

literal-plain : (p : List ℕ) → has_code star p ≡ false → literal p ≡ p
unfolding literal
literal-plain [] plain = refl
literal-plain (c ∷ p) plain = ground (arith, plain, literal-plain p)

-- What a file that matches says of the literal part of the pattern.
abbrev Reaches : (literal_part : List ℕ) → (starred : Bool) → (file : List ℕ) → Type 0
Reaches a starred f =
    (is_prefix a f ≡ true) × ((starred ≡ true) ⊎ ((a ≡ f) ⊎ (is_prefix (a ++ slash ∷ []) f ≡ true)))

one_side :
    (a b f : List ℕ) (starred : Bool)
    → Reaches a starred f
    → is_prefix b f ≡ true
    → is_prefix a b ≡ true
    → (equal_codes a b || is_prefix (a ++ slash ∷ []) b || (starred && is_prefix a b)) ≡ true
one_side a b f starred (_, inl s) k inside = ground (arith, s, inside)
one_side a b f starred (_, inr (inl whole)) k inside =
    ground (arith, is_prefix-equal a b inside (rw whole k))
one_side a b f starred (_, inr (inr deeper)) k inside =
    ground
      (arith, is_prefix-meet (a ++ slash ∷ []) b f deeper k, is_prefix-between a b slash inside)

some_if : (safe found : Bool) → (if safe then some found else none) ≡ some true → found ≡ true
some_if safe found h = ground (arith, h)

either : (a b d : Bool) → (a || (not b && d)) ≡ true → (a ≡ true) ⊎ ((b ≡ false) × (d ≡ true))
either a b d h = ground (arith, h)

matches_inv :
    (fold : List ℕ → List ℕ) (f p : List ℕ)
    → matches fold f p ≡ some true
    → (fits (items (fold p)) (fold f) ≡ true)
      ⊎ ((has_code star (fold p) ≡ false) × (is_prefix (fold p ++ slash ∷ []) (fold f) ≡ true))
unfolding matches
matches_inv fold f p h =
    either (fits (items (fold p)) (fold f)) (has_code star (fold p))
      (is_prefix (fold p ++ slash ∷ []) (fold f))
      (some_if (is_safe_path false f && is_safe_path true p)
        (fits (items (fold p)) (fold f)
          || (not (has_code star (fold p)) && is_prefix (fold p ++ slash ∷ []) (fold f)))
        h)

is_prefix_of_append : (a b f : List ℕ) → is_prefix (a ++ b) f ≡ true → is_prefix a f ≡ true
unfolding is_prefix
is_prefix_of_append [] b f h = refl
is_prefix_of_append (c ∷ a) b [] h = cc
is_prefix_of_append (c ∷ a) b (d ∷ f) h = ground (arith, h, is_prefix_of_append a b f)

is_prefix_self : (a : List ℕ) → is_prefix a a ≡ true
unfolding is_prefix
is_prefix_self [] = refl
is_prefix_self (c ∷ a) = is_prefix-cons c a a (is_prefix_self a)

is_prefix_whole : (a b : List ℕ) → a ≡ b → is_prefix a b ≡ true
is_prefix_whole a b same = rw (← same) (is_prefix_self a)

-- A pattern without a star, once its slash at the end is gone.
stripped-Reaches :
    (p f : List ℕ)
    → (p ≡ f) ⊎ (is_prefix (p ++ slash ∷ []) f ≡ true)
    → Reaches (strip_slash p) false f
stripped-Reaches p f (inl whole) = (
  is_prefix_trans (strip_slash p) p f (strip_slash-is_prefix p) (is_prefix_whole p f whole),
  elim (strip_slash-cases p) [
    | inl same ↦ inr (inl (same ∙ whole))
    | inr more ↦ inr (inr (is_prefix_whole (strip_slash p ++ slash ∷ []) f (sym more ∙ whole)))
  ],
)
stripped-Reaches p f (inr deeper) = (
  is_prefix_trans (strip_slash p) p f (strip_slash-is_prefix p)
      (is_prefix_of_append p (slash ∷ []) f deeper),
  elim (strip_slash-cases p) [
    | inl same ↦ inr (inr (rw same deeper))
    | inr more ↦ inr (
        inr (is_prefix_of_append (strip_slash p ++ slash ∷ []) (slash ∷ []) f (rw (← more) deeper)))
  ],
)

fits-Reaches :
    (f p : List ℕ)
    → (fits (items p) f ≡ true)
      ⊎ ((has_code star p ≡ false) × (is_prefix (p ++ slash ∷ []) f ≡ true))
    → Reaches (strip_slash (literal p)) (has_code star p) f
fits-Reaches f p found = elim (Bool-cases (has_code star p)) [
  | inl starred ↦ elim found [
    | inl fit ↦ (
      is_prefix_trans (strip_slash (literal p)) (literal p) f (strip_slash-is_prefix (literal p))
          (fits-literal p f fit),
      inl starred,
    )
    | inr (plain, _) ↦ absurd (ground (arith, plain, starred))
  ]
  | inr plain ↦
      rw (plain, literal-plain p plain)
        (stripped-Reaches p f
          (elim found [ inl fit ↦ inl (fits-plain p f plain fit) | inr (_, deeper) ↦ inr deeper ]))
]

one_of : (x y : Bool) → (x || y) ≡ true → (x ≡ true) ⊎ (y ≡ true)
one_of true y h = inl refl
one_of false y h = inr h

pub equal_codes-sym : (a b : List ℕ) → equal_codes a b ≡ equal_codes b a
unfolding equal_codes
equal_codes-sym [] [] = refl
equal_codes-sym [] (d ∷ b) = refl
equal_codes-sym (c ∷ a) [] = refl
equal_codes-sym (c ∷ a) (d ∷ b) = ground (arith, equal_codes-sym a b)

-- Two patterns that both match a file overlap, as they are compared on the platform: on Windows with
-- both in lower case, elsewhere as they stand.
pub paths_overlap_sound :
    (fold : List ℕ → List ℕ) (file a b : List ℕ)
    → matches fold file a ≡ some true
    → matches fold file b ≡ some true
    → paths_overlap (fold a) (fold b) ≡ true
unfolding paths_overlap
paths_overlap_sound fold file a b h k =
    let in_a = fits-Reaches (fold file) (fold a) (matches_inv fold file a h) in
    let in_b = fits-Reaches (fold file) (fold b) (matches_inv fold file b k) in
    let ap = strip_slash (literal (fold a)) in
    let bp = strip_slash (literal (fold b)) in
    elim (one_of (is_prefix ap bp) (is_prefix bp ap)
      (is_prefix-meet ap bp (fold file) in_a.0 in_b.0)) [
        | inl inside ↦
            ground (arith, one_side ap bp (fold file) (has_code star (fold a)) in_a in_b.0 inside)
        | inr inside ↦ ground (
          arith,
          one_side bp ap (fold file) (has_code star (fold b)) in_b in_a.0 inside,
          equal_codes-sym ap bp,
        )
      ]
