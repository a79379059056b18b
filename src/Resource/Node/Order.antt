-- ===== src/Resource/Node/Order.antt =====
-- The order of the nodes (packages/engine-primitives/scheduler.mjs).
use eoduksini.Base.Sort.{sort_by, insert_by, All-sort_by, All-insert_by}
use native.Mathlib.Nat.{mul-le-mul_right, le_of_mul-le-mul_right}
use eoduksini.Base.{
  ℕ, String, Bool, ◌≡◌, List, false, true, ◌*◌, ◌<◌, All, ◌≤◌, arith, ◌∷◌, ◌⊎◌, Bool-cases, [], inl,
  All-map, All-both, inr,
}
use eoduksini.Resource.Node.{Node, node_le}

-- c / m ≤ d / n, crosswise.
cross_trans : (a l b m c n : ℕ) → 0 < m → a * m ≤ b * l → b * n ≤ c * m → a * n ≤ c * l
cross_trans a l b m c n h i j =
    le_of_mul-le-mul_right {k = m}
      (omega (
        arith,
        mul-le-mul_right {m = a * m} {n = b * l} n i,
        mul-le-mul_right {m = b * n} {n = c * m} l j,
      ))
      h

-- What `localeCompare` is: an order of all texts.
pub record IsOrder (le : String → String → Bool) : Type 0 where
  pub total : (a b : String) → (le a b ≡ true) ⊎ (le b a ≡ true)
  pub trans : (a b c : String) → le a b ≡ true → le b c ≡ true → le a c ≡ true

-- A node that is not behind another: less use of its slots, then longer without a task, then the name.
pub record NotBehind (locale_le : String → String → Bool) (l r : Node) : Type 0 where
  pub less_used : l.current_slots * r.max_slots ≤ r.current_slots * l.max_slots
  pub idle_longer :
      l.current_slots * r.max_slots ≡ r.current_slots * l.max_slots
      → l.last_assigned_at ≤ r.last_assigned_at
  pub named_before :
      l.current_slots * r.max_slots ≡ r.current_slots * l.max_slots
      → l.last_assigned_at ≡ r.last_assigned_at
      → locale_le l.id r.id ≡ true

module _ (le : String → String → Bool) (o : IsOrder le) where
  NotBehind-trans :
      (l m n : Node)
      → 0 < l.max_slots
      → 0 < m.max_slots
      → 0 < n.max_slots
      → NotBehind le l m
      → NotBehind le m n
      → NotBehind le l n
  NotBehind-trans l m n i j k x y =
      let first = x.less_used in
      let second = y.less_used in
      let whole =
        cross_trans l.current_slots l.max_slots m.current_slots m.max_slots n.current_slots
          n.max_slots j first second in
      let ties : l.current_slots * n.max_slots ≡ n.current_slots * l.max_slots
          → (l.current_slots * m.max_slots ≡ m.current_slots * l.max_slots)
            × (m.current_slots * n.max_slots ≡ n.current_slots * m.max_slots) =
        λ same.
          let back : n.current_slots * l.max_slots ≤ l.current_slots * n.max_slots = omega arith in
          let left =
            cross_trans n.current_slots n.max_slots l.current_slots l.max_slots m.current_slots
              m.max_slots i back first in
          let right =
            cross_trans m.current_slots m.max_slots n.current_slots n.max_slots l.current_slots
              l.max_slots k second back in
          (omega (arith, first, right), omega (arith, second, left)) in
      record {
        less_used = whole;
        idle_longer =
            λ same. let (a, b) = ties same in omega (arith, x.idle_longer a, y.idle_longer b);
        named_before = λ same at.
            let (a, b) = ties same in
            let p = x.idle_longer a in
            let q = y.idle_longer b in
            o.trans l.id m.id n.id (x.named_before a (omega (arith, p, q, at)))
              (y.named_before b (omega (arith, p, q, at)));
      }

  node_le-NotBehind : (l r : Node) → node_le le l r ≡ true → NotBehind le l r
  unfolding node_le
  node_le-NotBehind l r h = record {
    less_used = ground (arith, h);
    idle_longer = λ same. ground (arith, h, same);
    named_before = λ same at. ground (arith, h, same, at);
  }

  node_le-not : (l r : Node) → node_le le l r ≡ false → NotBehind le r l
  unfolding node_le
  node_le-not l r h = record {
    less_used = ground (arith, h);
    idle_longer = λ same. ground (arith, h, same);
    named_before = λ same at. ground (arith, h, same, at, o.total l.id r.id);
  }

  abbrev HasSlots : Node → Type 0
  HasSlots n = 0 < n.max_slots

  -- The first of a list is behind none of the others.
  abbrev pub Led : List Node → Type 0
  Led [] = Unit
  Led (x ∷ l) = All (NotBehind le x) l

  insert_by-Led :
      (x : Node) (l : List Node)
      → HasSlots x
      → All HasSlots l
      → Led l
      → Led (insert_by (node_le le) x l)
  unfolding insert_by
  insert_by-Led x [] i j h = tt
  insert_by-Led x (y ∷ l) i j h = elim (Bool-cases (node_le le x y)) [
    | inl first ↦
        let ahead = node_le-NotBehind x y first in
        rw first (
          ahead,
          All-map (λ z. HasSlots z × NotBehind le y z) (NotBehind le x)
              (λ z (slots, behind). NotBehind-trans x y z i j.0 slots ahead behind) l
              (All-both HasSlots (NotBehind le y) l j.1 h),
        )
    | inr later ↦
        rw later (All-insert_by (node_le le) (NotBehind le y) x l (node_le-not x y later) h)
  ]

  pub sort_by-Led : (l : List Node) → All HasSlots l → Led (sort_by (node_le le) l)
  unfolding sort_by
  sort_by-Led [] h = tt
  sort_by-Led (x ∷ l) h =
      insert_by-Led x (sort_by (node_le le) l) h.0 (All-sort_by (node_le le) HasSlots l h.1)
        (sort_by-Led l h.1)
