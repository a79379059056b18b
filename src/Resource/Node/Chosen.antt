-- ===== src/Resource/Node/Chosen.antt =====
-- The node that is chosen (packages/engine-primitives/scheduler.mjs).
use mathlib.Core.Path.{subst}
use eoduksini.Resource.Node.Order.{IsOrder, Led, NotBehind, sort_by-Led}
use eoduksini.Base.Sort.{sort_by, All-sort_by, All-sort_by_inv}
use eoduksini.Base.{
  ℕ, String, Bool, ◌≡◌, ◌⊎◌, includes, true, arith, ◌≤◌, eq_iff, ◌+◌, ◌*◌, ◌<◌, some, List, In, All,
  keep, [], ◌∷◌, refl, Bool-cases, All-map, All-keep, inl, In-cons, inr,
}
use eoduksini.Resource.Node.{
  Node, select_node, head_of, is_eligible, node_le, slots_of, is_fresh_controller_receipt, smaller,
}

-- What `selectNode` asks of a node.
pub record CanTake (capability : String) (now : ℕ) (n : Node) : Type 0 where
  pub approved : n.approval_state ≡ "APPROVED"
  pub healthy : (n.health ≡ "ONLINE") ⊎ (n.health ≡ "BUSY")
  pub able : includes n.capabilities capability ≡ true
  pub alive : now ≤ n.last_heartbeat_at + 30000
  pub reported : (n.resource_received_at ≤ now) × (now ≤ n.resource_received_at + 30000)
  pub connected : n.controller_connected ≡ true
  pub has_disk : 10 * 1048576 ≤ n.free_disk
  pub has_slot : n.current_slots < n.max_slots
  pub schedulable : (k : ℕ) → n.schedulable_slots ≡ some k → n.current_slots < k

is_eligible-CanTake :
    (capability : String) (now : ℕ) (n : Node)
    → is_eligible capability now n ≡ true
    → CanTake capability now n
unfolding is_eligible slots_of is_fresh_controller_receipt smaller
is_eligible-CanTake capability now n h = record {
  approved = ground (arith, h, eq_iff n.approval_state "APPROVED");
  healthy = ground (arith, h, eq_iff n.health "ONLINE", eq_iff n.health "BUSY");
  able = ground (arith, h);
  alive = ground (arith, h);
  reported = ground (arith, h);
  connected = ground (arith, h);
  has_disk = ground (arith, h);
  has_slot = ground (arith, h);
  schedulable = λ k there. ground (arith, h, there);
}

head_of-Led :
    (le : String → String → Bool) (o : IsOrder le) (P : Node → Type 0) (l : List Node) (n : Node)
    → head_of l ≡ some n
    → All P l
    → Led le o l
    → P n × All (λ m. (m ≡ n) ⊎ NotBehind le n m) l
unfolding head_of
head_of-Led le o P [] n h k led = cc
head_of-Led le o P (x ∷ l) n h k led =
    let same : x ≡ n = cc in
    subst (λ z. P z × All (λ m. (m ≡ z) ⊎ NotBehind le z m) (x ∷ l)) same
      (
        k.0,
        (inl refl, All-map (NotBehind le x) (λ m. (m ≡ x) ⊎ NotBehind le x m) (λ m b. inr b) l led),
      )

In-self : (l : List Node) → All (λ n. In n l) l
In-self [] = tt
In-self (x ∷ l) = (
  ([], l, refl),
  All-map (λ n. In n l) (λ n. In n (x ∷ l)) (λ n i. In-cons n x l i) l (In-self l),
)

kept-All :
    (P : Node → Type 0) (q : Node → Bool) (l : List Node)
    → All P (keep q l)
    → All (λ m. q m ≡ true → P m) l
kept-All P q [] h = tt
kept-All P q (x ∷ l) h = elim (Bool-cases (q x)) [
  | inl holds ↦ let (here, rest) = rw holds at h in ((λ _. here), kept-All P q l rest)
  | inr fails ↦ ((λ holds. absurd (cc (fails, holds))), kept-All P q l (rw fails at h))
]

has_slots : (capability : String) (now : ℕ) (n : Node) → CanTake capability now n → 0 < n.max_slots
has_slots capability now n can = omega (arith, can.has_slot)

-- A node that is chosen is one of the nodes, can take the task, and is behind no other node that can:
-- `localeCompare` being an order, none has less of its slots in use, or as much and has been longer
-- without a task, or is alike in both and comes first by its id.
pub select_node-best :
    (le : String → String → Bool) (capability : String) (nodes : List Node) (now : ℕ) {n : Node}
    → IsOrder le
    → select_node le capability nodes now ≡ some n
    → In n nodes
      × CanTake capability now n
      × All (λ m. is_eligible capability now m ≡ true → (m ≡ n) ⊎ NotBehind le n m) nodes
unfolding select_node
select_node-best le capability nodes now {n} o h =
    let q = is_eligible capability now in
    let able = keep q nodes in
    let P : Node → Type 0 = λ m. In m nodes × CanTake capability now m in
    let all_able =
      All-map (λ m. In m nodes × (q m ≡ true)) P
        (λ m (inside, holds). (inside, is_eligible-CanTake capability now m holds)) able
        (All-keep (λ m. In m nodes) q nodes (In-self nodes)) in
    let slots =
      All-map P (λ m. 0 < m.max_slots) (λ m (_, can). has_slots capability now m can) able
        all_able in
    let ((inside, can), best) =
      head_of-Led le o P (sort_by (node_le le) able) n h (All-sort_by (node_le le) P able all_able)
        (sort_by-Led le o able slots) in
    (
      inside,
      can,
      kept-All (λ m. (m ≡ n) ⊎ NotBehind le n m) q nodes
          (All-sort_by_inv (node_le le) (λ m. (m ≡ n) ⊎ NotBehind le n m) able best),
    )
