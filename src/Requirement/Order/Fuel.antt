-- ===== src/Requirement/Order/Fuel.antt =====
-- The loop over the nodes ends within one turn for each node.
use eoduksini.Requirement.Facts.{code_points_le}
use eoduksini.Base.Sort.{length-sort_by}
use eoduksini.Requirement.Nodes.{Node, ids}
use eoduksini.Requirement.Order.{
  Queue, release, release_all, indegree_at, first_ready, indegrees, ordered_ids, take_ready,
  dependents_of, dependents_at,
}
use eoduksini.Base.{
  ℕ, String, ◌≡◌, List, [], ◌∷◌, some, if◌then◌else◌, ◌==◌, length, suc, ◌∙◌, arith, ◌+◌, refl,
  Option-cases, ◌≤◌, inl, inr, keep, zero, ◌++◌, length-map, length-append,
}
use eoduksini.Base.Dict.{Dict, lookup, insert}

-- The nodes that still wait for another.
abbrev pub waiting : Dict ℕ → ℕ
waiting [] = 0
waiting ((id, n) ∷ d) = if n == 0 then waiting d else suc (waiting d)

waiting-insert_last :
    (id : String) (d : Dict ℕ) → lookup id d ≡ some 1 → waiting d ≡ suc (waiting (insert id 0 d))
unfolding lookup insert
waiting-insert_last id [] h = cc
waiting-insert_last id ((j, n) ∷ d) h = ground (arith, waiting-insert_last id d)

waiting-insert_more :
    (id : String) (d : Dict ℕ) (n : ℕ)
    → lookup id d ≡ some (suc (suc n))
    → waiting (insert id (suc n) d) ≡ waiting d
unfolding lookup insert
waiting-insert_more id [] n h = cc
waiting-insert_more id ((j, m) ∷ d) n h = ground (arith, waiting-insert_more id d n)

-- What the loop has still to do.
abbrev pub left_over : Queue → ℕ
left_over q = length q.ready + waiting q.indegree

release-left_over : (q : Queue) (id : String) → left_over (release q id) ≡ left_over q
unfolding release indegree_at
release-left_over q id = elim (Option-cases (lookup id q.indegree)) [
  | inl absent ↦ ground arith
  | inr (zero, present) ↦ ground arith
  | inr (suc zero, present) ↦ ground (
    arith,
    waiting-insert_last id q.indegree present,
    length-sort_by code_points_le (q.ready ++ (id ∷ [])),
    length-append q.ready (id ∷ []),
  )
  | inr (suc (suc n), present) ↦ ground (arith, waiting-insert_more id q.indegree n present)
]

release_all-left_over : (q : Queue) (l : List String) → left_over (release_all q l) ≡ left_over q
unfolding release_all
release_all-left_over q [] = refl
release_all-left_over q (id ∷ l) = release_all-left_over (release q id) l ∙ release-left_over q id

-- With a turn for each node that is ready or waits, the loop ends, and takes no more nodes than that.
take_ready-some :
    (fuel : ℕ) (after : Dict (List String)) (degrees : Dict ℕ) (ready : List String)
    → length ready + waiting degrees ≤ fuel
    → (l : List String) × (take_ready fuel after degrees ready ≡ some l) × (length l ≤ fuel)
unfolding take_ready
take_ready-some fuel after degrees [] h = ([], refl, omega arith)
take_ready-some zero after degrees (id ∷ ready) h = absurd (omega (arith, h))
take_ready-some (suc fuel) after degrees (id ∷ ready) h =
    let q : Queue = record { indegree = degrees; ready = ready } in
    let q' = release_all q (dependents_at id after) in
    let same = release_all-left_over q (dependents_at id after) in
    let (l, found, bound) =
      take_ready-some fuel after q'.indegree q'.ready (omega (arith, h, same)) in
    (id ∷ l, rw (found, take_ready) refl, omega (arith, bound))

-- At the start each node is ready or waits.
start-left_over :
    (l : List Node)
    → length (keep (λ n. length n.depends_on == 0) l) + waiting (indegrees l) ≡ length l
unfolding indegrees
start-left_over [] = refl
start-left_over (n ∷ l) = ground (arith, start-left_over l)

first_ready-left_over : (l : List Node) → length (first_ready l) + waiting (indegrees l) ≡ length l
unfolding first_ready
first_ready-left_over l =
    let kept = keep (λ n. length n.depends_on == 0) l in
    omega (
      arith,
      start-left_over l,
      length-sort_by code_points_le (ids kept),
      length-map (λ n. n.id) kept,
    )

-- A turn for each node is enough for the loop, whatever the dependencies are, cycles included, and
-- it takes no more nodes than there are.
pub ordered_ids-total :
    (l : List Node) → (xs : List String) × (ordered_ids l ≡ some xs) × (length xs ≤ length l)
unfolding ordered_ids
ordered_ids-total l =
    take_ready-some (length l) (dependents_of l) (indegrees l) (first_ready l)
      (omega (arith, first_ready-left_over l))
