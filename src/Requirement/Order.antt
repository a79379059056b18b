-- ===== src/Requirement/Order.antt =====
-- The nodes in the order of their dependencies: the loop of `normalizeNodes`.
pub mod Fuel
use eoduksini.Requirement.Facts.{code_points_le}
use eoduksini.Base.Result.{err, ◌>>=◌, ◌>>◌, check, ok, traverse}
use eoduksini.Base.Json.{Value}
use eoduksini.Base.Sort.{sort_by}
use eoduksini.Requirement.Check.{
  Checked, dependency_cycle, require_array, nodes_required, max_nodes, too_many_items,
  duplicate_node, missing_dependency, no_mandatory_selector,
}
use eoduksini.Requirement.Nodes.{Node, is_broker_bound, find_node, ids, node_of}
use eoduksini.Base.{
  ℕ, String, Bool, true, false, not, ◌&&◌, Option, none, some, List, [], ◌∷◌, ◌++◌, map, keep, leb,
  length, distinct, includes, if◌then◌else◌, zero, suc, ◌-◌, ◌==◌, all, any,
}
use eoduksini.Base.Dict.{Dict, lookup, insert}

-- What an id has in `dependents`.
unfoldable pub dependents_at : String → Dict (List String) → List String
dependents_at id d = elim (lookup id d) [ none ↦ [] | some l ↦ l ]

-- dependents.set(dependency, [...entries, id]), for each dependency of a node.
add_dependents : String → List String → Dict (List String) → Dict (List String)
unfolding dependents_at
add_dependents id [] d = d
add_dependents id (p ∷ ps) d = add_dependents id ps (insert p (dependents_at p d ++ (id ∷ [])) d)

unfoldable pub collect : List Node → Dict (List String) → Dict (List String)
unfolding add_dependents
collect [] d = d
collect (n ∷ l) d = collect l (add_dependents n.id n.depends_on d)

-- The dependents of each node, each list sorted.
unfoldable pub dependents_of : List Node → Dict (List String)
unfolding collect
dependents_of l = map (λ (id, xs). (id, sort_by code_points_le xs)) (collect l [])

unfoldable pub indegrees : List Node → Dict ℕ
indegrees l = map (λ n. (n.id, length n.depends_on)) l

-- An indegree, and 0 once it is below: the source goes on below 0, where it is never 0 again.
unfoldable pub indegree_at : String → Dict ℕ → ℕ
indegree_at id d = elim (lookup id d) [ none ↦ 0 | some n ↦ n ]

-- The queue of the loop, and what still waits.
pub record Queue : Type 0 where
  pub indegree : Dict ℕ
  pub ready : List String

-- One dependent of the node taken: its indegree falls by 1, and at 0 it is ready.
unfoldable pub release : Queue → String → Queue
unfolding indegree_at
release q id =
    let n = indegree_at id q.indegree in
    let left = insert id (n - 1) q.indegree in
    if n == 1
    then record { indegree = left; ready = sort_by code_points_le (q.ready ++ (id ∷ [])) }
    else if n == 0
    then q
    else record { indegree = left; ready = q.ready }

unfoldable pub release_all : Queue → List String → Queue
unfolding release
release_all q [] = q
release_all q (id ∷ l) = release_all (release q id) l

-- The loop, which takes one node in each turn; `none` where the fuel runs out.
unfoldable pub take_ready :
    (fuel : ℕ) → Dict (List String) → Dict ℕ → List String → Option (List String)
unfolding release_all dependents_at
take_ready fuel after degrees [] = some []
take_ready zero after degrees (id ∷ ready) = none
take_ready (suc fuel) after degrees (id ∷ ready) =
    let q = release_all (record { indegree = degrees; ready = ready }) (dependents_at id after) in
    elim (take_ready fuel after q.indegree q.ready) [ none ↦ none | some l ↦ some (id ∷ l) ]

-- The nodes that depend on nothing.
unfoldable pub first_ready : List Node → List String
first_ready l = sort_by code_points_le (ids (keep (λ n. length n.depends_on == 0) l))

-- One turn for each node is enough.
unfoldable pub ordered_ids : List Node → Option (List String)
unfolding take_ready first_ready dependents_of indegrees
ordered_ids l = take_ready (length l) (dependents_of l) (indegrees l) (first_ready l)

-- byId.get(id), for an id that has a node.
found : List Node → List String → List Node
found l [] = []
found l (id ∷ xs) =
    let rest = found l xs in elim (find_node id l) [ none ↦ rest | some n ↦ n ∷ rest ]

unfoldable pub order_nodes : List Node → Checked (List Node)
unfolding ordered_ids found
order_nodes l = elim (ordered_ids l) [
  | none ↦ err dependency_cycle
  | some xs ↦ do check (length (found l xs) == length l) dependency_cycle; ok (found l xs)
]

unfoldable pub normalize_nodes : Option Value → Checked (List Node)
unfolding order_nodes is_broker_bound
normalize_nodes v = do
  l ← require_array v
  check (not (length l == 0)) nodes_required
  check (leb (length l) max_nodes) too_many_items
  nodes ← traverse node_of l
  check (distinct (ids nodes)) duplicate_node
  check (all (λ n. all (includes (ids nodes)) n.depends_on) nodes) missing_dependency
  ordered ← order_nodes nodes
  check (any is_broker_bound ordered) no_mandatory_selector
  ok ordered
