-- ===== src/Resource/Node.antt =====
-- The node of a task (packages/engine-primitives/scheduler.mjs, resource.mjs). Times are counted
-- from an epoch, disk is counted in 2^-20 GiB. The shares of used slots are compared by their cross
-- products, which agrees with the doubles of the source up to 2^26 slots; `locale_le` is the order
-- of `localeCompare`.
pub mod Order
pub mod Chosen
use eoduksini.Base.Sort.{sort_by}
use eoduksini.Base.{
  ℕ, String, Bool, true, false, ◌&&◌, ◌||◌, Option, none, some, List, [], ◌∷◌, keep, leb, ltb,
  if◌then◌else◌, includes, ◌*◌, ◌-◌, ◌+◌, str_eq,
}

pub record Node : Type 0 where
  pub id : String
  pub approval_state : String
  pub health : String
  pub capabilities : List String
  pub last_heartbeat_at : ℕ
  pub resource_received_at : ℕ
  pub controller_connected : Bool
  pub free_disk : ℕ
  pub max_slots : ℕ
  pub current_slots : ℕ
  pub schedulable_slots : Option ℕ
  pub last_assigned_at : ℕ

-- `now - t` is negative for a time to come.
unfoldable pub is_fresh_controller_receipt : (received_at now : ℕ) → Bool
is_fresh_controller_receipt t now = leb t now && leb (now - t) 30000

smaller : ℕ → ℕ → ℕ
smaller m n = if leb m n then m else n

slots_of : Node → ℕ
unfolding smaller
slots_of n = elim n.schedulable_slots [ none ↦ n.max_slots | some s ↦ smaller n.max_slots s ]

unfoldable pub is_eligible : (capability : String) (now : ℕ) → Node → Bool
unfolding slots_of is_fresh_controller_receipt
is_eligible capability now n =
    str_eq n.approval_state "APPROVED"
    && (str_eq n.health "ONLINE" || str_eq n.health "BUSY")
    && includes n.capabilities capability
    && leb now (n.last_heartbeat_at + 30000)
    && is_fresh_controller_receipt n.resource_received_at now
    && n.controller_connected
    && leb (10 * 1048576) n.free_disk
    && ltb 0 n.max_slots
    && ltb n.current_slots (slots_of n)

unfoldable pub node_le : (locale_le : String → String → Bool) → Node → Node → Bool
node_le locale_le l r =
    let a = l.current_slots * r.max_slots in
    let b = r.current_slots * l.max_slots in
    if ltb a b
    then true
    else if ltb b a
    then false
    else if ltb l.last_assigned_at r.last_assigned_at
    then true
    else if ltb r.last_assigned_at l.last_assigned_at
    then false
    else locale_le l.id r.id

head_of {ℓ} : {A : Type ℓ} → List A → Option A
head_of [] = none
head_of (x ∷ l) = some x

unfoldable pub select_node :
    (locale_le : String → String → Bool) (capability : String) → List Node → (now : ℕ) → Option Node
unfolding is_eligible node_le head_of
select_node locale_le capability nodes now =
    head_of (sort_by (node_le locale_le) (keep (is_eligible capability now) nodes))
