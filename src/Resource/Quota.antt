-- ===== src/Resource/Quota.antt =====
-- The decision on a request for threads and memory. Threads are whole and memory is counted in
-- 2^-20 GiB: on such numbers, up to 2^53 of them, the sums of doubles are exact.
pub mod Limits
use eoduksini.Base.Result.{Result, ◌>>◌, ok, check, ◌>>=◌}
use eoduksini.Base.Text.{max_safe, codes}
use eoduksini.Base.{
  ℕ, String, Bool, true, false, not, ◌&&◌, ◌||◌, Option, none, some, List, [], ◌∷◌, leb, ltb, all,
  length, if◌then◌else◌, ◌+◌, ◌==◌, ◌*◌,
}

pub data Invalid : Type 0 where
  quota_invalid admission_input_invalid : Invalid

abbrev pub max_cpu : ℕ
max_cpu = 4096

-- 1048576 GiB
abbrev pub max_memory : ℕ
max_memory = 1048576 * 1048576

abbrev pub positive_to : ℕ → ℕ → Bool
positive_to maximum n = ltb 0 n && leb n maximum

pub record Quota : Type 0 where
  pub contract_id : String
  pub node_id : String
  pub base_cpu_threads : ℕ
  pub max_cpu_threads : ℕ
  pub base_memory : ℕ
  pub max_memory_units : ℕ
  pub max_concurrent_tasks : ℕ
  pub burst_expires_at : Option ℕ
  pub updated_at : ℕ

is_contract_code : ℕ → Bool
is_contract_code c = (leb 0x41 c && leb c 0x5A) || (leb 0x30 c && leb c 0x39)

-- /^CT-[A-Z0-9][A-Z0-9_-]{0,62}$/
contract_codes : List ℕ → Bool
unfolding is_contract_code
contract_codes (a ∷ b ∷ c ∷ d ∷ l) =
    a == 0x43
    && b == 0x54
    && c == 0x2D
    && is_contract_code d
    && all (λ x. is_contract_code x || x == 0x5F || x == 0x2D) l
    && leb (length l) 62
contract_codes _ = false

-- The length of a text in UTF-16 units.
units : List ℕ → ℕ
units [] = 0
units (c ∷ l) = let rest = units l in if leb 0x10000 c then rest + 2 else rest + 1

optional_safe : Option ℕ → Bool
optional_safe none = true
optional_safe (some n) = leb n max_safe

unfoldable pub normalize_contract_node_resource_quota : Quota → Result Invalid Quota
unfolding contract_codes optional_safe units
normalize_contract_node_resource_quota q = do
  check
      (contract_codes (codes q.contract_id)
        && leb 1 (units (codes q.node_id))
        && leb (units (codes q.node_id)) 128
        && positive_to max_cpu q.base_cpu_threads
        && positive_to max_cpu q.max_cpu_threads
        && positive_to max_memory q.base_memory
        && positive_to max_memory q.max_memory_units
        && positive_to 10000 q.max_concurrent_tasks
        && optional_safe q.burst_expires_at
        && leb q.updated_at max_safe
        && leb q.base_cpu_threads q.max_cpu_threads
        && leb q.base_memory q.max_memory_units)
      quota_invalid
  ok q

pub record Request : Type 0 where
  pub cpu_threads : ℕ
  pub memory : ℕ
  pub allow_burst : Bool

pub record Usage : Type 0 where
  pub cpu_threads : ℕ
  pub memory : ℕ
  pub active_tasks : ℕ

pub record Capacity : Type 0 where
  pub cpu_threads : ℕ
  pub memory : ℕ
  pub available_memory : ℕ

pub record Input : Type 0 where
  pub request : Request
  pub contract_usage : Usage
  pub node_usage : Usage
  pub node_capacity : Capacity
  pub quota : Option Quota
  pub legacy_internal : Bool
  pub now : ℕ

pub data Tier : Type 0 where
  legacy base burst : Tier

pub data Refusal : Type 0 where
  node_cpu_limit_reached node_memory_limit_reached node_memory_pressure : Refusal
  contract_node_quota_required contract_concurrency_limit contract_base_limit_reached : Refusal
  contract_burst_unavailable contract_burst_limit_reached : Refusal

pub data Verdict : Type 0 where
  granted : Tier → (cpu_threads memory : ℕ) → Verdict
  refused : Refusal → Verdict

valid_input : Input → Bool
valid_input i =
    positive_to max_cpu i.request.cpu_threads
    && positive_to max_memory i.request.memory
    && leb i.contract_usage.active_tasks max_safe
    && leb i.node_usage.active_tasks max_safe
    && positive_to max_cpu i.node_capacity.cpu_threads
    && positive_to max_memory i.node_capacity.memory

-- A burst is there up to its expiry.
burst_open : Option ℕ → ℕ → Bool
burst_open none now = false
burst_open (some t) now = not (ltb t now)

-- The decision under a quota that has been read.
unfoldable pub decide_quota : Input → Quota → Verdict
unfolding burst_open
decide_quota i q =
    let cpu = i.contract_usage.cpu_threads + i.request.cpu_threads in
    let memory = i.contract_usage.memory + i.request.memory in
    if leb q.max_concurrent_tasks i.contract_usage.active_tasks
    then refused contract_concurrency_limit
    else if leb cpu q.base_cpu_threads && leb memory q.base_memory
    then granted base i.request.cpu_threads i.request.memory
    else if not i.request.allow_burst
    then refused contract_base_limit_reached
    else if not (burst_open q.burst_expires_at i.now)
    then refused contract_burst_unavailable
    else if ltb q.max_cpu_threads cpu || ltb q.max_memory_units memory
    then refused contract_burst_limit_reached
    else granted burst i.request.cpu_threads i.request.memory

-- The decision on a request that the node can hold.
by_quota : Input → Option Quota → Result Invalid Verdict
unfolding decide_quota
by_quota i none = ok (
    if i.legacy_internal
    then granted legacy i.request.cpu_threads i.request.memory
    else refused contract_node_quota_required)
by_quota i (some q) = do q' ← normalize_contract_node_resource_quota q; ok (decide_quota i q')

-- First what the node can hold.
on_node : Input → Result Invalid Verdict
unfolding by_quota
on_node i =
    if ltb i.node_capacity.cpu_threads (i.node_usage.cpu_threads + i.request.cpu_threads)
    then ok (refused node_cpu_limit_reached)
    else if ltb i.node_capacity.memory (i.node_usage.memory + i.request.memory)
    then ok (refused node_memory_limit_reached)
    else if ltb i.node_capacity.available_memory i.request.memory
    then ok (refused node_memory_pressure)
    else by_quota i i.quota

unfoldable pub decide_resource_admission : Input → Result Invalid Verdict
unfolding valid_input on_node
decide_resource_admission i = do check (valid_input i) admission_input_invalid; on_node i
