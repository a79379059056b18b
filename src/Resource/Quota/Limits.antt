-- ===== src/Resource/Quota/Limits.antt =====
-- Which limits a granted request keeps, and which one a refusal has met.
use eoduksini.Base.Result.{ok}
use eoduksini.Resource.Quota.{
  Input, decide_quota, Tier, Quota, granted, legacy, base, burst, by_quota, burst_open,
  decide_resource_admission, Refusal, refused, normalize_contract_node_resource_quota, on_node,
  node_cpu_limit_reached, node_memory_limit_reached, contract_node_quota_required,
  node_memory_pressure, contract_concurrency_limit, contract_base_limit_reached,
  contract_burst_unavailable, contract_burst_limit_reached,
}
use eoduksini.Base.{
  ℕ, ◌≡◌, ◌≤◌, ◌<◌, ◌+◌, Option, none, some, arith, true, ◌⊎◌, false, Option-cases, inl, inr,
}

-- What a request must keep of the quota; the tier says under which of its limits.
abbrev pub WithinQuota : Input → Tier → Option Quota → Type 0
WithinQuota i legacy none = i.legacy_internal ≡ true
WithinQuota i legacy (some q) = ⊥
WithinQuota i base none = ⊥
WithinQuota i base (some q) =
    (i.contract_usage.active_tasks < q.max_concurrent_tasks)
    × (i.contract_usage.cpu_threads + i.request.cpu_threads ≤ q.base_cpu_threads)
    × (i.contract_usage.memory + i.request.memory ≤ q.base_memory)
WithinQuota i burst none = ⊥
WithinQuota i burst (some q) =
    (i.contract_usage.active_tasks < q.max_concurrent_tasks)
    × (i.contract_usage.cpu_threads + i.request.cpu_threads ≤ q.max_cpu_threads)
    × (i.contract_usage.memory + i.request.memory ≤ q.max_memory_units)
    × (i.request.allow_burst ≡ true)
    × ((t : ℕ) × (q.burst_expires_at ≡ some t) × (i.now ≤ t))

decide_quota-WithinQuota :
    (i : Input) (q : Quota) (t : Tier) (cpu memory : ℕ)
    → decide_quota i q ≡ granted t cpu memory
    → WithinQuota i t (some q) × (cpu ≡ i.request.cpu_threads) × (memory ≡ i.request.memory)
unfolding decide_quota burst_open
decide_quota-WithinQuota i q legacy cpu memory h = ground arith
decide_quota-WithinQuota i q base cpu memory h = ground arith
decide_quota-WithinQuota i q burst cpu memory h = elim (Option-cases q.burst_expires_at) [
  | inl never ↦ ground arith
  | inr (t, expires) ↦
      let (
        active, within_cpu, within_memory, allowed, open_until, grant,
      ) : ((i.contract_usage.active_tasks < q.max_concurrent_tasks)
          × (i.contract_usage.cpu_threads + i.request.cpu_threads ≤ q.max_cpu_threads)
          × (i.contract_usage.memory + i.request.memory ≤ q.max_memory_units)
          × (i.request.allow_burst ≡ true)
          × (i.now ≤ t)
          × ((cpu ≡ i.request.cpu_threads) × (memory ≡ i.request.memory))) =
        ground arith in
      ((active, within_cpu, within_memory, allowed, (t, expires, open_until)), grant.0, grant.1)
]

abbrev OverBase : Input → Quota → Type 0
OverBase i q =
    (q.base_cpu_threads < i.contract_usage.cpu_threads + i.request.cpu_threads)
    ⊎ (q.base_memory < i.contract_usage.memory + i.request.memory)

-- A refusal names a limit that the request would break.
abbrev pub Broken : Input → Refusal → Option Quota → Type 0
Broken i node_cpu_limit_reached o =
    i.node_capacity.cpu_threads < i.node_usage.cpu_threads + i.request.cpu_threads
Broken i node_memory_limit_reached o =
    i.node_capacity.memory < i.node_usage.memory + i.request.memory
Broken i node_memory_pressure o = i.node_capacity.available_memory < i.request.memory
Broken i contract_node_quota_required none = i.legacy_internal ≡ false
Broken i contract_concurrency_limit (some q) =
    q.max_concurrent_tasks ≤ i.contract_usage.active_tasks
Broken i contract_base_limit_reached (some q) = (i.request.allow_burst ≡ false) × OverBase i q
Broken i contract_burst_unavailable (some q) =
    OverBase i q × ((t : ℕ) → q.burst_expires_at ≡ some t → t < i.now)
Broken i contract_burst_limit_reached (some q) =
    (q.max_cpu_threads < i.contract_usage.cpu_threads + i.request.cpu_threads)
    ⊎ (q.max_memory_units < i.contract_usage.memory + i.request.memory)
Broken i _ _ = ⊥

by_quota-WithinQuota :
    (i : Input) (o : Option Quota) (t : Tier) (cpu memory : ℕ)
    → by_quota i o ≡ ok (granted t cpu memory)
    → WithinQuota i t o × (cpu ≡ i.request.cpu_threads) × (memory ≡ i.request.memory)
unfolding by_quota normalize_contract_node_resource_quota
by_quota-WithinQuota i none legacy cpu memory h = ground arith
by_quota-WithinQuota i none base cpu memory h = ground arith
by_quota-WithinQuota i none burst cpu memory h = ground arith
by_quota-WithinQuota i (some q) t cpu memory h =
    decide_quota-WithinQuota i q t cpu memory (ground arith)

-- A request is granted only if the node has the threads and the memory beside what is used, has the
-- memory available, and the request keeps the limits of the quota at its tier: the base limits, or
-- with a burst that is allowed and open the maximal ones; what is granted is what was requested.
pub admission_granted :
    (i : Input) (t : Tier) (cpu memory : ℕ)
    → decide_resource_admission i ≡ ok (granted t cpu memory)
    → (i.node_usage.cpu_threads + i.request.cpu_threads ≤ i.node_capacity.cpu_threads)
      × (i.node_usage.memory + i.request.memory ≤ i.node_capacity.memory)
      × (i.request.memory ≤ i.node_capacity.available_memory)
      × (WithinQuota i t i.quota × (cpu ≡ i.request.cpu_threads) × (memory ≡ i.request.memory))
unfolding decide_resource_admission on_node
admission_granted i t cpu memory h =
    let quota_part : (by_quota i i.quota ≡ ok (granted t cpu memory)) = ground arith in
    (
      ground arith,
      ground arith,
      ground arith,
      by_quota-WithinQuota i i.quota t cpu memory quota_part,
    )

decide_quota-Broken :
    (i : Input) (q : Quota) (r : Refusal) → decide_quota i q ≡ refused r → Broken i r (some q)
unfolding decide_quota burst_open
decide_quota-Broken i q node_cpu_limit_reached h = ground arith
decide_quota-Broken i q node_memory_limit_reached h = ground arith
decide_quota-Broken i q node_memory_pressure h = ground arith
decide_quota-Broken i q contract_node_quota_required h = ground arith
decide_quota-Broken i q contract_concurrency_limit h = ground arith
decide_quota-Broken i q contract_base_limit_reached h = ground arith
decide_quota-Broken i q contract_burst_unavailable h = ground arith
decide_quota-Broken i q contract_burst_limit_reached h = ground arith

by_quota-Broken :
    (i : Input) (o : Option Quota) (r : Refusal) → by_quota i o ≡ ok (refused r) → Broken i r o
unfolding by_quota normalize_contract_node_resource_quota
by_quota-Broken i none contract_node_quota_required h = ground arith
by_quota-Broken i none contract_concurrency_limit h = ground arith
by_quota-Broken i none contract_base_limit_reached h = ground arith
by_quota-Broken i none contract_burst_unavailable h = ground arith
by_quota-Broken i none contract_burst_limit_reached h = ground arith
by_quota-Broken i none node_cpu_limit_reached h = ground arith
by_quota-Broken i none node_memory_limit_reached h = ground arith
by_quota-Broken i none node_memory_pressure h = ground arith
by_quota-Broken i (some q) r h = decide_quota-Broken i q r (ground arith)

refused_where :
    (i : Input) (r : Refusal)
    → decide_resource_admission i ≡ ok (refused r)
    → ((r ≡ node_cpu_limit_reached)
        × (i.node_capacity.cpu_threads < i.node_usage.cpu_threads + i.request.cpu_threads))
      ⊎ (((r ≡ node_memory_limit_reached)
            × (i.node_capacity.memory < i.node_usage.memory + i.request.memory))
          ⊎ (((r ≡ node_memory_pressure) × (i.node_capacity.available_memory < i.request.memory))
              ⊎ (by_quota i i.quota ≡ ok (refused r))))
unfolding decide_resource_admission on_node
refused_where i r h = ground arith

-- A request is refused only for a limit that it would break, and the refusal names this limit.
pub admission_refused :
    (i : Input) (r : Refusal) → decide_resource_admission i ≡ ok (refused r) → Broken i r i.quota
admission_refused i r h = elim (refused_where i r h) [
  | inl (same, more) ↦ rw same more
  | inr (inl (same, more)) ↦ rw same more
  | inr (inr (inl (same, more))) ↦ rw same more
  | inr (inr (inr by)) ↦ by_quota-Broken i i.quota r by
]
