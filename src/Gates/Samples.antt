-- ===== src/Gates/Samples.antt =====
-- An approved request in front of a dispatch, beside a lock on another file, and the theorems on it.
use eoduksini.Governor.Lock.Writer.{Passes}
use eoduksini.Base.Lists.{All}
use eoduksini.Base.Dict.{lookup}
use eoduksini.Base.Text.{matches_id}
use eoduksini.Gates.Admits.{check_dispatch-prepares, check_dispatch-owned, check_dispatch-Passes}
use eoduksini.Controller.Dispatch.{prepared_state}
use eoduksini.Controller.Reduce.{apply}
use eoduksini.Base.Result.{ok, traverse}
use eoduksini.Resource.Quota.{
  Capacity, decide_resource_admission, normalize_contract_node_resource_quota,
}
use eoduksini.Governor.Lock.{
  Lock, governor_locked, writer_gate, blocking, lock_state, state_is_unlocked,
}
use eoduksini.Governor.Scope.{scope, Scope, scope_overlap}
use eoduksini.Base.{◌≡◌, refl, ℕ, [], true, ◌∷◌, none, some, String, false, ◌≢◌, ◌≤◌, List, arith}
use eoduksini.Controller.Demo.{hash, lax, entry, sample_request, sample_approval, running_state}
use eoduksini.Controller.Types.{Request, State, Reservation, attempt_prepared, Approval}
use eoduksini.Gates.{
  Sources, check_dispatch, recorded, check_reservation, same_approval, check_approval_time,
  check_current, check_governor, scope_for_platform, lock_for_platform, check_resources,
  resource_input, reservation_of, governor_time,
}

abbrev far_lock : Lock
far_lock = record {
  lock_id = "l0";
  project_id = "demo";
  provider_binding = "r";
  baseline = record {
    git_sha = "0000000000000000000000000000000000000000";
    harness_revision = 1;
    task_graph_revision = 1;
    migration_head = "m1";
    dependency_lock_digest = hash;
    api_contract_digest = hash;
    policy_digest = hash;
    control_epoch = 1;
  };
  baseline_digest = hash;
  scope = ("write_paths", "docs/a.md" ∷ []) ∷ [];
  issued_at = governor_time 0;
  expires_at = governor_time 500;
  heartbeat_interval_ms = 100;
  last_heartbeat_at = governor_time 0;
  status = governor_locked;
  decision_digest = none;
  verification_digest = none;
}

abbrev sources : Sources
sources = record {
  contracts = lax;
  approval_contract = λ _. ok tt;
  prepare_request = λ s r. ok r;
  unchanged = λ _ _. true;
  timeout_ms = λ _. 60;
  request_scope = λ _. ("write_paths", "src/b.mjs" ∷ []) ∷ [];
  platform_path = λ p. p;
  governor_locks = λ _. far_lock ∷ [];
  quota = λ _. some (record {
    contract_id = "CT-A1";
    node_id = "n1";
    base_cpu_threads = 2;
    max_cpu_threads = 4;
    base_memory = 2097152;
    max_memory_units = 4194304;
    max_concurrent_tasks = 1;
    burst_expires_at = none;
    updated_at = 1;
  });
}

abbrev idle_state : State
idle_state = record running_state { attempts = []; reservation = none }

abbrev capacity : Capacity
capacity = record { cpu_threads = 4; memory = 8388608; available_memory = 4194304 }

abbrev reserved : Reservation
reserved = record { cpu_threads = 1; memory_gib = 2097152; active_tasks = 1 }

dispatched :
    check_dispatch sources idle_state sample_request sample_approval 20 capacity false
    ≡ ok (reserved, hash)
unfolding check_dispatch recorded same_approval check_approval_time check_current check_governor
    scope_for_platform lock_for_platform check_reservation check_resources resource_input
    reservation_of decide_resource_admission writer_gate blocking scope matches_id lock_state
    state_is_unlocked scope_overlap normalize_contract_node_resource_quota
dispatched = refl

check_dispatch-prepares_example :
    apply lax idle_state 1 (attempt_prepared "a1" hash reserved none)
    ≡ ok (prepared_state idle_state "a1" hash reserved none)
unfolding lookup
check_dispatch-prepares_example =
    check_dispatch-prepares sources idle_state entry 20 capacity 1 refl dispatched

check_dispatch-owned_example :
    (check_reservation (prepared_state idle_state "a1" hash reserved none) sample_request hash true
      ≡ ok tt)
    × ((q : Request) (p : Approval) (later : ℕ) (room : Capacity) (out : Reservation × String)
        → check_dispatch sources
            (prepared_state idle_state "a1" hash reserved none)
            q
            p
            later
            room
            false
          ≢ ok out)
check_dispatch-owned_example = check_dispatch-owned sources idle_state entry 20 capacity dispatched

check_dispatch-Passes_example :
    (10 ≤ 20)
    × (80 ≤ 500)
    × ((locks : List Lock) × (wanted : Scope) × (requested : Scope) × (traverse
            (lock_for_platform sources)
            (far_lock ∷ [])
          ≡ ok locks)
        × (scope_for_platform sources (sources.request_scope sample_request) ≡ ok wanted)
        × (scope wanted ≡ ok requested)
        × All (Passes "demo" requested (governor_time 20)) locks)
check_dispatch-Passes_example =
    check_dispatch-Passes sources idle_state sample_request sample_approval 20 capacity false
      (omega arith) dispatched
