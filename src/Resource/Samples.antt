-- ===== src/Resource/Samples.antt =====
-- Requests at one node, and the theorems about admission at them.
use eoduksini.Resource.Node.Chosen.{CanTake, select_node-best}
use eoduksini.Resource.Node.Order.{IsOrder, NotBehind}
use eoduksini.Resource.Node.{select_node, Node, is_eligible}
use eoduksini.Base.Sort.{sort_by}
use eoduksini.Base.Result.{ok}
use eoduksini.Resource.Gpu.Granted.{gpus_granted-fit, GrantedFrom}
use eoduksini.Base.Json.{text_le}
use eoduksini.Resource.Quota.{
  decide_resource_admission, Input, Quota, contract_burst_unavailable,
  normalize_contract_node_resource_quota, burst, decide_quota, granted, refused,
}
use eoduksini.Resource.Quota.Limits.{Broken, WithinQuota, admission_refused, admission_granted}
use eoduksini.Resource.Gpu.{Device, decide_gpu_admission, Gpu, gpus_granted}
use eoduksini.Base.{
  ℕ, String, ◌≡◌, refl, none, some, List, [], ◌∷◌, true, false, length, ◌≤◌, ◌+◌, Bool, ◌*◌, All,
  In, inl, ◌⊎◌, distinct,
}

abbrev gib : ℕ
gib = 1048576

abbrev quota_of_two : Quota
quota_of_two = record {
  contract_id = "CT-A1";
  node_id = "n1";
  base_cpu_threads = 2;
  max_cpu_threads = 4;
  base_memory = 2 * gib;
  max_memory_units = 4 * gib;
  max_concurrent_tasks = 2;
  burst_expires_at = some 100;
  updated_at = 1;
}

abbrev asked : Input
asked = record {
  request = record { cpu_threads = 2; memory = gib; allow_burst = true };
  contract_usage = record { cpu_threads = 1; memory = gib; active_tasks = 1 };
  node_usage = record { cpu_threads = 4; memory = 4 * gib; active_tasks = 3 };
  node_capacity = record { cpu_threads = 8; memory = 16 * gib; available_memory = 8 * gib };
  quota = some quota_of_two;
  legacy_internal = false;
  now = 50;
}

bursts : decide_resource_admission asked ≡ ok (granted burst 2 gib)
unfolding decide_resource_admission normalize_contract_node_resource_quota decide_quota
bursts = refl

admission_granted_example :
    (4 + 2 ≤ asked.node_capacity.cpu_threads)
    × (4 * gib + gib ≤ asked.node_capacity.memory)
    × (gib ≤ asked.node_capacity.available_memory)
    × (WithinQuota asked burst (some quota_of_two)
        × (2 ≡ asked.request.cpu_threads)
        × (gib ≡ asked.request.memory))
admission_granted_example = admission_granted asked burst 2 gib bursts

abbrev late : Input
late = record asked { now = 101 }

too_late : decide_resource_admission late ≡ ok (refused contract_burst_unavailable)
unfolding decide_resource_admission normalize_contract_node_resource_quota decide_quota
too_late = refl

admission_refused_example : Broken late contract_burst_unavailable (some quota_of_two)
admission_refused_example = admission_refused late contract_burst_unavailable too_late

abbrev by_text : String → String → Bool
by_text = text_le

abbrev devices : List Device
devices =
    (record { id = some "g1"; device_index = some 0; name = "a"; free_vram = some 4 })
    ∷ (record { id = some "g2"; device_index = some 1; name = "a"; free_vram = some 8 })
    ∷ (record { id = none; device_index = none; name = "b"; free_vram = none })
    ∷ []

abbrev second : Gpu
second = record { id = "g2"; device_index = 1; name = "a"; vram = 3 }

one_gpu : decide_gpu_admission by_text 1 3 devices ("g1" ∷ []) ≡ gpus_granted (second ∷ []) 3
unfolding decide_gpu_admission sort_by
one_gpu = refl

gpus_granted-fit_example :
    (length (second ∷ []) ≡ 1)
    × (3 ≡ second.vram)
    × All (GrantedFrom 3 devices ("g1" ∷ [])) (second ∷ [])
    × (distinct (second.id ∷ []) ≡ true)
gpus_granted-fit_example = gpus_granted-fit by_text 0 3 devices ("g1" ∷ []) one_gpu

abbrev idle : Node
idle = record {
  id = "n1";
  approval_state = "APPROVED";
  health = "ONLINE";
  capabilities = "build" ∷ [];
  last_heartbeat_at = 1000;
  resource_received_at = 1000;
  controller_connected = true;
  free_disk = 20 * gib;
  max_slots = 4;
  current_slots = 1;
  schedulable_slots = none;
  last_assigned_at = 0;
}

-- The node of lower use is chosen.
idle_first :
    select_node by_text "build" ((record idle { id = "n0"; current_slots = 2 }) ∷ idle ∷ []) 2000
    ≡ some idle
unfolding select_node sort_by
idle_first = refl

-- An order in which all names are alike.
abbrev any_order : String → String → Bool
any_order a b = true

any_IsOrder : IsOrder any_order
any_IsOrder = record { total = λ a b. inl refl; trans = λ a b c h k. refl }

abbrev busier : Node
busier = record idle { id = "n0"; current_slots = 2 }

idle_chosen : select_node any_order "build" (busier ∷ idle ∷ []) 2000 ≡ some idle
unfolding select_node sort_by
idle_chosen = refl

select_node-best_example :
    In idle (busier ∷ idle ∷ [])
    × CanTake "build" 2000 idle
    × All
        (λ m. is_eligible "build" 2000 m ≡ true → (m ≡ idle) ⊎ NotBehind any_order idle m)
        (busier ∷ idle ∷ [])
select_node-best_example =
    select_node-best any_order "build" (busier ∷ idle ∷ []) 2000 any_IsOrder idle_chosen
