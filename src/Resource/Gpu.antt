-- ===== src/Resource/Gpu.antt =====
-- The devices of a GPU request (packages/engine-primitives/resource-quota.mjs, `decideGpuAdmission`).
-- Video memory is counted in 2^-20 GiB; `locale_le` is the order of `localeCompare`.
pub mod Granted
use eoduksini.Base.Text.{max_safe}
use eoduksini.Base.Sort.{sort_by}
use eoduksini.Base.{
  ℕ, String, Bool, true, false, not, ◌&&◌, ◌||◌, Option, none, some, List, [], ◌∷◌, map, keep, leb,
  ltb, all, length, distinct, if◌then◌else◌, includes, ◌++◌, any, ◌==◌, suc, str_eq, zero,
}

pub record Device : Type 0 where
  pub id : Option String
  pub device_index : Option ℕ
  pub name : String
  pub free_vram : Option ℕ

-- A device that has an id and an index.
pub record Identified : Type 0 where
  pub id : String
  pub device_index : ℕ
  pub name : String
  pub free_vram : Option ℕ

pub record Gpu : Type 0 where
  pub id : String
  pub device_index : ℕ
  pub name : String
  pub vram : ℕ

pub data GpuRefusal : Type 0 where
  node_gpu_identity_unavailable node_gpu_limit_reached node_vram_limit_reached : GpuRefusal

pub data GpuVerdict : Type 0 where
  gpus_granted : List Gpu → (vram : ℕ) → GpuVerdict
  gpus_refused : GpuRefusal → GpuVerdict

identify : Device → List Identified
identify d = elim d.id [
  | none ↦ []
  | some id ↦ elim d.device_index [
    | none ↦ []
    | some n ↦
        if not (str_eq id "") && leb n max_safe
        then (record { id = id; device_index = n; name = d.name; free_vram = d.free_vram }) ∷ []
        else []
  ]
]

unfoldable pub identified_of : List Device → List Identified
unfolding identify
identified_of [] = []
identified_of (d ∷ l) = identify d ++ identified_of l

distinct_indexes : List ℕ → Bool
distinct_indexes [] = true
distinct_indexes (n ∷ l) = not (any (λ m. m == n) l) && distinct_indexes l

unfoldable pub has_vram : ℕ → Identified → Bool
has_vram vram d = elim d.free_vram [ none ↦ false | some free ↦ leb vram free ]

abbrev pub free_of : Identified → ℕ
free_of d = elim d.free_vram [ none ↦ 0 | some free ↦ free ]

-- More free memory first, then by id.
unfoldable pub device_le : (locale_le : String → String → Bool) → Identified → Identified → Bool
device_le locale_le d e =
    if free_of d == free_of e then locale_le d.id e.id else ltb (free_of e) (free_of d)

unfoldable pub first {ℓ} : {A : Type ℓ} → ℕ → List A → List A
first zero l = []
first (suc n) [] = []
first (suc n) (x ∷ l) = x ∷ first n l

unfoldable pub gpu_of : ℕ → Identified → Gpu
gpu_of vram d = record { id = d.id; device_index = d.device_index; name = d.name; vram = vram }

-- The identified devices that no lease holds.
unfoldable pub available : List String → List Identified → List Identified
available leased l = keep (λ d. not (includes leased d.id)) l

unfoldable pub capable :
    (locale_le : String → String → Bool) → ℕ → List String → List Identified → List Identified
unfolding available has_vram device_le
capable locale_le vram leased l =
    sort_by (device_le locale_le) (keep (has_vram vram) (available leased l))

unfoldable pub decide_gpu_admission :
    (locale_le : String → String → Bool) (gpu_count vram : ℕ)
    → List Device
    → (leased : List String) → GpuVerdict
unfolding identified_of distinct_indexes available capable first gpu_of
decide_gpu_admission locale_le zero vram devices leased = gpus_granted [] 0
decide_gpu_admission locale_le (suc n) vram devices leased =
    let known = identified_of devices in
    let ready = capable locale_le vram leased known in
    if ltb (length known) (suc n)
      || not (distinct (map (λ d. d.id) known))
      || not (distinct_indexes (map (λ d. d.device_index) known))
    then gpus_refused node_gpu_identity_unavailable
    else if ltb (length (available leased known)) (suc n)
    then gpus_refused node_gpu_limit_reached
    else if ltb (length ready) (suc n)
    then gpus_refused node_vram_limit_reached
    else gpus_granted (map (gpu_of vram) (first (suc n) ready)) vram
