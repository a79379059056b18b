-- ===== src/Resource/Gpu/Granted.antt =====
-- The devices that are granted (packages/engine-primitives/resource-quota.mjs).
use eoduksini.Base.Text.{max_safe}
use eoduksini.Base.Sort.{insert_by, sort_by, All-sort_by}
use eoduksini.Resource.Gpu.{
  Identified, first, capable, available, has_vram, decide_gpu_admission, device_le, Device, Gpu,
  gpus_granted, gpu_of, identified_of, identify,
}
use eoduksini.Base.{
  ℕ, String, Bool, true, List, [], ◌∷◌, map, length, ◌≡◌, keep, ◌&&◌, ◌≤◌, suc, arith, not, refl,
  zero, includes, ◌∙◌, ap, length-map, Option-cases, All, In, All-map, inl, All-append, some,
  All-keep, false, All-of_map, inr, In-cons, Bool-cases, str_eq, leb, ◌⊎◌, distinct, ◌||◌, eq_iff,
}

length-first {ℓ} : {A : Type ℓ} (n : ℕ) (l : List A) → n ≤ length l → length (first n l) ≡ n
unfolding first
length-first zero l h = refl
length-first (suc n) [] h = ground arith
length-first (suc n) (x ∷ l) h = ground (arith, length-first n l)

All-first {ℓ κ} : {A : Type ℓ} (P : A → Type κ) (n : ℕ) (l : List A) → All P l → All P (first n l)
unfolding first
All-first P zero l h = tt
All-first P (suc n) [] h = tt
All-first P (suc n) (x ∷ l) h = (h.0, All-first P n l h.1)

-- A device that has what was read of it.
abbrev Source : List Device → Identified → Type 0
Source devices i =
    (d : Device) × In d devices
    × (d.id ≡ some i.id)
    × (d.device_index ≡ some i.device_index)
    × (d.name ≡ i.name)
    × (d.free_vram ≡ i.free_vram)

identify-cases :
    (d : Device)
    → (identify d ≡ [])
      ⊎ ((i : Identified) × (identify d ≡ i ∷ [])
          × (d.id ≡ some i.id)
          × (d.device_index ≡ some i.device_index)
          × (d.name ≡ i.name)
          × (d.free_vram ≡ i.free_vram))
unfolding identify
identify-cases d = elim (Option-cases d.id) [
  | inl missing ↦ inl (ground (arith, missing))
  | inr (id, named) ↦ elim (Option-cases d.device_index) [
    | inl missing ↦ inl (ground (arith, named, missing))
    | inr (n, numbered) ↦ elim (Bool-cases (not (str_eq id "") && leb n max_safe)) [
      | inl good ↦ inr (
        record { id = id; device_index = n; name = d.name; free_vram = d.free_vram },
        ground (arith, named, numbered, good),
        named,
        numbered,
        refl,
        refl,
      )
      | inr bad ↦ inl (ground (arith, named, numbered, bad))
    ]
  ]
]

identify-Source : (d : Device) (l : List Device) → All (Source (d ∷ l)) (identify d)
identify-Source d l = elim (identify-cases d) [
  | inl nothing ↦ rw nothing tt
  | inr (i, one, id, index, name, free) ↦ rw one ((d, ([], l, refl), id, index, name, free), tt)
]

identified_of-Source : (devices : List Device) → All (Source devices) (identified_of devices)
unfolding identified_of
identified_of-Source [] = tt
identified_of-Source (d ∷ l) =
    All-append (Source (d ∷ l)) (identify d) (identified_of l) (identify-Source d l) (
      All-map (Source l) (Source (d ∷ l))
        (λ i (e, inside, id, index, name, free). (e, In-cons e d l inside, id, index, name, free))
        (identified_of l) (identified_of-Source l))

abbrev ids : List Identified → List String
ids l = map (λ d. d.id) l

keep-ids :
    (q : Identified → Bool) (a : String) (l : List Identified)
    → includes (ids l) a ≡ false
    → includes (ids (keep q l)) a ≡ false
keep-ids q a [] h = refl
keep-ids q a (x ∷ l) h = ground (arith, h, keep-ids q a l)

keep-distinct :
    (q : Identified → Bool) (l : List Identified)
    → distinct (ids l) ≡ true
    → distinct (ids (keep q l)) ≡ true
keep-distinct q [] h = refl
keep-distinct q (x ∷ l) h = ground (arith, h, keep-ids q x.id l, keep-distinct q l)

first-ids :
    (n : ℕ) (a : String) (l : List Identified)
    → includes (ids l) a ≡ false
    → includes (ids (first n l)) a ≡ false
unfolding first
first-ids zero a l h = refl
first-ids (suc n) a [] h = refl
first-ids (suc n) a (x ∷ l) h = ground (arith, h, first-ids n a l)

first-distinct :
    (n : ℕ) (l : List Identified) → distinct (ids l) ≡ true → distinct (ids (first n l)) ≡ true
unfolding first
first-distinct zero l h = refl
first-distinct (suc n) [] h = refl
first-distinct (suc n) (x ∷ l) h = ground (arith, h, first-ids n x.id l, first-distinct n l)

module _ (le : Identified → Identified → Bool) where
  insert_by-ids :
      (x : Identified) (a : String) (l : List Identified)
      → includes (ids (insert_by le x l)) a ≡ (str_eq a x.id || includes (ids l) a)
  unfolding insert_by
  insert_by-ids x a [] = refl
  insert_by-ids x a (y ∷ l) = ground (arith, insert_by-ids x a l)

  insert_by-distinct :
      (x : Identified) (l : List Identified)
      → distinct (ids (x ∷ l)) ≡ true
      → distinct (ids (insert_by le x l)) ≡ true
  unfolding insert_by
  insert_by-distinct x [] h = h
  insert_by-distinct x (y ∷ l) h =
      ground (
        arith,
        h,
        eq_iff x.id y.id,
        eq_iff y.id x.id,
        insert_by-ids x y.id l,
        insert_by-distinct x l,
      )

  sort_by-ids :
      (a : String) (l : List Identified) → includes (ids (sort_by le l)) a ≡ includes (ids l) a
  unfolding sort_by
  sort_by-ids a [] = refl
  sort_by-ids a (x ∷ l) = ground (arith, insert_by-ids x a (sort_by le l), sort_by-ids a l)

  sort_by-distinct :
      (l : List Identified) → distinct (ids l) ≡ true → distinct (ids (sort_by le l)) ≡ true
  unfolding sort_by
  sort_by-distinct [] h = refl
  sort_by-distinct (x ∷ l) h =
      insert_by-distinct x (sort_by le l)
        (ground (arith, h, sort_by-ids x.id l, sort_by-distinct l))

gpu_of-ids : (vram : ℕ) (l : List Identified) → map (λ g. g.id) (map (gpu_of vram) l) ≡ ids l
unfolding gpu_of
gpu_of-ids vram [] = refl
gpu_of-ids vram (x ∷ l) = ap (λ t. x.id ∷ t) (gpu_of-ids vram l)

-- What a device is granted as: it is a device of the node, with that memory free and under no lease.
abbrev pub GrantedFrom : (vram : ℕ) → List Device → (leased : List String) → Gpu → Type 0
GrantedFrom vram devices leased g =
    (d : Device) × (free : ℕ) × In d devices
    × (d.id ≡ some g.id)
    × (d.device_index ≡ some g.device_index)
    × (d.name ≡ g.name)
    × (d.free_vram ≡ some free)
    × (vram ≤ free)
    × (includes leased g.id ≡ false)
    × (g.vram ≡ vram)

abbrev Ready : (vram : ℕ) → List Device → (leased : List String) → Identified → Type 0
Ready vram devices leased i =
    (Source devices i × (not (includes leased i.id) ≡ true)) × (has_vram vram i ≡ true)

capable-Ready :
    (le : String → String → Bool) (vram : ℕ) (devices : List Device) (leased : List String)
    → All (Ready vram devices leased) (capable le vram leased (identified_of devices))
unfolding capable available
capable-Ready le vram devices leased =
    let known = identified_of devices in
    let free = available leased known in
    All-sort_by (device_le le) (Ready vram devices leased) (keep (has_vram vram) free) (
      All-keep _ (has_vram vram) free (
        All-keep (Source devices) (λ i. not (includes leased i.id)) known
          (identified_of-Source devices)))

Ready-GrantedFrom :
    (vram : ℕ) (devices : List Device) (leased : List String) (i : Identified)
    → Ready vram devices leased i
    → GrantedFrom vram devices leased (gpu_of vram i)
unfolding has_vram gpu_of
Ready-GrantedFrom vram devices leased i (((d, inside, id, index, name, same), unleased), enough) =
    elim (Option-cases i.free_vram) [
      | inl missing ↦ absurd (ground (arith, missing, enough))
      | inr (free, there) ↦ (
        d,
        free,
        inside,
        id,
        index,
        name,
        same ∙ there,
        ground (arith, there, enough),
        ground (arith, unleased),
        refl,
      )
    ]

-- A grant for one GPU or more is of as many as requested, each with the memory requested. Each is a
-- device of the node by its id, index and name, which has that memory free and is under no lease, and
-- no device is granted twice.
pub gpus_granted-fit :
    (le : String → String → Bool) (count vram : ℕ) (devices : List Device) (leased : List String)
    {gpus : List Gpu} {each : ℕ}
    → decide_gpu_admission le (suc count) vram devices leased ≡ gpus_granted gpus each
    → (length gpus ≡ suc count)
      × (each ≡ vram)
      × All (GrantedFrom vram devices leased) gpus
      × (distinct (map (λ g. g.id) gpus) ≡ true)
unfolding decide_gpu_admission capable available
gpus_granted-fit le count vram devices leased {gpus} {each} h =
    let ready = capable le vram leased (identified_of devices) in
    let chosen = first (suc count) ready in
    let enough : (suc count ≤ length ready) = ground arith in
    let same : (gpus ≡ map (gpu_of vram) chosen) = ground arith in
    let known = identified_of devices in
    let free : List Identified = keep (λ d. not (includes leased d.id)) known in
    let once : (distinct (ids known) ≡ true) = ground arith in
    let apart = first-distinct (suc count) ready (
      sort_by-distinct (device_le le) (keep (has_vram vram) free) (
        keep-distinct (has_vram vram) free
          (keep-distinct (λ d. not (includes leased d.id)) known once))) in
    let granted =
      All-map _ _ (Ready-GrantedFrom vram devices leased) chosen
        (All-first _ (suc count) ready (capable-Ready le vram devices leased)) in
    (
      ap length same ∙ length-map (gpu_of vram) chosen ∙ length-first (suc count) ready enough,
      ground arith,
      rw same (All-of_map (GrantedFrom vram devices leased) (gpu_of vram) chosen granted),
      ap (λ l. distinct (map (λ g. g.id) l)) same ∙ ap distinct (gpu_of-ids vram chosen) ∙ apart,
    )
