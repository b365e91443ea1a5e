-- ===== src/Kernel/SecureShmem/Grants.antt =====
-- What a grant makes possible, and what becomes of it when the region is freed.
use labstor.Base.{
  ℕ, zero, suc, ◌+◌, ◌-◌, ◌*◌, ◌/◌, ◌%◌, ◌≤◌, ◌<◌, ◌≡◌, refl, ap, ◌∙◌, ◌≢◌, inl, inr, Bool, true,
  false, Option, none, some, List, [], ◌∷◌, arith, leb, ◌==◌, if◌then◌else◌, eq→==, Bool-cases,
  done, fault, ◌>>=◌,
}
use labstor.Kernel.SecureShmem.{
  RegionInfo, SecureShmem, page_size, find_shmem_region_nolock, region_at, find_pid_region_nolock,
  add_grant, grant_pid_shmem_nolock, del_region, del_grants, free_shmem_region_by_id_nolock,
  map_pages, labstor_mmap_nolock, grant_pid_shmem, free_shmem, shmem_process_request_fn_netlink,
  failed,
}

-- the elements are at different addresses
abbrev pub Distinct : List (ℕ × RegionInfo) → Type 0
Distinct [] = 0 ≤ 0
Distinct (pos ∷ rest) = (region_at rest pos.0 ≡ fault) × Distinct rest

-- What is found has the id, and is what stands at its address.
find_lem :
    (regions : List (ℕ × RegionInfo)) (id ptr : ℕ) (info : RegionInfo)
    → Distinct regions
    → find_shmem_region_nolock regions id ≡ some (ptr, info)
    → (info.region_id ≡ id) × (region_at regions ptr ≡ done info)
unfolding find_shmem_region_nolock region_at
find_lem [] id ptr info d found = absurd (cc (found))
find_lem (pos ∷ rest) id ptr info d found = elim (Bool-cases (pos.1.region_id == id)) [
  | inl here ↦ ground (arith, here, found)
  | inr elsewhere ↦
      let found' : find_shmem_region_nolock rest id ≡ some (ptr, info) =
        ground (arith, elsewhere, found) in
      let (is_id, there) = find_lem rest id ptr info d.1 found' in
      let apart : pos.0 == ptr ≡ false = ground (arith, d.0, there) in (is_id, rw (apart, there))
]

-- Nothing is left at the address of a region that was deleted.
del_region_lem :
    (regions : List (ℕ × RegionInfo)) (id ptr : ℕ) (info : RegionInfo)
    → Distinct regions
    → find_shmem_region_nolock regions id ≡ some (ptr, info)
    → region_at (del_region regions id) ptr ≡ fault
unfolding find_shmem_region_nolock region_at del_region
del_region_lem [] id ptr info d found = absurd (cc (found))
del_region_lem (pos ∷ rest) id ptr info d found = elim (Bool-cases (pos.1.region_id == id)) [
  | inl here ↦ ground (arith, here, found, d.0)
  | inr elsewhere ↦
      let found' : find_shmem_region_nolock rest id ≡ some (ptr, info) =
        ground (arith, elsewhere, found) in
      let there = (find_lem rest id ptr info d.1 found').1 in
      let apart : pos.0 == ptr ≡ false = ground (arith, d.0, there) in
      rw (elsewhere, apart, del_region_lem rest id ptr info d.1 found')
]

-- the offsets of `n` pages from `i` on
abbrev pub pages : ℕ → ℕ → List ℕ
pages i zero = []
pages i (suc n) = i ∷ pages (i + page_size) n

map_pages_step :
    (region : RegionInfo) (remap_fails : ℕ → Bool) (n i : ℕ)
    → remap_fails i ≡ false
    → leb region.size i ≡ false
    → map_pages region remap_fails i (suc n)
      ≡ (map_pages region remap_fails (i + page_size) n >>= λ p. done (p.0, i ∷ p.1))
unfolding map_pages
map_pages_step region remap_fails n i works within = rw (within, works)

map_pages_lem :
    (region : RegionInfo) (remap_fails : ℕ → Bool) (n i : ℕ)
    → ((o : ℕ) → remap_fails o ≡ false)
    → i + n * page_size < region.size + page_size
    → map_pages region remap_fails i n ≡ done (true, pages i n)
unfolding map_pages
map_pages_lem region remap_fails zero i works inside = refl
map_pages_lem region remap_fails (suc n) i works inside =
    let within : leb region.size i ≡ false = ground (arith, inside) in
    map_pages_step region remap_fails n i (works i) within
    ∙ rw (map_pages_lem region remap_fails n (i + page_size) works (omega (arith, inside)))

map_pages_past :
    (region : RegionInfo) (remap_fails : ℕ → Bool) (n i : ℕ)
    → ((o : ℕ) → remap_fails o ≡ false)
    → region.size ≤ i + n * page_size
    → map_pages region remap_fails i (suc n) ≡ fault
unfolding map_pages
map_pages_past region remap_fails zero i works past =
    let outside : leb region.size i ≡ true = ground (arith, past) in rw outside
map_pages_past region remap_fails (suc n) i works past =
    let rest = map_pages_past region remap_fails n (i + page_size) works (omega (arith, past)) in
    elim (Bool-cases (leb region.size i)) [
      | inl outside ↦ rw outside
      | inr within ↦ map_pages_step region remap_fails (suc n) i (works i) within ∙ rw rest
    ]

grant_lem :
    (s : SecureShmem) (pid id element : ℕ) (pos : ℕ × RegionInfo)
    → find_shmem_region_nolock s.region_map id ≡ some pos
    → grant_pid_shmem_nolock s id pid (some element) ≡ (true, add_grant s pid pos.0)
unfolding grant_pid_shmem_nolock
grant_lem s pid id element pos found = ground (arith, found)

grant_run :
    (s : SecureShmem) (pid id ptr element : ℕ) (info : RegionInfo) (memory : Option ℕ)
    → find_shmem_region_nolock s.region_map id ≡ some (ptr, info)
    → shmem_process_request_fn_netlink s (grant_pid_shmem pid id) (some element) memory
      ≡ done (0, add_grant s pid ptr)
unfolding shmem_process_request_fn_netlink
grant_run s pid id ptr element info memory found =
    ap (λ p. done (if p.0 then 0 else failed, p.1)) (grant_lem s pid id element (ptr, info) found)

free_granted :
    (s : SecureShmem) (pid id : ℕ) (pos : ℕ × RegionInfo)
    → find_shmem_region_nolock s.region_map id ≡ some pos
    → region_at (del_region s.region_map id) pos.0 ≡ fault
    → free_shmem_region_by_id_nolock (add_grant s pid pos.0) id ≡ fault
unfolding free_shmem_region_by_id_nolock del_grants
free_granted s pid id pos found gone = ground (arith, found, gone)

find_granted :
    (s : SecureShmem) (pid id ptr : ℕ) (info : RegionInfo)
    → region_at s.region_map ptr ≡ done info
    → info.region_id ≡ id
    → find_pid_region_nolock s.region_map (add_grant s pid ptr).pid_regions pid id
      ≡ done (some (record { pid = pid; region = ptr; is_mapped = false }))
unfolding find_pid_region_nolock
find_granted s pid id ptr info there is_id =
    let same : pid == pid ≡ true = eq→== pid pid refl in
    rw (same, there, eq→== info.region_id id is_id)

mmap_run :
    (s : SecureShmem) (remap_fails : ℕ → Bool) (size pid id ptr : ℕ) (info : RegionInfo)
    → region_at s.region_map ptr ≡ done info
    → info.region_id ≡ id
    → labstor_mmap_nolock (add_grant s pid ptr) remap_fails size pid id
      ≡ map_pages info remap_fails 0 ((size + (page_size - 1)) / page_size)
unfolding labstor_mmap_nolock
mmap_run s remap_fails size pid id ptr info there is_id =
    rw (find_granted s pid id ptr info there is_id, there)

-- A grant of a region that is there is answered by 0; then the process maps every page of as many
-- bytes as the region has, or fewer, if the kernel maps the pages that it is given, and for the
-- other processes the same grants are found as before.
pub grant-mmap :
    (s : SecureShmem) (pid id ptr element size : ℕ) (info : RegionInfo) (memory : Option ℕ)
    (remap_fails : ℕ → Bool)
    → Distinct s.region_map
    → find_shmem_region_nolock s.region_map id ≡ some (ptr, info)
    → ((o : ℕ) → remap_fails o ≡ false)
    → size ≤ info.size
    → (s' : SecureShmem) × (shmem_process_request_fn_netlink s
          (grant_pid_shmem pid id)
          (some element)
          memory
        ≡ done (0, s'))
      × (labstor_mmap_nolock s' remap_fails size pid id
          ≡ done (true, pages 0 ((size + (page_size - 1)) / page_size)))
      × ((pid' id' : ℕ)
          → pid ≢ pid'
          → find_pid_region_nolock s'.region_map s'.pid_regions pid' id'
            ≡ find_pid_region_nolock s.region_map s.pid_regions pid' id')
unfolding find_pid_region_nolock
grant-mmap s pid id ptr element size info memory remap_fails d found works fits =
    let (is_id, there) = find_lem s.region_map id ptr info d found in
    (
      add_grant s pid ptr,
      grant_run s pid id ptr element info memory found,
      mmap_run s remap_fails size pid id ptr info there is_id
          ∙ map_pages_lem info remap_fails ((size + (page_size - 1)) / page_size) 0 works
              (omega (arith, fits)),
      λ pid' id' other. let differs : pid == pid' ≡ false = ground (arith, other) in rw differs,
    )

-- The size of the mapping is not tested: a process with a grant that maps more than the whole
-- pages of the region reaches pages past its memory.
mmap_past_region :
    (s : SecureShmem) (pid id ptr size : ℕ) (info : RegionInfo) (remap_fails : ℕ → Bool)
    → Distinct s.region_map
    → find_shmem_region_nolock s.region_map id ≡ some (ptr, info)
    → ((o : ℕ) → remap_fails o ≡ false)
    → info.size % page_size ≡ 0
    → info.size < size
    → labstor_mmap_nolock (add_grant s pid ptr) remap_fails size pid id ≡ fault
mmap_past_region s pid id ptr size info remap_fails d found works whole more =
    let (is_id, there) = find_lem s.region_map id ptr info d found in
    let n = (size + (page_size - 1)) / page_size - 1 in
    let rounds : (size + (page_size - 1)) / page_size ≡ suc n = omega (arith, more) in
    mmap_run s remap_fails size pid id ptr info there is_id
    ∙ ap (map_pages info remap_fails 0) rounds
    ∙ map_pages_past info remap_fails n 0 works (omega (arith, more, whole))

-- Freeing a region that was granted to a process reads the freed element when it looks for the
-- grants to delete.
pub grant-free_faults :
    (s : SecureShmem) (pid id ptr element : ℕ) (info : RegionInfo) (memory : Option ℕ)
    → Distinct s.region_map
    → find_shmem_region_nolock s.region_map id ≡ some (ptr, info)
    → (s' : SecureShmem) × (shmem_process_request_fn_netlink s
          (grant_pid_shmem pid id)
          (some element)
          memory
        ≡ done (0, s'))
      × (shmem_process_request_fn_netlink s' (free_shmem id) none none ≡ fault)
unfolding shmem_process_request_fn_netlink
grant-free_faults s pid id ptr element info memory d found = (
  add_grant s pid ptr,
  grant_run s pid id ptr element info memory found,
  ap (λ call. call >>= λ s'. done (0, s'))
      (free_granted s pid id (ptr, info) found (del_region_lem s.region_map id ptr info d found)),
)
