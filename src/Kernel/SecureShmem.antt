-- ===== src/Kernel/SecureShmem.antt =====
-- The shared memory of labmods/secure_shmem/kernel/secure_shmem_kernel.c: regions, the grants of
-- regions to processes, the requests that change them, and the mapping of a region. An `int` is
-- its 32-bit pattern. What `kvmalloc` and `vmalloc` return is an argument, `none` for null. The
-- calls are made under a mutex, one after the other, unless the wait for it is interrupted.
pub mod Grants
pub mod Regions
use labstor.Base.{
  ℕ, zero, suc, ◌+◌, ◌-◌, ◌*◌, ◌/◌, ◌%◌, ◌^◌, ◌≤◌, ◌<◌, ◌≡◌, refl, sym, ap, ap₂, ◌∙◌, ◌≢◌, ◌↔◌, ◌⊎◌,
  inl, inr, Bool, true, false, ◌&&◌, ◌||◌, not, Option, none, some, List, [], ◌∷◌, ◌++◌, arith, ltb,
  leb, ◌==◌, if◌then◌else◌, ==→eq, eq→==, Bool-cases, Option-cases, List-cases, length, get_elem?,
  get_or, set, replicate, length-append, length-set, length-replicate, get_elem?-eq-get_or,
  get_or-set_self, get_or-set_ne, get_or-replicate, get_elem?_of_lt, get_elem?-set_self,
  get_elem?-set_ne, get_elem?-set_cases, u32_mod, u64_mod, u32, sub32, sub64, mod-ne_of_near, Call,
  done, refused, fault, ◌>>=◌, map_call, in_bounds, along_some,
}

-- `shmem_region_info`
pub record RegionInfo : Type 0 where
  pub region_id : ℕ
  pub size : ℕ
  pub vmalloc_ptr : ℕ
  pub user_owned : Bool

-- `shmem_pid_region`; `region` is the address of a region's element
pub record PidRegion : Type 0 where
  pub pid : ℕ
  pub region : ℕ
  pub is_mapped : Bool

-- `region_map` lists the elements that are not freed, each with its address.
pub record SecureShmem : Type 0 where
  pub cur_region_id : ℕ
  pub region_map : List (ℕ × RegionInfo)
  pub pid_regions : List PidRegion

abbrev pub page_size : ℕ
page_size = 4096

unfoldable pub find_shmem_region_nolock : List (ℕ × RegionInfo) → ℕ → Option (ℕ × RegionInfo)
find_shmem_region_nolock [] region_id = none
find_shmem_region_nolock (pos ∷ rest) region_id =
    let found = find_shmem_region_nolock rest region_id in
    if pos.1.region_id == region_id then some pos else found

-- a read through a pointer to a region's element; freed memory may not be read
unfoldable pub region_at : List (ℕ × RegionInfo) → ℕ → Call RegionInfo
region_at [] ptr = fault
region_at (pos ∷ rest) ptr =
    let found = region_at rest ptr in if pos.0 == ptr then done pos.1 else found

unfoldable pub find_pid_region_nolock :
    List (ℕ × RegionInfo) → List PidRegion → ℕ → ℕ → Call (Option PidRegion)
find_pid_region_nolock regions [] pid region_id = done none
find_pid_region_nolock regions (pos ∷ rest) pid region_id =
    let found = find_pid_region_nolock regions rest pid region_id in
    if pos.pid == pid
    then (region_at regions pos.region >>= λ region.
        if region.region_id == region_id then done (some pos) else found)
    else found

-- `size_t` arithmetic
unfoldable pub page_align : ℕ → ℕ
page_align size =
    if size % page_size == 0 then size else (size + (page_size - size % page_size)) % u64_mod

-- the region's memory and its id, if there is memory for both; the counter moves on even when
-- `vmalloc` returns null
unfoldable pub reserve_shmem_nolock :
    SecureShmem → ℕ → Bool → Option ℕ → Option ℕ → Option (ℕ × ℕ) × SecureShmem
reserve_shmem_nolock s size user_owned none memory = (none, s)
reserve_shmem_nolock s size user_owned (some element) none =
    (none, record s { cur_region_id = u32 (s.cur_region_id + 1) })
reserve_shmem_nolock s size user_owned (some element) (some memory) =
    let id = u32 (s.cur_region_id + 1) in
    let info : RegionInfo = record {
      region_id = id;
      size = page_align size;
      vmalloc_ptr = memory;
      user_owned = user_owned;
    } in
    (
      some (memory, id),
      record s { cur_region_id = id; region_map = (element, info) ∷ s.region_map },
    )

-- the grant goes to the head of the list
abbrev pub add_grant : SecureShmem → ℕ → ℕ → SecureShmem
add_grant s pid ptr = record s {
  pid_regions = record { pid = pid; region = ptr; is_mapped = false } ∷ s.pid_regions;
}

unfoldable pub grant_pid_shmem_nolock : SecureShmem → ℕ → ℕ → Option ℕ → Bool × SecureShmem
grant_pid_shmem_nolock s region_id pid none = (false, s)
grant_pid_shmem_nolock s region_id pid (some element) =
    elim (find_shmem_region_nolock s.region_map region_id) [
      | none ↦ (false, s)
      | some pos ↦ (true, add_grant s pid pos.0)
    ]

-- `list_del` of the region that `find_shmem_region_nolock` finds
unfoldable pub del_region : List (ℕ × RegionInfo) → ℕ → List (ℕ × RegionInfo)
del_region [] region_id = []
del_region (pos ∷ rest) region_id =
    let less = del_region rest region_id in
    if pos.1.region_id == region_id then rest else pos ∷ less

-- The loop over the grants, after the region has been freed: each grant's region is read.
unfoldable pub del_grants : List (ℕ × RegionInfo) → List PidRegion → ℕ → Call (List PidRegion)
del_grants regions [] region_id = done []
del_grants regions (pos ∷ rest) region_id =
    let less = del_grants regions rest region_id in
    region_at regions pos.region >>= λ region.
    less >>= λ rest'. done (if region.region_id == region_id then rest' else pos ∷ rest')

unfoldable pub free_shmem_region_by_id_nolock : SecureShmem → ℕ → Call SecureShmem
free_shmem_region_by_id_nolock s region_id =
    elim (find_shmem_region_nolock s.region_map region_id) [
      | none ↦ done s
      | some pos ↦
          let regions = del_region s.region_map region_id in
          del_grants regions s.pid_regions region_id >>= λ grants.
          done (record s { region_map = regions; pid_regions = grants })
    ]

unfoldable pub free_all_regions_nolock : SecureShmem → SecureShmem
free_all_regions_nolock s = record s { region_map = []; pid_regions = [] }

-- The loop of `mmap` over `n` pages from offset `i` on: the offsets that are mapped, and whether
-- `remap_pfn_range` failed at one. A page past the region's memory has no page frame.
unfoldable pub map_pages : RegionInfo → (ℕ → Bool) → ℕ → ℕ → Call (Bool × List ℕ)
map_pages region remap_fails i zero = done (true, [])
map_pages region remap_fails i (suc n) =
    let rest = map_pages region remap_fails (i + page_size) n in
    if leb region.size i
    then fault
    else if remap_fails i
    then done (false, [])
    else rest >>= λ p. done (p.0, i ∷ p.1)

-- `ok` is the return of 0; the number of rounds is that of the pages that `size` starts.
unfoldable pub labstor_mmap_nolock : SecureShmem → (ℕ → Bool) → ℕ → ℕ → ℕ → Call (Bool × List ℕ)
labstor_mmap_nolock s remap_fails size pid region_id =
    find_pid_region_nolock s.region_map s.pid_regions pid region_id >>= λ found. elim found [
      | none ↦ done (false, [])
      | some grant ↦ region_at s.region_map grant.region >>= λ region.
          map_pages region remap_fails 0 ((size + (page_size - 1)) / page_size)
    ]

pub data Req : Type 0 where
  reserve_shmem : (size : ℕ) → (user_owned : Bool) → Req
  grant_pid_shmem : (pid region_id : ℕ) → Req
  free_shmem : (region_id : ℕ) → Req
  other : Req

-- the pattern of -1
abbrev pub failed : ℕ
failed = u32_mod - 1

-- the code of `reserve_shmem`
abbrev pub reserved : Option (ℕ × ℕ) → ℕ
reserved none = failed
reserved (some p) = p.1

-- the code that is sent to the process, and the state
unfoldable pub shmem_process_request_fn_netlink :
    SecureShmem → Req → Option ℕ → Option ℕ → Call (ℕ × SecureShmem)
shmem_process_request_fn_netlink s (reserve_shmem size user_owned) element memory =
    let p = reserve_shmem_nolock s size user_owned element memory in done (reserved p.0, p.1)
shmem_process_request_fn_netlink s (grant_pid_shmem pid region_id) element memory =
    let p = grant_pid_shmem_nolock s region_id pid element in done (if p.0 then 0 else failed, p.1)
shmem_process_request_fn_netlink s (free_shmem region_id) element memory =
    free_shmem_region_by_id_nolock s region_id >>= λ s'. done (0, s')
shmem_process_request_fn_netlink s other element memory = done (failed, s)
