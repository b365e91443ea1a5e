-- ===== src/ShmemAlloc.antt =====
-- The allocator of include/labstor/types/allocator/shmem_allocator.h, as a kernel build without
-- LABSTOR_MEM_DEBUG compiles it: one allocator of equal objects for each core, in one region.
pub mod Cores
pub mod Search
pub mod Release
pub mod Shares
pub mod Layout
use labstor.Base.{
  ℕ, zero, suc, ◌+◌, ◌/◌, ◌%◌, ◌^◌, Option, none, some, List, [], ◌∷◌, ◌==◌, if◌then◌else◌,
  get_elem?, set, u64_mod, u32, sub64, Call, in_bounds, done, refused, fault, ◌>>=◌,
}
use labstor.Spin.{Spun, returned, spinning, crashed}
use labstor.PrivateAlloc
use labstor.PrivateAlloc.{PrivateAlloc}

-- `labstor_shmem_allocator_header`, at the start of the region
pub record Header : Type 0 where
  pub region_size : ℕ
  pub concurrency : ℕ

-- `header` is what stands at the address `region`; `pages` holds the field `core_` of the entry
-- before each object, at the entry's address.
pub record ShmemAlloc : Type 0 where
  pub base_region : ℕ
  pub concurrency : ℕ
  pub region_size : ℕ
  pub region : ℕ
  pub header : Header
  pub per_core_allocs : List PrivateAlloc
  pub pages : ℕ → ℕ

-- `sizeof` of the header and of an entry
abbrev pub header_size : ℕ
header_size = 8

abbrev pub entry_size : ℕ
entry_size = 2

-- The loop of `Init`; the list is the array of `AllocPerCore`, each with the words of its ring.
unfoldable pub init_cores : ℕ → ℕ → ℕ → ℕ → List PrivateAlloc → Call (List PrivateAlloc)
init_cores base core_region size unit [] = done []
init_cores base core_region size unit (a ∷ allocs) =
    let rest = init_cores base ((core_region + size) % u64_mod) size unit allocs in
    PrivateAlloc.init a base core_region size unit >>= λ a'. rest >>= λ rest'. done (a' ∷ rest')

-- a wanted concurrency of 0 stands for all cores
unfoldable pub cores_of : ℕ → ℕ → ℕ
cores_of nr_cpus cores = if cores == 0 then nr_cpus else cores

-- `nr_cpus` is the kernel's `NR_CPUS`, and `allocs` what `kvmalloc` returns for so many cores. The
-- words of their rings, and `pages`, are what the `memset` of the region leaves.
unfoldable pub init : ℕ → (ℕ → List PrivateAlloc) → (ℕ → ℕ) → ℕ → ℕ → ℕ → ℕ → ℕ → Call ShmemAlloc
init nr_cpus allocs pages base_region region region_size request_unit cores =
    let concurrency = cores_of nr_cpus cores in
    if concurrency == 0
    then fault
    else init_cores base_region ((region + header_size) % u64_mod) (region_size / concurrency)
        (u32 (request_unit + entry_size)) (allocs concurrency)
      >>= λ per_core. done (record {
        base_region = base_region;
        concurrency = concurrency;
        region_size = region_size;
        region = region;
        header = record { region_size = region_size; concurrency = concurrency };
        per_core_allocs = per_core;
        pages = pages;
      })

-- The loop of `Attach`.
unfoldable pub attach_cores : ℕ → ℕ → ℕ → List PrivateAlloc → List PrivateAlloc
attach_cores base core_region size [] = []
attach_cores base core_region size (a ∷ allocs) =
    PrivateAlloc.attach a base core_region
    ∷ attach_cores base ((core_region + size) % u64_mod) size allocs

-- `header` is what stands at `region`.
unfoldable pub attach : ℕ → ℕ → Header → (ℕ → List PrivateAlloc) → (ℕ → ℕ) → Call ShmemAlloc
attach base_region region header allocs pages =
    if header.concurrency == 0
    then fault
    else done (record {
      base_region = base_region;
      concurrency = header.concurrency;
      region_size = header.region_size;
      region = region;
      header = header;
      per_core_allocs =
          attach_cores base_region ((region + header_size) % u64_mod)
            (header.region_size / header.concurrency) (allocs header.concurrency);
      pages = pages;
    })

-- The allocator of one core; an index past the array is outside the memory.
abbrev pub core_alloc : ShmemAlloc → ℕ → Call PrivateAlloc
core_alloc s core = in_bounds (get_elem? s.per_core_allocs core)

abbrev pub set_core : ShmemAlloc → ℕ → PrivateAlloc → ShmemAlloc
set_core s core a = record s { per_core_allocs = set s.per_core_allocs core a }

-- The call of one core's `Alloc` in the loop.
unfoldable pub alloc_on : ShmemAlloc → ℕ → Call (ℕ × ShmemAlloc)
alloc_on s core =
    core_alloc s core >>= λ a. PrivateAlloc.alloc a >>= λ p. done (p.0, set_core s core p.1)

-- the entry is marked with its core, in 16 bits, and the object behind it is returned
unfoldable pub give : ShmemAlloc → ℕ → ℕ → ℕ × ShmemAlloc
give s core page = (
  (page + entry_size) % u64_mod,
  record s { pages = λ p. if p == page then core % 2 ^ 16 else s.pages p },
)

-- The loop of `Alloc`, of at most `fuel` rounds; `none` is a loop that has not ended. A page at
-- the address 0 is `NULL`, and the loop goes on; the address 0 is what the loop returns in the end.
unfoldable pub walk : ℕ → ShmemAlloc → ℕ → ℕ → Option (Call (ℕ × ShmemAlloc))
walk zero s core save = none
walk (suc fuel) s core save =
    let next = (core + 1) % s.concurrency in
    elim (alloc_on s core) [
      | done p ↦
          if p.0 == 0
          then if next == save then some (done (0, p.1)) else walk fuel p.1 next save
          else some (done (give p.1 core p.0))
      | refused ↦ if next == save then some (done (0, s)) else walk fuel s next save
      | fault ↦ some fault
    ]

-- The argument `size` is not read.
unfoldable pub alloc : ShmemAlloc → ℕ → Option (Call (ℕ × ShmemAlloc))
alloc s core =
    if s.concurrency == 0
    then some fault
    else walk s.concurrency s (core % s.concurrency) (core % s.concurrency)

-- The call of one core's `Free` in the loop.
unfoldable pub release_on : ShmemAlloc → ℕ → ℕ → Call ShmemAlloc
release_on s core page =
    core_alloc s core >>= λ a. PrivateAlloc.release a page >>= λ a'. done (set_core s core a')

-- The loop of `Free`, which has no bound: the list holds what the other threads do between an
-- attempt and the next one, on the next core.
unfoldable pub release_loop : ShmemAlloc → ℕ → ℕ → List (ShmemAlloc → ShmemAlloc) → Spun ShmemAlloc
release_loop s core page [] = elim (release_on s core page) [
  | done s' ↦ returned s'
  | refused ↦ spinning
  | fault ↦ crashed
]
release_loop s core page (other ∷ others) = elim (release_on s core page) [
  | done s' ↦ returned s'
  | refused ↦
      if s.concurrency == 0
      then crashed
      else release_loop (other s) ((core + 1) % s.concurrency) page others
  | fault ↦ crashed
]

-- `Free`
unfoldable pub release : ShmemAlloc → ℕ → List (ShmemAlloc → ShmemAlloc) → Spun ShmemAlloc
release s ptr others = let page = sub64 ptr entry_size in release_loop s (s.pages page) page others
