-- ===== src/Kernel/IpcManager.antt =====
-- The IPC manager of labmods/ipc_manager/kernel/ipc_manager_kernel.c, which keeps the region that
-- the kernel shares with the processes, and its allocator.
use labstor.Base.{
  ℕ, ◌+◌, ◌-◌, ◌/◌, ◌%◌, ◌≡◌, refl, ap, ◌≢◌, inl, inr, Bool, true, false, not, Option, none, some,
  List, arith, ◌==◌, ==→eq, Bool-cases, u32_mod, u64_mod, Call, done, ◌>>=◌,
}
use labstor.PrivateAlloc.{PrivateAlloc}
use labstor.ShmemAlloc.{ShmemAlloc, Header, header_size, attach_cores, attach}
use labstor.Kernel.SecureShmem.{RegionInfo, find_shmem_region_nolock}

-- `none` is a null pointer; an allocator that was never attached has a null region.
pub record IpcManager : Type 0 where
  pub region_id : ℕ
  pub region : Option ℕ
  pub alloc : Option ShmemAlloc

-- what stands at an address: the header of an allocator, the allocators of so many cores, and the
-- marks of the entries
pub record Contents : Type 0 where
  pub header : ℕ → Header
  pub allocs : ℕ → ℕ → List PrivateAlloc
  pub pages : ℕ → ℕ → ℕ

-- `labstor_find_shmem_region`
unfoldable pub find_shmem_region : List (ℕ × RegionInfo) → ℕ → Option ℕ
find_shmem_region regions region_id = elim (find_shmem_region_nolock regions region_id) [
  | none ↦ none
  | some pos ↦ some pos.1.vmalloc_ptr
]

-- A region that is not found is written as `NULL`, and the rest is kept.
unfoldable pub ipc_manager_register :
    Contents → List (ℕ × RegionInfo) → IpcManager → ℕ → Call IpcManager
ipc_manager_register c regions m region_id = elim (find_shmem_region regions region_id) [
  | none ↦ done (record m { region = none })
  | some at ↦ attach at at (c.header at) (c.allocs at) (c.pages at) >>= λ alloc.
      done (record { region_id = region_id; region = some at; alloc = some alloc })
]

unfoldable pub ipc_manager_is_initialized : IpcManager → Bool
ipc_manager_is_initialized m = elim m.alloc [ none ↦ false | some a ↦ not (a.region == 0) ]

unfoldable pub ipc_manager_get_region : IpcManager → ℕ
ipc_manager_get_region m = elim m.alloc [ none ↦ 0 | some a ↦ a.region ]

-- the requests by their `op_`
pub data Req : Type 0 where
  ipc_manager_register_op : (region_id : ℕ) → Req
  ipc_manager_unregister_op : Req
  other_op : Req

-- what the process is told: the address of the region, or a code
pub data Reply : Type 0 where
  region_reply : Option ℕ → Reply
  code_reply : ℕ → Reply

unfoldable pub ipc_manager_process_request_fn_netlink :
    Contents → List (ℕ × RegionInfo) → IpcManager → Req → Call (Reply × IpcManager)
ipc_manager_process_request_fn_netlink c regions m (ipc_manager_register_op region_id) =
    ipc_manager_register c regions m region_id >>= λ m'. done (region_reply m'.region, m')
ipc_manager_process_request_fn_netlink c regions m ipc_manager_unregister_op =
    done (code_reply (u32_mod - 1), m)
ipc_manager_process_request_fn_netlink c regions m other_op = done (code_reply (u32_mod - 1), m)

attach_lem :
    (base region : ℕ) (header : Header) (allocs : ℕ → List PrivateAlloc) (pages : ℕ → ℕ)
    → header.concurrency ≢ 0
    → (a : ShmemAlloc) × (attach base region header allocs pages ≡ done a) × (a.region ≡ region)
unfolding attach
attach_lem base region header allocs pages some_core = elim (Bool-cases (header.concurrency == 0)) [
  | inl no_core ↦ absurd (some_core (==→eq header.concurrency 0 no_core))
  | inr positive ↦ (
    record {
      base_region = base;
      concurrency = header.concurrency;
      region_size = header.region_size;
      region = region;
      header = header;
      per_core_allocs =
          attach_cores base ((region + header_size) % u64_mod)
            (header.region_size / header.concurrency) (allocs header.concurrency);
      pages = pages;
    },
    rw positive refl,
    refl,
  )
]

handle :
    (c : Contents) (regions : List (ℕ × RegionInfo)) (m m' : IpcManager) (region_id : ℕ)
    → ipc_manager_register c regions m region_id ≡ done m'
    → ipc_manager_process_request_fn_netlink c regions m (ipc_manager_register_op region_id)
      ≡ done (region_reply m'.region, m')
unfolding ipc_manager_process_request_fn_netlink
handle c regions m m' region_id run = ap (λ r. r >>= λ n. done (region_reply n.region, n)) run

-- A registration of a region that is there, at an address that is not null and with a header of
-- some cores, makes the manager initialised, with that region.
pub register-found :
    (c : Contents) (regions : List (ℕ × RegionInfo)) (m : IpcManager) (region_id at : ℕ)
    → find_shmem_region regions region_id ≡ some at
    → at ≢ 0
    → (c.header at).concurrency ≢ 0
    → (m' : IpcManager) × (ipc_manager_process_request_fn_netlink c regions m
          (ipc_manager_register_op region_id)
        ≡ done (region_reply (some at), m'))
      × (ipc_manager_is_initialized m' ≡ true)
      × (ipc_manager_get_region m' ≡ at)
unfolding ipc_manager_register ipc_manager_is_initialized ipc_manager_get_region
register-found c regions m region_id at found some_region some_core =
    let (a, attached, same) = attach_lem at at (c.header at) (c.allocs at) (c.pages at) some_core in
    let registered : IpcManager = record {
      region_id = region_id;
      region = some at;
      alloc = some a;
    } in
    (
      registered,
      handle c regions m registered region_id (rw (ipc_manager_register, found, attached) refl),
      ground (arith, some_region, same),
      same,
    )

-- A registration of a region that is not there leaves the manager with its old region.
pub register-not_found :
    (c : Contents) (regions : List (ℕ × RegionInfo)) (m : IpcManager) (region_id : ℕ)
    → find_shmem_region regions region_id ≡ none
    → (m' : IpcManager) × (ipc_manager_process_request_fn_netlink c regions m
          (ipc_manager_register_op region_id)
        ≡ done (region_reply none, m'))
      × (ipc_manager_is_initialized m' ≡ ipc_manager_is_initialized m)
      × (ipc_manager_get_region m' ≡ ipc_manager_get_region m)
unfolding ipc_manager_register ipc_manager_is_initialized ipc_manager_get_region
register-not_found c regions m region_id absent =
    let forgotten : IpcManager = record m { region = none } in
    (
      forgotten,
      handle c regions m forgotten region_id (rw (ipc_manager_register, absent) refl),
      refl,
      refl,
    )
