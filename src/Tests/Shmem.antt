-- ===== src/Tests/Shmem.antt =====
-- The kernel's shared memory at concrete inputs.
use labstor.Base.{
  ℕ, ◌+◌, ◌%◌, ◌≤◌, ◌<◌, ◌≡◌, refl, ◌≢◌, true, false, none, some, [], ◌∷◌, arith, done, fault,
}
use labstor.Kernel.SecureShmem.{
  RegionInfo, SecureShmem, page_size, find_shmem_region_nolock, region_at, find_pid_region_nolock,
  labstor_mmap_nolock, reserve_shmem, grant_pid_shmem, free_shmem, shmem_process_request_fn_netlink,
}
use labstor.Kernel.SecureShmem.Grants.{Distinct, pages, grant-mmap, grant-free_faults}
use labstor.Kernel.SecureShmem.Regions.{reserve-find}

abbrev two_pages : RegionInfo
two_pages = record { region_id = 1; size = 8192; vmalloc_ptr = 50000; user_owned = true }

-- one region, under the id 1 at the address 700
abbrev one_region : SecureShmem
one_region = record { cur_region_id = 1; region_map = (700, two_pages) ∷ []; pid_regions = [] }

one_region-Distinct : Distinct one_region.region_map
unfolding region_at
one_region-Distinct = (refl, omega arith)

one_region_found : find_shmem_region_nolock one_region.region_map 1 ≡ some (700, two_pages)
unfolding find_shmem_region_nolock
one_region_found = refl

grant-mmap_example :
    (s' : SecureShmem) × (shmem_process_request_fn_netlink one_region
        (grant_pid_shmem 40 1)
        (some 800)
        none
      ≡ done (0, s'))
    × (labstor_mmap_nolock s' (λ o. false) 5000 40 1 ≡ done (true, pages 0 2))
    × ((pid' id' : ℕ)
        → 40 ≢ pid'
        → find_pid_region_nolock s'.region_map s'.pid_regions pid' id'
          ≡ find_pid_region_nolock one_region.region_map one_region.pid_regions pid' id')
grant-mmap_example =
    grant-mmap one_region 40 1 700 800 5000 two_pages none (λ o. false) one_region-Distinct
      one_region_found (λ o. refl) (omega arith)

grant-free_faults_example :
    (s' : SecureShmem) × (shmem_process_request_fn_netlink one_region
        (grant_pid_shmem 40 1)
        (some 800)
        none
      ≡ done (0, s'))
    × (shmem_process_request_fn_netlink s' (free_shmem 1) none none ≡ fault)
grant-free_faults_example =
    grant-free_faults one_region 40 1 700 800 two_pages none one_region-Distinct one_region_found

new_address : region_at one_region.region_map 900 ≡ fault
unfolding region_at
new_address = refl

reserve-find_example :
    (s' : SecureShmem) × (info : RegionInfo) × (shmem_process_request_fn_netlink one_region
        (reserve_shmem 5000 false)
        (some 900)
        (some 90000)
      ≡ done (2, s'))
    × Distinct s'.region_map
    × (find_shmem_region_nolock s'.region_map 2 ≡ some (900, info))
    × (info.vmalloc_ptr ≡ 90000)
    × (info.size % page_size ≡ 0)
    × (5000 ≤ info.size)
    × (info.size < 5000 + page_size)
    × ((id : ℕ)
        → 2 ≢ id
        → find_shmem_region_nolock s'.region_map id
          ≡ find_shmem_region_nolock one_region.region_map id)
reserve-find_example =
    reserve-find one_region 5000 false 900 90000 (omega arith) one_region-Distinct new_address
