-- ===== src/Kernel/SecureShmem/Regions.antt =====
-- What a reservation makes.
use labstor.Base.{
  ℕ, ◌+◌, ◌%◌, ◌≤◌, ◌<◌, ◌≡◌, refl, ◌≢◌, Bool, true, false, some, ◌∷◌, arith, ◌==◌, eq→==, u64_mod,
  u32, done, fault,
}
use labstor.Kernel.SecureShmem.{
  RegionInfo, SecureShmem, page_size, find_shmem_region_nolock, region_at, page_align,
  reserve_shmem, shmem_process_request_fn_netlink, reserve_shmem_nolock,
}
use labstor.Kernel.SecureShmem.Grants.{Distinct}

page_align_lem :
    (size : ℕ)
    → size + page_size ≤ u64_mod
    → (page_align size % page_size ≡ 0)
      × (size ≤ page_align size)
      × (page_align size < size + page_size)
unfolding page_align
page_align_lem size small = ground arith

-- A reservation for which there is memory at a new address is answered by the next id. Under it a
-- region of whole pages is found that has the bytes asked for, and less than a page more, and
-- under the other ids the same regions as before; the elements are still at different addresses.
pub reserve-find :
    (s : SecureShmem) (size : ℕ) (user_owned : Bool) (element memory : ℕ)
    → size + page_size ≤ u64_mod
    → Distinct s.region_map
    → region_at s.region_map element ≡ fault
    → (s' : SecureShmem) × (info : RegionInfo) × (shmem_process_request_fn_netlink s
          (reserve_shmem size user_owned)
          (some element)
          (some memory)
        ≡ done (u32 (s.cur_region_id + 1), s'))
      × Distinct s'.region_map
      × (find_shmem_region_nolock s'.region_map (u32 (s.cur_region_id + 1)) ≡ some (element, info))
      × (info.vmalloc_ptr ≡ memory)
      × (info.size % page_size ≡ 0)
      × (size ≤ info.size)
      × (info.size < size + page_size)
      × ((id : ℕ)
          → u32 (s.cur_region_id + 1) ≢ id
          → find_shmem_region_nolock s'.region_map id ≡ find_shmem_region_nolock s.region_map id)
unfolding shmem_process_request_fn_netlink reserve_shmem_nolock find_shmem_region_nolock
reserve-find s size user_owned element memory small d fresh =
    let id = u32 (s.cur_region_id + 1) in
    let info : RegionInfo = record {
      region_id = id;
      size = page_align size;
      vmalloc_ptr = memory;
      user_owned = user_owned;
    } in
    let (whole, enough, tight) = page_align_lem size small in
    let same : id == id ≡ true = eq→== id id refl in
    (
      record s { cur_region_id = id; region_map = (element, info) ∷ s.region_map },
      info,
      refl,
      (fresh, d),
      rw same,
      refl,
      whole,
      enough,
      tight,
      λ other ne. let differs : id == other ≡ false = ground (arith, ne) in rw differs,
    )
