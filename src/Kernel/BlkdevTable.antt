-- ===== src/Kernel/BlkdevTable.antt =====
-- The table of block devices of labmods/blkdev_table/kernel/blkdev_table_kernel.c. A device is the
-- address of its `block_device`; opening one is a call of the kernel, a parameter.
pub mod Registered
use labstor.Base.{
  ℕ, zero, suc, ◌-◌, Option, none, some, List, [], ◌∷◌, ltb, if◌then◌else◌, get_elem?, set, u32_mod,
  Call, done, ◌>>=◌, in_bounds,
}
use labstor.QueuePair
use labstor.Request.{set_code}
use labstor.Spin.{Spun, returned}
use labstor.Kernel.WorkOrchestrator.{map_spun}

-- what `blkdev_get_by_path` gives: a device, or an error pointer; `NULL` is an error `other`
pub data Opened : Type 0 where
  device : (bdev : ℕ) → Opened
  eacces : Opened
  enotblk : Opened
  enomem : Opened
  other : Opened

abbrev pub max_mounted_bdevs : ℕ
max_mounted_bdevs = 64

-- the array `bdevs`; `none` is a null pointer
abbrev pub Bdevs : Type 0
Bdevs = List (Option ℕ)

-- the bit pattern of `- n`
abbrev pub minus : ℕ → ℕ
minus n = u32_mod - n

-- the code and the device behind the test of the error pointer
unfoldable pub opened_as : Opened → ℕ × Option ℕ
opened_as (device bdev) = (minus 1, some bdev)
opened_as eacces = (minus 2, none)
opened_as enotblk = (minus 3, none)
opened_as enomem = (minus 4, none)
opened_as other = (minus 5, none)

-- the assignment to the table, and the code after it
unfoldable pub assign_bdev : Bdevs → ℕ → ℕ × Option ℕ → ℕ × Bdevs
assign_bdev bdevs dev_id p =
    if ltb dev_id max_mounted_bdevs then (p.0, set bdevs dev_id p.1) else (minus 5, bdevs)

-- `rq` is the address of the request, and `others` what other threads do while it is completed.
unfoldable pub register_bdev :
    Bdevs
    → QueuePair.Shared
    → ℕ
    → ℕ
    → Opened
    → List (QueuePair.Shared → QueuePair.Shared)
    → Spun (Bdevs × QueuePair.Shared)
register_bdev bdevs s rq dev_id bdev others =
    let p = assign_bdev bdevs dev_id (opened_as bdev) in
    map_spun (λ s'. (p.1, s'))
      (QueuePair.complete_inf (record s { store = set_code s.store rq p.0 }) rq others)

-- `_unregister_bdev`; the device that is put back, if there is one
unfoldable pub unregister_bdev_at : Bdevs → ℕ → Call (Option ℕ × Bdevs)
unregister_bdev_at bdevs bdev_id = in_bounds (get_elem? bdevs bdev_id) >>= λ bdev.
    done (elim bdev [ none ↦ (none, bdevs) | some b ↦ (some b, set bdevs bdev_id none) ])

-- `unregister_bdev` is empty.
unfoldable pub unregister_bdev : Bdevs → QueuePair.Shared → Bdevs × QueuePair.Shared
unregister_bdev bdevs s = (bdevs, s)

-- The index is not tested.
unfoldable pub labstor_get_bdev : Bdevs → ℕ → Call (Option ℕ)
labstor_get_bdev bdevs bdev_id = in_bounds (get_elem? bdevs bdev_id)

-- the requests by their `op_`
pub data Req : Type 0 where
  register_bdev_op : (dev_id : ℕ) → Opened → Req
  unregister_bdev_op : Req
  other_op : Req

unfoldable pub bdev_table_process_request_fn :
    Bdevs
    → QueuePair.Shared
    → ℕ
    → Req
    → List (QueuePair.Shared → QueuePair.Shared)
    → Spun (Bdevs × QueuePair.Shared)
bdev_table_process_request_fn bdevs s rq (register_bdev_op dev_id bdev) others =
    register_bdev bdevs s rq dev_id bdev others
bdev_table_process_request_fn bdevs s rq unregister_bdev_op others =
    returned (unregister_bdev bdevs s)
bdev_table_process_request_fn bdevs s rq other_op others = returned (bdevs, s)

-- the loop of `exit_blkdev_table` over the `n` devices from `i` on: those that are put back
unfoldable pub unregister_all : ℕ → ℕ → Bdevs → Call (List ℕ × Bdevs)
unregister_all zero i bdevs = done ([], bdevs)
unregister_all (suc n) i bdevs = unregister_bdev_at bdevs i >>= λ p.
    unregister_all n (suc i) p.1 >>= λ q. done (elim p.0 [ none ↦ q.0 | some b ↦ b ∷ q.0 ], q.1)

unfoldable pub exit_blkdev_table : Bdevs → Call (List ℕ × Bdevs)
exit_blkdev_table bdevs = unregister_all max_mounted_bdevs 0 bdevs
