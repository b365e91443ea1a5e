-- ===== src/Kernel/BlkdevTable/Registered.antt =====
-- The registration of a block device.
use labstor.Base.{
  ℕ, ◌<◌, ◌≡◌, refl, ap, ◌∙◌, ◌≢◌, true, none, some, List, arith, ltb, eq→==, length, get_elem?,
  set, get_elem?-set_self, get_elem?-set_ne, done, in_bounds,
}
use labstor.QueuePair
use labstor.Region.{Reaches}
use labstor.Request.{Store, set_code}
use labstor.RequestMap.View
use labstor.Spin.{returned, spin_at_once}
use labstor.Kernel.BlkdevTable.{
  Bdevs, device, max_mounted_bdevs, minus, opened_as, assign_bdev, register_bdev, labstor_get_bdev,
}

-- A device that is opened for an id of the table is found under it, the other entries stay, and
-- the request, in reach of the base of a valid map, is completed at once, if its bucket is
-- vacant, with the code -1.
pub register-get :
    (bdevs : Bdevs) (s : QueuePair.Shared) (rq dev_id bdev : ℕ)
    (others : List (QueuePair.Shared → QueuePair.Shared))
    → length bdevs ≡ max_mounted_bdevs
    → dev_id < max_mounted_bdevs
    → View.IsValid s.qp.cq
    → Reaches s.qp.cq.base_region rq
    → View.pending s.qp.cq (View.home s.qp.cq (s.store rq).req_id) ≡ none
    → (bdevs' : Bdevs) × (s' : QueuePair.Shared) × (register_bdev bdevs s rq dev_id
          (device bdev)
          others
        ≡ returned (bdevs', s'))
      × (labstor_get_bdev bdevs' dev_id ≡ done (some bdev))
      × ((d : ℕ) → dev_id ≢ d → get_elem? bdevs' d ≡ get_elem? bdevs d)
      × (View.pending s'.qp.cq (View.home s.qp.cq (s.store rq).req_id) ≡ some rq)
      × ((s'.store rq).code ≡ minus 1)
unfolding register_bdev assign_bdev opened_as labstor_get_bdev QueuePair.complete_inf
    QueuePair.try_complete
register-get bdevs s rq dev_id bdev others len lt v reach free =
    let st : Store = set_code s.store rq (minus 1) in
    let same_id : (st rq).req_id ≡ (s.store rq).req_id = rw (eq→== rq rq refl) refl in
    let (m, run, v', buckets, base, waits) =
      (View.insert_lem st s.qp.cq rq v reach).0 (rw same_id free) in
    let s' : QueuePair.Shared = record { store = st; qp = record { sq = s.qp.sq; cq = m } } in
    let inside : ltb dev_id max_mounted_bdevs ≡ true = ground (arith, lt) in
    let completed =
      spin_at_once (QueuePair.try_complete rq) others (record s { store = st }) s' (rw run) in
    (
      set bdevs dev_id (some bdev),
      s',
      rw (inside, completed) refl,
      ap in_bounds (get_elem?-set_self bdevs dev_id (some bdev) (omega (arith, len, lt))),
      λ d ne. get_elem?-set_ne bdevs dev_id d (some bdev) ne,
      waits (View.home s.qp.cq (s.store rq).req_id) ∙ rw same_id (ground arith),
      rw (eq→== rq rq refl) refl,
    )
