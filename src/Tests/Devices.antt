-- ===== src/Tests/Devices.antt =====
-- The table of block devices at concrete inputs.
use labstor.Base.{ℕ, ◌≡◌, refl, ◌≢◌, none, some, [], ◌∷◌, arith, get_elem?, replicate, done}
use labstor.QueuePair
use labstor.RequestMap.View
use labstor.Spin.{returned}
use labstor.Tests.Maps.{requests, two_buckets}
use labstor.Kernel.BlkdevTable.{Bdevs, device, minus, register_bdev, labstor_get_bdev}
use labstor.Kernel.BlkdevTable.Registered.{register-get}

abbrev no_bdevs : Bdevs
no_bdevs = replicate 64 none

abbrev shared : QueuePair.Shared
shared = record {
  store = requests;
  qp = record {
    sq = record {
      base_region = 1000;
      header = 1100;
      qid = record { flags = 1; kind = 0; cnt = 2; pid = 77 };
      update = (0, 0);
      ring = record { enqueued = 3; dequeued = 3; max_depth = 2; queue = 0 ∷ 0 ∷ [] };
    };
    cq = two_buckets;
  };
}

register-get_example :
    (bdevs' : Bdevs) × (s' : QueuePair.Shared) × (register_bdev no_bdevs shared 1016 5
        (device 8192)
        []
      ≡ returned (bdevs', s'))
    × (labstor_get_bdev bdevs' 5 ≡ done (some 8192))
    × ((d : ℕ) → 5 ≢ d → get_elem? bdevs' d ≡ get_elem? no_bdevs d)
    × (View.pending s'.qp.cq 0 ≡ some 1016)
    × ((s'.store 1016).code ≡ minus 1)
register-get_example =
    register-get no_bdevs shared 1016 5 8192 [] refl (omega arith)
      (record { positive = omega arith; storage = omega arith })
      (omega arith, omega arith, omega arith) refl
