-- ===== src/Tests/Allocs.antt =====
-- The allocators at concrete inputs.
use labstor.Base.{ℕ, ◌+◌, ◌*◌, ◌≤◌, ◌≡◌, some, arith, length, get_elem?, replicate, done}
use labstor.Ring.Inv.{IsValid}
use labstor.PrivateAlloc.{PrivateAlloc, init}
use labstor.PrivateAlloc.Objects.{free}
use labstor.PrivateAlloc.Init.{init-objects}
use labstor.Tests.Rings.{blank}

abbrev raw : PrivateAlloc
raw = record {
  base_region = 0;
  header = 0;
  region_size = 0;
  request_unit = 0;
  objs = record blank { queue = replicate 11 0 };
}

-- 64 bytes, for objects of 16: four slots, and room for one object behind them
init-objects_example :
    (a' : PrivateAlloc) × (init raw 4096 4096 64 16 ≡ done a')
    × IsValid a'.objs
    × (a'.base_region ≡ 4096)
    × (a'.header ≡ 4096)
    × (a'.region_size ≡ 64)
    × (length (free a') ≡ 1)
    × ((i p : ℕ) → get_elem? (free a') i ≡ some p → (p ≡ 4096 + 36 + i * 16) × (p + 16 ≤ 4096 + 64))
init-objects_example = init-objects raw 4096 4096 64 16 (omega arith)
