-- ===== src/PrivateAlloc.antt =====
-- The allocator of equal objects of include/labstor/types/allocator/private_shmem_allocator.h, as
-- a kernel build compiles it: a region holds a header, a ring of the free objects' offsets, and
-- the objects.
pub mod Objects
pub mod Init
pub mod Calls
use labstor.Base.{
  ℕ, zero, suc, ◌+◌, ◌-◌, ◌*◌, ◌/◌, ◌%◌, ◌^◌, ◌≤◌, ◌<◌, ◌≡◌, refl, sym, ap, ap₂, ◌∙◌, ◌≢◌, ◌↔◌, ◌⊎◌,
  inl, inr, Bool, true, false, ◌&&◌, ◌||◌, not, Option, none, some, List, [], ◌∷◌, ◌++◌, arith, ltb,
  leb, ◌==◌, if◌then◌else◌, ==→eq, eq→==, Bool-cases, Option-cases, List-cases, length, get_elem?,
  get_or, set, replicate, length-append, length-set, length-replicate, get_elem?-eq-get_or,
  get_or-set_self, get_or-set_ne, get_or-replicate, u32_mod, u64_mod, u32, sub32, sub64,
  mod-ne_of_near, Call, done, refused, fault, ◌>>=◌, map_call,
}
use labstor.Region.{region_add, region_sub}
use labstor.Ring
use labstor.Ring.{Ring}

-- `header` is the address of the region; `objs` is the ring behind the header.
pub record PrivateAlloc : Type 0 where
  pub base_region : ℕ
  pub header : ℕ
  pub region_size : ℕ
  pub request_unit : ℕ
  pub objs : Ring

-- `sizeof` of the allocator's header
abbrev pub header_size : ℕ
header_size = 8

-- The loop of `Init`: `n` objects from `remainder` on. The ring's answer is dropped.
unfoldable pub fill : ℕ → ℕ → Ring → ℕ → ℕ → Call Ring
fill base unit objs remainder zero = done objs
fill base unit objs remainder (suc n) =
    elim (Ring.enqueue_simple objs (region_sub remainder base)) [
      | done objs' ↦ fill base unit objs' ((remainder + unit) % u64_mod) n
      | refused ↦ fill base unit objs ((remainder + unit) % u64_mod) n
      | fault ↦ fault
    ]

-- the ring after the call of its `Init`, whose answer is dropped
unfoldable pub init_ring : Ring → ℕ → ℕ → Ring
init_ring objs region_size unit =
    (Ring.init objs (sub32 region_size header_size) (region_size / unit)).1

-- the address behind the ring
unfoldable pub objects_start : ℕ → Ring → ℕ
objects_start region objs = (region + header_size + Ring.get_size objs) % u64_mod

unfoldable pub init : PrivateAlloc → ℕ → ℕ → ℕ → ℕ → Call PrivateAlloc
init a base_region region region_size request_unit =
    if request_unit == 0
    then fault
    else let objs = init_ring a.objs region_size request_unit in
      let remainder = objects_start region objs in
      let remainder_size = u32 (sub64 ((region + region_size) % u64_mod) remainder) in
      fill base_region request_unit objs remainder (remainder_size / request_unit) >>= λ filled.
      done (record {
        base_region = base_region;
        header = region;
        region_size = region_size;
        request_unit = request_unit;
        objs = filled;
      })

unfoldable pub attach : PrivateAlloc → ℕ → ℕ → PrivateAlloc
attach a base_region region = record a { base_region = base_region; header = region }

-- The arguments `size` and `core` are not read.
unfoldable pub alloc : PrivateAlloc → Call (ℕ × PrivateAlloc)
alloc a = Ring.dequeue a.objs >>= λ p. done (region_add p.0 a.base_region, record a { objs = p.1 })

-- `Free`
unfoldable pub release : PrivateAlloc → ℕ → Call PrivateAlloc
release a ptr = Ring.enqueue_simple a.objs (region_sub ptr a.base_region) >>= λ objs.
    done (record a { objs = objs })
