-- ===== src/SegmentAlloc.antt =====
-- The bump allocator of include/labstor/types/allocator/segment_allocator.h. Nothing is given
-- back, and `max_size_` is never read.
pub mod Segments
use labstor.Base.{
  ℕ, zero, suc, ◌+◌, ◌-◌, ◌*◌, ◌/◌, ◌%◌, ◌^◌, ◌≤◌, ◌<◌, ◌≡◌, refl, sym, ap, ap₂, ◌∙◌, ◌≢◌, ◌↔◌, ◌⊎◌,
  inl, inr, Bool, true, false, ◌&&◌, ◌||◌, not, Option, none, some, List, [], ◌∷◌, ◌++◌, arith, ltb,
  leb, ◌==◌, if◌then◌else◌, ==→eq, eq→==, Bool-cases, Option-cases, List-cases, length, get_elem?,
  get_or, set, replicate, length-append, length-set, length-replicate, get_elem?-eq-get_or,
  get_or-set_self, get_or-set_ne, get_or-replicate, get_elem?_of_lt, get_elem?-set_self,
  get_elem?-set_ne, get_elem?-set_cases, u32_mod, u64_mod, u32, sub32, sub64, mod-ne_of_near, Call,
  done, refused, fault, ◌>>=◌, map_call, in_bounds, along_some,
}

pub record SegmentAlloc : Type 0 where
  pub offset : ℕ
  pub max_size : ℕ
  pub region : ℕ

unfoldable pub init : ℕ → ℕ → SegmentAlloc
init region size = record { offset = 0; max_size = size; region = region }

unfoldable pub attach : ℕ → ℕ → SegmentAlloc
attach region size = init region size

-- `offset_` is a `uint32_t`, so it is added without a sign.
unfoldable pub alloc : SegmentAlloc → ℕ → ℕ × SegmentAlloc
alloc a size = ((a.region + a.offset) % u64_mod, record a { offset = u32 (a.offset + size) })
