-- ===== src/WorkQueue.antt =====
-- A worker's list of queue pairs, include/labstor/types/data_structures/c/shmem_work_queue.h, as
-- a kernel build compiles it.
pub mod Order
pub mod Sizes
use labstor.Base.{
  ℕ, zero, suc, ◌+◌, ◌-◌, ◌*◌, ◌/◌, ◌%◌, ◌^◌, ◌≤◌, ◌<◌, ◌≡◌, refl, sym, ap, ap₂, ◌∙◌, ◌≢◌, ◌↔◌, ◌⊎◌,
  inl, inr, Bool, true, false, ◌&&◌, ◌||◌, not, Option, none, some, List, [], ◌∷◌, ◌++◌, arith, ltb,
  leb, ◌==◌, if◌then◌else◌, ==→eq, eq→==, Bool-cases, Option-cases, List-cases, length, get_elem?,
  get_or, set, replicate, length-append, length-set, length-replicate, get_elem?-eq-get_or,
  get_or-set_self, get_or-set_ne, get_or-replicate, u32_mod, u64_mod, u32, sub32, sub64,
  mod-ne_of_near, Call, done, refused, fault, ◌>>=◌, map_call,
}

-- `labstor_work_queue_header` (`plug_` is only ever reset), the pointers behind it, to which
-- `queue_` points, and the address of the header
pub record WorkQueue : Type 0 where
  pub enqueued : ℕ
  pub max_depth : ℕ
  pub plug : ℕ × ℕ
  pub queue : List ℕ
  pub header : ℕ

-- `sizeof` of the header, of `labstor_off_t` and of a pointer
abbrev pub header_size : ℕ
header_size = 12

abbrev pub off_size : ℕ
off_size = 4

abbrev pub pointer_size : ℕ
pointer_size = 8

unfoldable pub get_size_global : ℕ → ℕ
get_size_global max_depth = u32 (header_size + off_size * max_depth)

unfoldable pub get_size : WorkQueue → ℕ
unfolding get_size_global
get_size w = get_size_global w.max_depth

unfoldable pub get_next_section : WorkQueue → ℕ
unfolding get_size
get_next_section w = w.header + get_size w

unfoldable pub get_depth : WorkQueue → ℕ
get_depth w = w.enqueued

unfoldable pub default_depth : ℕ → ℕ → ℕ
default_depth region_size max_depth =
    if max_depth == 0 then sub32 region_size header_size / pointer_size else max_depth

-- `w` is what the region and `*rbuf` held before.
unfoldable pub init : WorkQueue → ℕ → ℕ → ℕ → Bool × WorkQueue
unfolding get_size_global default_depth
init w region region_size max_depth =
    let cleared : WorkQueue = record w { enqueued = 0; plug = (0, 0); header = region } in
    let depth = default_depth region_size max_depth in
    if ltb region_size (get_size_global max_depth)
    then (false, cleared)
    else if depth == 0
    then (false, cleared)
    else (true, record cleared { max_depth = depth })

unfoldable pub attach : WorkQueue → ℕ → WorkQueue
attach w region = record w { header = region }

unfoldable pub enqueue : WorkQueue → ℕ → Call WorkQueue
enqueue w qp =
    if leb w.max_depth w.enqueued
    then refused
    else if ltb w.enqueued (length w.queue)
    then done (record w { queue = set w.queue w.enqueued qp; enqueued = u32 (w.enqueued + 1) })
    else fault

-- `i` is the 32-bit pattern of the `int`, which the comparison turns into a `uint32_t`.
unfoldable pub peek : WorkQueue → ℕ → Call ℕ
peek w i =
    if leb w.enqueued i
    then refused
    else if ltb i (length w.queue)
    then done (get_or w.queue i 0)
    else fault
