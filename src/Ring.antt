-- ===== src/Ring.antt =====
-- The ring of request offsets of
-- include/labstor/types/data_structures/c/shmem_request_ring_buffer.h, as a kernel build without
-- ENABLE_LOCKING compiles it. A function that updates `*rbuf` returns the new ring.
pub mod Client
pub mod Inv
pub mod Window
pub mod Effects
pub mod Refine
pub mod Sizes
pub mod Wrap
use labstor.Base.{
  ℕ, ◌+◌, ◌-◌, ◌*◌, ◌/◌, ◌%◌, ◌^◌, ◌==◌, ltb, if◌then◌else◌, u32, u32_mod, sub32, Bool, true, false,
  Option, none, some, List, [], ◌∷◌, length, get_or, set, Call, done, refused, fault, ◌>>=◌,
}

-- `LABSTOR_RING_BUFFER_OFF_T_SPSC_Header` and the words behind it, to which `queue_` points. An
-- offset is its 32-bit pattern.
pub record Ring : Type 0 where
  pub enqueued : ℕ
  pub dequeued : ℕ
  pub max_depth : ℕ
  pub queue : List ℕ

-- `sizeof` of the header and of `labstor_off_t`
abbrev pub header_size : ℕ
header_size = 12

abbrev pub off_size : ℕ
off_size = 4

-- The sum is a `size_t`, cut to 32 bits by the return.
unfoldable pub get_size_global : ℕ → ℕ
get_size_global max_depth = u32 (header_size + off_size * max_depth)

unfoldable pub get_size : Ring → ℕ
unfolding get_size_global
get_size r = get_size_global r.max_depth

unfoldable pub get_depth : Ring → ℕ
get_depth r = sub32 r.enqueued r.dequeued

-- `max_depth /= sizeof(labstor_off_t)` after the subtraction of the header
unfoldable pub default_depth : ℕ → ℕ → ℕ
default_depth region_size max_depth =
    if max_depth == 0 then sub32 region_size header_size / off_size else max_depth

-- `r` is what the region and `*rbuf` held before. The counters are reset before the tests.
unfoldable pub init : Ring → ℕ → ℕ → Bool × Ring
unfolding get_size_global default_depth
init r region_size max_depth =
    let cleared : Ring = record r { enqueued = 0; dequeued = 0 } in
    let depth = default_depth region_size max_depth in
    if ltb region_size (get_size_global max_depth)
    then (false, cleared)
    else if depth == 0
    then (false, cleared)
    else (true, record cleared { max_depth = depth })

-- `counter % max_depth`, as an index that the code reads or writes
unfoldable pub entry_of : Ring → ℕ → Call ℕ
entry_of r counter =
    if r.max_depth == 0
    then fault
    else if ltb (counter % r.max_depth) (length r.queue)
    then done (counter % r.max_depth)
    else fault

-- The number that comes back is `*req_id`.
unfoldable pub enqueue : Ring → ℕ → Call (ℕ × Ring)
unfolding get_depth entry_of
enqueue r off =
    if get_depth r == r.max_depth
    then refused
    else entry_of r r.enqueued >>= λ entry.
        done
          (r.enqueued, record r { queue = set r.queue entry off; enqueued = u32 (r.enqueued + 1) })

unfoldable pub enqueue_simple : Ring → ℕ → Call Ring
unfolding enqueue
enqueue_simple r off = enqueue r off >>= λ p. done p.1

-- `i` is the 32-bit pattern of the `int`, which the addition turns into a `uint32_t`.
unfoldable pub peek : Ring → ℕ → Call ℕ
unfolding entry_of
peek r i =
    if r.enqueued == r.dequeued
    then refused
    else entry_of r (u32 (r.dequeued + i)) >>= λ entry. done (get_or r.queue entry 0)

unfoldable pub dequeue : Ring → Call (ℕ × Ring)
unfolding entry_of
dequeue r =
    if r.enqueued == r.dequeued
    then refused
    else entry_of r r.dequeued >>= λ entry.
        done (get_or r.queue entry 0, record r { dequeued = u32 (r.dequeued + 1) })
