-- ===== src/Mpmc.antt =====
-- The ring of include/labstor/types/data_structures/shmem_ring_buffer.h, for several producers and
-- several consumers: two locks, each taken by an attempt that fails if it is held.
pub mod Threads
pub mod Inv
pub mod Locks
pub mod Others
pub mod Fifo
use labstor.Base.{
  ℕ, zero, suc, ◌+◌, ◌-◌, ◌*◌, ◌/◌, ◌%◌, ◌^◌, ◌≤◌, ◌<◌, ◌≡◌, refl, sym, ap, ap₂, ◌∙◌, ◌≢◌, ◌↔◌, ◌⊎◌,
  inl, inr, Bool, true, false, ◌&&◌, ◌||◌, not, Option, none, some, List, [], ◌∷◌, ◌++◌, arith, ltb,
  leb, ◌==◌, if◌then◌else◌, ==→eq, eq→==, Bool-cases, Option-cases, List-cases, length, get_elem?,
  get_or, set, replicate, length-append, length-set, length-replicate, get_elem?-eq-get_or,
  get_or-set_self, get_or-set_ne, get_or-replicate, get_elem?_of_lt, get_elem?-set_self,
  get_elem?-set_ne, get_elem?-set_cases, get_elem?-append_left, get_elem?-append_last, u32_mod,
  u64_mod, u32, sub32, sub64, mod-ne_of_near, Call, done, refused, fault, ◌>>=◌, map_call,
  in_bounds, along_some, bind-done, eq-cases, lt_of_get_elem?, get_or_of_get_elem?,
  get_elem?-append_ne,
}
use labstor.Base

-- `ring_buffer_header`, and the slots behind it
pub record Mpmc (A : Type 0) : Type 0 where
  pub enqueued : ℕ
  pub dequeued : ℕ
  pub e_lock : ℕ
  pub d_lock : ℕ
  pub max_depth : ℕ
  pub queue : List A
  pub header : ℕ

-- `sizeof(struct ring_buffer)`, which is counted for the header: the table of the virtual
-- functions, and two pointers
abbrev pub ring_buffer_size : ℕ
ring_buffer_size = 24

-- `entry_size` is `sizeof(T)`.
unfoldable pub get_size_of : ℕ → ℕ → ℕ
get_size_of entry_size max_depth = u32 (ring_buffer_size + entry_size * max_depth)

unfoldable pub default_depth : ℕ → ℕ → ℕ → ℕ
default_depth entry_size region_size max_depth =
    if max_depth == 0 then sub32 region_size ring_buffer_size / entry_size else max_depth

-- `LABSTOR_INF_LOCK_TRYLOCK`: the lock's next value, if it is free
unfoldable pub try_lock : ℕ → Option ℕ
try_lock lock = if lock == 0 then some 1 else none

module _ {A : Type 0} where
  unfoldable pub get_size : ℕ → Mpmc A → ℕ
  get_size entry_size r = get_size_of entry_size r.max_depth

  -- `region_size` and `max_depth` come as `uint32_t`.
  unfoldable pub get_next_section : ℕ → Mpmc A → ℕ
  get_next_section entry_size r = (r.header + get_size entry_size r) % u64_mod

  unfoldable pub get_depth : Mpmc A → ℕ
  get_depth r = if ltb r.enqueued r.dequeued then 0 else r.enqueued - r.dequeued

  -- `false` is the exception; `r` is what the region held before.
  unfoldable pub init : ℕ → Mpmc A → ℕ → ℕ → ℕ → Bool × Mpmc A
  init entry_size r region region_size max_depth =
      let cleared : Mpmc A = record r {
        enqueued = 0;
        dequeued = 0;
        e_lock = 0;
        d_lock = 0;
        header = region;
      } in
      let depth = default_depth entry_size region_size max_depth in
      if ltb region_size (get_size_of entry_size max_depth)
      then (false, cleared)
      else if depth == 0
      then (false, cleared)
      else (true, record cleared { max_depth = depth })

  -- the slot of a counter
  unfoldable pub entry_of : Mpmc A → ℕ → Call ℕ
  entry_of r counter =
      if r.max_depth == 0
      then fault
      else if ltb (counter % r.max_depth) (length r.queue)
      then done (counter % r.max_depth)
      else fault

  -- `Enqueue`, when no other thread interferes: the value of `enqueued_` that is `req_id`. The
  -- ring is the same after a refusal.
  unfoldable pub enqueue : Mpmc A → A → Call (ℕ × Mpmc A)
  enqueue r data_ = elim (try_lock r.e_lock) [
    | none ↦ refused
    | some held ↦
        if leb r.max_depth (sub32 r.enqueued r.dequeued)
        then refused
        else entry_of r r.enqueued >>= λ entry. done (
          r.enqueued,
          record r { queue = set r.queue entry data_; enqueued = u32 (r.enqueued + 1); e_lock = 0 },
        )
  ]

  unfoldable pub dequeue : Mpmc A → Call (A × Mpmc A)
  dequeue r = elim (try_lock r.d_lock) [
    | none ↦ refused
    | some held ↦
        if sub32 r.enqueued r.dequeued == 0
        then refused
        else entry_of r r.dequeued >>= λ entry. in_bounds (get_elem? r.queue entry) >>= λ data_.
            done (data_, record r { dequeued = u32 (r.dequeued + 1); d_lock = 0 })
  ]
