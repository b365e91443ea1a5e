-- ===== src/WorkQueueSecure.antt =====
-- The list of queue pairs with credentials of
-- include/labstor/types/data_structures/c/shmem_work_queue_secure.h.
use labstor.Base.{
  ℕ, zero, suc, ◌+◌, ◌*◌, ◌/◌, ◌%◌, ◌≡◌, refl, ap, Bool, true, false, List, [], ◌∷◌, arith, ltb,
  leb, ◌==◌, if◌then◌else◌, length, get_elem?, set, u64_mod, u32, sub32, Call, done, refused, fault,
  map_call, in_bounds,
}
use mathlib.Core.List.{map}
use labstor.WorkQueue
use labstor.WorkQueue.{WorkQueue}

-- `labstor_work_queue_secure_entry`
pub record Entry : Type 0 where
  pub qp : ℕ
  pub creds : ℕ

-- the header's fields, the entries behind it, and its address
pub record WorkQueueSecure : Type 0 where
  pub enqueued : ℕ
  pub max_depth : ℕ
  pub plug : ℕ × ℕ
  pub queue : List Entry
  pub header : ℕ

-- `sizeof` of the header and of an entry
abbrev pub header_size : ℕ
header_size = 12

abbrev pub entry_size : ℕ
entry_size = 16

unfoldable pub get_size_global : ℕ → ℕ
get_size_global max_depth = u32 (header_size + entry_size * max_depth)

unfoldable pub get_size : WorkQueueSecure → ℕ
get_size w = get_size_global w.max_depth

unfoldable pub get_next_section : WorkQueueSecure → ℕ
get_next_section w = (w.header + get_size w) % u64_mod

unfoldable pub get_depth : WorkQueueSecure → ℕ
get_depth w = w.enqueued

unfoldable pub default_depth : ℕ → ℕ → ℕ
default_depth region_size max_depth =
    if max_depth == 0 then sub32 region_size header_size / entry_size else max_depth

-- `false` is the exception of a C++ build; `w` is what the region and `*rbuf` held before.
unfoldable pub init : WorkQueueSecure → ℕ → ℕ → ℕ → Bool × WorkQueueSecure
init w region region_size max_depth =
    let cleared : WorkQueueSecure = record w { enqueued = 0; plug = (0, 0); header = region } in
    let depth = default_depth region_size max_depth in
    if ltb region_size (get_size_global max_depth)
    then (false, cleared)
    else if depth == 0
    then (false, cleared)
    else (true, record cleared { max_depth = depth })

unfoldable pub attach : WorkQueueSecure → ℕ → WorkQueueSecure
attach w region = record w { header = region }

unfoldable pub enqueue : WorkQueueSecure → ℕ → ℕ → Call WorkQueueSecure
enqueue w qp creds =
    if leb w.max_depth w.enqueued
    then refused
    else if ltb w.enqueued (length w.queue)
    then done (record w {
      queue = set w.queue w.enqueued (record { qp = qp; creds = creds });
      enqueued = u32 (w.enqueued + 1);
    })
    else fault

-- `i` is the 32-bit pattern of the `int`.
unfoldable pub peek : WorkQueueSecure → ℕ → Call Entry
peek w i = if leb w.enqueued i then refused else in_bounds (get_elem? w.queue i)

-- the work queue without the credentials
abbrev pub forget : WorkQueueSecure → WorkQueue
forget w = record {
  enqueued = w.enqueued;
  max_depth = w.max_depth;
  plug = w.plug;
  queue = map (λ e. e.qp) w.queue;
  header = w.header;
}

map-set :
    (es : List Entry) (i : ℕ) (e : Entry)
    → map (λ e. e.qp) (set es i e) ≡ set (map (λ e. e.qp) es) i e.qp
map-set [] i e = refl
map-set (d ∷ es) zero e = refl
map-set (d ∷ es) (suc i) e = ap (λ l. d.qp ∷ l) (map-set es i e)

length-map : (es : List Entry) → length (map (λ e. e.qp) es) ≡ length es
length-map [] = refl
length-map (e ∷ es) = ap suc (length-map es)

-- Enqueue of a pair with credentials is Enqueue of the pair when the credentials are forgotten.
pub enqueue-forget :
    (w : WorkQueueSecure) (qp creds : ℕ)
    → map_call forget (enqueue w qp creds) ≡ WorkQueue.enqueue (forget w) qp
unfolding enqueue WorkQueue.enqueue
enqueue-forget w qp creds =
    ground
      (arith, length-map w.queue, map-set w.queue w.enqueued (record { qp = qp; creds = creds }))
