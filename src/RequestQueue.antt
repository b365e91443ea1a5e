-- ===== src/RequestQueue.antt =====
-- The submission queue of include/labstor/types/data_structures/c/shmem_request_queue.h: a header
-- with the queue's id before a request ring.
pub mod Pointers
pub mod Peeks
pub mod Waiting
use labstor.Base.{ℕ, ◌+◌, u32, sub32, List, Call, done, ◌>>=◌}
use labstor.Region.{region_add, region_sub}
use labstor.Request.{Qid, Qtok, Store, set_req_id}
use labstor.Ring
use labstor.Ring.{Ring}
use labstor.Spin.{Spun, spin}

-- `header_` is the address of the queue's region.
pub record RequestQueue : Type 0 where
  pub base_region : ℕ
  pub header : ℕ
  pub qid : Qid
  pub update : ℕ × ℕ
  pub ring : Ring

abbrev pub queue_header_size : ℕ
queue_header_size = 12

unfoldable pub get_size_global : ℕ → ℕ
get_size_global max_depth = u32 (queue_header_size + Ring.get_size_global max_depth)

unfoldable pub get_size : RequestQueue → ℕ
unfolding get_size_global
get_size q = get_size_global q.ring.max_depth

-- The result of the ring's `Init` is dropped.
unfoldable pub init : RequestQueue → ℕ → ℕ → ℕ → ℕ → Qid → RequestQueue
init q base_region region region_size depth qid = record {
  base_region = base_region;
  header = region;
  qid = qid;
  update = (0, 0);
  ring = (Ring.init q.ring (sub32 region_size queue_header_size) depth).1;
}

-- `Attach` and `RemoteAttach`: the view of a region that is initialised already.
unfoldable pub attach : RequestQueue → ℕ → ℕ → RequestQueue
attach q base_region region = record q { base_region = base_region; header = region }

-- what one round of the loop in `Enqueue` works on
pub record Shared : Type 0 where
  pub store : Store
  pub queue : RequestQueue

-- One round of the loop: the ring writes `rq->req_id_`, and the token is made from it.
unfoldable pub try_enqueue : ℕ → Shared → Call (Qtok × Shared)
try_enqueue rq s = Ring.enqueue s.queue.ring (region_sub rq s.queue.base_region) >>= λ p. done (
  record { qid = s.queue.qid; req_id = p.0 },
  record { store = set_req_id s.store rq p.0; queue = let q = s.queue in record q { ring = p.1 } },
)

unfoldable pub enqueue : Shared → ℕ → List (Shared → Shared) → Spun (Qtok × Shared)
unfolding try_enqueue
enqueue s rq others = spin (try_enqueue rq) s others

unfoldable pub peek : RequestQueue → ℕ → Call ℕ
peek q i = Ring.peek q.ring i >>= λ off. done (region_add off q.base_region)

unfoldable pub dequeue : RequestQueue → Call (ℕ × RequestQueue)
dequeue q =
    Ring.dequeue q.ring >>= λ p. done (region_add p.0 q.base_region, record q { ring = p.1 })
