-- ===== src/QueuePair.antt =====
-- The queue pair of include/labstor/types/data_structures/c/shmem_queue_pair.h: requests go
-- through the submission queue and come back through the completion map.
pub mod Roundtrip
pub mod Completion
use labstor.Base.{ℕ, ◌+◌, u32, List, Call, done, refused, fault, ◌>>=◌}
use labstor.Region.{region_add, region_sub}
use labstor.Request.{Qid, Qtok, Store, set_req_id}
use labstor.Ring
use labstor.RequestMap
use labstor.RequestMap.{RequestMap}
use labstor.RequestQueue
use labstor.RequestQueue.{RequestQueue}
use labstor.Spin.{Spun, returned, spinning, crashed, spin}

pub record QueuePair : Type 0 where
  pub sq : RequestQueue
  pub cq : RequestMap

-- `labstor_queue_pair_ptr`, by which another process finds the pair
pub record QueuePairPtr : Type 0 where
  pub sq_off : ℕ
  pub cq_off : ℕ
  pub pid : ℕ

-- `sizeof(struct labstor_queue_pair)` in a 64-bit kernel build: seven pointers
abbrev pub queue_pair_size : ℕ
queue_pair_size = 56

unfoldable pub get_size_global : ℕ → ℕ
get_size_global depth =
    u32 (queue_pair_size + RequestQueue.get_size_global depth + RequestMap.get_size_global depth)

unfoldable pub ptr_init : Qid → ℕ → ℕ → ℕ → QueuePairPtr
ptr_init qid sq_region cq_region base_region = record {
  sq_off = region_sub sq_region base_region;
  cq_off = region_sub cq_region base_region;
  pid = qid.pid;
}

unfoldable pub get_pointer : QueuePair → ℕ → QueuePairPtr
unfolding ptr_init
get_pointer qp base_region = ptr_init qp.sq.qid qp.sq.header qp.cq.header base_region

unfoldable pub init : QueuePair → Qid → ℕ → ℕ → ℕ → ℕ → ℕ → ℕ → QueuePair
init qp qid base_region depth sq_region sq_size cq_region cq_size = record {
  sq = RequestQueue.init qp.sq base_region sq_region sq_size depth qid;
  cq = (RequestMap.init qp.cq base_region cq_region cq_size depth).1;
}

-- `Attach` and `RemoteAttach`
unfoldable pub attach : QueuePair → QueuePairPtr → ℕ → QueuePair
attach qp ptr base_region = record {
  sq = RequestQueue.attach qp.sq base_region (region_add ptr.sq_off base_region);
  cq = RequestMap.attach qp.cq base_region (region_add ptr.cq_off base_region);
}

-- what the threads on both sides share: the requests and the pair
pub record Shared : Type 0 where
  pub store : Store
  pub qp : QueuePair

-- one round of the loop in `Enqueue`
unfoldable pub try_enqueue : ℕ → Shared → Call (Qtok × Shared)
try_enqueue rq s =
    RequestQueue.try_enqueue rq (record { store = s.store; queue = s.qp.sq }) >>= λ p.
    done (p.0, record { store = p.1.store; qp = record { sq = p.1.queue; cq = s.qp.cq } })

unfoldable pub enqueue : Shared → ℕ → List (Shared → Shared) → Spun (Qtok × Shared)
enqueue s rq others = spin (try_enqueue rq) s others

unfoldable pub peek : Shared → ℕ → Call ℕ
peek s i = RequestQueue.peek s.qp.sq i

unfoldable pub dequeue : Shared → Call (ℕ × Shared)
dequeue s = RequestQueue.dequeue s.qp.sq >>= λ p.
    done (p.0, record s { qp = record { sq = p.1; cq = s.qp.cq } })

-- one round of the loops that complete a request
unfoldable pub try_complete : ℕ → Shared → Call Shared
try_complete rq s = RequestMap.insert s.store s.qp.cq rq >>= λ cq.
    done (record s { qp = record { sq = s.qp.sq; cq = cq } })

unfoldable pub complete_inf : Shared → ℕ → List (Shared → Shared) → Spun Shared
complete_inf s rq others = spin (try_complete rq) s others

-- The list holds one entry fewer than the rounds that the 50 ms allow.
unfoldable pub complete_timed : Shared → ℕ → ℕ → List (Shared → Shared) → Call Shared
complete_timed s req_id rq others =
    elim (spin (try_complete rq) (record s { store = set_req_id s.store rq req_id }) others) [
      | returned s' ↦ done s'
      | spinning ↦ refused
      | crashed ↦ fault
    ]

-- `CompleteQuick` and `Complete`
unfoldable pub complete_quick : Shared → ℕ → ℕ → List (Shared → Shared) → Spun Shared
unfolding complete_inf
complete_quick s old_rq new_rq others =
    complete_inf (record s { store = set_req_id s.store new_rq (s.store old_rq).req_id }) new_rq
      others

unfoldable pub complete_by_qtok : Shared → Qtok → ℕ → List (Shared → Shared) → Spun Shared
unfolding complete_inf
complete_by_qtok s qtok rq others =
    complete_inf (record s { store = set_req_id s.store rq qtok.req_id }) rq others

-- `IsComplete`, and one round of the loops that wait for a request
unfoldable pub is_complete : ℕ → Shared → Call (ℕ × Shared)
is_complete req_id s = RequestMap.find_and_remove s.qp.cq req_id >>= λ p.
    done (p.0, record s { qp = record { sq = s.qp.sq; cq = p.1 } })

unfoldable pub wait : Shared → ℕ → List (Shared → Shared) → Spun (ℕ × Shared)
wait s req_id others = spin (is_complete req_id) s others

-- The list holds one entry fewer than the rounds that `max_ms` allows; `refused` is `NULL`.
unfoldable pub timed_wait : Shared → ℕ → List (Shared → Shared) → Call (ℕ × Shared)
timed_wait s req_id others = elim (spin (is_complete req_id) s others) [
  | returned p ↦ done p
  | spinning ↦ refused
  | crashed ↦ fault
]

unfoldable pub get_depth : QueuePair → ℕ
get_depth qp = Ring.get_depth qp.sq.ring

unfoldable pub get_pid : QueuePair → ℕ
get_pid qp = qp.sq.qid.pid
