-- ===== src/Server/IpcManager.antt =====
-- The queue pairs that the processes create: src/userspace/server/ipc_manager.cpp, the part of
-- src/userspace/client/ipc_manager.cpp that creates a client's pairs, and AssignQueuePair of
-- src/userspace/server/work_orchestrator.cpp. Messages between the processes are arguments.
pub mod Config
pub mod Created
pub mod Attached
use labstor.Base.{
  ℕ, zero, suc, ◌+◌, ◌-◌, ◌*◌, ◌/◌, ◌%◌, ◌^◌, ◌≤◌, ◌<◌, ◌≡◌, refl, sym, ap, ap₂, ◌∙◌, ◌≢◌, ◌↔◌, ◌⊎◌,
  inl, inr, Bool, true, false, ◌&&◌, ◌||◌, not, Option, none, some, List, [], ◌∷◌, ◌++◌, arith, ltb,
  leb, ◌==◌, if◌then◌else◌, ==→eq, eq→==, Bool-cases, Option-cases, List-cases, length, get_elem?,
  get_or, set, replicate, length-append, length-set, length-replicate, get_elem?-eq-get_or,
  get_or-set_self, get_or-set_ne, get_or-replicate, get_elem?_of_lt, get_elem?-set_self,
  get_elem?-set_ne, get_elem?-set_cases, get_elem?-append_left, get_elem?-append_last, u32_mod,
  u64_mod, u32, sub32, sub64, mod-ne_of_near, Call, done, refused, fault, ◌>>=◌, map_call,
  in_bounds, along_some, bind-done, eq-cases, lt_of_get_elem?, get_or_of_get_elem?,
  get_elem?-append_ne,
}
use labstor.QueuePair
use labstor.QueuePair.{QueuePair, QueuePairPtr}
use labstor.Region.{region_add}
use labstor.Request.{Qid}
use labstor.RequestMap
use labstor.RequestQueue
use labstor.Ring
use labstor.SegmentAlloc
use labstor.SegmentAlloc.{SegmentAlloc}
use labstor.WorkQueueSecure.{WorkQueueSecure}
use labstor.Kernel.WorkOrchestrator.{write_pair}
use labstor.Server.QueuePool.{Pool, get_qid, register_queue_pair, reserve_queues}
use labstor.Server.Worker.{assign_qp}

pub record MemoryConfig : Type 0 where
  pub region_size : ℕ
  pub request_unit : ℕ
  pub min_request_region : ℕ
  pub queue_depth : ℕ
  pub num_queues : ℕ
  pub queue_region_size : ℕ
  pub request_region_size : ℕ
  pub request_queue_size : ℕ
  pub request_map_size : ℕ

-- the numbers that the configuration file has for a type of process
pub record Settings : Type 0 where
  pub max_region_size_kb : ℕ
  pub request_unit_bytes : ℕ
  pub min_request_region_kb : ℕ
  pub depth : ℕ
  pub queues : ℕ

abbrev pub kb : ℕ
kb = 1024

-- `sizeof(labstor_queue_pair)` in C++, where the queue, its ring and the map each have a table of
-- virtual functions
abbrev pub user_pair_size : ℕ
user_pair_size = 80

-- `GetSize` of a queue pair in C++
unfoldable pub user_get_size : ℕ → ℕ
user_get_size depth =
    u32 (user_pair_size + RequestQueue.get_size_global depth + RequestMap.get_size_global depth)

-- `refused` is the exception NOT_ENOUGH_REQUEST_MEMORY.
unfoldable pub load_memory_config : Settings → Call MemoryConfig
unfolding user_get_size
load_memory_config s =
    let region_size = u32 (s.max_region_size_kb * kb) in
    let min_request_region = u32 (s.min_request_region_kb * kb) in
    let queue_region_size = u32 (s.queues * user_get_size s.depth) in
    let request_region_size = sub32 region_size queue_region_size in
    if leb region_size queue_region_size
    then refused
    else if ltb request_region_size min_request_region
    then refused
    else done (record {
      region_size = region_size;
      request_unit = s.request_unit_bytes;
      min_request_region = min_request_region;
      queue_depth = s.depth;
      num_queues = s.queues;
      queue_region_size = queue_region_size;
      request_region_size = request_region_size;
      request_queue_size = RequestQueue.get_size_global s.depth;
      request_map_size = RequestMap.get_size_global s.depth;
    })

-- The pairs of a process: the pool, the allocator of the queues' memory, the base of the region,
-- and the pairs by their addresses.
pub record Ipc : Type 0 where
  pub pool : Pool
  pub qp_alloc : SegmentAlloc
  pub region : ℕ
  pub pairs : ℕ → QueuePair

-- `segment_allocator::Init` at the back of the region
unfoldable pub queue_alloc : MemoryConfig → ℕ → SegmentAlloc
queue_alloc c region =
    SegmentAlloc.init (region_add c.request_region_size region) c.queue_region_size

-- the type of all pairs
abbrev pub qp_type : ℕ
qp_type = 0

-- `Init` of a queue pair in C++ without a depth; `refused` is the exception of the ring's `Init` or
-- of the map's.
unfoldable pub user_init :
    QueuePair → Qid → (base_region sq_region sq_size cq_region cq_size : ℕ) → Call QueuePair
user_init qp qid base_region sq_region sq_size cq_region cq_size =
    let sq = qp.sq in
    if not (Ring.init sq.ring (sub32 sq_size RequestQueue.queue_header_size) 0).0
    then refused
    else if not (RequestMap.init qp.cq base_region cq_region cq_size 0).0
    then refused
    else done (QueuePair.init qp qid base_region 0 sq_region sq_size cq_region cq_size)

-- `blank` is what a new object and the memory behind it hold, and `new_qp i` the address of the
-- object of round `i`.
module _ (blank : ℕ → QueuePair) (new_qp : ℕ → ℕ) (flags pid : ℕ) where
  -- one round of the loops of both sides: a pair of the sizes of the configuration
  unfoldable pub create_queue : MemoryConfig → ℕ → Ipc → Call Ipc
  create_queue c i ipc = get_qid qp_type flags i c.num_queues pid >>= λ qid.
      let (sq_region, alloc₁) = SegmentAlloc.alloc ipc.qp_alloc c.request_queue_size in
      let (cq_region, alloc₂) = SegmentAlloc.alloc alloc₁ c.request_map_size in
      user_init (blank i) qid ipc.region sq_region c.request_queue_size cq_region c.request_map_size
      >>= λ qp. register_queue_pair ipc.pool qid (new_qp i) >>= λ pool. done (record ipc {
        pool = pool;
        qp_alloc = alloc₂;
        pairs = write_pair ipc.pairs (new_qp i) qp;
      })

  -- the `n` rounds from `i` on
  unfoldable pub create_loop : ℕ → ℕ → MemoryConfig → Ipc → Call Ipc
  create_loop zero i c ipc = done ipc
  create_loop (suc n) i c ipc = create_queue c i ipc >>= λ ipc'. create_loop n (suc i) c ipc'

  -- The client's CreateQueuesSHMEM up to the messages; it reserves under the flags `reserved`.
  unfoldable pub create_queues : ℕ → MemoryConfig → Ipc → Call Ipc
  unfolding create_loop
  create_queues reserved c ipc = reserve_queues ipc.pool qp_type reserved c.num_queues >>= λ pool.
      create_loop c.num_queues 0 c (record ipc { pool = pool })

-- what the client sends: the pointers to the `n` pairs from round `i` on
unfoldable pub pointers : Ipc → (ℕ → ℕ) → ℕ → ℕ → List QueuePairPtr
pointers ipc new_qp zero i = []
pointers ipc new_qp (suc n) i =
    QueuePair.get_pointer (ipc.pairs (new_qp i)) ipc.region ∷ pointers ipc new_qp n (suc i)

-- AssignQueuePair of an id that is not negative, to the workers' queues
unfoldable pub assign_queue_pair : List WorkQueueSecure → ℕ → ℕ → ℕ → Call (List WorkQueueSecure)
assign_queue_pair workers qp creds worker_id =
    if length workers == 0
    then fault
    else in_bounds (get_elem? workers (worker_id % length workers)) >>= λ w.
        assign_qp w qp creds >>= λ w'. done (set workers (worker_id % length workers) w')

-- The server has the process `pid` whose pairs it registers, the pools of the other processes, of
-- which none is a null pointer or no entry, and the queues of its workers.
pub record Runtime : Type 0 where
  pub pid : ℕ
  pub ipc : Ipc
  pub others : ℕ → Option Pool
  pub workers : List WorkQueueSecure

-- `n` rounds of the server's CreatePrivateQueues, from `i` on
unfoldable pub create_private_loop :
    (ℕ → QueuePair) → (ℕ → ℕ) → (flags pid creds n i : ℕ) → MemoryConfig → Runtime → Call Runtime
create_private_loop blank new_qp flags pid creds zero i c rt = done rt
create_private_loop blank new_qp flags pid creds (suc n) i c rt =
    create_queue blank new_qp flags pid c i rt.ipc >>= λ ipc.
    assign_queue_pair rt.workers (new_qp i) creds i >>= λ workers.
    create_private_loop blank new_qp flags pid creds n (suc i) c
      (record rt { ipc = ipc; workers = workers })

unfoldable pub create_private_queues :
    (ℕ → QueuePair) → (ℕ → ℕ) → (flags pid creds : ℕ) → MemoryConfig → Runtime → Call Runtime
unfolding create_private_loop
create_private_queues blank new_qp flags pid creds c rt =
    let ipc = rt.ipc in
    reserve_queues ipc.pool qp_type flags c.num_queues >>= λ pool.
    create_private_loop blank new_qp flags pid creds c.num_queues 0 c
      (record rt { ipc = record ipc { pool = pool } })

-- `RegisterQueuePair` of the server: the pool is that of the process that the id names.
unfoldable pub register_by_pid : Runtime → Qid → ℕ → Call Runtime
register_by_pid rt qid qp =
    let ipc = rt.ipc in
    if qid.pid == rt.pid
    then (register_queue_pair ipc.pool qid qp >>= λ pool.
        done (record rt { ipc = record ipc { pool = pool } }))
    else elim (rt.others qid.pid) [
      | none ↦ fault
      | some theirs ↦ register_queue_pair theirs qid qp >>= λ pool.
          done (record rt { others = λ pid. if pid == qid.pid then some pool else rt.others pid })
    ]

-- The round `i` of RegisterClientQP. The server reads the id of an attached pair from the region,
-- where the client has written it: `qid_at` of the address of its header; `creds` are the
-- credentials of a process.
unfoldable pub register_client_round :
    (qid_at : ℕ → Qid)
    → (ℕ → ℕ)
    → (creds : ℕ → ℕ) → (count i : ℕ) → QueuePairPtr
    → Runtime
    → Call Runtime
unfolding register_by_pid
register_client_round qid_at new_qp creds count i ptr rt =
    let ipc = rt.ipc in
    let attached = QueuePair.attach (ipc.pairs (new_qp i)) ptr ipc.region in
    let sq = attached.sq in
    let qid = qid_at sq.header in
    let pair : QueuePair = record attached { sq = record sq { qid = qid } } in
    let ipc' : Ipc = record ipc { pairs = write_pair ipc.pairs (new_qp i) pair } in
    let reserved =
      if i == 0 then reserve_queues ipc.pool qp_type qid.flags count else done ipc.pool in
    reserved >>= λ pool.
    register_by_pid (record rt { ipc = record ipc' { pool = pool } }) qid (new_qp i) >>= λ rt'.
    assign_queue_pair rt'.workers (new_qp i) (creds qid.pid) i >>= λ workers.
    done (record rt' { workers = workers })

-- The loop of RegisterClientQP
unfoldable pub register_client_qp :
    (qid_at : ℕ → Qid)
    → (ℕ → ℕ)
    → (creds : ℕ → ℕ) → (count i : ℕ) → List QueuePairPtr
    → Runtime
    → Call Runtime
unfolding register_client_round
register_client_qp qid_at new_qp creds count i [] rt = done rt
register_client_qp qid_at new_qp creds count i (ptr ∷ rest) rt =
    register_client_round qid_at new_qp creds count i ptr rt >>= λ rt'.
    register_client_qp qid_at new_qp creds count (suc i) rest rt'
