-- ===== src/Tests/Ipcs.antt =====
-- The creation of queue pairs and their registration at concrete inputs.
use labstor.Base.{
  ℕ, zero, suc, ◌+◌, ◌-◌, ◌*◌, ◌/◌, ◌≤◌, ◌<◌, ◌≡◌, refl, ◌≢◌, none, some, [], ◌∷◌, arith, get_elem?,
  done, fault, along_some,
}
use labstor.QueuePair.{QueuePair}
use labstor.Region.{region_add}
use labstor.Request.{Qid}
use labstor.RequestMap
use labstor.RequestQueue
use labstor.Ring
use labstor.SegmentAlloc
use labstor.WorkQueueSecure.{WorkQueueSecure}
use labstor.Tests.Servers.{pair}
use labstor.Server.QueuePool.{Pool, pairs_of, get_queue_pair}
use labstor.Server.IpcManager.{
  user_get_size, MemoryConfig, Settings, Ipc, Runtime, qp_type, load_memory_config, queue_alloc,
  pointers, create_queues, register_by_pid, register_client_qp,
}
use labstor.Server.IpcManager.Attached.{Free, Spare, register_client_qp-found}
use labstor.Server.IpcManager.Created.{Placed, create_queues-found}

abbrev settings : Settings
settings = record {
  max_region_size_kb = 64;
  request_unit_bytes = 128;
  min_request_region_kb = 16;
  depth = 4;
  queues = 2;
}

-- two pairs of 140 bytes at the back of 64 KB
abbrev config : MemoryConfig
config = record {
  region_size = 65536;
  request_unit = 128;
  min_request_region = 16384;
  queue_depth = 4;
  num_queues = 2;
  queue_region_size = 280;
  request_region_size = 65256;
  request_queue_size = 40;
  request_map_size = 20;
}

loaded : load_memory_config settings ≡ done config
unfolding load_memory_config user_get_size RequestQueue.get_size_global RequestMap.get_size_global
    Ring.get_size_global
loaded = refl

abbrev new_qp : ℕ → ℕ → ℕ
new_qp base i = base + i

new_qp_ne : (base i j : ℕ) → i ≢ j → new_qp base i ≢ new_qp base j
new_qp_ne base i j differ = ground arith

-- one type with two sets of flags, without pairs
abbrev empty_pool : Pool
empty_pool = record { qp_type_to_id = []; qps = ([] ∷ [] ∷ []) ∷ [] }

abbrev before : Ipc
before = record {
  pool = empty_pool;
  qp_alloc = record { offset = 0; max_size = 280; region = 1065256 };
  region = 1000000;
  pairs = λ a. pair;
}

create_queues-found_example :
    (ipc' : Ipc) × (create_queues (λ i. pair) (new_qp 100) 1 77 0 config before ≡ done ipc')
    × ((i : ℕ)
        → i < 2
        → (get_queue_pair ipc'.pool qp_type 1 i ≡ done (new_qp 100 i))
          × Placed config 1065256 i (ipc'.pairs (new_qp 100 i))
          × (65256 + i * 60 + 60 ≤ 65536))
unfolding pairs_of queue_alloc region_add SegmentAlloc.init
create_queues-found_example =
    create_queues-found (λ i. pair) (new_qp 100) 1 77 0 settings config before [] loaded
      (omega arith) (omega arith) (omega arith) (omega arith) (omega arith) refl refl refl
      (new_qp_ne 100)

-- the pairs of the client, its region at 1000000
abbrev client_pair : ℕ → QueuePair
client_pair i =
    let sq = pair.sq in
    let cq = pair.cq in
    record {
      sq = record sq { header = 1065256 + i * 60 };
      cq = record cq { header = 1065256 + i * 60 + 40 };
    }

abbrev client : Ipc
client = let ipc = before in record ipc { pairs = λ a. client_pair (a - 100) }

-- the id in the memory that the server maps at 2000000
abbrev id_at : ℕ → Qid
id_at a = record { flags = 1; kind = 0; cnt = (a - 2065256) / 60; pid = 77 }

abbrev worker : WorkQueueSecure
worker = record {
  enqueued = 0;
  max_depth = 2;
  plug = (0, 0);
  queue = record { qp = 0; creds = 0 } ∷ record { qp = 0; creds = 0 } ∷ [];
  header = 5000;
}

abbrev server : Runtime
server =
    let ipc = before in
    record {
      pid = 77;
      ipc = record ipc { region = 2000000 };
      others = λ pid. none;
      workers = worker ∷ [];
    }

-- The pair whose id names a process that is not there is not registered.
unknown_process :
    register_by_pid server (record { flags = 1; kind = 0; cnt = 0; pid = 78 }) 300 ≡ fault
unfolding register_by_pid
unknown_process = refl

worker-Spare : (j : ℕ) (w : WorkQueueSecure) → get_elem? (worker ∷ []) j ≡ some w → Spare 2 w
worker-Spare zero w e = along_some (Spare 2) worker w e (omega arith, omega arith, omega arith)
worker-Spare (suc j) w e = absurd (cc (e))

workers-Free : Free 2 (worker ∷ [])
workers-Free = record { some_worker = omega arith; spare = worker-Spare }

placed_client : (i : ℕ) → i < 2 → Placed config 1065256 i (client.pairs (new_qp 100 i))
placed_client zero lt = record { sq_at = refl; cq_at = refl }
placed_client (suc zero) lt = record { sq_at = refl; cq_at = refl }
placed_client (suc (suc i)) lt = absurd (omega arith)

id_at_lem :
    (i : ℕ) → i < 2 → id_at (2065256 + i * 60) ≡ (record { flags = 1; kind = 0; cnt = i; pid = 77 })
id_at_lem zero lt = refl
id_at_lem (suc zero) lt = refl
id_at_lem (suc (suc i)) lt = absurd (omega arith)

register_client_qp-found_example :
    (rt' : Runtime) × (register_client_qp id_at
        (new_qp 300)
        (λ pid. pid + 7)
        2
        0
        (pointers client (new_qp 100) 2 0)
        server
      ≡ done rt')
    × ((i : ℕ)
        → i < 2
        → (get_queue_pair rt'.ipc.pool qp_type 1 i ≡ done (new_qp 300 i))
          × Placed config 2065256 i (rt'.ipc.pairs (new_qp 300 i)))
unfolding pairs_of
register_client_qp-found_example =
    register_client_qp-found id_at (new_qp 300) (new_qp 100) 1 77 65256 (λ pid. pid + 7) config
      client server refl placed_client id_at_lem (omega arith) (omega arith) (omega arith)
      (omega arith) workers-Free refl (new_qp_ne 300)
