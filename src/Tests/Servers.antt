-- ===== src/Tests/Servers.antt =====
-- The userspace server at concrete inputs.
use labstor.Base.{
  ℕ, zero, suc, ◌-◌, ◌%◌, ◌≡◌, refl, ◌≢◌, inr, Bool, some, List, [], ◌∷◌, arith, ◌==◌,
  if◌then◌else◌, get_elem?, done, fault,
}
use labstor.Bit2map.Entries.{Words}
use labstor.QueuePair.{QueuePair}
use labstor.Region.{region_add}
use labstor.Request.{Qid}
use labstor.RequestQueue.Pointers.{pending}
use labstor.Ring.Inv.{IsValid}
use labstor.Spin.{returned, spinning}
use labstor.Tests.Maps.{two_buckets}
use labstor.Text.{hash}
use labstor.UnorderedMap.Probe.{WellFormed}
use labstor.Server.Namespace.{
  Namespace, register_private_state, add_key, get_namespace_id, get_module,
}
use labstor.Server.Namespace.Keys.{add_key-get}
use labstor.Server.Namespace.Private.{register_private-get}
use labstor.Server.QueuePool.{
  Pool, pairs_of, register_queue_pair, get_queue_pair, get_queue_pair_by_qid, get_num_queue_pairs,
  get_qid,
}
use labstor.Server.QueuePool.Found.{register_pair-get, get_qid-found}
use labstor.Server.Worker.{Machine, Processed, qp_loop}
use labstor.Server.Worker.Missing.{missing_stuck}
use labstor.Server.Worker.Pass.{qp_loop-Rounds}
use labstor.Server.Worker.Rounds.{Keeps, Rounds}

-- one type with two sets of flags; the second has the pairs at 100 and 200
abbrev pool : Pool
pool = record { qp_type_to_id = []; qps = ([] ∷ (100 ∷ 200 ∷ []) ∷ []) ∷ [] }

abbrev third : Qid
third = record { flags = 1; kind = 0; cnt = 2; pid = 77 }

register_pair-get_example :
    (p' : Pool) × (register_queue_pair pool third 300 ≡ done p')
    × (pairs_of p' 0 1 ≡ done (100 ∷ 200 ∷ 300 ∷ []))
    × (get_queue_pair_by_qid p' third ≡ done 300)
    × ((kind flags off a : ℕ)
        → get_queue_pair pool kind flags off ≡ done a
        → get_queue_pair p' kind flags off ≡ done a)
unfolding pairs_of
register_pair-get_example =
    register_pair-get pool third 300 (100 ∷ 200 ∷ []) refl refl (omega arith)

get_qid-found_example :
    (n : ℕ) × (qid : Qid) × (a : ℕ) × (get_num_queue_pairs pool 0 1 ≡ done n)
    × (get_qid 0 1 12345 n 77 ≡ done qid)
    × (get_elem? (100 ∷ 200 ∷ []) (12345 % n) ≡ some a)
    × (get_queue_pair_by_qid pool qid ≡ done a)
unfolding pairs_of
get_qid-found_example =
    get_qid-found pool 0 1 12345 77 (100 ∷ 200 ∷ []) refl (omega arith) (omega arith)

-- the key at 4160 is "ab"
abbrev texts : ℕ → List ℕ
texts a = if a == 4160 then 97 ∷ 98 ∷ [] else []

-- four free buckets, and the module at 4242 under the id 1
abbrev pub namespace : Namespace
namespace = record {
  ns_ids = record {
    enqueued = 0;
    dequeued = 0;
    e_lock = 0;
    d_lock = 0;
    max_depth = 2;
    queue = 0 ∷ 0 ∷ [];
    header = 4096;
  };
  key_to_ns_id = record {
    base_region = 4096;
    region = 4128;
    num_buckets = 2;
    max_collisions = 1;
    bitmap = 0 ∷ [];
    buckets = record { off = 0; value = 0 } ∷ record { off = 0; value = 0 } ∷ [];
  };
  private_state = 0 ∷ 4242 ∷ [];
  instances = [];
}

namespace-WellFormed : WellFormed namespace.key_to_ns_id
namespace-WellFormed = record {
  some_bucket = omega arith;
  words = words;
  entries = omega arith;
  places = omega arith;
}
  where
    words : Words (0 ∷ [])
    words zero = omega arith
    words (suc b) = omega arith

add_key-get_example :
    (ns' : Namespace) × (add_key texts (λ mdl. []) namespace 4160 9000 ≡ done (2, ns'))
    × (get_namespace_id texts ns' (97 ∷ 98 ∷ []) ≡ done (some 2))
    × (get_module ns' 2 ≡ some 9000)
    × ((i : ℕ) → i ≢ 2 → get_module ns' i ≡ get_module namespace i)
unfolding hash
add_key-get_example =
    add_key-get texts (λ mdl. []) namespace 4160 9000 0
      (record { unlocked = refl; same = refl; word = omega arith }) (omega arith)
      namespace-WellFormed (omega arith, omega arith, omega arith) (λ e. absurd (omega (arith, e)))
      (record {
        in_table = omega arith;
        in_window = omega arith;
        before = λ j below. absurd (omega (arith, below));
        free = refl;
      })
      (λ e. absurd (omega (arith, e)))

abbrev new_id : ℕ
new_id = 5

register_private-get_example :
    (new_id ≡ 2 → register_private_state namespace new_id 9000 ≡ fault)
    × (new_id ≢ 2
        → (ns' : Namespace) × (register_private_state namespace new_id 9000 ≡ done ns')
          × (get_module ns' new_id ≡ some 9000)
          × ((i : ℕ) → i ≢ new_id → get_module ns' i ≡ get_module namespace i))
register_private-get_example =
    register_private-get namespace new_id 9000 (omega arith) (λ e. absurd (omega (arith, e)))

past_by_one : register_private_state namespace 2 9000 ≡ fault
past_by_one =
    (register_private-get namespace 2 9000 (omega arith) (λ e. absurd (omega (arith, e)))).0 refl

-- two requests are queued, at 1000 and at 1016
abbrev pub pair : QueuePair
pair = record {
  sq = record {
    base_region = 1000;
    header = 1100;
    qid = third;
    update = (0, 0);
    ring = record { enqueued = 5; dequeued = 3; max_depth = 2; queue = 16 ∷ 0 ∷ [] };
  };
  cq = two_buckets;
}

pair-IsValid : IsValid pair.sq.ring
pair-IsValid = record {
  positive = omega arith;
  small = omega arith;
  storage = omega arith;
  enqueued_small = omega arith;
  dequeued_small = omega arith;
  depth_in = omega arith;
  order = inr (omega arith);
}

abbrev machine : ℕ → Machine
machine ns_id = record {
  store = λ rq. record { req_id = rq - 1000; ns_id = ns_id; code = 0; op = 0 };
  pairs = λ a. pair;
  pools = λ pid. some pool;
  namespace = namespace;
}

-- the first request is complete at once, and the second is not
abbrev process : ℕ → ℕ → ℕ → ℕ → Machine → Bool × Machine
process mdl qp rq creds m = (rq == 1000, m)

process-Keeps : Keeps process
process-Keeps = record {
  queues = λ mdl qp rq creds m a. refl;
  same_modules = λ mdl qp rq creds m. refl;
  ns_id = λ mdl qp rq creds m a. refl;
}

qp_loop-Rounds_example :
    (calls : List Processed) × (m' : Machine) × (qp_loop process 2 (machine 1) 100 7 (λ n. [])
      ≡ returned (calls, m'))
    × IsValid (m'.pairs 100).sq.ring
    × Rounds (machine 1) 100 2 (1000 ∷ 1016 ∷ []) calls (pending (m'.pairs 100).sq)
unfolding get_module region_add
qp_loop-Rounds_example =
    qp_loop-Rounds process 2 (machine 1) 100 7 (λ n. []) process-Keeps pair-IsValid
      ((λ e. cc (e)), ((λ e. cc (e)), omega arith))

-- no module has the id 0
missing_stuck_example : qp_loop process 2 (machine 0) 100 7 (λ n. (λ s. s) ∷ []) ≡ spinning
unfolding get_module region_add
missing_stuck_example =
    missing_stuck process 0 (machine 0) 100 1000 (1016 ∷ []) 7 1 (λ n. (λ s. s) ∷ []) pair-IsValid
      refl refl (record { positive = omega arith; storage = omega arith })
      (omega arith, omega arith, omega arith) refl refl
