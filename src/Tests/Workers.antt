-- ===== src/Tests/Workers.antt =====
-- A kernel worker at concrete inputs.
use labstor.Base.{ℕ, zero, suc, ◌-◌, ◌≡◌, refl, none, some, [], ◌∷◌, arith, get_elem?}
use labstor.QueuePair
use labstor.QueuePair.{QueuePair}
use labstor.Region.{region_add}
use labstor.Request.{set_code}
use labstor.Ring
use labstor.RequestQueue.Pointers.{pending}
use labstor.Spin.{returned}
use labstor.Tests.Maps.{two_buckets}
use labstor.WorkQueue.{WorkQueue}
use labstor.Kernel.ModuleManager.{Modules, get_labstor_module_by_runtime_id}
use labstor.Kernel.WorkOrchestrator.{
  Machine, process_request_fn, invalid, shared_at, request_failed, serve, worker_pass,
}
use labstor.Kernel.WorkOrchestrator.Rounds.{Keeps, Ready}
use labstor.Kernel.WorkOrchestrator.Passes.{worker_pass-calls}
use labstor.Kernel.WorkOrchestrator.Invalid.{invalid-wait}

-- the module with the id 3, whose worker function is at 9000
abbrev table : Modules
table =
    none
    ∷ none
    ∷ none
    ∷ some (record {
      module_id = 1;
      runtime_id = 3;
      process_request_fn = some 9000;
      process_request_fn_netlink = none;
    })
    ∷ []

-- two requests are queued, at 1000 and at 1016
abbrev pair : QueuePair
pair = record {
  sq = record {
    base_region = 1000;
    header = 1100;
    qid = record { flags = 1; kind = 0; cnt = 2; pid = 77 };
    update = (0, 0);
    ring = record { enqueued = 5; dequeued = 3; max_depth = 2; queue = 16 ∷ 0 ∷ [] };
  };
  cq = two_buckets;
}

abbrev machine : ℕ → Machine
machine ns_id = record {
  store = λ rq. record { req_id = rq - 1000; ns_id = ns_id; code = 0; op = 0 };
  pairs = λ a. pair;
  modules = table;
}

abbrev work : WorkQueue
work = record {
  enqueued = 2;
  max_depth = 2;
  plug = (0, 0);
  queue = 4096 ∷ 8192 ∷ [];
  header = 9000;
}

-- a worker function that answers a request by 7
abbrev answer : ℕ → ℕ → ℕ → Machine → Machine
answer handler qp rq m = record m { store = set_code m.store rq 7 }

answer-Keeps : Keeps answer
answer-Keeps = record {
  queues = λ h qp rq m a. refl;
  same_modules = λ h qp rq m. refl;
  ns_id = λ h qp rq m a. ground arith;
}

pair-Ready : (qp : ℕ) → Ready (machine 3) qp
unfolding QueuePair.get_depth Ring.get_depth region_add get_labstor_module_by_runtime_id
pair-Ready qp = record {
  ring_valid = ground arith;
  based = λ e. absurd (omega (arith, e));
  few = omega arith;
  handled = (λ e. absurd (cc (e)), (λ e. absurd (cc (e)), omega arith));
}

two_pairs : {qp : ℕ} → some 4096 ≡ some qp → some 8192 ≡ some qp → ⊥
two_pairs {qp} at at' =
    let first : 4096 ≡ qp = cc (at) in
    let second : 8192 ≡ qp = cc (at') in absurd (omega (arith, first, second))

once : (j k qp : ℕ) → get_elem? work.queue j ≡ some qp → get_elem? work.queue k ≡ some qp → j ≡ k
once zero zero qp at at' = refl
once zero (suc zero) qp at at' = absurd (two_pairs at at')
once (suc zero) zero qp at at' = absurd (two_pairs at' at)
once (suc zero) (suc zero) qp at at' = refl
once zero (suc (suc k)) qp at at' = absurd (cc (at'))
once (suc zero) (suc (suc k)) qp at at' = absurd (cc (at'))
once (suc (suc j)) k qp at at' = absurd (cc (at))

worker_pass-calls_example :
    (m' : Machine) × (worker_pass answer work (machine 3) (λ i n. [])
      ≡ returned (
          some (
            process_request_fn 9000 4096 1000
                ∷ process_request_fn 9000 4096 1016
                ∷ process_request_fn 9000 8192 1000
                ∷ process_request_fn 9000 8192 1016
                ∷ [],
            m',
          )))
    × ((j qp : ℕ) → get_elem? work.queue j ≡ some qp → pending (m'.pairs qp).sq ≡ [])
unfolding region_add get_labstor_module_by_runtime_id
worker_pass-calls_example =
    worker_pass-calls answer work (λ i n. []) (machine 3) answer-Keeps
      (record { within = omega arith; storage = omega arith; small = omega arith }) (omega arith)
      (λ j qp at. pair-Ready qp) once

-- no module has the id 2
invalid-wait_example :
    (m' : Machine) × (s : QueuePair.Shared) × (serve answer none (machine 2) 4096 1016 []
      ≡ returned (invalid 4096 1016, m'))
    × (QueuePair.wait (shared_at m' 4096) 16 [] ≡ returned (1016, s))
    × ((s.store 1016).code ≡ request_failed)
    × ((m'.pairs 4096).sq ≡ pair.sq)
unfolding get_labstor_module_by_runtime_id
invalid-wait_example =
    invalid-wait answer (machine 2) 4096 1016 [] []
      (record { positive = omega arith; storage = omega arith })
      (omega arith, omega arith, omega arith) refl refl
