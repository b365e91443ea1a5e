-- ===== src/Kernel/WorkOrchestrator/Commands.antt =====
-- The commands that reach labmods/work_orchestrator/kernel/work_orchestrator_kernel.c by netlink.
use labstor.Base.{
  ℕ, zero, suc, ◌+◌, ◌-◌, ◌/◌, ◌%◌, Bool, true, false, not, Option, none, some, List, [], ◌∷◌, ◌==◌,
  if◌then◌else◌, get_elem?, set, u64_mod, u32, Call, done, refused, fault, ◌>>=◌, in_bounds,
}
use labstor.Region.{sign_extend}
use labstor.QueuePair
use labstor.QueuePair.{QueuePair, QueuePairPtr, queue_pair_size}
use labstor.WorkQueue
use labstor.WorkQueue.{WorkQueue}
use labstor.Kernel.WorkOrchestrator.{Worker, int_rounds, write_pair}

-- The variables of the module; `workers` is the array, and `pairs` the queue pairs by their
-- addresses.
pub record Orchestrator : Type 0 where
  pub workers : List Worker
  pub num_workers : ℕ
  pub shmem_region_id : ℕ
  pub shmem_region : ℕ
  pub pairs : ℕ → QueuePair

-- `labstor_assign_qp_request`
pub record AssignQp : Type 0 where
  pub qp_ptr : QueuePairPtr
  pub worker_id : ℕ

-- The requests by their `op_`; an `int` is given by its 32-bit pattern.
pub data Req : Type 0 where
  spawn_workers_op : (num_workers region_id region_size : ℕ) → Req
  set_worker_affinity_op : (worker_id cpu_id : ℕ) → Req
  assign_qp_op : List AssignQp → Req
  pause_worker_op : Req
  resume_worker_op : Req
  other_op : Req

-- The calls of the kernel: `task i` is the task that `kthread_create` makes for worker `i`,
-- `kvmalloc` tells whether there is memory for so many workers, and `found a` is what stands at the
-- address `a` as a work queue.
pub record KernelCalls : Type 0 where
  pub task : ℕ → ℕ
  pub kvmalloc : ℕ → Bool
  pub found : ℕ → WorkQueue

-- the loop of `spawn_workers`, from worker `i` on; the result of the queue's `Init` is dropped
unfoldable pub spawn_loop : KernelCalls → ℕ → ℕ → ℕ → ℕ → List Worker
spawn_loop k zero i region size = []
spawn_loop k (suc n) i region size =
    let work_queue = (WorkQueue.init (k.found region) region size 0).1 in
    record { worker_task = k.task i; work_queue = work_queue; complete_ack = false; worker_id = i }
    ∷ spawn_loop k n (suc i) (WorkQueue.get_next_section work_queue) size

-- `region` is what `labstor_find_shmem_region` gives, `none` for `NULL`, which the first worker's
-- queue would be written to.
unfoldable pub spawn_workers :
    KernelCalls → Orchestrator → ℕ → ℕ → ℕ → Option ℕ → Call (Bool × Orchestrator)
spawn_workers k o num_workers region_id region_size region =
    let started = record o { num_workers = num_workers } in
    let rounds = int_rounds num_workers in
    if num_workers == 0
    then fault
    else if not (k.kvmalloc num_workers)
    then done (false, record started { workers = [] })
    else elim region [
      | none ↦
          if rounds == 0
          then done
              (true, record started { workers = []; shmem_region_id = region_id; shmem_region = 0 })
          else fault
      | some at ↦ done (
        true,
        record started {
          workers = spawn_loop k rounds 0 at (u32 region_size / num_workers);
          shmem_region_id = region_id;
          shmem_region = at;
        },
      )
    ]

-- `LABSTOR_REGION_ADD(rq->qp_ptr_.sq_off_ - sizeof(struct labstor_queue_pair), region)`
unfoldable pub qp_address : ℕ → QueuePairPtr → ℕ
qp_address region ptr = (region + sign_extend ptr.sq_off + (u64_mod - queue_pair_size)) % u64_mod

-- The result of `Enqueue` is dropped.
abbrev pub kept : WorkQueue → Call WorkQueue → Call WorkQueue
kept w (done w') = done w'
kept w refused = done w
kept w fault = fault

-- the body of the loop of `register_qp`; the worker's id is not tested
unfoldable pub assign_qp : ℕ → Orchestrator → AssignQp → Call Orchestrator
assign_qp region o rq =
    let qp = qp_address region rq.qp_ptr in
    in_bounds (get_elem? o.workers rq.worker_id) >>= λ worker.
    kept worker.work_queue (WorkQueue.enqueue worker.work_queue qp) >>= λ work_queue.
    done (record o {
      workers = set o.workers rq.worker_id (record worker { work_queue = work_queue });
      pairs = write_pair o.pairs qp (QueuePair.attach (o.pairs qp) rq.qp_ptr region);
    })

unfoldable pub assign_all : ℕ → Orchestrator → List AssignQp → Call Orchestrator
assign_all region o [] = done o
assign_all region o (rq ∷ rqs) = assign_qp region o rq >>= λ o'. assign_all region o' rqs

-- `region` is the region of the IPC manager, if it is initialised. Its return of -1 as a `bool` is
-- `true`.
unfoldable pub register_qp : Option ℕ → Orchestrator → List AssignQp → Call (Bool × Orchestrator)
register_qp none o rqs = done (true, o)
register_qp (some region) o rqs = assign_all region o rqs >>= λ o'. done (true, o')

-- The task that is bound to `cpu_id` and woken up; the worker's id is not tested.
unfoldable pub set_worker_affinity : Orchestrator → ℕ → Call ℕ
set_worker_affinity o worker_id =
    in_bounds (get_elem? o.workers worker_id) >>= λ worker. done worker.worker_task

-- the loop of `check_if_workers_stopped`
unfoldable pub all_stopped : List Worker → ℕ → Call Bool
all_stopped workers zero = done true
all_stopped [] (suc n) = fault
all_stopped (worker ∷ workers) (suc n) =
    let rest = all_stopped workers n in if not worker.complete_ack then done false else rest

unfoldable pub check_if_workers_stopped : Orchestrator → Call Bool
check_if_workers_stopped o = all_stopped o.workers (int_rounds o.num_workers)

-- what a request is answered by, and the task that `set_worker_affinity` binds and wakes
pub record Reply : Type 0 where
  pub code : Option ℕ
  pub bound : Option ℕ

abbrev pub code_of : Bool → Reply
code_of b = record { code = some (if b then 1 else 0); bound = none }

-- `regions` is `labstor_find_shmem_region`, and `region` that of the IPC manager.
unfoldable pub worker_process_request_fn_netlink :
    KernelCalls → (ℕ → Option ℕ) → Option ℕ → Orchestrator → Req → Call (Reply × Orchestrator)
worker_process_request_fn_netlink k regions region o
      (spawn_workers_op num_workers region_id region_size) =
    spawn_workers k o num_workers region_id region_size (regions region_id) >>= λ p.
    done (code_of p.0, p.1)
worker_process_request_fn_netlink k regions region o (assign_qp_op rqs) =
    register_qp region o rqs >>= λ p. done (code_of p.0, p.1)
worker_process_request_fn_netlink k regions region o (set_worker_affinity_op worker_id cpu_id) =
    set_worker_affinity o worker_id >>= λ task.
    done (record { code = some 0; bound = some task }, o)
worker_process_request_fn_netlink k regions region o pause_worker_op = done (code_of false, o)
worker_process_request_fn_netlink k regions region o resume_worker_op = done (code_of false, o)
worker_process_request_fn_netlink k regions region o other_op =
    done (record { code = none; bound = none }, o)
