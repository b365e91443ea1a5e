-- ===== src/Kernel/WorkOrchestrator.antt =====
-- The kernel workers of labmods/work_orchestrator/kernel/work_orchestrator_kernel.c. A worker runs
-- over the queue pairs of its work queue and gives their requests to the kernel modules; what a
-- module's `process_request_fn` does is code outside of it.
pub mod Commands
pub mod Rounds
pub mod Invalid
pub mod Passes
use labstor.Base.{
  ℕ, zero, suc, ◌+◌, ◌-◌, ◌*◌, ◌/◌, ◌%◌, ◌^◌, ◌≤◌, ◌<◌, ◌≡◌, refl, sym, ap, ap₂, ◌∙◌, ◌≢◌, ◌↔◌, ◌⊎◌,
  inl, inr, Bool, true, false, ◌&&◌, ◌||◌, not, Option, none, some, List, [], ◌∷◌, ◌++◌, arith, ltb,
  leb, ◌==◌, if◌then◌else◌, ==→eq, eq→==, Bool-cases, Option-cases, List-cases, length, get_elem?,
  get_or, set, replicate, length-append, length-set, length-replicate, get_elem?-eq-get_or,
  get_or-set_self, get_or-set_ne, get_or-replicate, get_elem?_of_lt, get_elem?-set_self,
  get_elem?-set_ne, get_elem?-set_cases, get_elem?-append_left, get_elem?-append_last, u32_mod,
  u64_mod, u32, sub32, sub64, mod-ne_of_near, Call, done, refused, fault, ◌>>=◌, map_call,
  in_bounds, along_some,
}
use labstor.Request.{Store, set_code}
use labstor.Region.{sign_extend}
use labstor.QueuePair
use labstor.QueuePair.{QueuePair, QueuePairPtr}
use labstor.RequestQueue
use labstor.WorkQueue
use labstor.WorkQueue.{WorkQueue}
use labstor.Spin.{Spun, returned, spinning, crashed}
use labstor.Kernel.ModuleManager.{Module, Modules, get_labstor_module_by_runtime_id}

pub record Worker : Type 0 where
  pub worker_task : ℕ
  pub work_queue : WorkQueue
  pub complete_ack : Bool
  pub worker_id : ℕ

-- what the workers share: the requests and the queue pairs by their addresses, and the modules
pub record Machine : Type 0 where
  pub store : Store
  pub pairs : ℕ → QueuePair
  pub modules : Modules

abbrev pub write_pair : (ℕ → QueuePair) → ℕ → QueuePair → ℕ → QueuePair
write_pair pairs qp v a = if qp == a then v else pairs a

abbrev pub shared_at : Machine → ℕ → QueuePair.Shared
shared_at m qp = record { store = m.store; qp = m.pairs qp }

abbrev pub put_back : Machine → ℕ → QueuePair.Shared → Machine
put_back m qp s = record m { store = s.store; pairs = write_pair m.pairs qp s.qp }

-- the bit pattern of `LABSTOR_REQUEST_FAILED`, -1000
abbrev pub request_failed : ℕ
request_failed = u32_mod - 1000

-- the rounds of a loop with an `int` up to a 32-bit pattern
abbrev pub int_rounds : ℕ → ℕ
int_rounds n = if ltb n (2 ^ 31) then n else 0

abbrev pub map_spun : {A B : Type 0} → (A → B) → Spun A → Spun B
map_spun f (returned a) = returned (f a)
map_spun f spinning = spinning
map_spun f crashed = crashed

-- What other threads do to a pair while a request is completed.
abbrev pub Others : Type 0
Others = List (QueuePair.Shared → QueuePair.Shared)

-- `CompleteQuick` returns true, or never.
unfoldable pub complete_invalid_request : Machine → ℕ → ℕ → Others → Spun Machine
complete_invalid_request m qp rq others = map_spun (put_back m qp) (
    QueuePair.complete_quick
      (record { store = set_code m.store rq request_failed; qp = m.pairs qp }) rq rq others)

-- what became of a request
pub data Served : Type 0 where
  process_request_fn : (handler qp rq : ℕ) → Served
  invalid : (qp rq : ℕ) → Served

-- what a loop has served, oldest first, and the state; `none` is the return of -1
abbrev pub Round : Type 0
Round = Option (List Served × Machine)

abbrev pub served_first : List Served → Round → Round
served_first first none = none
served_first first (some (rest, m)) = some (first ++ rest, m)

-- `qp_depth`
abbrev pub qp_rounds : Machine → ℕ → ℕ
qp_rounds m qp = int_rounds (QueuePair.get_depth (m.pairs qp))

module _ (process : ℕ → ℕ → ℕ → Machine → Machine) where
  -- the body of the loop over a pair, behind `Dequeue`
  unfoldable pub serve : Option Module → Machine → ℕ → ℕ → Others → Spun (Served × Machine)
  serve none m qp rq others =
      map_spun (λ m'. (invalid qp rq, m')) (complete_invalid_request m qp rq others)
  serve (some pkg) m qp rq others = elim pkg.process_request_fn [
    | none ↦ map_spun (λ m'. (invalid qp rq, m')) (complete_invalid_request m qp rq others)
    | some handler ↦ returned (process_request_fn handler qp rq, process handler qp rq m)
  ]

  -- The loop over `qp_depth` requests; `others` says what happens during the completion with so
  -- many rounds left.
  unfoldable pub qp_loop : ℕ → Machine → ℕ → (ℕ → Others) → Spun Round
  qp_loop zero m qp others = returned (some ([], m))
  qp_loop (suc n) m qp others =
      if (m.pairs qp).sq.base_region == 0
      then returned none
      else elim (QueuePair.dequeue (shared_at m qp)) [
        | done p ↦
            let m₁ = put_back m qp p.1 in
            let pkg = get_labstor_module_by_runtime_id m₁.modules (m₁.store p.0).ns_id in
            elim (serve pkg m₁ qp p.0 (others n)) [
              | returned q ↦ map_spun (served_first (q.0 ∷ [])) (qp_loop n q.1 qp others)
              | spinning ↦ spinning
              | crashed ↦ crashed
            ]
        | refused ↦ returned (some ([], m))
        | fault ↦ crashed
      ]

  -- the loop over the work queue, from its `i`-th pair on
  unfoldable pub work_loop : ℕ → ℕ → WorkQueue → Machine → (ℕ → ℕ → Others) → Spun Round
  work_loop zero i w m others = returned (some ([], m))
  work_loop (suc n) i w m others = elim (WorkQueue.peek w i) [
    | done qp ↦ elim (qp_loop (qp_rounds m qp) m qp (others i)) [
      | returned none ↦ returned none
      | returned (some (first, m')) ↦
          map_spun (served_first first) (work_loop n (suc i) w m' others)
      | spinning ↦ spinning
      | crashed ↦ crashed
    ]
    | refused ↦ returned (some ([], m))
    | fault ↦ crashed
  ]

  -- one pass of the loop of `worker_runtime`
  unfoldable pub worker_pass : WorkQueue → Machine → (ℕ → ℕ → Others) → Spun Round
  worker_pass w m others = work_loop (int_rounds (WorkQueue.get_depth w)) 0 w m others

  -- `worker_runtime`: a pass for each entry of the list, which is what the others do at the yield
  -- behind it; `keep_running` is false when the list ends. `initialized` is
  -- `ipc_manager_IsInitialized()`.
  unfoldable pub running :
      Worker
      → Machine
      → (ℕ → ℕ → Others)
      → List (Worker × Machine → Worker × Machine)
      → Spun (Option (List Served × Worker × Machine))
  running worker m others [] = returned (some ([], record worker { complete_ack = true }, m))
  running worker m others (turn ∷ turns) = elim (worker_pass worker.work_queue m others) [
    | returned none ↦ returned none
    | returned (some (first, m')) ↦
        let p = turn (worker, m') in
        map_spun (λ end. elim end [ none ↦ none | some q ↦ some (first ++ q.0, q.1, q.2) ])
          (running p.0 p.1 others turns)
    | spinning ↦ spinning
    | crashed ↦ crashed
  ]

  unfoldable pub worker_runtime :
      Bool
      → Worker
      → Machine
      → (ℕ → ℕ → Others)
      → List (Worker × Machine → Worker × Machine)
      → Spun (Option (List Served × Worker × Machine))
  worker_runtime initialized worker m others turns =
      if initialized then running worker m others turns else returned none
