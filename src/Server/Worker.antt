-- ===== src/Server/Worker.antt =====
-- The workers of the userspace server: src/userspace/server/worker.cpp and
-- include/labstor/userspace/server/worker.h. What a module's `ProcessRequest` does is code of the
-- module, a parameter.
pub mod Rounds
pub mod Pass
pub mod Missing
use labstor.Base.{
  ℕ, zero, suc, ◌+◌, ◌-◌, ◌*◌, ◌/◌, ◌%◌, ◌^◌, ◌≤◌, ◌<◌, ◌≡◌, refl, sym, ap, ap₂, ◌∙◌, ◌≢◌, ◌↔◌, ◌⊎◌,
  inl, inr, Bool, true, false, ◌&&◌, ◌||◌, not, Option, none, some, List, [], ◌∷◌, ◌++◌, arith, ltb,
  leb, ◌==◌, if◌then◌else◌, ==→eq, eq→==, Bool-cases, Option-cases, List-cases, length, get_elem?,
  get_or, set, replicate, length-append, length-set, length-replicate, get_elem?-eq-get_or,
  get_or-set_self, get_or-set_ne, get_or-replicate, get_elem?_of_lt, get_elem?-set_self,
  get_elem?-set_ne, get_elem?-set_cases, get_elem?-append_left, get_elem?-append_last, u32_mod,
  u64_mod, u32, sub32, sub64, mod-ne_of_near, Call, done, refused, fault, ◌>>=◌, map_call,
  in_bounds, along_some, bind-done, eq-cases, lt_of_get_elem?, get_or_of_get_elem?,
  get_elem?-append_ne,
}
use labstor.QueuePair
use labstor.QueuePair.{QueuePair}
use labstor.Request.{Qid, Store, set_code}
use labstor.Spin.{Spun, returned, spinning, crashed}
use labstor.WorkQueueSecure
use labstor.WorkQueueSecure.{WorkQueueSecure, Entry}
use labstor.Kernel.WorkOrchestrator.{write_pair, map_spun, Others}
use labstor.Server.Namespace.{Namespace, get_module}
use labstor.Server.QueuePool.{Pool, get_queue_pair_by_qid}

-- what the worker works on: the requests and the pairs by their addresses, the pools by the
-- processes' ids, with `none` for a null pointer, and the namespace of the server
pub record Machine : Type 0 where
  pub store : Store
  pub pairs : ℕ → QueuePair
  pub pools : ℕ → Option Pool
  pub namespace : Namespace

abbrev pub shared_at : Machine → ℕ → QueuePair.Shared
shared_at m qp = record { store = m.store; qp = m.pairs qp }

abbrev pub put_back : Machine → ℕ → QueuePair.Shared → Machine
put_back m qp s = record m { store = s.store; pairs = write_pair m.pairs qp s.qp }

-- a call of ProcessRequest that was made: the module, the pair, the request, and the answer
pub record Processed : Type 0 where
  pub mdl : ℕ
  pub qp : ℕ
  pub rq : ℕ
  pub is_complete : Bool

abbrev pub also : List Processed → Spun (List Processed × Machine) → Spun (List Processed × Machine)
also first (returned p) = returned (first ++ p.0, p.1)
also first spinning = spinning
also first crashed = crashed

-- the bit pattern of -1
abbrev pub no_module : ℕ
no_module = u32_mod - 1

-- `Init` of the queue over the worker's own memory, which holds `w` before
unfoldable pub new_worker : WorkQueueSecure → ℕ → ℕ → Bool × WorkQueueSecure
new_worker w region depth =
    WorkQueueSecure.init w region (WorkQueueSecure.get_size_global depth) depth

-- `refused` is the exception FAILED_TO_ASSIGN_QUEUE.
unfoldable pub assign_qp : WorkQueueSecure → ℕ → ℕ → Call WorkQueueSecure
assign_qp w qp creds = WorkQueueSecure.enqueue w qp creds

unfoldable pub get_queue_depth : WorkQueueSecure → ℕ
get_queue_depth w = WorkQueueSecure.get_depth w

-- `rq->SetCode(-1)` and `qp->Complete(rq)`, where the namespace has no module
unfoldable pub answer_missing : Machine → ℕ → ℕ → Others → Spun Machine
answer_missing m qp rq others = map_spun (put_back m qp) (
    QueuePair.complete_inf (record { store = set_code m.store rq no_module; qp = m.pairs qp }) rq
      others)

-- `Dequeue` behind a request that is complete; that it is refused is not tested
unfoldable pub drop_head : Machine → ℕ → Call Machine
drop_head m qp = elim (QueuePair.dequeue (shared_at m qp)) [
  | done p ↦ done (put_back m qp p.1)
  | refused ↦ done m
  | fault ↦ fault
]

-- `process mdl qp rq creds` is `ProcessRequest`.
module _ (process : ℕ → ℕ → ℕ → ℕ → Machine → Bool × Machine) where
  -- The rounds over a pair; `others` says what happens during the completion with so many rounds
  -- left.
  unfoldable pub qp_loop : ℕ → Machine → ℕ → ℕ → (ℕ → Others) → Spun (List Processed × Machine)
  qp_loop zero m qp creds others = returned ([], m)
  qp_loop (suc n) m qp creds others = elim (QueuePair.peek (shared_at m qp) 0) [
    | refused ↦ returned ([], m)
    | fault ↦ crashed
    | done rq ↦ elim (get_module m.namespace (m.store rq).ns_id) [
      | none ↦ elim (answer_missing m qp rq (others n)) [
        | returned m' ↦ qp_loop n m' qp creds others
        | spinning ↦ spinning
        | crashed ↦ crashed
      ]
      | some mdl ↦
          let (is_complete, m') = process mdl qp rq creds m in
          let call : List Processed =
            record { mdl = mdl; qp = qp; rq = rq; is_complete = is_complete } ∷ [] in
          elim is_complete [
            | false ↦ returned (call, m')
            | true ↦ elim (drop_head m' qp) [
              | done m'' ↦ also call (qp_loop n m'' qp creds others)
              | refused ↦ crashed
              | fault ↦ crashed
            ]
          ]
    ]
  ]

  -- one pair: the pair of the entry's id in the pool of the process that the id names, and as many
  -- rounds as it is deep; `none` is the exception
  unfoldable pub entry_pass :
      Machine → Entry → (ℕ → Others) → Option (Spun (List Processed × Machine))
  entry_pass m entry others =
      let qid = (m.pairs entry.qp).sq.qid in
      elim (m.pools qid.pid) [
        | none ↦ some crashed
        | some pool ↦ elim (get_queue_pair_by_qid pool qid) [
          | done qp ↦ some (qp_loop (QueuePair.get_depth (m.pairs qp)) m qp entry.creds others)
          | refused ↦ none
          | fault ↦ some crashed
        ]
      ]

  -- The `n` pairs of the work queue from `i` on. An exception ends the pass.
  unfoldable pub work_loop :
      ℕ → ℕ → Machine → WorkQueueSecure → (ℕ → ℕ → Others) → Spun (List Processed × Machine)
  work_loop zero i m w others = returned ([], m)
  work_loop (suc n) i m w others = elim (WorkQueueSecure.peek w i) [
    | refused ↦ returned ([], m)
    | fault ↦ crashed
    | done entry ↦ elim (entry_pass m entry (others n)) [
      | none ↦ returned ([], m)
      | some crashed ↦ crashed
      | some spinning ↦ spinning
      | some (returned p) ↦ also p.0 (work_loop n (i + 1) p.1 w others)
    ]
  ]

  unfoldable pub do_work :
      Machine → WorkQueueSecure → (ℕ → ℕ → Others) → Spun (List Processed × Machine)
  unfolding work_loop
  do_work m w others = work_loop (WorkQueueSecure.get_depth w) 0 m w others
