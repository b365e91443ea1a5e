-- ===== src/Server/IpcManager/Attached.antt =====
-- The server finds the pairs of a client where the client has put them.
use mathlib.Core.Path.{subst}
use native.Mathlib.Nat.{mod-eq_of_lt, mod-lt, mul-le-mul_right, suc-mul}
use labstor.Base.{
  ℕ, zero, suc, ◌+◌, ◌*◌, ◌%◌, ◌^◌, ◌≤◌, ◌<◌, ◌≡◌, refl, ◌∙◌, ◌≢◌, inl, inr, true, false, some,
  List, [], ◌∷◌, ◌++◌, arith, ltb, leb, ◌==◌, if◌then◌else◌, eq→==, Bool-cases, length, get_elem?,
  set, length-append, length-set, get_elem?_of_lt, get_elem?-set_cases, u32_mod, u64_mod, u32, done,
  eq-cases,
}
use labstor.QueuePair
use labstor.QueuePair.{QueuePair, QueuePairPtr}
use labstor.QueuePair.Roundtrip.{attach-get_pointer}
use labstor.Region.{region_add}
use labstor.Request.{Qid}
use labstor.RequestMap
use labstor.RequestQueue
use labstor.WorkQueueSecure
use labstor.WorkQueueSecure.{WorkQueueSecure}
use labstor.Kernel.WorkOrchestrator.{write_pair}
use labstor.Server.QueuePool.{Pool, pairs_of, get_queue_pair, get_queue_pair_by_qid, reserve_queues}
use labstor.Server.QueuePool.Found.{register_pair-get}
use labstor.Server.IpcManager.{
  MemoryConfig, Ipc, Runtime, qp_type, pointers, assign_queue_pair, register_client_round,
  register_client_qp,
}
use labstor.Server.IpcManager.Created.{Placed, unit, write_pair-Placed}
use labstor.Server.Worker.{assign_qp}

-- `n` more pairs fit the queue of a worker.
abbrev pub Spare : ℕ → WorkQueueSecure → Type 0
Spare n w =
    (w.enqueued + n ≤ w.max_depth) × (w.max_depth ≤ length w.queue) × (w.max_depth < u32_mod)

-- `n` more pairs fit the queue of every worker, and there is a worker.
pub record Free (n : ℕ) (workers : List WorkQueueSecure) : Type 0 where
  pub some_worker : 0 < length workers
  pub spare : (j : ℕ) (w : WorkQueueSecure) → get_elem? workers j ≡ some w → Spare n w

-- one more pair in a queue that has room
assign_qp_lem :
    (n : ℕ) (w : WorkQueueSecure) (qp creds : ℕ)
    → Spare (suc n) w
    → (w' : WorkQueueSecure) × (assign_qp w qp creds ≡ done w') × Spare n w'
unfolding assign_qp WorkQueueSecure.enqueue
assign_qp_lem n w qp creds (room, storage, word) =
    let room_left : leb w.max_depth w.enqueued ≡ false = ground arith in
    let inside : ltb w.enqueued (length w.queue) ≡ true = ground arith in
    let queue = set w.queue w.enqueued (record { qp = qp; creds = creds }) in
    let w' : WorkQueueSecure = record w { queue = queue; enqueued = u32 (w.enqueued + 1) } in
    let one : w'.enqueued ≡ w.enqueued + 1 = mod-eq_of_lt (omega (arith, room, word)) in
    let same : length queue ≡ length w.queue = length-set w.queue w.enqueued _ in
    (
      w',
      rw (room_left, inside) refl,
      (omega (arith, one, room), omega (arith, same, storage), word),
    )

-- The pair goes to one worker, and less room is enough for the others.
assign_lem :
    (n : ℕ) (workers : List WorkQueueSecure) (qp creds i : ℕ)
    → Free (suc n) workers
    → (workers' : List WorkQueueSecure) × (assign_queue_pair workers qp creds i ≡ done workers')
      × Free n workers'
unfolding assign_queue_pair
assign_lem n workers qp creds i free =
    let j = i % length workers in
    let there : (length workers == 0) ≡ false = ground (arith, free.some_worker) in
    let lt : j < length workers = mod-lt i free.some_worker in
    let (w, at) = get_elem?_of_lt workers j lt in
    let (w', run, spare) = assign_qp_lem n w qp creds (free.spare j w at) in
    (
      set workers j w',
      rw (there, at, run) refl,
      record {
        some_worker = rw (length-set workers j w') free.some_worker;
        spare = λ k v e. elim (get_elem?-set_cases workers j k w' v e) [
          | inl new ↦ subst (Spare n) new spare
          | inr old ↦
              let (room, storage, word) = free.spare k v old in (omega (arith, room), storage, word)
        ];
      },
    )

-- The pairs of a client, which the server maps at `region`; the server puts the pair of round `i`
-- at `new_qp i`.
module _ (qid_at : ℕ → Qid) (new_qp : ℕ → ℕ) (flags pid : ℕ) (c : MemoryConfig)
    (region off : ℕ) where
  id_of : ℕ → Qid
  id_of i = record { flags = flags; kind = qp_type; cnt = i; pid = pid }

  -- behind `k` rounds
  pub record Known (k : ℕ) (rt : Runtime) : Type 0 where
    pub numbers : List ℕ
    pub there : pairs_of rt.ipc.pool qp_type flags ≡ done numbers
    pub as_many : length numbers ≡ k
    pub mapped_at : rt.ipc.region ≡ region
    pub own : pid ≡ rt.pid
    pub found : (i : ℕ) → i < k → get_queue_pair rt.ipc.pool qp_type flags i ≡ done (new_qp i)
    pub placed : (i : ℕ) → i < k → Placed c (region + off) i (rt.ipc.pairs (new_qp i))

  -- what the server makes of a pointer
  attached : ℕ → QueuePairPtr → Runtime → QueuePair
  attached k ptr rt =
      let qp = QueuePair.attach (rt.ipc.pairs (new_qp k)) ptr rt.ipc.region in
      let sq = qp.sq in record qp { sq = record sq { qid = qid_at sq.header } }

  -- The first round reserves, which changes nothing.
  reserve_lem :
      (k count : ℕ) (pool : Pool) (numbers : List ℕ)
      → pairs_of pool qp_type flags ≡ done numbers
      → (if k == 0 then reserve_queues pool qp_type flags count else done pool) ≡ done pool
  unfolding reserve_queues
  reserve_lem k count pool numbers there = elim (Bool-cases (k == 0)) [
    | inl first ↦ rw (first, there) refl
    | inr later ↦ rw later refl
  ]

  round_step :
      (n k count : ℕ) (creds : ℕ → ℕ) (rt : Runtime) (ptr : QueuePairPtr)
      → ((i j : ℕ) → i ≢ j → new_qp i ≢ new_qp j)
      → region_add ptr.sq_off region ≡ region + off + k * unit c
      → region_add ptr.cq_off region ≡ region + off + k * unit c + c.request_queue_size
      → qid_at (region + off + k * unit c) ≡ id_of k
      → k < 2 ^ 16
      → Free (suc n) rt.workers
      → Known k rt
      → (rt' : Runtime) × (register_client_round qid_at new_qp creds count k ptr rt ≡ done rt')
        × Free n rt'.workers
        × Known (suc k) rt'
  unfolding register_client_round attached QueuePair.attach RequestQueue.attach RequestMap.attach
      reserve_queues get_queue_pair get_queue_pair_by_qid id_of
  round_step n k count creds rt ptr fresh sq_at cq_at id few free known =
      let (pool, run, there, here, kept) =
        register_pair-get rt.ipc.pool (id_of k) (new_qp k) known.numbers known.there known.as_many
          few in
      let (workers, given, free') = assign_lem n rt.workers (new_qp k) (creds pid) k free in
      let ipc = rt.ipc in
      let at : region_add ptr.sq_off ipc.region ≡ region + off + k * unit c =
        rw known.mapped_at sq_at in
      let at' : region_add ptr.cq_off ipc.region
          ≡ region + off + k * unit c + c.request_queue_size =
        rw known.mapped_at cq_at in
      let key : qid_at (region_add ptr.sq_off ipc.region) ≡ id_of k = rw at id in
      let reserved = reserve_lem k count ipc.pool known.numbers known.there in
      let mine : (pid == rt.pid) ≡ true = eq→== pid rt.pid known.own in
      let rt' : Runtime = record rt {
        ipc = record ipc {
          pool = pool;
          pairs = write_pair ipc.pairs (new_qp k) (attached k ptr rt);
        };
        workers = workers;
      } in
      (
        rt',
        rw (key, reserved, mine, run, given) refl,
        free',
        record {
          numbers = known.numbers ++ new_qp k ∷ [];
          there = there;
          as_many = length-append known.numbers (new_qp k ∷ []) ∙ omega (arith, known.as_many);
          mapped_at = known.mapped_at;
          own = known.own;
          found = λ i lt'. elim (eq-cases i k) [
            | inl same ↦ rw same here
            | inr differ ↦
                kept qp_type flags i (new_qp i) (known.found i (omega (arith, lt', differ)))
          ];
          placed = λ i lt'.
              write_pair-Placed c (region + off) k i ipc.pairs new_qp (attached k ptr rt) fresh
                (record { sq_at = at; cq_at = at' }) known.placed lt';
        },
      )

  -- The pointer of a pair that the client has placed, on the side of the server.
  pointer_at :
      (client : Ipc) (k : ℕ) (qp : QueuePair)
      → Placed c (client.region + off) k qp
      → off + k * unit c + unit c < 2 ^ 31
      → client.region + off + k * unit c + unit c < u64_mod
      → region + 2 ^ 31 ≤ u64_mod
      → let ptr = QueuePair.get_pointer qp client.region in
        (region_add ptr.sq_off region ≡ region + off + k * unit c)
        × (region_add ptr.cq_off region ≡ region + off + k * unit c + c.request_queue_size)
  unfolding QueuePair.attach RequestQueue.attach RequestMap.attach
  pointer_at client k qp placed near client_small small =
      let (sq, cq, base, base') =
        attach-get_pointer qp qp client.region region
          (omega (arith, placed.sq_at, near, client_small))
          (omega (arith, placed.cq_at, near, client_small)) small in
      (sq ∙ omega (arith, placed.sq_at), cq ∙ omega (arith, placed.cq_at))

  register_rounds :
      (client : Ipc) (client_qp : ℕ → ℕ) (n k count : ℕ) (creds : ℕ → ℕ) (rt : Runtime)
      → ((i j : ℕ) → i ≢ j → new_qp i ≢ new_qp j)
      → ((i : ℕ) → i < c.num_queues → Placed c (client.region + off) i (client.pairs (client_qp i)))
      → ((i : ℕ) → i < c.num_queues → qid_at (region + off + i * unit c) ≡ id_of i)
      → off + c.num_queues * unit c < 2 ^ 31
      → client.region + off + c.num_queues * unit c < u64_mod
      → region + 2 ^ 31 ≤ u64_mod
      → c.num_queues ≤ 2 ^ 16
      → k + n ≡ c.num_queues
      → Free n rt.workers
      → Known k rt
      → (rt' : Runtime) × (register_client_qp qid_at new_qp creds count k
            (pointers client client_qp n k)
            rt
          ≡ done rt')
        × Known c.num_queues rt'
  unfolding register_client_qp pointers
  register_rounds client client_qp zero k count creds rt fresh placed ids near client_small small
        few total free known =
      let all : k ≡ c.num_queues = omega (arith, total) in
      (rt, refl, subst (λ j. Known j rt) all known)
  register_rounds client client_qp (suc n) k count creds rt fresh placed ids near client_small small
        few total free known =
      let lt : k < c.num_queues = omega (arith, total) in
      let last : k * unit c + unit c ≤ c.num_queues * unit c = omega (
        arith,
        mul-le-mul_right {m = suc k} {n = c.num_queues} (unit c) (omega (arith, lt)),
        suc-mul k (unit c),
      ) in
      let (sq_at, cq_at) =
        pointer_at client k (client.pairs (client_qp k)) (placed k lt) (omega (arith, last, near))
          (omega (arith, last, client_small)) small in
      let (rt₁, run, free₁, known₁) =
        round_step n k count creds rt
          (QueuePair.get_pointer (client.pairs (client_qp k)) client.region) fresh sq_at cq_at
          (ids k lt) (omega (arith, lt, few)) free known in
      let (rt₂, rest, known₂) =
        register_rounds client client_qp n (suc k) count creds rt₁ fresh placed ids near
          client_small small few (omega (arith, total)) free₁ known₁ in
      (rt₂, rw (run, rest) refl, known₂)

-- Where the server registers the process of the pairs, these are at most 2^16 and stand one
-- behind the other from an offset of the region of the client on, within 2 GB of its base and
-- below 2^64, the server maps the region at a base with 2 GB behind it and reads there the ids of
-- the pairs, with that process and their numbers, there is a worker and the queue of every worker
-- has room for all the pairs, the process has an empty vector for the flags of the pairs, and the
-- new objects are at different addresses, RegisterClientQP accepts the pointers that the client
-- sends; then the server finds every pair by its number, at the distances from its base that the
-- pair has in the mapping of the client.
pub register_client_qp-found :
    (qid_at : ℕ → Qid) (new_qp client_qp : ℕ → ℕ) (flags pid off : ℕ) (creds : ℕ → ℕ)
    (c : MemoryConfig) (client : Ipc) (rt : Runtime)
    → pid ≡ rt.pid
    → ((i : ℕ) → i < c.num_queues → Placed c (client.region + off) i (client.pairs (client_qp i)))
    → ((i : ℕ)
        → i < c.num_queues
        → qid_at (rt.ipc.region + off + i * unit c)
          ≡ (record { flags = flags; kind = qp_type; cnt = i; pid = pid }))
    → c.num_queues ≤ 2 ^ 16
    → off + c.num_queues * unit c < 2 ^ 31
    → client.region + off + c.num_queues * unit c < u64_mod
    → rt.ipc.region + 2 ^ 31 ≤ u64_mod
    → Free c.num_queues rt.workers
    → pairs_of rt.ipc.pool qp_type flags ≡ done []
    → ((i j : ℕ) → i ≢ j → new_qp i ≢ new_qp j)
    → (rt' : Runtime) × (register_client_qp qid_at new_qp creds c.num_queues 0
          (pointers client client_qp c.num_queues 0)
          rt
        ≡ done rt')
      × ((i : ℕ)
          → i < c.num_queues
          → (get_queue_pair rt'.ipc.pool qp_type flags i ≡ done (new_qp i))
            × Placed c (rt.ipc.region + off) i (rt'.ipc.pairs (new_qp i)))
unfolding id_of
register_client_qp-found qid_at new_qp client_qp flags pid off creds c client rt own placed ids few
      near client_small small free none_there fresh =
    let known : Known qid_at new_qp flags pid c rt.ipc.region off 0 rt = record {
      numbers = [];
      there = none_there;
      as_many = refl;
      mapped_at = refl;
      own = own;
      found = λ i lt. absurd (omega (arith, lt));
      placed = λ i lt. absurd (omega (arith, lt));
    } in
    let (rt', run, all) =
      register_rounds qid_at new_qp flags pid c rt.ipc.region off client client_qp c.num_queues 0
        c.num_queues creds rt fresh placed ids near client_small small few (omega arith) free
        known in
    (rt', run, λ i lt. (all.found i lt, all.placed i lt))
