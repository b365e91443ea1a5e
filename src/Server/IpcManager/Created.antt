-- ===== src/Server/IpcManager/Created.antt =====
-- The pairs that a process has created: each is found by its number, and each stands at its own
-- place in the memory of the queues.
use mathlib.Core.Path.{subst}
use native.Mathlib.Nat.{mod-eq_of_lt, mul-add, mul-le-mul_right, suc-mul, zero-mul}
use labstor.Base.{
  ℕ, zero, suc, ◌+◌, ◌*◌, ◌%◌, ◌^◌, ◌≤◌, ◌<◌, ◌≡◌, refl, sym, ap, ◌∙◌, ◌≢◌, inl, inr, true, false,
  List, [], ◌∷◌, ◌++◌, arith, ◌==◌, eq→==, length, length-append, u32_mod, u64_mod, u32, sub32,
  done, eq-cases,
}
use labstor.Region.{region_add}
use labstor.QueuePair
use labstor.QueuePair.{QueuePair}
use labstor.Request.{Qid}
use labstor.RequestMap
use labstor.RequestMap.{RequestMap}
use labstor.RequestQueue
use labstor.Ring
use labstor.SegmentAlloc
use labstor.SegmentAlloc.{SegmentAlloc}
use labstor.Kernel.WorkOrchestrator.{write_pair}
use labstor.Server.QueuePool.{
  Pool, pairs_of, get_qid, register_queue_pair, get_queue_pair, get_queue_pair_by_qid,
  reserve_queues,
}
use labstor.Server.QueuePool.Found.{register_pair-get}
use labstor.Server.IpcManager.{
  MemoryConfig, Ipc, qp_type, create_queue, create_loop, create_queues, Settings,
  load_memory_config, queue_alloc, user_init,
}
use labstor.Server.IpcManager.Config.{
  pair_bytes, sizes_at_least, region_size_lt, load_memory_config-parts,
}

init_at :
    (qp : QueuePair) (qid : Qid) (base depth sq_region sq_size cq_region cq_size : ℕ)
    → let made = QueuePair.init qp qid base depth sq_region sq_size cq_region cq_size in
      (made.sq.header ≡ sq_region) × (made.cq.header ≡ cq_region)
unfolding QueuePair.init RequestQueue.init RequestMap.init
init_at qp qid base depth sq_region sq_size cq_region cq_size = (refl, ground arith)

-- the bytes of a queue and its map
abbrev pub unit : MemoryConfig → ℕ
unit c = c.request_queue_size + c.request_map_size

-- where pair `i` stands, in the memory from `start` on
pub record Placed (c : MemoryConfig) (start i : ℕ) (qp : QueuePair) : Type 0 where
  pub sq_at : qp.sq.header ≡ start + i * unit c
  pub cq_at : qp.cq.header ≡ start + i * unit c + c.request_queue_size

-- the pairs behind a further one
pub write_pair-Placed :
    (c : MemoryConfig) (start k i : ℕ) (pairs : ℕ → QueuePair) (new_qp : ℕ → ℕ) (v : QueuePair)
    → ((i j : ℕ) → i ≢ j → new_qp i ≢ new_qp j)
    → Placed c start k v
    → ((i : ℕ) → i < k → Placed c start i (pairs (new_qp i)))
    → i < suc k
    → Placed c start i (write_pair pairs (new_qp k) v (new_qp i))
write_pair-Placed c start k i pairs new_qp v fresh new old lt = elim (eq-cases i k) [
  | inl same ↦
      let hit : (new_qp k == new_qp i) ≡ true =
        eq→== (new_qp k) (new_qp i) (ap new_qp (sym same)) in
      rw (hit, same) new
  | inr differ ↦
      let other = fresh i k differ in
      let miss : (new_qp k == new_qp i) ≡ false = ground arith in
      rw miss (old i (omega (arith, lt, differ)))
]

-- memory for `num_queues` pairs, which 32 bits count and 64 bits address
pub record Room (c : MemoryConfig) (start : ℕ) : Type 0 where
  pub entries : 0 < c.num_queues → (28 ≤ c.request_queue_size) × (8 ≤ c.request_map_size)
  pub counted : c.num_queues * unit c < u32_mod
  pub addressed : start + c.num_queues * unit c < u64_mod
  pub few : c.num_queues ≤ 2 ^ 16

before_last :
    (c : MemoryConfig) (start k : ℕ)
    → Room c start
    → k < c.num_queues
    → k * unit c + unit c ≤ c.num_queues * unit c
before_last c start k room lt = omega (
  arith,
  mul-le-mul_right {m = suc k} {n = c.num_queues} (unit c) (omega (arith, lt)),
  suc-mul k (unit c),
)

module _ (blank : ℕ → QueuePair) (new_qp : ℕ → ℕ) (flags pid : ℕ) (c : MemoryConfig)
    (start : ℕ) where
  -- behind `k` rounds
  pub record Made (k : ℕ) (ipc : Ipc) : Type 0 where
    pub numbers : List ℕ
    pub there : pairs_of ipc.pool qp_type flags ≡ done numbers
    pub as_many : length numbers ≡ k
    pub start_at : ipc.qp_alloc.region ≡ start
    pub next_at : ipc.qp_alloc.offset ≡ k * unit c
    pub found : (i : ℕ) → i < k → get_queue_pair ipc.pool qp_type flags i ≡ done (new_qp i)
    pub placed : (i : ℕ) → i < k → Placed c start i (ipc.pairs (new_qp i))

  -- the pair of round `k`, at its two addresses
  made_pair : ℕ → Ipc → QueuePair
  made_pair k ipc =
      QueuePair.init (blank k) (record { flags = flags; kind = qp_type; cnt = k; pid = pid })
        ipc.region 0 (start + k * unit c) c.request_queue_size
        (start + (k * unit c + c.request_queue_size)) c.request_map_size

  -- The sizes are enough for both `Init`.
  user_init_lem :
      (qp : QueuePair) (qid : Qid) (base sq_region cq_region k : ℕ)
      → Room c start
      → k < c.num_queues
      → user_init qp qid base sq_region c.request_queue_size cq_region c.request_map_size
        ≡ done (
            QueuePair.init qp qid base 0 sq_region c.request_queue_size cq_region
              c.request_map_size)
  unfolding user_init Ring.init RequestMap.init
  user_init_lem qp qid base sq_region cq_region k room lt =
      let (queue, map) = room.entries (omega (arith, lt)) in
      let last = before_last c start k room lt in
      let small : unit c < u32_mod = omega (arith, last, room.counted) in
      let size : c.request_queue_size < u32_mod = omega (arith, small) in
      let size' : c.request_map_size < u32_mod = omega (arith, small) in
      let ring : (Ring.init qp.sq.ring (sub32 c.request_queue_size 12) 0).0 ≡ true =
        ground (arith, queue, size) in
      let buckets : (RequestMap.init qp.cq base cq_region c.request_map_size 0).0 ≡ true =
        ground (arith, map, size') in
      rw (user_init, ring, buckets) refl

  create_run :
      (k : ℕ) (ipc : Ipc) (pool : Pool)
      → Room c start
      → k < c.num_queues
      → ipc.qp_alloc.region ≡ start
      → ipc.qp_alloc.offset ≡ k * unit c
      → register_queue_pair ipc.pool
          (record { flags = flags; kind = qp_type; cnt = k; pid = pid })
          (new_qp k)
        ≡ done pool
      → create_queue blank new_qp flags pid c k ipc
        ≡ done (record ipc {
          pool = pool;
          qp_alloc = let al = ipc.qp_alloc in record al { offset = k * unit c + unit c };
          pairs = write_pair ipc.pairs (new_qp k) (made_pair k ipc);
        })
  unfolding create_queue get_qid SegmentAlloc.alloc made_pair
  create_run k ipc pool room lt at_start at_next run =
      let last = before_last c start k room lt in
      let some_queue : (c.num_queues == 0) ≡ false = ground (arith, lt) in
      let small : k % c.num_queues ≡ k = mod-eq_of_lt lt in
      let cnt : k % 2 ^ 16 ≡ k = mod-eq_of_lt (omega (arith, lt, room.few)) in
      let o₁ : u32 (k * unit c + c.request_queue_size) ≡ k * unit c + c.request_queue_size =
        mod-eq_of_lt (omega (arith, last, room.counted)) in
      let o₂ : u32 (k * unit c + c.request_queue_size + c.request_map_size) ≡ k * unit c + unit c =
        mod-eq_of_lt (omega (arith, last, room.counted)) ∙ omega arith in
      let a₁ : (start + k * unit c) % u64_mod ≡ start + k * unit c =
        mod-eq_of_lt (omega (arith, last, room.addressed)) in
      let a₂ : (start + (k * unit c + c.request_queue_size)) % u64_mod
          ≡ start + (k * unit c + c.request_queue_size) =
        mod-eq_of_lt (omega (arith, last, room.addressed)) in
      let made =
        user_init_lem (blank k) (record { flags = flags; kind = qp_type; cnt = k; pid = pid })
          ipc.region (start + k * unit c) (start + (k * unit c + c.request_queue_size)) k room lt in
      rw
        (
          create_queue, get_qid, some_queue, small, cnt, at_start, at_next, o₁, o₂, a₁, a₂, made,
          run,
        )
        refl

  made_pair-Placed : (k : ℕ) (ipc : Ipc) → Placed c start k (made_pair k ipc)
  unfolding made_pair
  made_pair-Placed k ipc =
      let (sq_at, cq_at) =
        init_at (blank k) (record { flags = flags; kind = qp_type; cnt = k; pid = pid }) ipc.region
          0 (start + k * unit c) c.request_queue_size (start + (k * unit c + c.request_queue_size))
          c.request_map_size in
      record { sq_at = sq_at; cq_at = cq_at ∙ omega arith }

  create_step :
      (k : ℕ) (ipc : Ipc)
      → ((i j : ℕ) → i ≢ j → new_qp i ≢ new_qp j)
      → Room c start
      → k < c.num_queues
      → Made k ipc
      → (ipc' : Ipc) × (create_queue blank new_qp flags pid c k ipc ≡ done ipc') × Made (suc k) ipc'
  unfolding get_queue_pair get_queue_pair_by_qid
  create_step k ipc fresh room lt made =
      let (pool, run, there, here, kept) =
        register_pair-get ipc.pool (record { flags = flags; kind = qp_type; cnt = k; pid = pid })
          (new_qp k) made.numbers made.there made.as_many (omega (arith, lt, room.few)) in
      (
        _,
        create_run k ipc pool room lt made.start_at made.next_at run,
        record {
          numbers = made.numbers ++ new_qp k ∷ [];
          there = there;
          as_many = length-append made.numbers (new_qp k ∷ []) ∙ omega (arith, made.as_many);
          start_at = made.start_at;
          next_at = sym (suc-mul k (unit c));
          found = λ i lt'. elim (eq-cases i k) [
            | inl same ↦ rw same here
            | inr differ ↦
                kept qp_type flags i (new_qp i) (made.found i (omega (arith, lt', differ)))
          ];
          placed = λ i lt'.
              write_pair-Placed c start k i ipc.pairs new_qp (made_pair k ipc) fresh
                (made_pair-Placed k ipc) made.placed lt';
        },
      )

  create_rounds :
      (n k : ℕ) (ipc : Ipc)
      → ((i j : ℕ) → i ≢ j → new_qp i ≢ new_qp j)
      → Room c start
      → k + n ≡ c.num_queues
      → Made k ipc
      → (ipc' : Ipc) × (create_loop blank new_qp flags pid n k c ipc ≡ done ipc')
        × Made c.num_queues ipc'
  unfolding create_loop
  create_rounds zero k ipc fresh room total made =
      let all : k ≡ c.num_queues = omega (arith, total) in
      (ipc, refl, subst (λ j. Made j ipc) all made)
  create_rounds (suc n) k ipc fresh room total made =
      let (ipc₁, run, made₁) = create_step k ipc fresh room (omega (arith, total)) made in
      let (ipc₂, rest, made₂) =
        create_rounds n (suc k) ipc₁ fresh room (omega (arith, total)) made₁ in
      (ipc₂, rw (run, rest) refl, made₂)

configured-Room :
    (s : Settings) (c : MemoryConfig) (region : ℕ)
    → load_memory_config s ≡ done c
    → s.queues * pair_bytes s.depth < u32_mod
    → 0 < s.depth
    → c.num_queues ≤ 2 ^ 16
    → region + c.region_size < u64_mod
    → Room c (region + c.request_region_size)
configured-Room s c region e small deep few addressed =
    let (parts, least, queues) = load_memory_config-parts s c e small in
    let more : c.num_queues * unit c + c.num_queues * 80 ≡ c.queue_region_size =
      sym (mul-add c.num_queues (unit c) 80) ∙ queues in
    let word = region_size_lt s c e in
    record {
      entries = sizes_at_least s c e small deep;
      counted = omega (arith, more, parts, word);
      addressed = omega (arith, more, parts, addressed);
      few = few;
    }

-- Under an accepted configuration, whose queues are not of depth 0 and whose pairs are at most
-- 2^16 and together fit 32 bits, in a region that ends below 2^64 and has less than 2 GB for
-- requests, with the allocator as set up at the back of the region, where the pool has vectors
-- for the reserved flags and an empty one for the flags of the pairs, and the new objects are at
-- different addresses, CreateQueuesSHMEM creates its pairs; then every pair is found by its
-- number, its queue stands as many units of the size of a queue and its map behind the memory of
-- the requests as its number says, its map right behind its queue, and both end within the
-- region.
pub create_queues-found :
    (blank : ℕ → QueuePair) (new_qp : ℕ → ℕ) (flags pid reserved : ℕ) (s : Settings)
    (c : MemoryConfig) (ipc : Ipc) (others : List ℕ)
    → load_memory_config s ≡ done c
    → s.queues * pair_bytes s.depth < u32_mod
    → 0 < s.depth
    → c.num_queues ≤ 2 ^ 16
    → ipc.region + c.region_size < u64_mod
    → c.request_region_size < 2 ^ 31
    → ipc.qp_alloc ≡ queue_alloc c ipc.region
    → pairs_of ipc.pool qp_type reserved ≡ done others
    → pairs_of ipc.pool qp_type flags ≡ done []
    → ((i j : ℕ) → i ≢ j → new_qp i ≢ new_qp j)
    → (ipc' : Ipc) × (create_queues blank new_qp flags pid reserved c ipc ≡ done ipc')
      × ((i : ℕ)
          → i < c.num_queues
          → (get_queue_pair ipc'.pool qp_type flags i ≡ done (new_qp i))
            × Placed c (ipc.region + c.request_region_size) i (ipc'.pairs (new_qp i))
            × (c.request_region_size + i * unit c + unit c ≤ c.region_size))
unfolding create_queues reserve_queues queue_alloc SegmentAlloc.init region_add
create_queues-found blank new_qp flags pid reserved s c ipc others e small deep few addressed near
      al others_there none_there fresh =
    let start = ipc.region + c.request_region_size in
    let (parts, least, queues) = load_memory_config-parts s c e small in
    let room = configured-Room s c ipc.region e small deep few addressed in
    let back : region_add c.request_region_size ipc.region ≡ start = ground arith in
    let made : Made blank new_qp flags pid c start 0 ipc = record {
      numbers = [];
      there = none_there;
      as_many = refl;
      start_at = ap (λ a. a.region) al ∙ back;
      next_at = ap (λ a. a.offset) al ∙ sym (zero-mul (unit c));
      found = λ i lt. absurd (omega (arith, lt));
      placed = λ i lt. absurd (omega (arith, lt));
    } in
    let (ipc', run, all) =
      create_rounds blank new_qp flags pid c start c.num_queues 0 ipc fresh room (omega arith)
        made in
    (
      ipc',
      rw (create_queues, others_there) run,
      λ i lt.
          let within = before_last c start i room lt in
          (
            all.found i lt,
            all.placed i lt,
            omega (arith, within, parts, queues, mul-add c.num_queues (unit c) 80),
          ),
    )
