-- ===== src/Server/IpcManager/Config.antt =====
-- The parts of a region.
use native.Mathlib.Nat.{mod-eq_of_lt, suc-mul, zero-mul}
use labstor.Base.{
  ℕ, zero, suc, ◌+◌, ◌*◌, ◌≤◌, ◌<◌, ◌≡◌, sym, ap, ◌∙◌, arith, u32_mod, u32, sub32, done,
}
use labstor.RequestMap
use labstor.RequestQueue
use labstor.Ring
use labstor.Server.IpcManager.{Settings, MemoryConfig, user_get_size, load_memory_config}

-- the bytes of a pair, its queue and its map
abbrev pub pair_bytes : ℕ → ℕ
pair_bytes depth = 108 + 8 * depth

sizes_fit :
    (depth : ℕ)
    → pair_bytes depth < u32_mod
    → (user_get_size depth ≡ pair_bytes depth)
      × (RequestQueue.get_size_global depth + RequestMap.get_size_global depth + 80
          ≡ pair_bytes depth)
unfolding user_get_size RequestQueue.get_size_global RequestMap.get_size_global Ring.get_size_global
sizes_fit depth small = (omega arith, omega arith)

factor_lt : (n size bound : ℕ) → suc n * size < bound → size < bound
factor_lt n size bound h = ground (arith, suc-mul n size)

-- the queues fill their memory
queues_fit :
    (n depth : ℕ)
    → n * pair_bytes depth < u32_mod
    → n * (RequestQueue.get_size_global depth + RequestMap.get_size_global depth + 80)
      ≡ u32 (n * user_get_size depth)
queues_fit zero depth small =
    zero-mul (RequestQueue.get_size_global depth + RequestMap.get_size_global depth + 80)
    ∙ sym (ap u32 (zero-mul (user_get_size depth)))
queues_fit (suc n) depth small =
    let (pair, parts) = sizes_fit depth (factor_lt n (pair_bytes depth) u32_mod small) in
    ap (λ b. suc n * b) parts ∙ sym (ap (λ b. u32 (suc n * b)) pair ∙ mod-eq_of_lt small)

-- what the tests let through
accepted :
    (s : Settings) (c : MemoryConfig)
    → load_memory_config s ≡ done c
    → (c.queue_region_size ≡ u32 (s.queues * user_get_size s.depth))
      × (c.request_region_size ≡ sub32 c.region_size c.queue_region_size)
      × (c.queue_region_size < c.region_size)
      × (c.region_size < u32_mod)
      × (c.min_request_region ≤ c.request_region_size)
      × (c.num_queues ≡ s.queues)
      × (c.request_queue_size ≡ RequestQueue.get_size_global s.depth)
      × (c.request_map_size ≡ RequestMap.get_size_global s.depth)
unfolding load_memory_config
accepted s c e = ground arith

pub region_size_lt :
    (s : Settings) (c : MemoryConfig) → load_memory_config s ≡ done c → c.region_size < u32_mod
region_size_lt s c e =
    let (queues, requests, less, word, least, num, queue, map) = accepted s c e in word

one_pair_lt : (n depth : ℕ) → 0 < n → n * pair_bytes depth < u32_mod → pair_bytes depth < u32_mod
one_pair_lt zero depth some_pair small = absurd (omega (arith, some_pair))
one_pair_lt (suc n) depth some_pair small = factor_lt n (pair_bytes depth) u32_mod small

-- One entry fits a queue and a map.
pub sizes_at_least :
    (s : Settings) (c : MemoryConfig)
    → load_memory_config s ≡ done c
    → s.queues * pair_bytes s.depth < u32_mod
    → 0 < s.depth
    → 0 < c.num_queues
    → (28 ≤ c.request_queue_size) × (8 ≤ c.request_map_size)
unfolding RequestQueue.get_size_global RequestMap.get_size_global Ring.get_size_global
sizes_at_least s c e small deep some_pair =
    let (queues, requests, less, word, least, num, queue, map) = accepted s c e in
    let one = one_pair_lt s.queues s.depth (omega (arith, num, some_pair)) small in
    (omega (arith, queue, one, deep), omega (arith, map, one, deep))

-- A configuration that is accepted divides the region: the memory of the requests and that of the
-- queues are all of it, and the requests have the least that they need; and if the sizes of the
-- pairs fit 32 bits together, the queues and maps of all pairs, with 80 bytes more for each pair,
-- are exactly the memory of the queues.
pub load_memory_config-parts :
    (s : Settings) (c : MemoryConfig)
    → load_memory_config s ≡ done c
    → s.queues * pair_bytes s.depth < u32_mod
    → (c.request_region_size + c.queue_region_size ≡ c.region_size)
      × (c.min_request_region ≤ c.request_region_size)
      × (c.num_queues * (c.request_queue_size + c.request_map_size + 80) ≡ c.queue_region_size)
load_memory_config-parts s c e small =
    let (queues, requests, less, word, least, num, queue, map) = accepted s c e in
    (
      omega (arith, requests, less, word),
      least,
      rw (num, queue, map, queues) (queues_fit s.queues s.depth small),
    )
