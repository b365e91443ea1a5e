-- ===== src/UnorderedMap.antt =====
-- The hash table with a bounded probe of
-- include/labstor/types/data_structures/unordered_map/shmem_unordered_map.h, over the map of
-- two-bit entries, as a thread runs it while no other thread changes the table.
pub mod Probe
pub mod Lookup
pub mod Scans
pub mod Removal
pub mod IntMap
pub mod StringMap
use labstor.Base.{
  ℕ, zero, suc, ◌+◌, ◌-◌, ◌*◌, ◌/◌, ◌%◌, ◌^◌, ◌≤◌, ◌<◌, ◌≡◌, refl, sym, ap, ap₂, ◌∙◌, ◌≢◌, ◌↔◌, ◌⊎◌,
  inl, inr, Bool, true, false, ◌&&◌, ◌||◌, not, Option, none, some, List, [], ◌∷◌, ◌++◌, arith, ltb,
  leb, ◌==◌, if◌then◌else◌, ==→eq, eq→==, Bool-cases, Option-cases, List-cases, length, get_elem?,
  get_or, set, replicate, length-append, length-set, length-replicate, get_elem?-eq-get_or,
  get_or-set_self, get_or-set_ne, get_or-replicate, get_elem?_of_lt, get_elem?-set_self,
  get_elem?-set_ne, get_elem?-set_cases, get_elem?-append_left, get_elem?-append_last, u32_mod,
  u64_mod, u32, sub32, sub64, mod-ne_of_near, Call, done, refused, fault, ◌>>=◌, map_call,
  in_bounds, along_some, bind-done, eq-cases, lt_of_get_elem?, get_or_of_get_elem?,
  get_elem?-append_ne,
}
use labstor.Spin.{Spun, returned, spinning, crashed}
use labstor.Bit2map

-- What the template asks of `BUCKET_T`, at one base region: `KeyHash`, `KeyCompare`, `GetKey` and
-- `GetValue`.
pub record BucketType (S T B : Type 0) : Type 0 where
  pub key_hash : S → ℕ
  pub key_compare : S → S → Bool
  pub get_key : B → S
  pub get_value : B → T

-- `num_buckets` stands for the header's and the object's; the memory of the buckets holds anything
-- at first.
pub record UnorderedMap (B : Type 0) : Type 0 where
  pub base_region : ℕ
  pub region : ℕ
  pub num_buckets : ℕ
  pub max_collisions : ℕ
  pub bitmap : List ℕ
  pub buckets : List B

-- `sizeof` of the header
abbrev pub header_size : ℕ
header_size = 8

unfoldable pub get_header_size : ℕ → ℕ
get_header_size num_buckets = u32 (header_size + Bit2map.get_size num_buckets)

-- `bucket_size` is `sizeof(BUCKET_T)`.
unfoldable pub get_size : ℕ → ℕ → ℕ
get_size bucket_size num_buckets = u32 (get_header_size num_buckets + bucket_size * num_buckets)

unfoldable pub default_buckets : ℕ → ℕ → ℕ → ℕ
default_buckets bucket_size region_size num_buckets =
    if num_buckets == 0
    then u32 (sub32 region_size header_size * Bit2map.entries_per_block)
      / (bucket_size * Bit2map.entries_per_block + 4)
    else num_buckets

-- `refused` is the exception; `m` is what the region and the object held before.
unfoldable pub init : {B : Type 0} → UnorderedMap B → ℕ → ℕ → ℕ → ℕ → ℕ → ℕ → Call (UnorderedMap B)
init m bucket_size base_region region region_size num_buckets max_collisions =
    let n = default_buckets bucket_size region_size num_buckets in
    if ltb region_size (get_size bucket_size num_buckets)
    then refused
    else if n == 0
    then refused
    else Bit2map.init m.bitmap n >>= λ bitmap. done (record m {
      base_region = base_region;
      region = region;
      num_buckets = n;
      max_collisions = max_collisions;
      bitmap = bitmap;
    })

-- the view of a region that is initialised already
unfoldable pub attach : {B : Type 0} → UnorderedMap B → ℕ → ℕ → UnorderedMap B
attach m base_region region = record m { base_region = base_region; region = region }

-- `int iters = max_collisions_ + 1`, by its 32-bit pattern, and the rounds of a loop up to it
abbrev pub iters : {B : Type 0} → UnorderedMap B → ℕ
iters m = u32 (m.max_collisions + 1)

abbrev pub rounds : ℕ → ℕ
rounds iters = if ltb iters (2 ^ 31) then iters else 0

-- what a call on the bitmap returns when no other thread interferes
abbrev pub alone : {A : Type 0} → Spun A → Call A
alone (returned a) = done a
alone spinning = refused
alone crashed = fault

-- How the loop of `Remove` over the window ends: with the key's bucket removed, by the `break` at
-- the bucket of another key, or after its last round; with the state and the bucket it is at.
pub data Scan (B : Type 0) : Type 0 where
  removed : UnorderedMap B → Scan B
  blocked : UnorderedMap B → ℕ → Scan B
  passed : UnorderedMap B → ℕ → Scan B

module _ {S T B : Type 0} (ops : BucketType S T B) where
  -- the bucket where a probe begins
  unfoldable pub home : UnorderedMap B → S → Call ℕ
  home m key = if m.num_buckets == 0 then fault else done (ops.key_hash key % m.num_buckets)

  -- `buckets_[b] = bucket`
  unfoldable pub put : UnorderedMap B → ℕ → B → Call (UnorderedMap B)
  put m b bucket =
      if ltb b (length m.buckets)
      then done (record m { buckets = set m.buckets b bucket })
      else fault

  -- the body of the loop of `Set` after `BeginModify` has returned true
  unfoldable pub fill : UnorderedMap B → ℕ → B → Call (UnorderedMap B)
  fill m b bucket = put m b bucket >>= λ m'.
      alone (Bit2map.commit_modify m'.bitmap b Bit2map.undisturbed) >>= λ p.
      done (record m' { bitmap = p.1 })

  unfoldable pub set_loop : UnorderedMap B → B → ℕ → ℕ → Call (Bool × UnorderedMap B)
  set_loop m bucket b zero = done (false, m)
  set_loop m bucket b (suc n) =
      let next = set_loop m bucket ((b + 1) % m.num_buckets) n in
      alone (Bit2map.begin_modify m.bitmap b Bit2map.undisturbed) >>= λ p.
      if p.0 then (fill (record m { bitmap = p.1 }) b bucket >>= λ m'. done (true, m')) else next

  -- `Set`
  unfoldable pub insert : UnorderedMap B → B → Call (Bool × UnorderedMap B)
  insert m bucket = home m (ops.get_key bucket) >>= λ b. set_loop m bucket b (rounds (iters m))

  -- `buckets_[b]`
  unfoldable pub bucket_at : UnorderedMap B → ℕ → Call B
  bucket_at m b = in_bounds (get_elem? m.buckets b)

  -- `none` is the return of false
  unfoldable pub find_loop : UnorderedMap B → S → ℕ → ℕ → Call (Option T)
  find_loop m key b zero = done none
  find_loop m key b (suc n) =
      let next = find_loop m key ((b + 1) % m.num_buckets) n in
      Bit2map.is_set m.bitmap b Bit2map.valid_bit >>= λ valid.
      if valid
      then (bucket_at m b >>= λ bucket.
          if ops.key_compare (ops.get_key bucket) key
          then done (some (ops.get_value bucket))
          else next)
      else next

  unfoldable pub find : UnorderedMap B → S → Call (Option T)
  find m key = home m key >>= λ b. find_loop m key b (rounds (iters m))

  -- `operator []`; `refused` is the exception.
  unfoldable pub index : UnorderedMap B → S → Call T
  index m key = find m key >>= λ value. elim value [ none ↦ refused | some v ↦ done v ]

  unfoldable pub scan : UnorderedMap B → S → ℕ → ℕ → Call (Scan B)
  scan m key b zero = done (passed m b)
  scan m key b (suc n) =
      let next = scan m key ((b + 1) % m.num_buckets) n in
      alone (Bit2map.begin_remove m.bitmap b Bit2map.undisturbed) >>= λ p.
      if p.0
      then (bucket_at m b >>= λ bucket.
          if ops.key_compare (ops.get_key bucket) key
          then (Bit2map.commit_remove p.1 b >>= λ bitmap.
              done (removed (record m { bitmap = bitmap })))
          else (alone (Bit2map.commit_modify p.1 b Bit2map.undisturbed) >>= λ q.
              done (blocked (record m { bitmap = q.1 }) b)))
      else next

  -- The outer loop of `Remove`, of at most `fuel` rounds; `none` is a loop that has not ended.
  unfoldable pub remove_loop :
      ℕ → UnorderedMap B → S → ℕ → ℕ → Option (Call (Bool × UnorderedMap B))
  remove_loop zero m key b num_failed = none
  remove_loop (suc fuel) m key b num_failed =
      if num_failed == iters m
      then some (done (false, m))
      else elim (scan m key b (rounds (iters m))) [
        | done (removed m') ↦ some (done (true, m'))
        | done (blocked m' b') ↦ remove_loop fuel m' key b' (u32 (num_failed + 1))
        | done (passed m' b') ↦ remove_loop fuel m' key b' num_failed
        | refused ↦ some refused
        | fault ↦ some fault
      ]

  unfoldable pub remove : ℕ → UnorderedMap B → S → Option (Call (Bool × UnorderedMap B))
  remove fuel m key = elim (home m key) [
    | done b ↦ remove_loop fuel m key b 0
    | refused ↦ some refused
    | fault ↦ some fault
  ]
