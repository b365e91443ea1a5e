-- ===== src/RequestMap.antt =====
-- The completion map of include/labstor/types/data_structures/c/shmem_request_map.h.
pub mod View
pub mod Init
pub mod Keys
use labstor.Base.{
  ℕ, zero, suc, ◌+◌, ◌-◌, ◌*◌, ◌/◌, ◌%◌, ◌^◌, ◌==◌, ltb, if◌then◌else◌, u32, sub32, Bool, true,
  false, List, [], ◌∷◌, length, get_or, set, Call, done, refused, fault, ◌>>=◌,
}
use labstor.Region.{region_add, region_sub}
use labstor.Request.{Store}

-- `labstor_request_map_header`, the words behind it, the process's base of offsets, and the
-- address of the header
pub record RequestMap : Type 0 where
  pub num_buckets : ℕ
  pub buckets : List ℕ
  pub base_region : ℕ
  pub header : ℕ

abbrev pub map_header_size : ℕ
map_header_size = 4

abbrev pub bucket_size : ℕ
bucket_size = 4

-- the pattern of -1
abbrev pub vacant : ℕ
vacant = 2 ^ 32 - 1

abbrev pub invalid_request_id : ℕ
invalid_request_id = 0xFFFF_FFFF

unfoldable pub get_size_global : ℕ → ℕ
get_size_global num_buckets = u32 (map_header_size + bucket_size * num_buckets)

-- `memset` writes its argument's low byte to each of the four bytes of a word.
abbrev memset_word : ℕ → ℕ
memset_word c = c % 256 * 0x0101_0101

unfoldable pub memset : List ℕ → ℕ → ℕ → List ℕ
memset [] c n = []
memset (w ∷ ws) c zero = w ∷ ws
memset (w ∷ ws) c (suc n) = memset_word c ∷ memset ws c n

unfoldable pub default_buckets : ℕ → ℕ → ℕ
default_buckets region_size num_buckets =
    if num_buckets == 0 then sub32 region_size map_header_size / bucket_size else num_buckets

-- `m` is what the region and `*map` held before; the two addresses are set
-- before the tests.
unfoldable pub init : RequestMap → ℕ → ℕ → ℕ → ℕ → Bool × RequestMap
unfolding get_size_global default_buckets
init m base_region region region_size num_buckets =
    let based : RequestMap = record m { base_region = base_region; header = region } in
    let n = default_buckets region_size num_buckets in
    if ltb region_size (get_size_global num_buckets)
    then (false, based)
    else if n == 0
    then (false, based)
    else (true, record based { num_buckets = n; buckets = memset m.buckets invalid_request_id n })

-- `Attach` and `RemoteAttach`: the view of a region that is initialised already.
unfoldable pub attach : RequestMap → ℕ → ℕ → RequestMap
attach m base_region region = record m { base_region = base_region; header = region }

unfoldable pub get_size : RequestMap → ℕ
unfolding get_size_global
get_size m = get_size_global m.num_buckets

-- `key % num_buckets_`, as an index that the code reads or writes
unfoldable pub bucket_of : RequestMap → ℕ → Call ℕ
bucket_of m key =
    if m.num_buckets == 0
    then fault
    else if ltb (key % m.num_buckets) (length m.buckets)
    then done (key % m.num_buckets)
    else fault

-- `labstor_request_map_Set`
unfoldable pub insert : Store → RequestMap → ℕ → Call RequestMap
unfolding bucket_of
insert st m rq = bucket_of m (st rq).req_id >>= λ b.
    if get_or m.buckets b vacant == vacant
    then done (record m { buckets = set m.buckets b (region_sub rq m.base_region) })
    else refused

unfoldable pub find_and_remove : RequestMap → ℕ → Call (ℕ × RequestMap)
unfolding bucket_of
find_and_remove m key = bucket_of m key >>= λ b.
    if get_or m.buckets b vacant == vacant
    then refused
    else done (
      region_add (get_or m.buckets b vacant) m.base_region,
      record m { buckets = set m.buckets b vacant },
    )
