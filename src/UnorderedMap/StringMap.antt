-- ===== src/UnorderedMap/StringMap.antt =====
-- The map from strings of
-- include/labstor/types/data_structures/unordered_map/shmem_string_map.h. The strings stand in the
-- region: `texts` is the text behind each address, as the strings' headers give it.
use labstor.Base.{ℕ, Bool, Option, List, [], ◌==◌, if◌then◌else◌, Call}
use labstor.Region.{region_add, region_sub}
use labstor.Text.{hash, text_eq}
use labstor.UnorderedMap.{BucketType, UnorderedMap, insert, find}

pub record StringMapBucket : Type 0 where
  pub off : ℕ
  pub value : ℕ

-- `Init` of a bucket, with the address of the key's header
unfoldable pub bucket_init : ℕ → ℕ → ℕ → StringMapBucket
bucket_init key value region = record { off = region_sub key region; value = value }

-- `null0_null`
abbrev pub null : ℕ
null = 0

unfoldable pub get_key : (ℕ → List ℕ) → ℕ → StringMapBucket → List ℕ
get_key texts region bucket =
    if bucket.off == null then [] else texts (region_add bucket.off region)

abbrev pub string_map_bucket : (ℕ → List ℕ) → ℕ → BucketType (List ℕ) ℕ StringMapBucket
string_map_bucket texts region = record {
  key_hash = hash;
  key_compare = text_eq;
  get_key = get_key texts region;
  get_value = λ bucket. bucket.value;
}

-- `Set` of a key, by the address of its header, and a value
unfoldable pub insert_string :
    (ℕ → List ℕ) → UnorderedMap StringMapBucket → ℕ → ℕ → Call (Bool × UnorderedMap StringMapBucket)
unfolding bucket_init
insert_string texts m key value =
    insert (string_map_bucket texts m.base_region) m (bucket_init key value m.base_region)

-- `Find` of a text
unfoldable pub find_string : (ℕ → List ℕ) → UnorderedMap StringMapBucket → List ℕ → Call (Option ℕ)
find_string texts m key = find (string_map_bucket texts m.base_region) m key
