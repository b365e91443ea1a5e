-- ===== src/UnorderedMap/IntMap.antt =====
-- The map of integers of
-- include/labstor/types/data_structures/unordered_map/shmem_int_map.h.
use labstor.Base.{ℕ, Bool, ◌==◌, u32, Call}
use labstor.UnorderedMap.{BucketType, UnorderedMap, insert}

-- `int_map_bucket` of integers
pub record IntMapBucket : Type 0 where
  pub key : ℕ
  pub value : ℕ

unfoldable pub key_hash : ℕ → ℕ
key_hash key = u32 key

unfoldable pub key_compare : ℕ → ℕ → Bool
key_compare key1 key2 = key1 == key2

abbrev pub int_map_bucket : BucketType ℕ ℕ IntMapBucket
int_map_bucket = record {
  key_hash = key_hash;
  key_compare = key_compare;
  get_key = λ bucket. bucket.key;
  get_value = λ bucket. bucket.value;
}

-- `Set` of a key and a value
unfoldable pub insert_int :
    UnorderedMap IntMapBucket → ℕ → ℕ → Call (Bool × UnorderedMap IntMapBucket)
insert_int m key value = insert int_map_bucket m (record { key = key; value = value })
