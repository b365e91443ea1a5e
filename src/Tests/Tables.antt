-- ===== src/Tests/Tables.antt =====
-- The table of integers at concrete inputs.
use labstor.Base.{
  ℕ, zero, suc, ◌+◌, ◌%◌, ◌<◌, ◌≡◌, refl, ◌≢◌, inr, true, false, none, some, [], ◌∷◌, arith,
  get_elem?, u32_mod, done,
}
use labstor.Bit2map.Entries.{entry, Words}
use labstor.UnorderedMap.{UnorderedMap, insert, find, remove}
use labstor.UnorderedMap.IntMap.{IntMapBucket, int_map_bucket, key_hash, key_compare}
use labstor.UnorderedMap.Probe.{WellFormed, Misses}
use labstor.UnorderedMap.Lookup.{insert-find}
use labstor.UnorderedMap.Removal.{remove_home, remove_blocked, remove_spins}

abbrev four : IntMapBucket
four = record { key = 4; value = 40 }

abbrev eight : IntMapBucket
eight = record { key = 8; value = 80 }

-- four buckets, with the words `w`, and key 4 at its home, bucket 0
abbrev table : ℕ → UnorderedMap IntMapBucket
table w = record {
  base_region = 4096;
  region = 4096;
  num_buckets = 4;
  max_collisions = 1;
  bitmap = w ∷ [];
  buckets = four ∷ four ∷ four ∷ four ∷ [];
}

table-WellFormed : (w : ℕ) → w < u32_mod → WellFormed (table w)
table-WellFormed w small = record {
  some_bucket = omega arith;
  words = words;
  entries = omega arith;
  places = omega arith;
}
  where
    words : Words (w ∷ [])
    words zero = small
    words (suc b) = omega arith

-- key 8 comes behind key 4, to place 1
insert-find_example :
    (m' : UnorderedMap IntMapBucket) × (insert int_map_bucket (table 1) eight ≡ done (true, m'))
    × WellFormed m'
    × (m'.base_region ≡ 4096)
    × (entry m'.bitmap 1 ≡ 1)
    × (get_elem? m'.buckets 1 ≡ some eight)
    × (find int_map_bucket m' 8 ≡ done (some 80))
    × ((d : ℕ)
        → 1 ≢ d
        → (entry m'.bitmap d ≡ entry (1 ∷ []) d)
          × (get_elem? m'.buckets d ≡ get_elem? (table 1).buckets d))
unfolding key_hash key_compare
insert-find_example =
    insert-find int_map_bucket (table 1) eight 1 (table-WellFormed 1 (omega arith)) (omega arith)
      (omega arith) taken refl refl
  where
    taken :
        (j : ℕ)
        → j < 1
        → (entry (1 ∷ []) ((8 + j) % 4) ≢ 0) × Misses int_map_bucket (table 1) 8 ((8 + j) % 4)
    taken zero h = (λ e. absurd (omega (arith, e)), inr (four, refl, refl))
    taken (suc j) h = absurd (omega arith)

remove_home_example :
    (m' : UnorderedMap IntMapBucket) × (remove int_map_bucket 1 (table 1) 4
      ≡ some (done (true, m')))
    × (entry m'.bitmap 0 ≡ 0)
    × ((d : ℕ) → 0 ≢ d → entry m'.bitmap d ≡ entry (1 ∷ []) d)
    × (m'.buckets ≡ (table 1).buckets)
unfolding key_hash key_compare
remove_home_example =
    remove_home int_map_bucket 0 (table 1) 4 four (table-WellFormed 1 (omega arith)) (omega arith)
      refl refl refl

-- key 8 may stand at place 1
remove_blocked_example :
    (m' : UnorderedMap IntMapBucket) × (remove int_map_bucket 3 (table 5) 8
      ≡ some (done (false, m')))
    × ((d : ℕ) → entry m'.bitmap d ≡ entry (5 ∷ []) d)
    × (m'.buckets ≡ (table 5).buckets)
unfolding key_hash key_compare
remove_blocked_example =
    remove_blocked int_map_bucket 3 (table 5) 8 four (table-WellFormed 5 (omega arith))
      (omega arith) (omega arith) refl refl refl

remove_spins_example : remove int_map_bucket 1000 (table 0) 8 ≡ none
remove_spins_example =
    remove_spins int_map_bucket 1000 (table 0) 8 (table-WellFormed 0 (omega arith)) (omega arith)
      none_valid
  where
    none_valid : (d : ℕ) → d < 4 → entry (0 ∷ []) d ≢ 1
    none_valid zero h e = absurd (omega (arith, e))
    none_valid (suc zero) h e = absurd (omega (arith, e))
    none_valid (suc (suc zero)) h e = absurd (omega (arith, e))
    none_valid (suc (suc (suc zero))) h e = absurd (omega (arith, e))
    none_valid (suc (suc (suc (suc d)))) h e = absurd (omega arith)
