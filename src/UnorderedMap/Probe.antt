-- ===== src/UnorderedMap/Probe.antt =====
-- One bucket of a probe.
use Prim.Native.Nat.{bit_and}
use labstor.Base.{
  ℕ, zero, suc, ◌+◌, ◌-◌, ◌*◌, ◌/◌, ◌%◌, ◌^◌, ◌≤◌, ◌<◌, ◌≡◌, refl, sym, ap, ap₂, ◌∙◌, ◌≢◌, ◌↔◌, ◌⊎◌,
  inl, inr, Bool, true, false, ◌&&◌, ◌||◌, not, Option, none, some, List, [], ◌∷◌, ◌++◌, arith, ltb,
  leb, ◌==◌, if◌then◌else◌, ==→eq, eq→==, Bool-cases, Option-cases, List-cases, length, get_elem?,
  get_or, set, replicate, length-append, length-set, length-replicate, get_elem?-eq-get_or,
  get_or-set_self, get_or-set_ne, get_or-replicate, get_elem?_of_lt, get_elem?-set_self,
  get_elem?-set_ne, get_elem?-set_cases, get_elem?-append_left, get_elem?-append_last, u32_mod,
  u64_mod, u32, sub32, sub64, mod-ne_of_near, Call, done, refused, fault, ◌>>=◌, map_call,
  in_bounds, along_some, bind-done, eq-cases, lt_of_get_elem?, get_or_of_get_elem?,
  get_elem?-append_ne,
}
use labstor.Base
use labstor.Spin.{returned}
use labstor.Bit2map
use labstor.Bit2map.Entries.{entry, Words, Becomes}
use labstor.Bit2map.Quiet.{begin_modify_free, begin_modify_busy, commit_modify_alone, is_set_alone}
use labstor.UnorderedMap.{
  BucketType, UnorderedMap, alone, put, fill, set_loop, bucket_at, find_loop,
}

-- The words and the buckets are there for every index below `num_buckets`.
pub record WellFormed {B : Type 0} (m : UnorderedMap B) : Type 0 where
  pub some_bucket : 0 < m.num_buckets
  pub words : Words m.bitmap
  pub entries : m.num_buckets ≤ length m.bitmap * 16
  pub places : m.num_buckets ≤ length m.buckets

-- the table after `bucket` has come to place `c`
abbrev pub placed : {B : Type 0} → UnorderedMap B → ℕ → B → List ℕ → UnorderedMap B
placed m c bucket bitmap = record m { bitmap = bitmap; buckets = Base.set m.buckets c bucket }

module _ {S T B : Type 0} (ops : BucketType S T B) where
  pub inside_lem :
      (m : UnorderedMap B) (c : ℕ)
      → WellFormed m
      → c < m.num_buckets
      → Bit2map.entry_block c < length m.bitmap
  inside_lem m c w lt = omega (arith, w.entries, lt)

  pub set_pass :
      (m : UnorderedMap B) (bucket : B) (c n : ℕ)
      → WellFormed m
      → c < m.num_buckets
      → entry m.bitmap c ≢ 0
      → set_loop ops m bucket c (suc n) ≡ set_loop ops m bucket ((c + 1) % m.num_buckets) n
  unfolding set_loop
  set_pass m bucket c n w lt busy =
      ap
        (λ run. alone run >>= λ p.
          if p.0
          then (fill ops (record m { bitmap = p.1 }) c bucket >>= λ m'. done (true, m'))
          else set_loop ops m bucket ((c + 1) % m.num_buckets) n)
        (begin_modify_busy m.bitmap c w.words (inside_lem m c w lt) busy)

  fill_lem :
      (m : UnorderedMap B) (bucket : B) (c : ℕ) (bitmap : List ℕ)
      → c < length m.buckets
      → Bit2map.commit_modify m.bitmap c Bit2map.undisturbed ≡ returned (true, bitmap)
      → fill ops m c bucket ≡ done (placed m c bucket bitmap)
  unfolding fill put
  fill_lem m bucket c bitmap lt run = ground (arith, lt, run)

  set_fills :
      (m : UnorderedMap B) (bucket : B) (c n : ℕ) (bitmap : List ℕ) {m' : UnorderedMap B}
      → Bit2map.begin_modify m.bitmap c Bit2map.undisturbed ≡ returned (true, bitmap)
      → fill ops (record m { bitmap = bitmap }) c bucket ≡ done m'
      → set_loop ops m bucket c (suc n) ≡ done (true, m')
  unfolding set_loop
  set_fills m bucket c n bitmap begun filled =
      ap
        (λ run. alone run >>= λ p.
          if p.0
          then (fill ops (record m { bitmap = p.1 }) c bucket >>= λ m'. done (true, m'))
          else set_loop ops m bucket ((c + 1) % m.num_buckets) n)
        begun
      ∙ ap (λ call. call >>= λ m'. done (true, m')) filled

  -- A free place takes the bucket, and its entry is VALID then.
  pub set_take :
      (m : UnorderedMap B) (bucket : B) (c n : ℕ)
      → WellFormed m
      → c < m.num_buckets
      → entry m.bitmap c ≡ 0
      → (bitmap : List ℕ) × (set_loop ops m bucket c (suc n)
          ≡ done (true, placed m c bucket bitmap))
        × Becomes c 1 m.bitmap bitmap
  set_take m bucket c n w lt free =
      let inside = inside_lem m c w lt in
      let (bitmap₁, begun, first) = begin_modify_free m.bitmap c w.words inside free in
      let (bitmap₂, ended, second) =
        commit_modify_alone bitmap₁ c first.words (omega (arith, first.same_length, inside)) in
      let filled =
        fill_lem (record m { bitmap = bitmap₁ }) bucket c bitmap₂ (omega (arith, w.places, lt))
          ended in
      (
        bitmap₂,
        set_fills m bucket c n bitmap₁ begun filled,
        record {
          words = second.words;
          same_length = second.same_length ∙ first.same_length;
          self = second.self;
          others = λ d ne. second.others d ne ∙ first.others d ne;
        },
      )

  pub bucket_at_lem :
      (m : UnorderedMap B) (c : ℕ) {bucket : B}
      → get_elem? m.buckets c ≡ some bucket
      → bucket_at ops m c ≡ done bucket
  unfolding bucket_at
  bucket_at_lem m c at = ap in_bounds at

  -- not the key's: not VALID, or the bucket of another key
  abbrev pub Misses : UnorderedMap B → S → ℕ → Type 0
  Misses m key c =
      (entry m.bitmap c ≡ 0)
      ⊎ ((bucket : B) × (get_elem? m.buckets c ≡ some bucket)
          × (ops.key_compare (ops.get_key bucket) key ≡ false))

  find_at :
      (m : UnorderedMap B) (key : S) (c n : ℕ) (valid : Bool)
      → WellFormed m
      → c < m.num_buckets
      → not (bit_and (entry m.bitmap c) 1 == 0) ≡ valid
      → find_loop ops m key c (suc n) ≡ (
          if valid
          then (bucket_at ops m c >>= λ bucket.
              if ops.key_compare (ops.get_key bucket) key
              then done (some (ops.get_value bucket))
              else find_loop ops m key ((c + 1) % m.num_buckets) n)
          else find_loop ops m key ((c + 1) % m.num_buckets) n)
  unfolding find_loop
  find_at m key c n valid w lt test =
      ap
        (λ call. call >>= λ v.
          if v
          then (bucket_at ops m c >>= λ bucket.
              if ops.key_compare (ops.get_key bucket) key
              then done (some (ops.get_value bucket))
              else find_loop ops m key ((c + 1) % m.num_buckets) n)
          else find_loop ops m key ((c + 1) % m.num_buckets) n)
        (is_set_alone m.bitmap c w.words (inside_lem m c w lt) ∙ ap done test)

  pub find_pass :
      (m : UnorderedMap B) (key : S) (c n : ℕ)
      → WellFormed m
      → c < m.num_buckets
      → Misses m key c
      → find_loop ops m key c (suc n) ≡ find_loop ops m key ((c + 1) % m.num_buckets) n
  find_pass m key c n w lt (inl free) =
      find_at m key c n false w lt (ap (λ v. not (bit_and v 1 == 0)) free)
  find_pass m key c n w lt (inr (bucket, at, differs)) =
      elim (Bool-cases (not (bit_and (entry m.bitmap c) 1 == 0))) [
        | inl valid ↦ find_at m key c n true w lt valid ∙ rw (bucket_at_lem m c at, differs)
        | inr free ↦ find_at m key c n false w lt free
      ]

  pub find_hit :
      (m : UnorderedMap B) (key : S) (c n : ℕ) (bucket : B)
      → WellFormed m
      → c < m.num_buckets
      → entry m.bitmap c ≡ 1
      → get_elem? m.buckets c ≡ some bucket
      → ops.key_compare (ops.get_key bucket) key ≡ true
      → find_loop ops m key c (suc n) ≡ done (some (ops.get_value bucket))
  find_hit m key c n bucket w lt valid at same =
      find_at m key c n true w lt (ap (λ v. not (bit_and v 1 == 0)) valid)
      ∙ rw (bucket_at_lem m c at, same)
