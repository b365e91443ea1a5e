-- ===== src/UnorderedMap/Lookup.antt =====
-- What was stored is found.
use native.Mathlib.Nat.{mod-add-mod, mod-lt}
use labstor.Base.{
  ℕ, zero, suc, ◌+◌, ◌-◌, ◌%◌, ◌<◌, ◌≡◌, refl, sym, ap, ap₂, ◌∙◌, ◌≢◌, inl, inr, true, some, List,
  arith, get_elem?, length-set, get_elem?-set_self, get_elem?-set_ne, mod-ne_of_near, done, ◌>>=◌,
}
use labstor.Bit2map.Entries.{entry, Becomes}
use labstor.UnorderedMap.{
  BucketType, UnorderedMap, iters, rounds, home, set_loop, insert, find_loop, find,
}
use labstor.UnorderedMap.Probe.{WellFormed, placed, set_pass, set_take, Misses, find_pass, find_hit}

-- A loop that goes on to the next place at each of `k` places is at the `k`-th one after them.
pub probe {ℓ} :
    {R : Type ℓ} (n : ℕ) (loop : ℕ → ℕ → R) (home k i rest all : ℕ)
    → all ≡ k + rest
    → ((j r : ℕ) → j < i + k → loop ((home + j) % n) (suc r) ≡ loop (((home + j) % n + 1) % n) r)
    → loop ((home + i) % n) all ≡ loop ((home + (i + k)) % n) rest
probe n loop home zero i rest all e passes = ap₂ (λ c r. loop (c % n) r) (omega arith) (omega arith)
probe n loop home (suc k) i rest zero e passes = absurd (omega arith)
probe n loop home (suc k) i rest (suc all) e passes =
    let next : ((home + i) % n + 1) % n ≡ (home + suc i) % n =
      mod-add-mod (home + i) n 1 ∙ ap (λ t. t % n) (omega arith) in
    passes i all (omega arith)
    ∙ ap (λ c. loop c all) next
    ∙ probe n loop home k (suc i) rest all (omega arith) (λ j r h. passes j r (omega (arith, h)))
    ∙ ap (λ c. loop (c % n) rest) (omega arith)

module _ {S T B : Type 0} (ops : BucketType S T B) where
  pub home_lem :
      (m : UnorderedMap B) (key : S)
      → WellFormed m
      → home ops m key ≡ done (ops.key_hash key % m.num_buckets)
  unfolding home
  home_lem m key w = ground (arith, w.some_bucket)

  -- from the key's hash on, past `k` places
  from_home :
      {R : Type 0} (m : UnorderedMap B) (loop : ℕ → ℕ → R) (h k rest all : ℕ)
      → all ≡ k + rest
      → ((j r : ℕ)
          → j < k
          → loop ((h + j) % m.num_buckets) (suc r)
            ≡ loop (((h + j) % m.num_buckets + 1) % m.num_buckets) r)
      → loop (h % m.num_buckets) all ≡ loop ((h + k) % m.num_buckets) rest
  from_home m loop h k rest all e passes =
      ap (λ c. loop (c % m.num_buckets) all) (omega arith)
      ∙ probe m.num_buckets loop h k 0 rest all e (λ j r lt. passes j r (omega (arith, lt)))
      ∙ ap (λ c. loop ((h + c) % m.num_buckets) rest) (omega arith)

  placed-WellFormed :
      (m : UnorderedMap B) (c : ℕ) (bucket : B) (bitmap : List ℕ)
      → WellFormed m
      → Becomes c 1 m.bitmap bitmap
      → WellFormed (placed m c bucket bitmap)
  placed-WellFormed m c bucket bitmap w becomes = record {
    some_bucket = w.some_bucket;
    words = becomes.words;
    entries = omega (arith, w.entries, becomes.same_length);
    places = omega (arith, w.places, length-set m.buckets c bucket);
  }

  placed-Misses :
      (m : UnorderedMap B) (key : S) (c d : ℕ) (bucket : B) (bitmap : List ℕ)
      → Becomes c 1 m.bitmap bitmap
      → c ≢ d
      → Misses ops m key d
      → Misses ops (placed m c bucket bitmap) key d
  placed-Misses m key c d bucket bitmap becomes ne (inl free) = inl (becomes.others d ne ∙ free)
  placed-Misses m key c d bucket bitmap becomes ne (inr (other, at, differs)) =
      inr (other, get_elem?-set_ne m.buckets c d bucket ne ∙ at, differs)

  insert_run :
      (m : UnorderedMap B) (bucket : B)
      → WellFormed m
      → insert ops m bucket
        ≡ set_loop ops m bucket
            (ops.key_hash (ops.get_key bucket) % m.num_buckets)
            (rounds (iters m))
  unfolding insert
  insert_run m bucket w =
      ap (λ call. call >>= λ b. set_loop ops m bucket b (rounds (iters m)))
        (home_lem m (ops.get_key bucket) w)

  find_run :
      (m : UnorderedMap B) (key : S)
      → WellFormed m
      → find ops m key ≡ find_loop ops m key (ops.key_hash key % m.num_buckets) (rounds (iters m))
  unfolding find
  find_run m key w =
      ap (λ call. call >>= λ b. find_loop ops m key b (rounds (iters m))) (home_lem m key w)

  different : (n h j k : ℕ) → j < k → k < n → (h + k) % n ≢ (h + j) % n
  different n h j k below lt e =
      mod-ne_of_near n (h + j) (h + k) (omega arith) (omega arith) (sym e)

  -- If the first free place from the hash of a key on is within the window, the places before it
  -- hold buckets of other keys, and the comparison of the key with itself is true, Set of a
  -- bucket is accepted, and the bucket stands at that place, whose entry is VALID and not
  -- BEING_SET; Find of the key gives the value of the bucket then, and the base and every other
  -- place are as they were.
  pub insert-find :
      (m : UnorderedMap B) (bucket : B) (k : ℕ)
      → WellFormed m
      → k < m.num_buckets
      → k < rounds (iters m)
      → let h = ops.key_hash (ops.get_key bucket) in
        let n = m.num_buckets in
        ((j : ℕ)
          → j < k
          → (entry m.bitmap ((h + j) % n) ≢ 0) × Misses ops m (ops.get_key bucket) ((h + j) % n))
        → entry m.bitmap ((h + k) % n) ≡ 0
        → ops.key_compare (ops.get_key bucket) (ops.get_key bucket) ≡ true
        → (m' : UnorderedMap B) × (insert ops m bucket ≡ done (true, m'))
          × WellFormed m'
          × (m'.base_region ≡ m.base_region)
          × (entry m'.bitmap ((h + k) % n) ≡ 1)
          × (get_elem? m'.buckets ((h + k) % n) ≡ some bucket)
          × (find ops m' (ops.get_key bucket) ≡ done (some (ops.get_value bucket)))
          × ((d : ℕ)
              → (h + k) % n ≢ d
              → (entry m'.bitmap d ≡ entry m.bitmap d)
                × (get_elem? m'.buckets d ≡ get_elem? m.buckets d))
  insert-find m bucket k w lt in_window before free same =
      let key = ops.get_key bucket in
      let h = ops.key_hash key in
      let n = m.num_buckets in
      let c = (h + k) % n in
      let c_in = mod-lt (h + k) w.some_bucket in
      let rest = rounds (iters m) - suc k in
      let all : rounds (iters m) ≡ k + suc rest = omega (arith, in_window) in
      let (bitmap, taken, becomes) = set_take ops m bucket c rest w c_in free in
      let m' = placed m c bucket bitmap in
      let w' = placed-WellFormed m c bucket bitmap w becomes in
      let stands : get_elem? m'.buckets c ≡ some bucket =
        get_elem?-set_self m.buckets c bucket (omega (arith, w.places, c_in)) in
      let apart = λ (j : ℕ) (below : j < k). different n h j k below lt in
      (
        m',
        insert_run m bucket w
            ∙ from_home m (set_loop ops m bucket) h k (suc rest) (rounds (iters m)) all
                (λ j r below.
                  set_pass ops m bucket ((h + j) % n) r w (mod-lt (h + j) w.some_bucket)
                    (before j below).0)
            ∙ taken,
        w',
        refl,
        becomes.self,
        stands,
        find_run m' key w'
            ∙ from_home m' (find_loop ops m' key) h k (suc rest) (rounds (iters m)) all
                (λ j r below.
                  find_pass ops m' key ((h + j) % n) r w' (mod-lt (h + j) w.some_bucket) (
                    placed-Misses m key c ((h + j) % n) bucket bitmap becomes (apart j below)
                      (before j below).1))
            ∙ find_hit ops m' key c rest bucket w' c_in becomes.self stands same,
        λ d ne. (becomes.others d ne, get_elem?-set_ne m.buckets c d bucket ne),
      )
