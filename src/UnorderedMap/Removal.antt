-- ===== src/UnorderedMap/Removal.antt =====
-- What `Remove` does, and where it fails.
use native.Mathlib.Nat.{mod-lt}
use mathlib.Core.Path.{subst}
use labstor.Base.{
  ℕ, zero, suc, ◌+◌, ◌-◌, ◌%◌, ◌<◌, ◌≡◌, refl, sym, ap, ap₂, ◌∙◌, ◌≢◌, inl, inr, true, false, none,
  some, List, arith, ◌==◌, ==→eq, eq→==, Bool-cases, get_elem?, u32, done,
}
use labstor.Bit2map.Entries.{entry, Becomes}
use labstor.UnorderedMap.{
  BucketType, UnorderedMap, iters, rounds, removed, blocked, passed, scan, remove_loop, remove,
}
use labstor.UnorderedMap.Probe.{WellFormed}
use labstor.UnorderedMap.Lookup.{home_lem}
use labstor.UnorderedMap.Scans.{scan_removes, scan_blocked, scan_all}

module _ {S T B : Type 0} (ops : BucketType S T B) where
  remove_run :
      (fuel : ℕ) (m : UnorderedMap B) (key : S)
      → WellFormed m
      → remove ops fuel m key ≡ remove_loop ops fuel m key (ops.key_hash key % m.num_buckets) 0
  unfolding remove
  remove_run fuel m key w = ground (arith, home_lem ops m key w)

  loop_passes :
      (fuel : ℕ) (m : UnorderedMap B) (key : S) (c c' num_failed : ℕ)
      → num_failed == iters m ≡ false
      → scan ops m key c (rounds (iters m)) ≡ done (passed m c')
      → remove_loop ops (suc fuel) m key c num_failed ≡ remove_loop ops fuel m key c' num_failed
  unfolding remove_loop
  loop_passes fuel m key c c' num_failed more run = ground (arith, more, run)

  loop_blocked :
      (fuel : ℕ) (m m' : UnorderedMap B) (key : S) (c c' num_failed : ℕ)
      → num_failed == iters m ≡ false
      → scan ops m key c (rounds (iters m)) ≡ done (blocked m' c')
      → remove_loop ops (suc fuel) m key c num_failed
        ≡ remove_loop ops fuel m' key c' (u32 (num_failed + 1))
  unfolding remove_loop
  loop_blocked fuel m m' key c c' num_failed more run = ground (arith, more, run)

  loop_removes :
      (fuel : ℕ) (m m' : UnorderedMap B) (key : S) (c num_failed : ℕ)
      → num_failed == iters m ≡ false
      → scan ops m key c (rounds (iters m)) ≡ done (removed m')
      → remove_loop ops (suc fuel) m key c num_failed ≡ some (done (true, m'))
  unfolding remove_loop
  loop_removes fuel m m' key c num_failed more run = ground (arith, more, run)

  loop_ends :
      (fuel : ℕ) (m : UnorderedMap B) (key : S) (c : ℕ)
      → remove_loop ops (suc fuel) m key c (iters m) ≡ some (done (false, m))
  unfolding remove_loop
  loop_ends fuel m key c = rw (eq→== (iters m) (iters m) refl)

  loop_spins :
      (fuel : ℕ) (m : UnorderedMap B) (key : S) (c num_failed : ℕ)
      → WellFormed m
      → c < m.num_buckets
      → num_failed == iters m ≡ false
      → ((d : ℕ) → d < m.num_buckets → entry m.bitmap d ≢ 1)
      → remove_loop ops fuel m key c num_failed ≡ none
  unfolding remove_loop
  loop_spins zero m key c num_failed w lt more none_valid = refl
  loop_spins (suc fuel) m key c num_failed w lt more none_valid =
      let (c', run, lt') = scan_all ops m key (rounds (iters m)) c w lt none_valid in
      loop_passes fuel m key c c' num_failed more run
      ∙ loop_spins fuel m key c' num_failed w lt' more none_valid

  -- In a table without a VALID entry that nobody holds, `Remove` never returns, however many
  -- rounds it takes.
  pub remove_spins :
      (fuel : ℕ) (m : UnorderedMap B) (key : S)
      → WellFormed m
      → iters m ≢ 0
      → ((d : ℕ) → d < m.num_buckets → entry m.bitmap d ≢ 1)
      → remove ops fuel m key ≡ none
  remove_spins fuel m key w some_round none_valid =
      remove_run fuel m key w
      ∙ loop_spins fuel m key (ops.key_hash key % m.num_buckets) 0 w
          (mod-lt (ops.key_hash key) w.some_bucket) (ground (arith, some_round)) none_valid

  -- A key that stands at its home is removed in the first round: the entry is free then, and the
  -- other entries and all buckets are as they were.
  pub remove_home :
      (fuel : ℕ) (m : UnorderedMap B) (key : S) (bucket : B)
      → WellFormed m
      → 0 < rounds (iters m)
      → let c = ops.key_hash key % m.num_buckets in
        entry m.bitmap c ≡ 1
        → get_elem? m.buckets c ≡ some bucket
        → ops.key_compare (ops.get_key bucket) key ≡ true
        → (m' : UnorderedMap B) × (remove ops (suc fuel) m key ≡ some (done (true, m')))
          × (entry m'.bitmap c ≡ 0)
          × ((d : ℕ) → c ≢ d → entry m'.bitmap d ≡ entry m.bitmap d)
          × (m'.buckets ≡ m.buckets)
  remove_home fuel m key bucket w some_round valid at same =
      let c = ops.key_hash key % m.num_buckets in
      let c_in = mod-lt (ops.key_hash key) w.some_bucket in
      let n = rounds (iters m) - 1 in
      let (bitmap, run, becomes) = scan_removes ops m key c n bucket w c_in valid at same in
      let more : 0 == iters m ≡ false = ground (arith, some_round) in
      let all : rounds (iters m) ≡ suc n = omega (arith, some_round) in
      (
        record m { bitmap = bitmap },
        remove_run (suc fuel) m key w
            ∙ loop_removes fuel m (record m { bitmap = bitmap }) key c 0 more
                (ap (scan ops m key c) all ∙ run),
        becomes.self,
        becomes.others,
        refl,
      )

  blocked-WellFormed :
      (m : UnorderedMap B) (c v : ℕ) (bitmap : List ℕ)
      → WellFormed m
      → Becomes c v m.bitmap bitmap
      → WellFormed (record m { bitmap = bitmap })
  blocked-WellFormed m c v bitmap w becomes = record {
    some_bucket = w.some_bucket;
    words = becomes.words;
    entries = omega (arith, w.entries, becomes.same_length);
    places = w.places;
  }

  unchanged :
      (m : UnorderedMap B) (c d : ℕ) (bitmap : List ℕ)
      → Becomes c 1 m.bitmap bitmap
      → entry m.bitmap c ≡ 1
      → entry bitmap d ≡ entry m.bitmap d
  unchanged m c d bitmap becomes valid = elim (Bool-cases (c == d)) [
    | inl same ↦
        subst (λ d. entry bitmap d ≡ entry m.bitmap d) (==→eq c d same) (becomes.self ∙ sym valid)
    | inr other ↦ becomes.others d (λ e. absurd (ground (arith, e, other)))
  ]

  loop_stuck :
      (r fuel all : ℕ) (m : UnorderedMap B) (key : S) (c num_failed : ℕ) (bucket : B)
      → all ≡ r + suc fuel
      → WellFormed m
      → 0 < rounds (iters m)
      → num_failed + r ≡ iters m
      → c < m.num_buckets
      → entry m.bitmap c ≡ 1
      → get_elem? m.buckets c ≡ some bucket
      → ops.key_compare (ops.get_key bucket) key ≡ false
      → (m' : UnorderedMap B) × (remove_loop ops all m key c num_failed ≡ some (done (false, m')))
        × ((d : ℕ) → entry m'.bitmap d ≡ entry m.bitmap d)
        × (m'.buckets ≡ m.buckets)
  loop_stuck zero fuel all m key c num_failed bucket e w some_round left lt valid at differs =
      let over : num_failed ≡ iters m = omega (arith, left) in
      let last : all ≡ suc fuel = omega (arith, e) in
      (
        m,
        ap₂ (λ f n. remove_loop ops f m key c n) last over ∙ loop_ends fuel m key c,
        λ d. refl,
        refl,
      )
  loop_stuck (suc r) fuel zero m key c num_failed bucket e w some_round left lt valid at differs =
      absurd (omega (arith, e))
  loop_stuck (suc r) fuel (suc all) m key c num_failed bucket e w some_round left lt valid at
        differs =
      let n = rounds (iters m) - 1 in
      let window : rounds (iters m) ≡ suc n = omega (arith, some_round) in
      let more : num_failed == iters m ≡ false = ground (arith, left) in
      let small : u32 (num_failed + 1) ≡ num_failed + 1 = omega (arith, left) in
      let (bitmap, run, becomes) = scan_blocked ops m key c n bucket w lt valid at differs in
      let m₁ : UnorderedMap B = record m { bitmap = bitmap } in
      let (m', rest, same, buckets) =
        loop_stuck r fuel all m₁ key c (num_failed + 1) bucket (omega (arith, e))
          (blocked-WellFormed m c 1 bitmap w becomes) some_round (omega (arith, left)) lt
          becomes.self at differs in
      (
        m',
        loop_blocked all m m₁ key c c num_failed more (ap (scan ops m key c) window ∙ run)
            ∙ ap (remove_loop ops all m₁ key c) small
            ∙ rest,
        λ d. same d ∙ unchanged m c d bitmap becomes valid,
        buckets,
      )

  -- When the VALID bucket of another key stands at the key's home, `Remove` tries that place over
  -- and over and returns false, even if the key stands behind it; every entry and all buckets are
  -- as they were.
  pub remove_blocked :
      (fuel : ℕ) (m : UnorderedMap B) (key : S) (bucket : B)
      → WellFormed m
      → 0 < rounds (iters m)
      → iters m < fuel
      → let c = ops.key_hash key % m.num_buckets in
        entry m.bitmap c ≡ 1
        → get_elem? m.buckets c ≡ some bucket
        → ops.key_compare (ops.get_key bucket) key ≡ false
        → (m' : UnorderedMap B) × (remove ops fuel m key ≡ some (done (false, m')))
          × ((d : ℕ) → entry m'.bitmap d ≡ entry m.bitmap d)
          × (m'.buckets ≡ m.buckets)
  remove_blocked fuel m key bucket w some_round enough valid at differs =
      let c = ops.key_hash key % m.num_buckets in
      let (m', run, same, buckets) =
        loop_stuck (iters m) (fuel - suc (iters m)) fuel m key c 0 bucket (omega (arith, enough)) w
          some_round (omega arith) (mod-lt (ops.key_hash key) w.some_bucket) valid at differs in
      (m', remove_run fuel m key w ∙ run, same, buckets)
